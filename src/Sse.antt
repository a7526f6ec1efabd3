-- ===== src/Sse.antt =====
-- The server-sent event hub of skills/agentdesk/scripts/dockyard_sse.py: a numbered stream of
-- events for each project, of which the newest are kept, and the count of open streams.
pub mod Hub
pub mod Log
pub mod Published
pub mod History
pub mod Resume
pub mod Frame
mod Examples
use Prim.Native.Char.{code}
use Prim.Native.String
use dockyard.Base.Text.{codes, is_blank, is_wrapped, decimal, ◌<>◌}
use dockyard.Base.{
  ℕ, suc, ◌+◌, ◌-◌, leb, ltb, ◌==◌, comparable_number, comparable_string, String, Bool, not, ◌&&◌,
  ◌||◌, List, [], ◌∷◌, ◌++◌, any, keep, last, length, if◌then◌else◌, Attempt, returns, raises,
  require, ◌>>=◌, ◌>>◌,
}

pub data SseError : Type 0 where
  input_error cursor_error : String → SseError
  -- `ValueError` of a semaphore that is released too often.
  capacity_error released_too_many : SseError

pub record Event : Type 0 where
  pub schema_version : String
  pub event_cursor : ℕ
  pub project_id : String
  pub event_type : String
  pub snapshot_commit : String
  pub resource_id : String
  pub occurred_at : String
  pub content_digest : String

-- What `datetime.fromisoformat` makes of a text: no instant, or one with its offset from UTC.
pub data Parsed : Type 0 where
  malformed without_offset utc_offset other_offset : Parsed

pub record Primitives : Type 0 where
  -- The hexadecimal digest by SHA-256 of a text in UTF-8.
  pub sha256 : List ℕ → String
  pub fromisoformat : String → Parsed

abbrev pub event_types : List String
event_types =
    "snapshot.changed" ∷ "task.changed" ∷ "run.changed" ∷ "approval.changed" ∷ "review.changed"
    ∷ "provider.changed" ∷ "project.changed" ∷ "health.changed" ∷ []

-- `_text`
unfoldable pub check_text : String → String → Attempt SseError (Unit {0})
check_text value field = do
  require (not (is_blank value || is_wrapped value))
      (input_error (field <> " must be a non-empty trimmed str"))
  require (not (any (λ c. ltb c 32) (codes value)))
      (input_error (field <> " contains a control character"))

abbrev is_sha_digit : ℕ → Bool
is_sha_digit c = leb 48 c && leb c 57 || leb 97 c && leb c 102

-- `_sha`
unfoldable pub check_sha : String → ℕ → String → Attempt SseError (Unit {0})
check_sha value n field =
    require (length (codes value) == n && not (any (λ c. not (is_sha_digit c)) (codes value)))
      (input_error (field <> " has an invalid digest"))

-- `text[:-1] + "+00:00" if text.endswith("Z") else text`
unfoldable pub zone_written_out : String → String
zone_written_out String.[] = ""
zone_written_out (String.◌∷◌ c String.[]) =
    if code c == 90 then "+00:00" else String.◌∷◌ c String.[]
zone_written_out (String.◌∷◌ c (String.◌∷◌ d s)) = String.◌∷◌ c (zone_written_out (String.◌∷◌ d s))

abbrev is_utc : Parsed → Bool
is_utc p = elim p [ utc_offset ↦ Bool.true | _ ↦ Bool.false ]

module _ (env : Primitives) where
  -- `_timestamp`
  unfoldable pub check_timestamp : String → Attempt SseError (Unit {0})
  unfolding check_text zone_written_out
  check_timestamp value = do
    check_text value "occurred_at"
    require (is_utc (env.fromisoformat (zone_written_out value)))
        (input_error "occurred_at must be RFC3339 UTC")

  -- `DockyardSseEvent.__post_init__`
  unfoldable pub check_event_fields : Event → Attempt SseError (Unit {0})
  unfolding check_text check_sha check_timestamp
  check_event_fields e = do
    require (e.schema_version == "dockyard.sse-event/v1") (input_error "schema_version is invalid")
    require (leb 1 e.event_cursor) (input_error "event_cursor must be a positive int")
    check_text e.project_id "project_id"
    require (any (λ t. e.event_type == t) event_types) (input_error "event_type is invalid")
    check_sha e.snapshot_commit 40 "snapshot_commit"
    check_text e.resource_id "resource_id"
    check_timestamp e.occurred_at
    check_sha e.content_digest 64 "content_digest"

  unfoldable pub make_event : Event → Attempt SseError Event
  unfolding check_event_fields
  make_event e = do check_event_fields e; returns e

  -- `_content_digest`: the fields, parted by the control character 31.
  unfoldable pub content_digest_of : ℕ → String → String → String → String → String → String
  content_digest_of cursor project_id event_type snapshot_commit resource_id occurred_at =
      env.sha256 (
        codes (decimal cursor)
        ++ 31 ∷ codes project_id
        ++ 31 ∷ codes event_type
        ++ 31 ∷ codes snapshot_commit
        ++ 31 ∷ codes resource_id
        ++ 31 ∷ codes occurred_at)

-- The fields that `publish` takes.
pub record Change : Type 0 where
  pub project_id : String
  pub event_type : String
  pub snapshot_commit : String
  pub resource_id : String
  pub occurred_at : String
