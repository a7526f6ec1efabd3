-- ===== src/Sse/Hub.antt =====
-- `DockyardSseHub` of skills/agentdesk/scripts/dockyard_sse.py.
use dockyard.Base.{
  ℕ, zero, suc, ◌+◌, ◌-◌, leb, ltb, ◌==◌, comparable_number, comparable_string, String, Bool, true,
  false, not, List, [], ◌∷◌, ◌++◌, any, keep, last, if◌then◌else◌, Attempt, returns, raises,
  require, ◌>>=◌, ◌>>◌, Option, some, none,
}
use dockyard.Sse.{
  Change, event_types, Event, Primitives, SseError, capacity_error, check_sha, check_text,
  check_timestamp, content_digest_of, cursor_error, input_error, make_event, released_too_many,
}

-- A project without an entry in `_events` has the empty list.
pub record Hub : Type 0 where
  pub max_backlog : ℕ
  pub events : String → List Event
  pub max_streams : ℕ
  -- The value of the semaphore.
  pub free_streams : ℕ

unfoldable pub make_hub : ℕ → ℕ → Attempt SseError Hub
make_hub max_backlog max_streams = do
  require (leb 1 max_backlog) (input_error "max_backlog must be positive")
  require (leb 1 max_streams) (input_error "max_streams must be positive")
  returns (record {
    max_backlog = max_backlog;
    events = λ id. [];
    max_streams = max_streams;
    free_streams = max_streams;
  })

-- The last of a list that is not empty.
unfoldable pub newest : Event → List Event → Event
newest e [] = e
newest e (f ∷ fs) = newest f fs

unfoldable pub next_cursor : List Event → ℕ
unfolding newest
next_cursor [] = 1
next_cursor (e ∷ es) = (newest e es).event_cursor + 1

unfoldable pub write_events : String → List Event → Hub → Hub
write_events id es h = record h { events = λ i. if i == id then es else h.events i }

module _ (env : Primitives) where
  unfoldable pub check_change : Change → Attempt SseError (Unit {0})
  unfolding check_text check_sha check_timestamp
  check_change c = do
    check_text c.project_id "project_id"
    require (any (λ t. c.event_type == t) event_types) (input_error "event_type is invalid")
    check_sha c.snapshot_commit 40 "snapshot_commit"
    check_text c.resource_id "resource_id"
    check_timestamp env c.occurred_at

  unfoldable pub fresh_event : ℕ → Change → Event
  unfolding content_digest_of
  fresh_event cursor c = record {
    schema_version = "dockyard.sse-event/v1";
    event_cursor = cursor;
    project_id = c.project_id;
    event_type = c.event_type;
    snapshot_commit = c.snapshot_commit;
    resource_id = c.resource_id;
    occurred_at = c.occurred_at;
    content_digest =
        content_digest_of env cursor c.project_id c.event_type c.snapshot_commit c.resource_id
          c.occurred_at;
  }

  unfoldable pub publish : Hub → Change → Attempt SseError (Hub × Event)
  unfolding check_change next_cursor fresh_event make_event write_events
  publish h c = do
    check_change c
    e ← make_event env (fresh_event (next_cursor (h.events c.project_id)) c)
    returns
        (write_events c.project_id (last h.max_backlog (h.events c.project_id ++ (e ∷ []))) h, e)

-- `replay` on the events that are kept.
unfoldable pub replay_kept : List Event → ℕ → Attempt SseError (List Event)
unfolding newest
replay_kept [] after = do
  require (after == 0) (cursor_error "cursor is ahead of the stream")
  returns []
replay_kept (e ∷ es) after = do
  require (not (ltb (newest e es).event_cursor after))
      (cursor_error "cursor is ahead of the stream")
  require (not (ltb after (e.event_cursor - 1)))
      (cursor_error "cursor fell behind the bounded backlog")
  returns (keep (λ x. ltb after x.event_cursor) (e ∷ es))

unfoldable pub replay : Hub → String → ℕ → Attempt SseError (List Event)
unfolding check_text replay_kept
replay h project_id after = do
  check_text project_id "project_id"
  replay_kept (h.events project_id) after

-- One turn of the loop of `wait_for_events`: `none` is a further wait.
unfoldable pub wait_turn :
    Attempt SseError (List Event) → Bool → Option (Attempt SseError (List Event))
wait_turn (raises e) expired = some (raises e)
wait_turn (returns (x ∷ xs)) expired = some (returns (x ∷ xs))
wait_turn (returns []) true = some (returns [])
wait_turn (returns []) false = none

-- The hub at each turn, and whether the deadline has passed there; `none` when the call still waits
-- after these turns. The timeout is a number of clock ticks.
unfoldable pub wait_for_events :
    List (Hub × Bool) → String → ℕ → ℕ → Option (Attempt SseError (List Event))
unfolding replay wait_turn
wait_for_events turns project_id after zero =
    some (raises (input_error "timeout_seconds must be positive"))
wait_for_events [] project_id after (suc timeout) = none
wait_for_events ((h, expired) ∷ turns) project_id after (suc timeout) =
    let rest = wait_for_events turns project_id after (suc timeout) in
    elim (wait_turn (replay h project_id after) expired) [ some r ↦ some r | none ↦ rest ]

unfoldable pub acquire_stream : Hub → Attempt SseError Hub
acquire_stream h = do
  require (leb 1 h.free_streams) capacity_error
  returns (record h { free_streams = h.free_streams - 1 })

-- The semaphore is bounded: a release beyond its first value raises.
unfoldable pub release_stream : Hub → Attempt SseError Hub
release_stream h = do
  require (ltb h.free_streams h.max_streams) released_too_many
  returns (record h { free_streams = h.free_streams + 1 })
