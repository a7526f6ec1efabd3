-- ===== src/Worktree/Store.antt =====
-- `WorktreeLifecycleStore` of skills/agentdesk/scripts/worktree_lifecycle_store.py.
use dockyard.Base.Text.{list_eq}
use dockyard.Base.{
  ◌+◌, ◌==◌, comparable_number, comparable_string, String, Bool, ◌&&◌, [], ◌∷◌, ◌++◌, Option, none,
  some, if◌then◌else◌, Attempt, returns, require, or_raise, ◌>>=◌, ◌>>◌,
}
use dockyard.Portfolio.Codec.{Line, words}
use dockyard.Worktree.{
  Platform, WorktreeError, WorktreePhase, check_digest, check_safe_id, check_sha40,
  check_timestamp_text, comparable_phase, comparable_action, conflict_error, create, creating,
  input_error, not_found_error, position, ready, released, releasing, transition_error,
}
use dockyard.Worktree.Records.{
  WorktreeRecord, WorktreeRequest, WorktreeReservation, check_record, check_reservation,
  document_text, encode_record, encode_reservation, record_fields, reservation_fields,
  with_record_digest,
}
use dockyard.Worktree.Identity.{make_reservation, validate_request_identity}

-- The two directories, by worktree id; a file is the document that it encodes.
pub record WorktreeStore : Type 0 where
  pub reservations : String → Option WorktreeReservation
  pub records : String → Option WorktreeRecord

unfoldable pub write_file : {A : Type 0} → String → A → (String → Option A) → String → Option A
write_file id new files i = if i == id then some new else files i

-- The text of a file.
unfoldable pub reservation_file : WorktreeReservation → Line
unfolding document_text reservation_fields
reservation_file r =
    document_text (reservation_fields r ++ (("content_digest", words r.content_digest) ∷ []))

unfoldable pub record_file : WorktreeRecord → Line
unfolding document_text record_fields
record_file r = document_text (record_fields r ++ (("content_digest", words r.content_digest) ∷ []))

unfoldable pub is_bound : WorktreeRecord → WorktreeReservation → Bool
is_bound r v =
    r.reservation_id == v.reservation_id
    && r.worktree_path == v.worktree_path
    && r.branch == v.branch
    && r.base_commit == v.base_commit

-- The time that the target phase sets.
unfoldable pub stamp : WorktreePhase → String → WorktreeRecord → WorktreeRecord
stamp ready at r = record r { created_at = some at }
stamp releasing at r = record r { release_requested_at = some at }
stamp released at r = record r { released_at = some at }
stamp _ at r = r

unfoldable pub with_head : Option String → WorktreeRecord → Attempt WorktreeError WorktreeRecord
unfolding check_sha40
with_head none r = returns r
with_head (some head) r = do
  check_sha40 head "advance_head"
  returns (record r { head_commit = head })

-- The fields that an advance sets, the head apart.
unfoldable pub moved_to : WorktreePhase → String → String → WorktreeRecord → WorktreeRecord
unfolding stamp
moved_to target inventory_digest at r =
    stamp target at (record r { phase = target; inventory_digest = inventory_digest })

module _ (os : Platform) where
  -- `decode_reservation` and `decode_record` of a file
  unfoldable pub load_reservation : WorktreeReservation → Attempt WorktreeError WorktreeReservation
  unfolding check_reservation encode_reservation
  load_reservation r = do check_reservation os r; text ← encode_reservation os r; returns r

  unfoldable pub load_record : WorktreeRecord → Attempt WorktreeError WorktreeRecord
  unfolding check_record encode_record
  load_record r = do check_record os r; text ← encode_record os r; returns r

  -- `_safe_read(path, False)` behind `_evidence_path`.
  unfoldable pub read_reservation :
      WorktreeStore → String → Attempt WorktreeError WorktreeReservation
  unfolding check_safe_id load_reservation
  read_reservation s id = do
    check_safe_id os id "evidence_worktree_id" "WT-"
    r ← or_raise (s.reservations id) (not_found_error "evidence_missing")
    load_reservation r

  unfoldable pub read_record : WorktreeStore → String → Attempt WorktreeError WorktreeRecord
  unfolding check_safe_id load_record
  read_record s id = do
    check_safe_id os id "evidence_worktree_id" "WT-"
    r ← or_raise (s.records id) (not_found_error "evidence_missing")
    load_record r

  -- A reservation is written once; the same one again is a replay.
  unfoldable pub save_reservation :
      WorktreeStore
      → WorktreeReservation
      → Line
      → Option WorktreeReservation
      → Attempt WorktreeError (WorktreeStore × WorktreeReservation)
  unfolding write_file reservation_file load_reservation
  save_reservation s r encoded none =
      returns (record s { reservations = write_file r.worktree_id r s.reservations }, r)
  save_reservation s r encoded (some existing) = do
    require (list_eq (reservation_file existing) encoded) (conflict_error "reservation_replay")
    found ← load_reservation existing
    returns (s, found)

  -- The project root is the directory of the store.
  unfoldable pub reserve :
      String
      → WorktreeStore
      → WorktreeRequest
      → Attempt WorktreeError (WorktreeStore × WorktreeReservation)
  unfolding validate_request_identity make_reservation encode_reservation check_safe_id
      save_reservation
  reserve project_root s q = do
    validate_request_identity os q
    require (q.action == create) (input_error "reserve_action")
    require (os.normcase q.repository_root == os.normcase project_root)
        (conflict_error "repository_root")
    r ← make_reservation os q
    encoded ← encode_reservation os r
    check_safe_id os r.worktree_id "evidence_worktree_id" "WT-"
    save_reservation s r encoded (s.reservations r.worktree_id)

  unfoldable pub save_record :
      WorktreeStore
      → WorktreeRecord
      → Line
      → Option WorktreeRecord
      → Attempt WorktreeError (WorktreeStore × WorktreeRecord)
  unfolding write_file record_file load_record
  save_record s r encoded none =
      returns (record s { records = write_file r.worktree_id r s.records }, r)
  save_record s r encoded (some existing) = do
    require (list_eq (record_file existing) encoded) (conflict_error "record_replay")
    found ← load_record existing
    returns (s, found)

  unfoldable pub create_record :
      WorktreeStore → WorktreeRecord → Attempt WorktreeError (WorktreeStore × WorktreeRecord)
  unfolding read_reservation is_bound encode_record check_safe_id save_record
  create_record s r = do
    require (r.phase == creating) (input_error "create_record")
    v ← read_reservation s r.worktree_id
    require (is_bound r v) (conflict_error "record_binding")
    encoded ← encode_record os r
    check_safe_id os r.worktree_id "evidence_worktree_id" "WT-"
    save_record s r encoded (s.records r.worktree_id)

  -- `replace(current, **updates)` and the write.
  unfoldable pub store_advanced :
      WorktreeStore
      → String
      → WorktreeRecord
      → Attempt WorktreeError (WorktreeStore × WorktreeRecord)
  unfolding check_record with_record_digest encode_record write_file
  store_advanced s id updated = do
    check_record os updated
    advanced ← with_record_digest os updated
    encoded ← encode_record os advanced
    returns (record s { records = write_file id advanced s.records }, advanced)

  unfoldable pub advance_current :
      WorktreeStore
      → String
      → WorktreePhase
      → WorktreePhase
      → String
      → String
      → Option String
      → WorktreeRecord
      → Attempt WorktreeError (WorktreeStore × WorktreeRecord)
  unfolding position with_head moved_to store_advanced
  advance_current s id expected target inventory_digest at head current =
      if current.phase == target then returns (s, current) else (do
        require (current.phase == expected && position target == position expected + 1)
            (transition_error "phase_transition")
        headed ← with_head head current
        store_advanced s id (moved_to target inventory_digest at headed))

  unfoldable pub advance_record :
      WorktreeStore
      → String
      → WorktreePhase
      → WorktreePhase
      → String
      → String
      → Option String
      → Attempt WorktreeError (WorktreeStore × WorktreeRecord)
  unfolding check_safe_id check_digest check_timestamp_text read_record advance_current
  advance_record s id expected target inventory_digest at head = do
    check_safe_id os id "advance_worktree_id" "WT-"
    check_digest inventory_digest "advance_inventory_digest"
    check_timestamp_text at "operation_at"
    current ← read_record s id
    advance_current s id expected target inventory_digest at head current
