-- ===== src/Worktree/Decoding.antt =====
-- The decoders of skills/agentdesk/scripts/worktree_lifecycle_store.py: the values of a document are
-- handed to the constructors, whose checks include the types of the values.
use dockyard.Base.Chars.{text_of}
use dockyard.Base.Text.{codes, list_eq, ◌<>◌}
use dockyard.Base.{
  ℕ, zero, suc, ◌==◌, comparable_string, String, List, [], ◌∷◌, Option, none, some, if◌then◌else◌,
  Attempt, raises, returns, require, ◌>>=◌, ◌>>◌,
}
use dockyard.Portfolio.Codec.{Line, text, Scalar, null, flag, number, word}
use dockyard.Worktree.{
  Platform, WorktreeError, WorktreePhase, check_branch, check_digest, check_path, check_positive,
  check_safe_id, check_sha40, check_timestamp_text, comparable_phase, creating, input_error,
  matches_task, ready, released, releasing, reserved, schema_error, schema_version,
}
use dockyard.Worktree.Records.{
  WorktreeRecord, WorktreeReservation, check_phase_times, encode_record, encode_reservation,
}
use dockyard.Worktree.Document.{document}

-- `_RECORD_FIELDS`
abbrev pub record_keys : List String
record_keys =
    "schema_version" ∷ "worktree_id" ∷ "reservation_id" ∷ "repository_common_dir"
    ∷ "repository_root" ∷ "worktree_path" ∷ "branch" ∷ "base_commit" ∷ "head_commit" ∷ "task_id"
    ∷ "revision" ∷ "attempt" ∷ "dispatch_id" ∷ "phase" ∷ "created_at" ∷ "release_requested_at"
    ∷ "released_at" ∷ "inventory_digest" ∷ "content_digest" ∷ []

-- `_RESERVATION_FIELDS`
abbrev pub reservation_keys : List String
reservation_keys =
    "schema_version" ∷ "reservation_id" ∷ "worktree_id" ∷ "repository_common_dir"
    ∷ "repository_root" ∷ "worktree_path" ∷ "branch" ∷ "base_commit" ∷ "task_id" ∷ "revision"
    ∷ "attempt" ∷ "dispatch_id" ∷ "phase" ∷ "reserved_at" ∷ "content_digest" ∷ []

-- `values[n]`: the values are as many as the names.
abbrev pub value_at : ℕ → List Scalar → Scalar
value_at n [] = null
value_at zero (v ∷ vs) = v
value_at (suc n) (v ∷ vs) = value_at n vs

-- A value that has to be a text, or a number.
unfoldable pub as_text : Scalar → WorktreeError → Attempt WorktreeError String
as_text (word cs) e = returns (text_of cs)
as_text (null) e = raises e
as_text (flag b) e = raises e
as_text (number n) e = raises e

unfoldable pub as_number : Scalar → WorktreeError → Attempt WorktreeError ℕ
as_number (number n) e = returns n
as_number (null) e = raises e
as_number (flag b) e = raises e
as_number (word cs) e = raises e

-- `WorktreePhase(value)`
unfoldable pub phase_of : Scalar → WorktreeError → Attempt WorktreeError WorktreePhase
phase_of (word cs) e =
    if list_eq cs (text "RESERVED")
    then returns reserved
    else (if list_eq cs (text "CREATING")
        then returns creating
        else (if list_eq cs (text "READY")
            then returns ready
            else (if list_eq cs (text "RELEASING")
                then returns releasing
                else (if list_eq cs (text "RELEASED") then returns released else raises e))))
phase_of (null) e = raises e
phase_of (flag b) e = raises e
phase_of (number n) e = raises e

-- `self.schema_version != SCHEMA_VERSION`
unfoldable pub schema_of : Scalar → WorktreeError → Attempt WorktreeError String
unfolding as_text
schema_of v e = do value ← as_text v e; require (value == schema_version) e; returns value

-- The checks of a value of any type.
unfoldable pub sha_of : Scalar → String → Attempt WorktreeError String
unfolding as_text check_sha40
sha_of v name = do
  value ← as_text v (input_error (name <> "_format"))
  check_sha40 value name
  returns value

unfoldable pub digest_of : Scalar → String → Attempt WorktreeError String
unfolding as_text check_digest
digest_of v name = do
  value ← as_text v (input_error (name <> "_format"))
  check_digest value name
  returns value

unfoldable pub time_of : Scalar → String → Attempt WorktreeError String
unfolding as_text check_timestamp_text
time_of v name = do
  value ← as_text v (input_error (name <> "_format"))
  check_timestamp_text value name
  returns value

unfoldable pub optional_time_of : Scalar → String → Attempt WorktreeError (Option String)
unfolding time_of
optional_time_of (null) name = returns none
optional_time_of v name = do value ← time_of v name; returns (some value)

unfoldable pub positive_of : Scalar → String → Option ℕ → Attempt WorktreeError ℕ
unfolding as_number check_positive
positive_of v name most = do
  n ← as_number v (input_error (name <> "_range"))
  check_positive n name most
  returns n

unfoldable pub task_of : Scalar → String → Attempt WorktreeError String
unfolding as_text matches_task
task_of v name = do
  value ← as_text v (input_error name)
  require (matches_task (codes value)) (input_error name)
  returns value

unfoldable pub checked_branch_of : Scalar → Attempt WorktreeError String
unfolding as_text check_branch
checked_branch_of v = do
  value ← as_text v (input_error "branch_type")
  check_branch value
  returns value

module _ (os : Platform) where
  unfoldable pub safe_id_of : Scalar → String → String → Attempt WorktreeError String
  unfolding as_text check_safe_id
  safe_id_of v name prefix = do
    value ← as_text v (input_error (name <> "_type"))
    check_safe_id os value name prefix
    returns value

  unfoldable pub path_of : Scalar → String → Attempt WorktreeError String
  unfolding as_text check_path
  path_of v name = do
    value ← as_text v (input_error (name <> "_type"))
    check_path os value name
    returns value

  -- `WorktreeRecord(...)` of the values of a document
  unfoldable pub record_of : List Scalar → Attempt WorktreeError WorktreeRecord
  unfolding phase_of schema_of safe_id_of path_of checked_branch_of sha_of task_of positive_of
      optional_time_of digest_of check_phase_times
  record_of values = do
    phase ← phase_of (value_at 13 values) (schema_error "record_fields")
    schema ← schema_of (value_at 0 values) (input_error "record_schema")
    worktree ← safe_id_of (value_at 1 values) "record_worktree_id" "WT-"
    reservation ← safe_id_of (value_at 2 values) "record_reservation_id" "WTR-"
    common_dir ← path_of (value_at 3 values) "record_common_dir"
    root ← path_of (value_at 4 values) "record_root"
    path ← path_of (value_at 5 values) "record_path"
    branch ← checked_branch_of (value_at 6 values)
    base ← sha_of (value_at 7 values) "record_base"
    head ← sha_of (value_at 8 values) "record_head"
    task ← task_of (value_at 9 values) "record_task_id"
    revision ← positive_of (value_at 10 values) "record_revision" none
    attempt ← positive_of (value_at 11 values) "record_attempt" (some 3)
    dispatch ← safe_id_of (value_at 12 values) "record_dispatch_id" "DSP-"
    created ← optional_time_of (value_at 14 values) "created_at"
    requested ← optional_time_of (value_at 15 values) "release_requested_at"
    gone ← optional_time_of (value_at 16 values) "released_at"
    inventory ← digest_of (value_at 17 values) "inventory_digest"
    digest ← digest_of (value_at 18 values) "record_digest"
    let r : WorktreeRecord = record {
      record_schema = schema;
      worktree_id = worktree;
      reservation_id = reservation;
      repository_common_dir = common_dir;
      repository_root = root;
      worktree_path = path;
      branch = branch;
      base_commit = base;
      head_commit = head;
      task_id = task;
      revision = revision;
      attempt = attempt;
      dispatch_id = dispatch;
      phase = phase;
      created_at = created;
      release_requested_at = requested;
      released_at = gone;
      inventory_digest = inventory;
      content_digest = digest;
    }
    check_phase_times r
    returns r

  -- `WorktreeReservation(...)` of the values of a document
  unfoldable pub reservation_of : List Scalar → Attempt WorktreeError WorktreeReservation
  unfolding phase_of schema_of safe_id_of path_of checked_branch_of sha_of task_of positive_of
      time_of digest_of
  reservation_of values = do
    phase ← phase_of (value_at 12 values) (schema_error "reservation_fields")
    schema ← schema_of (value_at 0 values) (input_error "reservation_schema")
    reservation ← safe_id_of (value_at 1 values) "reservation_id" "WTR-"
    worktree ← safe_id_of (value_at 2 values) "worktree_id" "WT-"
    common_dir ← path_of (value_at 3 values) "repository_common_dir"
    root ← path_of (value_at 4 values) "repository_root"
    path ← path_of (value_at 5 values) "worktree_path"
    branch ← checked_branch_of (value_at 6 values)
    base ← sha_of (value_at 7 values) "base_commit"
    task ← task_of (value_at 8 values) "task_id"
    revision ← positive_of (value_at 9 values) "revision" none
    attempt ← positive_of (value_at 10 values) "attempt" (some 3)
    dispatch ← safe_id_of (value_at 11 values) "dispatch_id" "DSP-"
    require (phase == reserved) (input_error "reservation_phase")
    at ← time_of (value_at 13 values) "reserved_at"
    digest ← digest_of (value_at 14 values) "reservation_digest"
    returns (record {
      reservation_schema = schema;
      reservation_id = reservation;
      worktree_id = worktree;
      repository_common_dir = common_dir;
      repository_root = root;
      worktree_path = path;
      branch = branch;
      base_commit = base;
      task_id = task;
      revision = revision;
      attempt = attempt;
      dispatch_id = dispatch;
      phase = phase;
      reserved_at = at;
      content_digest = digest;
    })

  -- `decode_reservation`
  unfoldable pub decode_reservation : Line → Attempt WorktreeError WorktreeReservation
  unfolding document reservation_of encode_reservation
  decode_reservation content = do
    values ← document reservation_keys "reservation" content
    r ← reservation_of values
    file ← encode_reservation os r
    require (list_eq file content) (schema_error "reservation_noncanonical")
    returns r

  -- `decode_record`
  unfoldable pub decode_record : Line → Attempt WorktreeError WorktreeRecord
  unfolding document record_of encode_record
  decode_record content = do
    values ← document record_keys "record" content
    r ← record_of values
    file ← encode_record os r
    require (list_eq file content) (schema_error "record_noncanonical")
    returns r
