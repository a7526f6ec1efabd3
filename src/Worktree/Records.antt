-- ===== src/Worktree/Records.antt =====
-- The reservation, the record and the request of a managed worktree in
-- skills/agentdesk/scripts/worktree_lifecycle_store.py, with the checks of their constructors.
use dockyard.Base.Text.{codes, ◌<>◌}
use dockyard.Base.{
  ℕ, leb, ltb, ◌==◌, comparable_number, comparable_string, String, List, [], ◌∷◌, ◌++◌, Option,
  none, some, Attempt, returns, require, ◌>>◌,
}
use dockyard.Portfolio.Codec.{Line, Scalar, number, words, optional, field}
use dockyard.Worktree.{
  LifecycleAction, Platform, WorktreeError, WorktreePhase, check_branch, check_digest,
  check_optional_timestamp, check_path, check_positive, check_safe_id, check_sha40,
  check_timestamp_text, comparable_phase, input_error, matches_task, phase_text, position, reserved,
  schema_error, schema_version,
}

-- What a reservation, a record and a request say of the worktree.
pub record WorktreeReservation : Type 0 where
  pub reservation_schema : String
  pub reservation_id : String
  pub worktree_id : String
  pub repository_common_dir : String
  pub repository_root : String
  pub worktree_path : String
  pub branch : String
  pub base_commit : String
  pub task_id : String
  pub revision : ℕ
  pub attempt : ℕ
  pub dispatch_id : String
  pub phase : WorktreePhase
  pub reserved_at : String
  pub content_digest : String

pub record WorktreeRecord : Type 0 where
  pub record_schema : String
  pub worktree_id : String
  pub reservation_id : String
  pub repository_common_dir : String
  pub repository_root : String
  pub worktree_path : String
  pub branch : String
  pub base_commit : String
  pub head_commit : String
  pub task_id : String
  pub revision : ℕ
  pub attempt : ℕ
  pub dispatch_id : String
  pub phase : WorktreePhase
  pub created_at : Option String
  pub release_requested_at : Option String
  pub released_at : Option String
  pub inventory_digest : String
  pub content_digest : String

pub record WorktreeRequest : Type 0 where
  pub request_schema : String
  pub operation_id : String
  pub action : LifecycleAction
  pub repository_common_dir : String
  pub repository_root : String
  pub worktree_path : String
  pub branch : String
  pub base_commit : String
  pub task_id : String
  pub revision : ℕ
  pub attempt : ℕ
  pub dispatch_id : String
  pub expected_worktree_id : String
  pub requested_at : String

abbrev pub zero_digest : String
zero_digest = "sha256:0000000000000000000000000000000000000000000000000000000000000000"

-- A value that must be there from a position on, and not before.
unfoldable pub check_since :
    ℕ → WorktreePhase → Option String → String → Attempt WorktreeError (Unit {0})
unfolding position
check_since from phase none name =
    require (ltb (position phase) from) (input_error (name <> "_missing"))
check_since from phase (some at) name =
    require (leb from (position phase)) (input_error (name <> "_premature"))

-- `_finish(_lines(...))`
unfoldable pub document_text : List (String × Scalar) → Line
unfolding field
document_text [] = []
document_text ((key, value) ∷ more) = field [] key value ++ (10 ∷ document_text more)

-- The times and the digests.
unfoldable pub check_evidence : WorktreeRecord → Attempt WorktreeError (Unit {0})
unfolding check_optional_timestamp check_digest
check_evidence r = do
  check_optional_timestamp r.created_at "created_at"
  check_optional_timestamp r.release_requested_at "release_requested_at"
  check_optional_timestamp r.released_at "released_at"
  check_digest r.inventory_digest "inventory_digest"
  check_digest r.content_digest "record_digest"

unfoldable pub check_phase_times : WorktreeRecord → Attempt WorktreeError (Unit {0})
unfolding check_since
check_phase_times r = do
  check_since 2 r.phase r.created_at "created_at"
  check_since 3 r.phase r.release_requested_at "release_requested"
  check_since 4 r.phase r.released_at "released_at"

-- `_reservation_values` with their names, without the digest.
unfoldable pub reservation_fields : WorktreeReservation → List (String × Scalar)
unfolding phase_text
reservation_fields r =
    ("schema_version", words r.reservation_schema)
    ∷ ("reservation_id", words r.reservation_id)
    ∷ ("worktree_id", words r.worktree_id)
    ∷ ("repository_common_dir", words r.repository_common_dir)
    ∷ ("repository_root", words r.repository_root)
    ∷ ("worktree_path", words r.worktree_path)
    ∷ ("branch", words r.branch)
    ∷ ("base_commit", words r.base_commit)
    ∷ ("task_id", words r.task_id)
    ∷ ("revision", number r.revision)
    ∷ ("attempt", number r.attempt)
    ∷ ("dispatch_id", words r.dispatch_id)
    ∷ ("phase", words (phase_text r.phase))
    ∷ ("reserved_at", words r.reserved_at)
    ∷ []

-- `_record_values` with their names, without the digest.
unfoldable pub record_fields : WorktreeRecord → List (String × Scalar)
unfolding phase_text
record_fields r =
    ("schema_version", words r.record_schema)
    ∷ ("worktree_id", words r.worktree_id)
    ∷ ("reservation_id", words r.reservation_id)
    ∷ ("repository_common_dir", words r.repository_common_dir)
    ∷ ("repository_root", words r.repository_root)
    ∷ ("worktree_path", words r.worktree_path)
    ∷ ("branch", words r.branch)
    ∷ ("base_commit", words r.base_commit)
    ∷ ("head_commit", words r.head_commit)
    ∷ ("task_id", words r.task_id)
    ∷ ("revision", number r.revision)
    ∷ ("attempt", number r.attempt)
    ∷ ("dispatch_id", words r.dispatch_id)
    ∷ ("phase", words (phase_text r.phase))
    ∷ ("created_at", optional r.created_at)
    ∷ ("release_requested_at", optional r.release_requested_at)
    ∷ ("released_at", optional r.released_at)
    ∷ ("inventory_digest", words r.inventory_digest)
    ∷ []

module _ (os : Platform) where
  -- `WorktreeReservation.__post_init__`
  unfoldable pub check_reservation : WorktreeReservation → Attempt WorktreeError (Unit {0})
  unfolding check_safe_id check_path check_branch check_sha40 matches_task check_positive
      check_timestamp_text check_digest
  check_reservation r = do
    require (r.reservation_schema == schema_version) (input_error "reservation_schema")
    check_safe_id os r.reservation_id "reservation_id" "WTR-"
    check_safe_id os r.worktree_id "worktree_id" "WT-"
    check_path os r.repository_common_dir "repository_common_dir"
    check_path os r.repository_root "repository_root"
    check_path os r.worktree_path "worktree_path"
    check_branch r.branch
    check_sha40 r.base_commit "base_commit"
    require (matches_task (codes r.task_id)) (input_error "task_id")
    check_positive r.revision "revision" none
    check_positive r.attempt "attempt" (some 3)
    check_safe_id os r.dispatch_id "dispatch_id" "DSP-"
    require (r.phase == reserved) (input_error "reservation_phase")
    check_timestamp_text r.reserved_at "reserved_at"
    check_digest r.content_digest "reservation_digest"

  -- The checks of a record that do not change with its phase.
  unfoldable pub check_identity : WorktreeRecord → Attempt WorktreeError (Unit {0})
  unfolding check_safe_id check_path check_branch check_sha40
  check_identity r = do
    require (r.record_schema == schema_version) (input_error "record_schema")
    check_safe_id os r.worktree_id "record_worktree_id" "WT-"
    check_safe_id os r.reservation_id "record_reservation_id" "WTR-"
    check_path os r.repository_common_dir "record_common_dir"
    check_path os r.repository_root "record_root"
    check_path os r.worktree_path "record_path"
    check_branch r.branch
    check_sha40 r.base_commit "record_base"

  unfoldable pub check_task : WorktreeRecord → Attempt WorktreeError (Unit {0})
  unfolding check_safe_id matches_task check_positive
  check_task r = do
    require (matches_task (codes r.task_id)) (input_error "record_task_id")
    check_positive r.revision "record_revision" none
    check_positive r.attempt "record_attempt" (some 3)
    check_safe_id os r.dispatch_id "record_dispatch_id" "DSP-"

  -- `WorktreeRecord.__post_init__`
  unfoldable pub check_record : WorktreeRecord → Attempt WorktreeError (Unit {0})
  unfolding check_identity check_sha40 check_task check_evidence check_phase_times
  check_record r = do
    check_identity r
    check_sha40 r.head_commit "record_head"
    check_task r
    check_evidence r
    check_phase_times r

  -- `_content_digest`
  unfoldable pub fields_digest : List (String × Scalar) → String
  unfolding document_text
  fields_digest fields = "sha256:" <> os.sha256 (document_text fields)

  -- `_with_reservation_digest`: each `replace` calls the constructor.
  unfoldable pub with_reservation_digest :
      WorktreeReservation → Attempt WorktreeError WorktreeReservation
  unfolding check_reservation reservation_fields fields_digest
  with_reservation_digest r = do
    check_reservation (record r { content_digest = zero_digest })
    check_reservation (record r { content_digest = fields_digest (reservation_fields r) })
    returns (record r { content_digest = fields_digest (reservation_fields r) })

  unfoldable pub with_record_digest : WorktreeRecord → Attempt WorktreeError WorktreeRecord
  unfolding check_record record_fields fields_digest
  with_record_digest r = do
    check_record (record r { content_digest = zero_digest })
    check_record (record r { content_digest = fields_digest (record_fields r) })
    returns (record r { content_digest = fields_digest (record_fields r) })

  -- `encode_reservation`
  unfoldable pub encode_reservation : WorktreeReservation → Attempt WorktreeError Line
  unfolding reservation_fields fields_digest document_text
  encode_reservation r = do
    require (r.content_digest == fields_digest (reservation_fields r))
        (schema_error "reservation_digest")
    returns
        (document_text (reservation_fields r ++ (("content_digest", words r.content_digest) ∷ [])))

  unfoldable pub encode_record : WorktreeRecord → Attempt WorktreeError Line
  unfolding record_fields fields_digest document_text
  encode_record r = do
    require (r.content_digest == fields_digest (record_fields r)) (schema_error "record_digest")
    returns (document_text (record_fields r ++ (("content_digest", words r.content_digest) ∷ [])))
