-- ===== src/Worktree/Identity.antt =====
-- The ids that are derived from what a worktree is for, and the records built from a request
-- (skills/agentdesk/scripts/worktree_lifecycle_store.py).
use dockyard.Base.Text.{codes, decimal, ◌<>◌}
use dockyard.Base.{
  ℕ, ◌==◌, comparable_string, String, List, [], ◌∷◌, ◌++◌, Option, none, some, Attempt, returns,
  require, ◌>>=◌, ◌>>◌,
}
use dockyard.Worktree.{
  Platform, WorktreeError, WorktreePhase, check_branch, check_path, check_positive, check_safe_id,
  check_sha40, check_timestamp_text, check_trimmed, conflict_error, input_error, matches_task,
  reserved, schema_version,
}
use dockyard.Worktree.Records.{
  WorktreeRecord, WorktreeRequest, WorktreeReservation, with_record_digest, with_reservation_digest,
  check_record, check_reservation, zero_digest,
}

-- The arguments of `derive_worktree_id`.
pub record Binding : Type 0 where
  pub common_dir : String
  pub root : String
  pub bound_branch : String
  pub base : String
  pub task : String
  pub bound_revision : ℕ
  pub bound_attempt : ℕ
  pub dispatch : String

unfoldable pub request_binding : WorktreeRequest → Binding
request_binding q = record {
  common_dir = q.repository_common_dir;
  root = q.repository_root;
  bound_branch = q.branch;
  base = q.base_commit;
  task = q.task_id;
  bound_revision = q.revision;
  bound_attempt = q.attempt;
  dispatch = q.dispatch_id;
}

unfoldable pub parts_of : Binding → List String
parts_of b =
    b.common_dir
    ∷ b.root
    ∷ b.bound_branch
    ∷ b.base
    ∷ b.task
    ∷ decimal b.bound_revision
    ∷ decimal b.bound_attempt
    ∷ b.dispatch
    ∷ []

-- `_binding_bytes` of at least one part, before UTF-8.
unfoldable pub binding_text : List String → List ℕ
binding_text [] = []
binding_text (part ∷ parts) = codes part ++ (0 ∷ binding_text parts)

module _ (os : Platform) where
  -- `WorktreeLifecycleRequest.__post_init__`
  unfoldable pub check_worktree_request : WorktreeRequest → Attempt WorktreeError (Unit {0})
  unfolding check_safe_id check_path check_branch check_sha40 matches_task check_positive
      check_timestamp_text
  check_worktree_request q = do
    require (q.request_schema == schema_version) (input_error "request_schema")
    check_safe_id os q.operation_id "operation_id" "OP-"
    check_path os q.repository_common_dir "request_common_dir"
    check_path os q.repository_root "request_root"
    check_path os q.worktree_path "request_path"
    check_branch q.branch
    check_sha40 q.base_commit "request_base"
    require (matches_task (codes q.task_id)) (input_error "request_task_id")
    check_positive q.revision "request_revision" none
    check_positive q.attempt "request_attempt" (some 3)
    check_safe_id os q.dispatch_id "request_dispatch_id" "DSP-"
    check_safe_id os q.expected_worktree_id "expected_worktree_id" "WT-"
    check_timestamp_text q.requested_at "requested_at"

  unfoldable pub check_binding : Binding → Attempt WorktreeError (Unit {0})
  unfolding check_path check_branch check_sha40 check_trimmed check_positive check_safe_id
  check_binding b = do
    check_path os b.common_dir "binding_common_dir"
    check_path os b.root "binding_root"
    check_branch b.bound_branch
    check_sha40 b.base "binding_base"
    check_trimmed b.task "binding_task"
    check_positive b.bound_revision "binding_revision" none
    check_positive b.bound_attempt "binding_attempt" (some 3)
    check_safe_id os b.dispatch "binding_dispatch" "DSP-"

  -- `_binding_parts`
  unfoldable pub binding_parts : Binding → Attempt WorktreeError (List String)
  unfolding check_binding parts_of
  binding_parts b = do check_binding b; returns (parts_of b)

  unfoldable pub derive_worktree_id : Binding → Attempt WorktreeError String
  unfolding binding_parts binding_text
  derive_worktree_id b = do
    parts ← binding_parts b
    returns ("WT-" <> os.sha256 (binding_text parts))

  unfoldable pub derive_reservation_id : String → WorktreeRequest → Attempt WorktreeError String
  unfolding check_safe_id request_binding binding_parts binding_text
  derive_reservation_id worktree_id q = do
    check_safe_id os worktree_id "derive_worktree_id" "WT-"
    parts ← binding_parts (request_binding q)
    returns ("WTR-" <> os.sha256 (codes worktree_id ++ (0 ∷ binding_text parts)))

  unfoldable pub expected_branch : String → ℕ → ℕ → String → Attempt WorktreeError String
  unfolding matches_task check_positive check_safe_id
  expected_branch task_id revision attempt dispatch_id = do
    require (matches_task (codes task_id)) (input_error "expected_branch_task")
    check_positive revision "expected_branch_revision" none
    check_positive attempt "expected_branch_attempt" (some 3)
    check_safe_id os dispatch_id "expected_branch_dispatch" "DSP-"
    returns (
        "agentdesk/"
        <> task_id
        <> "/r"
        <> decimal revision
        <> "/a"
        <> decimal attempt
        <> "/"
        <> dispatch_id)

  unfoldable pub expected_worktree_path : String → String → Attempt WorktreeError String
  unfolding check_path check_safe_id
  expected_worktree_path repository_root worktree_id = do
    check_path os repository_root "expected_path_root"
    check_safe_id os worktree_id "expected_path_id" "WT-"
    returns (os.sibling repository_root "-agentdesk-worktrees" worktree_id)

  unfoldable pub validate_request_identity : WorktreeRequest → Attempt WorktreeError (Unit {0})
  unfolding expected_branch derive_worktree_id request_binding expected_worktree_path
  validate_request_identity q = do
    branch ← expected_branch q.task_id q.revision q.attempt q.dispatch_id
    require (q.branch == branch) (conflict_error "branch_identity")
    worktree_id ← derive_worktree_id (request_binding q)
    require (q.expected_worktree_id == worktree_id) (conflict_error "worktree_identity")
    path ← expected_worktree_path q.repository_root worktree_id
    require (os.normcase q.worktree_path == os.normcase path)
        (conflict_error "worktree_path_identity")

  unfoldable pub fresh_reservation : WorktreeRequest → String → WorktreeReservation
  fresh_reservation q reservation_id = record {
    reservation_schema = schema_version;
    reservation_id = reservation_id;
    worktree_id = q.expected_worktree_id;
    repository_common_dir = q.repository_common_dir;
    repository_root = q.repository_root;
    worktree_path = q.worktree_path;
    branch = q.branch;
    base_commit = q.base_commit;
    task_id = q.task_id;
    revision = q.revision;
    attempt = q.attempt;
    dispatch_id = q.dispatch_id;
    phase = reserved;
    reserved_at = q.requested_at;
    content_digest = zero_digest;
  }

  unfoldable pub make_reservation : WorktreeRequest → Attempt WorktreeError WorktreeReservation
  unfolding validate_request_identity derive_reservation_id fresh_reservation check_reservation
      with_reservation_digest
  make_reservation q = do
    validate_request_identity q
    reservation_id ← derive_reservation_id q.expected_worktree_id q
    check_reservation os (fresh_reservation q reservation_id)
    with_reservation_digest os (fresh_reservation q reservation_id)

  unfoldable pub head_or_base : WorktreeReservation → Option String → String
  head_or_base r none = r.base_commit
  head_or_base r (some head) = head

  unfoldable pub fresh_record :
      WorktreeReservation
      → WorktreePhase
      → String
      → Option String
      → Option String
      → Option String
      → Option String
      → WorktreeRecord
  unfolding head_or_base
  fresh_record r phase inventory_digest head_commit created_at release_requested_at released_at =
      record {
        record_schema = schema_version;
        worktree_id = r.worktree_id;
        reservation_id = r.reservation_id;
        repository_common_dir = r.repository_common_dir;
        repository_root = r.repository_root;
        worktree_path = r.worktree_path;
        branch = r.branch;
        base_commit = r.base_commit;
        head_commit = head_or_base r head_commit;
        task_id = r.task_id;
        revision = r.revision;
        attempt = r.attempt;
        dispatch_id = r.dispatch_id;
        phase = phase;
        created_at = created_at;
        release_requested_at = release_requested_at;
        released_at = released_at;
        inventory_digest = inventory_digest;
        content_digest = zero_digest;
      }

  unfoldable pub make_record :
      WorktreeReservation
      → WorktreePhase
      → String
      → Option String
      → Option String
      → Option String
      → Option String
      → Attempt WorktreeError WorktreeRecord
  unfolding fresh_record check_record with_record_digest
  make_record r phase inventory_digest head_commit created_at release_requested_at released_at =
      let new =
        fresh_record r phase inventory_digest head_commit created_at release_requested_at
          released_at in
      do check_record os new; with_record_digest os new
