-- ===== src/Worktree/Constructed.antt =====
-- What the constructor of a record in skills/agentdesk/scripts/worktree_lifecycle_store.py takes has
-- passed its checks.

use dockyard.Base.{
  ◌≡◌, refl, sym, comparable_string, List, none, some, returns, ◌>>◌, first_returns, past, peel,
  and_next,
}
use dockyard.Portfolio.Codec.{Scalar}
use dockyard.Worktree.{Platform, input_error, schema_error}
use dockyard.Worktree.Records.{
  WorktreeRecord, check_evidence, check_identity, check_phase_times, check_record, check_task,
}
use dockyard.Worktree.Decoding.{
  checked_branch_of, digest_of, optional_time_of, path_of, phase_of, positive_of, record_of,
  safe_id_of, schema_of, sha_of, task_of, value_at,
}
use dockyard.Worktree.Readers.{
  schema_of-same, task_of-matches, sha_of-check, digest_of-check, optional_time_of-check,
  positive_of-check, checked_branch_of-check, safe_id_of-check, path_of-check,
}
use dockyard.Worktree.Decoded.{Identified, Tasked}

module _ (os : Platform) where
  Identified-check_identity :
      (r : WorktreeRecord) → Identified os r → check_identity os r ≡ returns tt
  unfolding check_identity
  Identified-check_identity r i = and_next (rw i.schema refl) (
      and_next i.worktree (
        and_next i.reservation (
          and_next i.common_dir
            (and_next i.root (and_next i.path (and_next i.own_branch i.base))))))

  Tasked-check_task : (r : WorktreeRecord) → Tasked os r → check_task os r ≡ returns tt
  unfolding check_task
  Tasked-check_task r t =
      and_next (rw t.own_task refl) (and_next t.revised (and_next t.attempted t.dispatched))

  -- The values of a document are those of a record.
  record Read (values : List Scalar) (r : WorktreeRecord) : Type 0 where
    pub read_phase : phase_of (value_at 13 values) (schema_error "record_fields") ≡ returns r.phase
    pub read_schema :
        schema_of (value_at 0 values) (input_error "record_schema") ≡ returns r.record_schema
    pub read_worktree :
        safe_id_of os (value_at 1 values) "record_worktree_id" "WT-" ≡ returns r.worktree_id
    pub read_reservation :
        safe_id_of os (value_at 2 values) "record_reservation_id" "WTR-" ≡ returns r.reservation_id
    pub read_common_dir :
        path_of os (value_at 3 values) "record_common_dir" ≡ returns r.repository_common_dir
    pub read_root : path_of os (value_at 4 values) "record_root" ≡ returns r.repository_root
    pub read_path : path_of os (value_at 5 values) "record_path" ≡ returns r.worktree_path
    pub read_branch : checked_branch_of (value_at 6 values) ≡ returns r.branch
    pub read_base : sha_of (value_at 7 values) "record_base" ≡ returns r.base_commit
    pub read_head : sha_of (value_at 8 values) "record_head" ≡ returns r.head_commit
    pub read_task : task_of (value_at 9 values) "record_task_id" ≡ returns r.task_id
    pub read_revision : positive_of (value_at 10 values) "record_revision" none ≡ returns r.revision
    pub read_attempt :
        positive_of (value_at 11 values) "record_attempt" (some 3) ≡ returns r.attempt
    pub read_dispatch :
        safe_id_of os (value_at 12 values) "record_dispatch_id" "DSP-" ≡ returns r.dispatch_id
    pub read_created : optional_time_of (value_at 14 values) "created_at" ≡ returns r.created_at
    pub read_requested :
        optional_time_of (value_at 15 values) "release_requested_at"
        ≡ returns r.release_requested_at
    pub read_gone : optional_time_of (value_at 16 values) "released_at" ≡ returns r.released_at
    pub read_inventory :
        digest_of (value_at 17 values) "inventory_digest" ≡ returns r.inventory_digest
    pub read_digest : digest_of (value_at 18 values) "record_digest" ≡ returns r.content_digest

  moved-Read :
      (values : List Scalar) (v r : WorktreeRecord)
      → Read values v
      → (check_phase_times v >> returns v) ≡ returns r
      → Read values r × (check_phase_times r ≡ returns tt)
  moved-Read values v r read h =
      let same : v ≡ r = let p = past (check_phase_times v) (returns v) r h in cc in
      let times = first_returns (check_phase_times v) (returns v) r h in rw (sym same) (read, times)

  record_of-Read :
      (values : List Scalar) (r : WorktreeRecord)
      → record_of os values ≡ returns r
      → Read values r × (check_phase_times r ≡ returns tt)
  unfolding record_of
  record_of-Read values r h =
      let (phase, e0, h0) =
        peel (phase_of (value_at 13 values) (schema_error "record_fields")) _ r h in
      let (schema, e1, h1) =
        peel (schema_of (value_at 0 values) (input_error "record_schema")) _ r h0 in
      let (worktree, e2, h2) =
        peel (safe_id_of os (value_at 1 values) "record_worktree_id" "WT-") _ r h1 in
      let (reservation, e3, h3) =
        peel (safe_id_of os (value_at 2 values) "record_reservation_id" "WTR-") _ r h2 in
      let (common_dir, e4, h4) = peel (path_of os (value_at 3 values) "record_common_dir") _ r h3 in
      let (root, e5, h5) = peel (path_of os (value_at 4 values) "record_root") _ r h4 in
      let (path, e6, h6) = peel (path_of os (value_at 5 values) "record_path") _ r h5 in
      let (branch, e7, h7) = peel (checked_branch_of (value_at 6 values)) _ r h6 in
      let (base, e8, h8) = peel (sha_of (value_at 7 values) "record_base") _ r h7 in
      let (head, e9, h9) = peel (sha_of (value_at 8 values) "record_head") _ r h8 in
      let (task, e10, h10) = peel (task_of (value_at 9 values) "record_task_id") _ r h9 in
      let (revision, e11, h11) =
        peel (positive_of (value_at 10 values) "record_revision" none) _ r h10 in
      let (attempt, e12, h12) =
        peel (positive_of (value_at 11 values) "record_attempt" (some 3)) _ r h11 in
      let (dispatch, e13, h13) =
        peel (safe_id_of os (value_at 12 values) "record_dispatch_id" "DSP-") _ r h12 in
      let (created, e14, h14) = peel (optional_time_of (value_at 14 values) "created_at") _ r h13 in
      let (requested, e15, h15) =
        peel (optional_time_of (value_at 15 values) "release_requested_at") _ r h14 in
      let (gone, e16, h16) = peel (optional_time_of (value_at 16 values) "released_at") _ r h15 in
      let (inventory, e17, h17) =
        peel (digest_of (value_at 17 values) "inventory_digest") _ r h16 in
      let (digest, e18, h18) = peel (digest_of (value_at 18 values) "record_digest") _ r h17 in
      moved-Read values _ r
        (record {
          read_phase = e0;
          read_schema = e1;
          read_worktree = e2;
          read_reservation = e3;
          read_common_dir = e4;
          read_root = e5;
          read_path = e6;
          read_branch = e7;
          read_base = e8;
          read_head = e9;
          read_task = e10;
          read_revision = e11;
          read_attempt = e12;
          read_dispatch = e13;
          read_created = e14;
          read_requested = e15;
          read_gone = e16;
          read_inventory = e17;
          read_digest = e18;
        })
        h18

  Read-Identified : (values : List Scalar) (r : WorktreeRecord) → Read values r → Identified os r
  Read-Identified values r read = record {
    schema =
        schema_of-same (value_at 0 values) (input_error "record_schema") r.record_schema
          read.read_schema;
    worktree =
        safe_id_of-check os (value_at 1 values) "record_worktree_id" "WT-" r.worktree_id
          read.read_worktree;
    reservation =
        safe_id_of-check os (value_at 2 values) "record_reservation_id" "WTR-" r.reservation_id
          read.read_reservation;
    common_dir =
        path_of-check os (value_at 3 values) "record_common_dir" r.repository_common_dir
          read.read_common_dir;
    root = path_of-check os (value_at 4 values) "record_root" r.repository_root read.read_root;
    path = path_of-check os (value_at 5 values) "record_path" r.worktree_path read.read_path;
    own_branch = checked_branch_of-check (value_at 6 values) r.branch read.read_branch;
    base = sha_of-check (value_at 7 values) "record_base" r.base_commit read.read_base;
  }

  Read-Tasked : (values : List Scalar) (r : WorktreeRecord) → Read values r → Tasked os r
  Read-Tasked values r read = record {
    own_task = task_of-matches (value_at 9 values) "record_task_id" r.task_id read.read_task;
    revised =
        positive_of-check (value_at 10 values) "record_revision" none r.revision read.read_revision;
    attempted =
        positive_of-check (value_at 11 values) "record_attempt" (some 3) r.attempt
          read.read_attempt;
    dispatched =
        safe_id_of-check os (value_at 12 values) "record_dispatch_id" "DSP-" r.dispatch_id
          read.read_dispatch;
  }

  Read-check_evidence :
      (values : List Scalar) (r : WorktreeRecord) → Read values r → check_evidence r ≡ returns tt
  unfolding check_evidence
  Read-check_evidence values r read =
      and_next
        (optional_time_of-check (value_at 14 values) "created_at" r.created_at read.read_created)
        (and_next
          (optional_time_of-check (value_at 15 values) "release_requested_at" r.release_requested_at
            read.read_requested)
          (and_next
            (optional_time_of-check (value_at 16 values) "released_at" r.released_at read.read_gone)
            (and_next
              (digest_of-check (value_at 17 values) "inventory_digest" r.inventory_digest
                read.read_inventory)
              (digest_of-check (value_at 18 values) "record_digest" r.content_digest
                read.read_digest))))

  -- The constructor makes a record of values only if the record passes its checks.
  pub record_of-check_record :
      (values : List Scalar) (r : WorktreeRecord)
      → record_of os values ≡ returns r
      → check_record os r ≡ returns tt
  unfolding check_record
  record_of-check_record values r h =
      let (read, times) = record_of-Read values r h in
      and_next (Identified-check_identity r (Read-Identified values r read)) (
        and_next (sha_of-check (value_at 8 values) "record_head" r.head_commit read.read_head) (
          and_next (Tasked-check_task r (Read-Tasked values r read))
            (and_next (Read-check_evidence values r read) times)))
