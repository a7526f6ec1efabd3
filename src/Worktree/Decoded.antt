-- ===== src/Worktree/Decoded.antt =====
-- The constructors behind the decoders of skills/agentdesk/scripts/worktree_lifecycle_store.py,
-- on the values of a record.
use dockyard.Base.Chars.{text_of-codes}
use dockyard.Base.Text.{codes}
use dockyard.Base.{
  ℕ, ◌≡◌, refl, ◌==◌, comparable_string, String, true, List, [], ◌∷◌, ◌++◌, Option, none, some,
  returns, first_returns, guarded, past, and_next, ◌▸⟨◌⟩◌, ℕ_discrete,
}
use mathlib.Core.List.{map}
use dockyard.Portfolio.Codec.{Scalar, words, number, optional}
use dockyard.Worktree.{
  Platform, WorktreeError, WorktreePhase, check_branch, check_digest, check_optional_timestamp,
  check_path, check_positive, check_safe_id, check_sha40, check_timestamp_text, creating,
  input_error, schema_error, matches_task, phase_text, ready, released, releasing, reserved,
  schema_version,
}
use dockyard.Worktree.Records.{
  WorktreeRecord, check_identity, check_phase_times, check_record, check_task, record_fields,
}
use dockyard.Worktree.Checks.{check_record-Checked}
use dockyard.Worktree.Document.Lines.{value_of}
use dockyard.Worktree.Decoding.{
  as_number, phase_of, schema_of, sha_of, digest_of, time_of, optional_time_of, positive_of,
  task_of, checked_branch_of, safe_id_of, path_of, record_of,
}

-- The fields of a record with its digest.
abbrev pub all_fields : WorktreeRecord → List (String × Scalar)
all_fields r = record_fields r ++ (("content_digest", words r.content_digest) ∷ [])

pub phase_of-words :
    (p : WorktreePhase) (e : WorktreeError) → phase_of (words (phase_text p)) e ≡ returns p
unfolding phase_of phase_text ℕ_discrete
phase_of-words reserved e = refl
phase_of-words creating e = refl
phase_of-words ready e = refl
phase_of-words releasing e = refl
phase_of-words released e = refl

pub schema_of-words :
    (s : String) (e : WorktreeError)
    → (s == schema_version) ≡ true
    → schema_of (words s) e ≡ returns s
unfolding schema_of
schema_of-words s e h = rw (text_of-codes s, h) refl

pub sha_of-words :
    (s name : String) → check_sha40 s name ≡ returns tt → sha_of (words s) name ≡ returns s
unfolding sha_of
sha_of-words s name h = rw (text_of-codes s) (and_next h refl)

pub digest_of-words :
    (s name : String) → check_digest s name ≡ returns tt → digest_of (words s) name ≡ returns s
unfolding digest_of
digest_of-words s name h = rw (text_of-codes s) (and_next h refl)

pub time_of-words :
    (s name : String)
    → check_timestamp_text s name ≡ returns tt
    → time_of (words s) name ≡ returns s
unfolding time_of
time_of-words s name h = rw (text_of-codes s) (and_next h refl)

optional_time_of-optional :
    (o : Option String) (name : String)
    → check_optional_timestamp o name ≡ returns tt
    → optional_time_of (optional o) name ≡ returns o
unfolding optional_time_of time_of check_optional_timestamp
optional_time_of-optional none name h = refl
optional_time_of-optional (some s) name h = rw (text_of-codes s, h) refl

pub positive_of-number :
    (n : ℕ) (name : String) (most : Option ℕ)
    → check_positive n name most ≡ returns tt
    → positive_of (number n) name most ≡ returns n
unfolding positive_of as_number
positive_of-number n name most h = and_next h refl

pub task_of-words :
    (s name : String) → matches_task (codes s) ≡ true → task_of (words s) name ≡ returns s
unfolding task_of
task_of-words s name h = rw (text_of-codes s, h) refl

pub checked_branch_of-words :
    (s : String) → check_branch s ≡ returns tt → checked_branch_of (words s) ≡ returns s
unfolding checked_branch_of
checked_branch_of-words s h = rw (text_of-codes s) (and_next h refl)

module _ (os : Platform) where
  pub safe_id_of-words :
      (s name prefix : String)
      → check_safe_id os s name prefix ≡ returns tt
      → safe_id_of os (words s) name prefix ≡ returns s
  unfolding safe_id_of
  safe_id_of-words s name prefix h = rw (text_of-codes s) (and_next h refl)

  pub path_of-words :
      (s name : String) → check_path os s name ≡ returns tt → path_of os (words s) name ≡ returns s
  unfolding path_of
  path_of-words s name h = rw (text_of-codes s) (and_next h refl)

  -- The checks of the identity and of the task, one by one.
  pub record Identified (r : WorktreeRecord) : Type 0 where
    pub schema : (r.record_schema == schema_version) ≡ true
    pub worktree : check_safe_id os r.worktree_id "record_worktree_id" "WT-" ≡ returns tt
    pub reservation : check_safe_id os r.reservation_id "record_reservation_id" "WTR-" ≡ returns tt
    pub common_dir : check_path os r.repository_common_dir "record_common_dir" ≡ returns tt
    pub root : check_path os r.repository_root "record_root" ≡ returns tt
    pub path : check_path os r.worktree_path "record_path" ≡ returns tt
    pub own_branch : check_branch r.branch ≡ returns tt
    pub base : check_sha40 r.base_commit "record_base" ≡ returns tt

  pub check_identity-Identified :
      (r : WorktreeRecord) → check_identity os r ≡ returns tt → Identified r
  unfolding check_identity
  check_identity-Identified r h =
      let (schema, h₁) = guarded (r.record_schema == schema_version) _ _ h in
      let w = check_safe_id os r.worktree_id "record_worktree_id" "WT-" in
      let v = check_safe_id os r.reservation_id "record_reservation_id" "WTR-" in
      let c = check_path os r.repository_common_dir "record_common_dir" in
      let d = check_path os r.repository_root "record_root" in
      let e = check_path os r.worktree_path "record_path" in
      let f = check_branch r.branch in
      let h₂ = past w _ tt h₁ in
      let h₃ = past v _ tt h₂ in
      let h₄ = past c _ tt h₃ in
      let h₅ = past d _ tt h₄ in
      let h₆ = past e _ tt h₅ in
      record {
        schema = schema;
        worktree = first_returns w _ tt h₁;
        reservation = first_returns v _ tt h₂;
        common_dir = first_returns c _ tt h₃;
        root = first_returns d _ tt h₄;
        path = first_returns e _ tt h₅;
        own_branch = first_returns f _ tt h₆;
        base = past f _ tt h₆;
      }

  pub record Tasked (r : WorktreeRecord) : Type 0 where
    pub own_task : matches_task (codes r.task_id) ≡ true
    pub revised : check_positive r.revision "record_revision" none ≡ returns tt
    pub attempted : check_positive r.attempt "record_attempt" (some 3) ≡ returns tt
    pub dispatched : check_safe_id os r.dispatch_id "record_dispatch_id" "DSP-" ≡ returns tt

  pub check_task-Tasked : (r : WorktreeRecord) → check_task os r ≡ returns tt → Tasked r
  unfolding check_task
  check_task-Tasked r h =
      let (task, h₁) = guarded (matches_task (codes r.task_id)) _ _ h in
      let a = check_positive r.revision "record_revision" none in
      let b = check_positive r.attempt "record_attempt" (some 3) in
      let h₂ = past a _ tt h₁ in
      record {
        own_task = task;
        revised = first_returns a _ tt h₁;
        attempted = first_returns b _ tt h₂;
        dispatched = past b _ tt h₂;
      }

  -- The constructor makes of the values of a record that record.
  pub record_of-values :
      (r : WorktreeRecord)
      → check_record os r ≡ returns tt
      → record_of os (map value_of (all_fields r)) ≡ returns r
  unfolding record_of record_fields check_phase_times
  record_of-values r h =
      let c = check_record-Checked os r h in
      let i = check_identity-Identified r c.identity in
      let t = check_task-Tasked r c.task in
      let times : check_phase_times r ≡ returns tt =
        and_next c.since_ready (and_next c.since_asked c.since_gone) in
      phase_of-words r.phase (schema_error "record_fields")
      ▸⟨ _ ⟩ schema_of-words r.record_schema (input_error "record_schema") i.schema
      ▸⟨ _ ⟩ safe_id_of-words r.worktree_id "record_worktree_id" "WT-" i.worktree
      ▸⟨ _ ⟩ safe_id_of-words r.reservation_id "record_reservation_id" "WTR-" i.reservation
      ▸⟨ _ ⟩ path_of-words r.repository_common_dir "record_common_dir" i.common_dir
      ▸⟨ _ ⟩ path_of-words r.repository_root "record_root" i.root
      ▸⟨ _ ⟩ path_of-words r.worktree_path "record_path" i.path
      ▸⟨ _ ⟩ checked_branch_of-words r.branch i.own_branch
      ▸⟨ _ ⟩ sha_of-words r.base_commit "record_base" i.base
      ▸⟨ _ ⟩ sha_of-words r.head_commit "record_head" c.head
      ▸⟨ _ ⟩ task_of-words r.task_id "record_task_id" t.own_task
      ▸⟨ _ ⟩ positive_of-number r.revision "record_revision" none t.revised
      ▸⟨ _ ⟩ positive_of-number r.attempt "record_attempt" (some 3) t.attempted
      ▸⟨ _ ⟩ safe_id_of-words r.dispatch_id "record_dispatch_id" "DSP-" t.dispatched
      ▸⟨ _ ⟩ optional_time_of-optional r.created_at "created_at" c.created
      ▸⟨ _ ⟩ optional_time_of-optional r.release_requested_at "release_requested_at" c.requested
      ▸⟨ _ ⟩ optional_time_of-optional r.released_at "released_at" c.gone
      ▸⟨ _ ⟩ digest_of-words r.inventory_digest "inventory_digest" c.inventory
      ▸⟨ _ ⟩ digest_of-words r.content_digest "record_digest" c.digest
      ▸⟨ _ ⟩ and_next times refl
