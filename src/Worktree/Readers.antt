-- ===== src/Worktree/Readers.antt =====
-- What the checked values of a document in skills/agentdesk/scripts/worktree_lifecycle_store.py are.
use dockyard.Base.Text.{codes, ◌<>◌}
use dockyard.Base.{
  ℕ, ◌≡◌, refl, sym, ap, ◌∙◌, ◌==◌, comparable_string, String, true, Option, none, some, returns,
  require, required, along, checked, arith,
}
use dockyard.Portfolio.Codec.{Scalar, null, flag, number, word}
use dockyard.Worktree.{
  Platform, WorktreeError, check_branch, check_digest, check_optional_timestamp, check_path,
  check_positive, check_safe_id, check_sha40, check_timestamp_text, input_error, matches_task,
  schema_version,
}
use dockyard.Worktree.Decoding.{
  as_number, as_text, checked_branch_of, digest_of, optional_time_of, path_of, positive_of,
  safe_id_of, schema_of, sha_of, task_of, time_of,
}

pub schema_of-same :
    (v : Scalar) (e : WorktreeError) (s : String)
    → schema_of v e ≡ returns s
    → (s == schema_version) ≡ true
unfolding schema_of
schema_of-same v e s h =
    required (s == schema_version) e
      (checked (as_text v e) (λ x. require (x == schema_version) e) s h)

pub task_of-matches :
    (v : Scalar) (name s : String) → task_of v name ≡ returns s → matches_task (codes s) ≡ true
unfolding task_of
task_of-matches v name s h = required (matches_task (codes s)) (input_error name) (
    checked (as_text v (input_error name))
      (λ x. require (matches_task (codes x)) (input_error name)) s h)

pub sha_of-check :
    (v : Scalar) (name s : String) → sha_of v name ≡ returns s → check_sha40 s name ≡ returns tt
unfolding sha_of
sha_of-check v name s h =
    checked (as_text v (input_error (name <> "_format"))) (λ x. check_sha40 x name) s h

pub digest_of-check :
    (v : Scalar) (name s : String) → digest_of v name ≡ returns s → check_digest s name ≡ returns tt
unfolding digest_of
digest_of-check v name s h =
    checked (as_text v (input_error (name <> "_format"))) (λ x. check_digest x name) s h

pub optional_time_of-check :
    (v : Scalar) (name : String) (o : Option String)
    → optional_time_of v name ≡ returns o
    → check_optional_timestamp o name ≡ returns tt
unfolding optional_time_of time_of check_optional_timestamp
optional_time_of-check null name none h = refl
optional_time_of-check null name (some s) h = absurd (ground (arith))
optional_time_of-check (flag b) name o h = absurd (ground (arith))
optional_time_of-check (number n) name o h = absurd (ground (arith))
optional_time_of-check (word cs) name o h = along (time_of (word cs) name) _ o h (λ s e k.
    let same : some s ≡ o = cc in
    ap (λ o. check_optional_timestamp o name) (sym same)
    ∙ checked (as_text (word cs) (input_error (name <> "_format")))
        (λ x. check_timestamp_text x name) s e)

pub positive_of-check :
    (v : Scalar) (name : String) (most : Option ℕ) (n : ℕ)
    → positive_of v name most ≡ returns n
    → check_positive n name most ≡ returns tt
unfolding positive_of
positive_of-check v name most n h =
    checked (as_number v (input_error (name <> "_range"))) (λ x. check_positive x name most) n h

pub checked_branch_of-check :
    (v : Scalar) (s : String) → checked_branch_of v ≡ returns s → check_branch s ≡ returns tt
unfolding checked_branch_of
checked_branch_of-check v s h = checked (as_text v (input_error "branch_type")) check_branch s h

module _ (os : Platform) where
  pub safe_id_of-check :
      (v : Scalar) (name prefix s : String)
      → safe_id_of os v name prefix ≡ returns s
      → check_safe_id os s name prefix ≡ returns tt
  unfolding safe_id_of
  safe_id_of-check v name prefix s h =
      checked (as_text v (input_error (name <> "_type"))) (λ x. check_safe_id os x name prefix) s h

  pub path_of-check :
      (v : Scalar) (name s : String)
      → path_of os v name ≡ returns s
      → check_path os s name ≡ returns tt
  unfolding path_of
  path_of-check v name s h =
      checked (as_text v (input_error (name <> "_type"))) (λ x. check_path os x name) s h
