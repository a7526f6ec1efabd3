-- ===== src/Difficulty/Assessment.antt =====
-- What `assess_task_difficulty` (skills/agentdesk/scripts/difficulty_assessor.py) guarantees.

use dockyard.Base.{
  ℕ, ◌≡◌, ◌≤◌, leb, ltb, ◌==◌, comparable_string, comparable_number, String, true, false, List, map,
  Option, none, peel, past, returns, require, arith, refl, ==-refl,
}
use dockyard.CoreTypes.{TaskDifficulty, comparable_difficulty}
use dockyard.Difficulty.Maximum.{difficulty_index, Below}
use dockyard.Difficulty.{
  comparable_dimension, DimensionResult, unchanged, TaskDifficultyAssessment, dimension_order,
  count, rationale_keys_count, assessment_id_format, revision_range, clean_string,
  validated_dimension_results, AssessRequest, minimum_of, recommended_of, direction_for, settle,
  assess_task_difficulty, is_assessment_id, validate_optional_string, validate_approval_id,
}
use dockyard.Difficulty.Settling.{IsSound, results_order, settled, settle-IsSound, minimum-Below}

validated_order :
    (keys : List String) (results : List DimensionResult)
    → validated_dimension_results keys ≡ returns results
    → map (λ q. q.dimension) results ≡ dimension_order
unfolding validated_dimension_results
validated_order keys results h =
    results_order dimension_order keys results
      (past (require (count keys == count dimension_order) rationale_keys_count) _ results h)

assess_parts :
    (r : AssessRequest) (a : TaskDifficultyAssessment)
    → assess_task_difficulty r ≡ returns a
    → (results : List DimensionResult) × (validated_dimension_results r.rationale_keys
        ≡ returns results)
      × (settle r results ≡ returns a)
unfolding assess_task_difficulty
assess_parts r a h =
    let h₁ = past (clean_string r.assessment_id) _ a h in
    let h₂ = past (require (is_assessment_id r.assessment_id) assessment_id_format) _ a h₁ in
    let h₃ = past (clean_string r.task_id) _ a h₂ in
    let h₄ = past (require (leb 1 r.revision) revision_range) _ a h₃ in
    let (results, done, h₅) = peel (validated_dimension_results r.rationale_keys) _ a h₄ in
    let h₆ = past (validate_optional_string r.override_reason) _ a h₅ in
    let h₇ = past (validate_optional_string r.approval_id) _ a h₆ in
    (results, done, past (validate_approval_id r.approval_id) _ a h₇)

-- A returned assessment has one result for each of the seven dimensions in order, selects no less
-- than any hard floor, recommends the least difficulty not below any result, and is justified: as
-- recommended or raised without override fields, or lowered with a listed reason and an approval.
pub assess_task_difficulty-IsSound :
    (r : AssessRequest) (a : TaskDifficultyAssessment)
    → assess_task_difficulty r ≡ returns a
    → IsSound a
assess_task_difficulty-IsSound r a h =
    let (results, done, rest) = assess_parts r a h in
    settle-IsSound r results a (validated_order r.rationale_keys results done) rest

no_string : (o : Option String) → o ≡ none → validate_optional_string o ≡ returns tt
unfolding validate_optional_string
no_string o h = rw h refl

no_approval : (o : Option String) → o ≡ none → validate_approval_id o ≡ returns tt
unfolding validate_approval_id
no_approval o h = rw h refl

not-Below :
    (a b : TaskDifficulty) → Below b a → ltb (difficulty_index a) (difficulty_index b) ≡ false
not-Below a b h = ground (arith)

leb-true : (a b : ℕ) → a ≤ b → leb a b ≡ true
leb-true a b h = ground (arith)

settle_default :
    (r : AssessRequest) (results : List DimensionResult)
    → r.selected_difficulty ≡ none
    → r.override_reason ≡ none
    → r.approval_id ≡ none
    → settle r results ≡ returns (settled r results unchanged)
unfolding settle direction_for
settle_default r results s o p =
    rw
      (
        s,
        o,
        p,
        ==-refl (recommended_of results),
        not-Below (recommended_of results) (minimum_of results) (minimum-Below results),
      )
      refl

-- Without a selection, a reason and an approval, an assessment of well-formed arguments is
-- returned and selects the recommended difficulty.
pub assess_task_difficulty_default :
    (r : AssessRequest) (results : List DimensionResult)
    → r.selected_difficulty ≡ none
    → r.override_reason ≡ none
    → r.approval_id ≡ none
    → clean_string r.assessment_id ≡ returns tt
    → is_assessment_id r.assessment_id ≡ true
    → clean_string r.task_id ≡ returns tt
    → 1 ≤ r.revision
    → validated_dimension_results r.rationale_keys ≡ returns results
    → assess_task_difficulty r ≡ returns (settled r results unchanged)
unfolding assess_task_difficulty
assess_task_difficulty_default r results s o p c f t v k =
    rw
      (
        c,
        f,
        t,
        leb-true 1 r.revision v,
        k,
        no_string r.override_reason o,
        no_string r.approval_id p,
        no_approval r.approval_id p,
      )
      (settle_default r results s o p)
