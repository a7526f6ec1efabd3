-- ===== src/Difficulty/Settling.antt =====
-- What the part of `assess_task_difficulty` after the validation (skills/agentdesk/scripts/difficulty_assessor.py) guarantees.
use dockyard.Difficulty.{schema_version, policy_version}
use dockyard.Base.{
  ◌≡◌, ◌<◌, comparable_string, comparable_number, String, true, false, List, [], ◌∷◌, map, keep,
  Option, Attempt, attempt_cases, returns, All, All-map, arith, refl, sym, subst, inl, inr, ◌⊎◌,
}
use dockyard.Base.Members.{All-of_map, keep-All, All-of_keep}
use dockyard.CoreTypes.{TaskDifficulty, comparable_difficulty}
use dockyard.Difficulty.Maximum.{
  difficulty_index, difficulty_index_injective, maximum_difficulty_above, maximum_difficulty_least,
  Below,
}
use dockyard.Difficulty.{
  AssessmentDimension, comparable_dimension, DimensionResult, OverrideDirection, unchanged, up,
  down, TaskDifficultyAssessment, AssessmentError, dimension_order, dimension_results_from,
  AssessRequest, is_override_reason, present, minimum_of, recommended_of, selected_of,
  direction_for, settle,
}

-- Why the selected difficulty differs from the recommended one.
pub data Justified (a : TaskDifficultyAssessment) : Type 0 where
  as_recommended :
      a.override_direction ≡ unchanged
      → a.selected_difficulty ≡ a.recommended_difficulty
      → present a.override_reason ≡ false
      → present a.approval_id ≡ false
      → Justified a
  raised :
      a.override_direction ≡ up
      → difficulty_index a.recommended_difficulty < difficulty_index a.selected_difficulty
      → present a.override_reason ≡ false
      → present a.approval_id ≡ false
      → Justified a
  lowered :
      a.override_direction ≡ down
      → difficulty_index a.selected_difficulty < difficulty_index a.recommended_difficulty
      → is_override_reason a.override_reason ≡ true
      → present a.approval_id ≡ true
      → Justified a

pub record IsSound (a : TaskDifficultyAssessment) : Type 0 where
  pub in_order : map (λ r. r.dimension) a.dimension_results ≡ dimension_order
  pub floors_met :
      All (λ r. r.hard_floor ≡ true → Below r.difficulty a.selected_difficulty) a.dimension_results
  pub recommended_above : All (λ r. Below r.difficulty a.recommended_difficulty) a.dimension_results
  pub recommended_least :
      (b : TaskDifficulty)
      → All (λ r. Below r.difficulty b) a.dimension_results
      → Below a.recommended_difficulty b
  pub minimum_low : Below a.minimum_difficulty a.recommended_difficulty
  pub minimum_met : Below a.minimum_difficulty a.selected_difficulty
  pub justified : Justified a

pub results_order :
    (ds : List AssessmentDimension) (keys : List String) (rs : List DimensionResult)
    → dimension_results_from ds keys ≡ returns rs
    → map (λ r. r.dimension) rs ≡ ds
unfolding dimension_results_from
results_order [] [] [] h = refl
results_order [] [] (r ∷ rs) h = cc
results_order [] (k ∷ keys) rs h = cc
results_order (d ∷ ds) [] rs h = cc
results_order (d ∷ ds) (k ∷ keys) rs h = elim (attempt_cases (dimension_results_from ds keys)) [
  | inl (e, failed) ↦ absurd (ground (arith))
  | inr (rest, done) ↦ ground (arith, results_order ds keys rest done)
]

direction_cases :
    (s r : TaskDifficulty) (reason approval : Option String) (d : OverrideDirection)
    → direction_for s r reason approval ≡ returns d
    → ((d ≡ unchanged) × (s ≡ r) × (present reason ≡ false) × (present approval ≡ false))
      ⊎ (((d ≡ up)
            × (difficulty_index r < difficulty_index s)
            × (present reason ≡ false)
            × (present approval ≡ false))
          ⊎ ((d ≡ down)
              × (difficulty_index s < difficulty_index r)
              × (is_override_reason reason ≡ true)
              × (present approval ≡ true)))
unfolding direction_for
direction_cases s r reason approval d h = grind (arith, difficulty_index_injective)

abbrev pub settled :
    AssessRequest → List DimensionResult → OverrideDirection → TaskDifficultyAssessment
settled r results direction = record {
  schema_version = schema_version;
  assessment_id = r.assessment_id;
  task_id = r.task_id;
  revision = r.revision;
  minimum_difficulty = minimum_of results;
  recommended_difficulty = recommended_of results;
  selected_difficulty = selected_of r.selected_difficulty (recommended_of results);
  dimension_results = results;
  override_direction = direction;
  override_reason = r.override_reason;
  approval_id = r.approval_id;
  policy_version = policy_version;
}

abbrev chosen_direction :
    AssessRequest → List DimensionResult → Attempt AssessmentError OverrideDirection
chosen_direction r results =
    direction_for (selected_of r.selected_difficulty (recommended_of results))
      (recommended_of results) r.override_reason r.approval_id

settle_cases :
    (r : AssessRequest) (results : List DimensionResult) (a : TaskDifficultyAssessment)
    → settle r results ≡ returns a
    → (d : OverrideDirection) × (chosen_direction r results ≡ returns d)
      × Below (minimum_of results) (selected_of r.selected_difficulty (recommended_of results))
      × (a ≡ settled r results d)
unfolding settle
settle_cases r results a h = elim (attempt_cases (chosen_direction r results)) [
  | inl (e, failed) ↦ absurd (ground (arith))
  | inr (d, done) ↦ (d, done, ground (arith), ground (arith))
]

-- The hard floors, and all results, below their maxima.
floors-Below :
    (results : List DimensionResult)
    → All (λ r. r.hard_floor ≡ true → Below r.difficulty (minimum_of results)) results
floors-Below results =
    All-of_keep (λ r. Below r.difficulty (minimum_of results)) (λ r. r.hard_floor) results
      (All-of_map (λ v. Below v (minimum_of results)) (λ r. r.difficulty)
        (keep (λ r. r.hard_floor) results)
        (maximum_difficulty_above (map (λ r. r.difficulty) (keep (λ r. r.hard_floor) results))))

results-Below :
    (results : List DimensionResult)
    → All (λ r. Below r.difficulty (recommended_of results)) results
results-Below results =
    All-of_map (λ v. Below v (recommended_of results)) (λ r. r.difficulty) results
      (maximum_difficulty_above (map (λ r. r.difficulty) results))

All-map_of :
    (b : TaskDifficulty) (results : List DimensionResult)
    → All (λ r. Below r.difficulty b) results
    → All (λ v. Below v b) (map (λ r. r.difficulty) results)
All-map_of b [] h = tt
All-map_of b (r ∷ rs) h = (h.0, All-map_of b rs h.1)

pub minimum-Below :
    (results : List DimensionResult) → Below (minimum_of results) (recommended_of results)
minimum-Below results =
    maximum_difficulty_least (recommended_of results)
      (map (λ r. r.difficulty) (keep (λ r. r.hard_floor) results))
      (All-map_of (recommended_of results) (keep (λ r. r.hard_floor) results) (
        keep-All (λ r. Below r.difficulty (recommended_of results)) (λ r. r.hard_floor) results
          (All-map (λ r. Below r.difficulty (recommended_of results))
            (λ r. r.hard_floor ≡ true → Below r.difficulty (recommended_of results)) (λ r k f. k)
            results (results-Below results))))

direction-Justified :
    (r : AssessRequest) (results : List DimensionResult) (d : OverrideDirection)
    → chosen_direction r results ≡ returns d
    → Justified (settled r results d)
direction-Justified r results d h =
    elim (direction_cases (selected_of r.selected_difficulty (recommended_of results))
      (recommended_of results) r.override_reason r.approval_id d h) [
        | inl (e, s, p, q) ↦ as_recommended e s p q
        | inr (inl (e, s, p, q)) ↦ raised e s p q
        | inr (inr (e, s, p, q)) ↦ lowered e s p q
      ]

Below-trans : (a b c : TaskDifficulty) → Below a b → Below b c → Below a c
Below-trans a b c h k = omega arith

pub settle-IsSound :
    (r : AssessRequest) (results : List DimensionResult) (a : TaskDifficultyAssessment)
    → map (λ q. q.dimension) results ≡ dimension_order
    → settle r results ≡ returns a
    → IsSound a
settle-IsSound r results a o h =
    let (d, run, low, same) = settle_cases r results a h in
    subst IsSound (sym same) (record {
      in_order = o;
      floors_met =
          All-map (λ q. q.hard_floor ≡ true → Below q.difficulty (minimum_of results))
            (λ q.
              q.hard_floor ≡ true
              → Below q.difficulty (selected_of r.selected_difficulty (recommended_of results)))
            (λ q k f. Below-trans q.difficulty (minimum_of results) _ (k f) low) results
            (floors-Below results);
      recommended_above = results-Below results;
      recommended_least = λ b k.
          maximum_difficulty_least b (map (λ q. q.difficulty) results) (All-map_of b results k);
      minimum_low = minimum-Below results;
      minimum_met = low;
      justified = direction-Justified r results d run;
    })
