-- ===== src/Difficulty/Examples.antt =====
-- Two assessments: one under a hard floor, one lowered with an approval.
use dockyard.Base.{true, false}
use dockyard.Base.Text
use dockyard.Base.{
  ◌≡◌, refl, String, [], ◌∷◌, List, some, none, returns, raises, ℕ_discrete, String-discrete,
  Option,
}
use dockyard.CoreTypes.{TaskDifficulty, basic, standard, expert, TaskDifficulty-discrete, advanced}
use dockyard.Difficulty.Maximum.{difficulty_index, maximum_from, maximum_difficulty}
use dockyard.Difficulty.Settling.{IsSound, settled}
use dockyard.Difficulty.Assessment.{assess_task_difficulty-IsSound}
use dockyard.Difficulty.{
  AssessRequest, DimensionResult, down, rationale_policy, policy_for, clean_string, after_prefix,
  is_assessment_id, is_approval_id, validate_optional_string, validate_approval_id,
  dimension_results_from, validated_dimension_results, direction_for, settle,
  assess_task_difficulty, AssessmentDimension-discrete, row, modification_scope,
  requirement_clarity, state_concurrency, public_contract, failure_impact, rollback_complexity,
  dependency_conflict, selected_below_minimum, downward_override_approval,
  rationale_dimension_order,
}

program : Unit {0}
unfolding rationale_policy policy_for clean_string after_prefix is_assessment_id is_approval_id
    validate_optional_string validate_approval_id dimension_results_from validated_dimension_results
    direction_for settle assess_task_difficulty difficulty_index maximum_from maximum_difficulty
    TaskDifficulty-discrete AssessmentDimension-discrete ℕ_discrete String-discrete Text.is_blank
    Text.is_wrapped Text.has_control Text.strip Text.lstrip Text.is_space
program = tt

abbrev keys : String → List String
keys scope =
    scope ∷ "clarity.explicit" ∷ "concurrency.lock_cas" ∷ "contract.internal"
    ∷ "impact.local_failure" ∷ "rollback.simple" ∷ "dependency.none" ∷ []

abbrev request : String → Option TaskDifficulty → Option String → Option String → AssessRequest
request scope selected reason approval = record {
  assessment_id = "ASM-1";
  task_id = "TASK-1";
  revision = 1;
  rationale_keys = keys scope;
  selected_difficulty = selected;
  override_reason = reason;
  approval_id = approval;
}

abbrev results : String → TaskDifficulty → List DimensionResult
results scope difficulty =
    row scope modification_scope difficulty false
    ∷ row "clarity.explicit" requirement_clarity basic false
    ∷ row "concurrency.lock_cas" state_concurrency advanced true
    ∷ row "contract.internal" public_contract basic false
    ∷ row "impact.local_failure" failure_impact standard false
    ∷ row "rollback.simple" rollback_complexity basic false
    ∷ row "dependency.none" dependency_conflict basic false
    ∷ []

-- The scope alone would make it an expert's task; an approval lowers that to the hard floor.
abbrev lowering : AssessRequest
lowering = request "scope.architecture" (some advanced) (some "pm_known_pattern") (some "APR-7")

lowered_run :
    assess_task_difficulty lowering
    ≡ returns (settled lowering (results "scope.architecture" expert) down)
unfolding program
lowered_run = refl

below_floor :
    assess_task_difficulty (request "scope.bounded" (some standard) none none)
    ≡ raises selected_below_minimum
unfolding program
below_floor = refl

unapproved :
    assess_task_difficulty
      (request "scope.architecture" (some advanced) (some "pm_known_pattern") none)
    ≡ raises downward_override_approval
unfolding program
unapproved = refl

misplaced :
    assess_task_difficulty (request "clarity.explicit" none none none)
    ≡ raises rationale_dimension_order
unfolding program
misplaced = refl

abbrev plain : AssessRequest
plain = request "scope.bounded" none none none

plain_results :
    validated_dimension_results plain.rationale_keys ≡ returns (results "scope.bounded" basic)
unfolding program
plain_results = refl

plain_id : is_assessment_id plain.assessment_id ≡ true
unfolding program
plain_id = refl

plain_clean :
    (clean_string plain.assessment_id ≡ returns tt) × (clean_string plain.task_id ≡ returns tt)
unfolding program
plain_clean = (refl, refl)

assess_task_difficulty-IsSound_example :
    IsSound (settled lowering (results "scope.architecture" expert) down)
assess_task_difficulty-IsSound_example =
    assess_task_difficulty-IsSound lowering
      (settled lowering (results "scope.architecture" expert) down) lowered_run
