-- ===== src/Difficulty/Rationale.antt =====
-- The dimensions and the table of rationale keys of skills/agentdesk/scripts/difficulty_assessor.py.
use dockyard.Base.{Comparable}
use dockyard.Base.{
  ◌==◌, comparable_string, comparable_number, String, Bool, true, false, if◌then◌else◌, List, [],
  ◌∷◌, Option, none, some,
}
use dockyard.CoreTypes.{TaskDifficulty, basic, standard, advanced, expert, comparable_difficulty}

pub data AssessmentDimension : Type 0 where
  modification_scope requirement_clarity state_concurrency public_contract : AssessmentDimension
  failure_impact rollback_complexity dependency_conflict : AssessmentDimension

unfoldable pub AssessmentDimension-discrete : Discrete AssessmentDimension
AssessmentDimension-discrete = hlevel

instance abbrev pub comparable_dimension : Comparable AssessmentDimension
comparable_dimension = record { dec = AssessmentDimension-discrete }

pub record DimensionResult : Type 0 where
  pub dimension : AssessmentDimension
  pub difficulty : TaskDifficulty
  pub rationale_key : String
  pub hard_floor : Bool

-- `_DIMENSION_ORDER`
abbrev pub dimension_order : List AssessmentDimension
dimension_order =
    modification_scope ∷ requirement_clarity ∷ state_concurrency ∷ public_contract ∷ failure_impact
    ∷ rollback_complexity ∷ dependency_conflict ∷ []

abbrev pub row : String → AssessmentDimension → TaskDifficulty → Bool → DimensionResult
row key dimension difficulty hard_floor = record {
  dimension = dimension;
  difficulty = difficulty;
  rationale_key = key;
  hard_floor = hard_floor;
}

-- `_RATIONALE_POLICY`, each row as the result that it gives.
unfoldable pub rationale_policy : List DimensionResult
rationale_policy =
    row "scope.bounded" modification_scope basic false
    ∷ row "scope.single_module" modification_scope standard false
    ∷ row "scope.cross_module" modification_scope advanced false
    ∷ row "scope.architecture" modification_scope expert false
    ∷ row "clarity.explicit" requirement_clarity basic false
    ∷ row "clarity.known_pattern" requirement_clarity standard false
    ∷ row "clarity.ambiguous_constraints" requirement_clarity advanced false
    ∷ row "clarity.open_decision" requirement_clarity expert false
    ∷ row "concurrency.single_writer" state_concurrency basic false
    ∷ row "concurrency.shared_state" state_concurrency standard false
    ∷ row "concurrency.lock_cas" state_concurrency advanced true
    ∷ row "concurrency.cross_process_recovery" state_concurrency expert true
    ∷ row "contract.internal" public_contract basic false
    ∷ row "contract.additive" public_contract standard false
    ∷ row "contract.compatibility_sensitive" public_contract advanced false
    ∷ row "contract.breaking_migration" public_contract expert true
    ∷ row "impact.informational" failure_impact basic false
    ∷ row "impact.local_failure" failure_impact standard false
    ∷ row "impact.service_degradation" failure_impact advanced false
    ∷ row "impact.security_boundary" failure_impact expert true
    ∷ row "impact.data_corruption" failure_impact expert true
    ∷ row "rollback.simple" rollback_complexity basic false
    ∷ row "rollback.tested" rollback_complexity standard false
    ∷ row "rollback.multi_step" rollback_complexity advanced false
    ∷ row "rollback.irreversible" rollback_complexity expert true
    ∷ row "dependency.none" dependency_conflict basic false
    ∷ row "dependency.known" dependency_conflict standard false
    ∷ row "dependency.cross_repository" dependency_conflict advanced false
    ∷ row "dependency.unresolved" dependency_conflict expert false
    ∷ []

-- `_policy_for`, a loop over the policy.
unfoldable pub policy_for : String → List DimensionResult → Option DimensionResult
policy_for key [] = none
policy_for key (r ∷ rows) = if key == r.rationale_key then some r else policy_for key rows
