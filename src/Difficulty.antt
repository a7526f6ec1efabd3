-- ===== src/Difficulty.antt =====
-- skills/agentdesk/scripts/difficulty_assessor.py: the difficulty assessment of a task.
pub mod Maximum
pub mod Settling
pub mod Assessment
mod Examples
mod Rationale
unfoldable pub use Rationale.*
use dockyard.Base.Text
use dockyard.Base.{Comparable}
use dockyard.Base.{
  ℕ, zero, suc, ◌≡◌, leb, ltb, ◌==◌, comparable_string, comparable_number, String, Bool, true,
  false, not, ◌&&◌, ◌||◌, if◌then◌else◌, List, [], ◌∷◌, map, any, keep, Option, none, some, Attempt,
  returns, raises, require, or_raise, ◌>>=◌, ◌>>◌,
}
use dockyard.CoreTypes.{TaskDifficulty, basic, standard, advanced, expert, comparable_difficulty}
use Maximum.{difficulty_index, maximum_difficulty}

pub data OverrideDirection : Type 0 where
  unchanged up down : OverrideDirection

pub record TaskDifficultyAssessment : Type 0 where
  pub schema_version : String
  pub assessment_id : String
  pub task_id : String
  pub revision : ℕ
  pub minimum_difficulty : TaskDifficulty
  pub recommended_difficulty : TaskDifficulty
  pub selected_difficulty : TaskDifficulty
  pub dimension_results : List DimensionResult
  pub override_direction : OverrideDirection
  pub override_reason : Option String
  pub approval_id : Option String
  pub policy_version : String

pub data AssessmentError : Type 0 where
  blank_or_wrapped control_character assessment_id_format revision_range : AssessmentError
  rationale_keys_count rationale_key_unknown rationale_dimension_order : AssessmentError
  approval_id_format selected_below_minimum : AssessmentError
  override_fields_without_downward_override downward_override_reason : AssessmentError
  downward_override_approval : AssessmentError

abbrev pub schema_version : String
schema_version = "agentdesk.difficulty-assessment/v1"

abbrev pub policy_version : String
policy_version = "agentdesk.difficulty-policy/v1"

unfoldable pub clean_string : String → Attempt AssessmentError (Unit {0})
clean_string value = do
  require (not (Text.is_blank value || Text.is_wrapped value)) blank_or_wrapped
  require (not (Text.has_control value)) control_character
  returns tt

abbrev pub alphanumeric : ℕ → Bool
alphanumeric c = (leb 48 c && leb c 57) || ((leb 65 c && leb c 90) || (leb 97 c && leb c 122))

abbrev id_tail : List ℕ → Bool
id_tail [] = true
id_tail (c ∷ cs) = (alphanumeric c || any (λ d. c == d) (46 ∷ 95 ∷ 45 ∷ [])) && id_tail cs

abbrev id_body : List ℕ → Bool
id_body [] = false
id_body (c ∷ cs) = alphanumeric c && id_tail cs

-- What follows `prefix`, if the text starts with it.
unfoldable pub after_prefix : List ℕ → List ℕ → Option (List ℕ)
after_prefix [] cs = some cs
after_prefix (p ∷ ps) [] = none
after_prefix (p ∷ ps) (c ∷ cs) = if p == c then after_prefix ps cs else none

abbrev filled : List ℕ → Bool
filled [] = false
filled (c ∷ cs) = true

abbrev holds : (List ℕ → Bool) → Option (List ℕ) → Bool
holds test none = false
holds test (some cs) = test cs

-- `_ASSESSMENT_ID_PATTERN`
unfoldable pub is_assessment_id : String → Bool
unfolding after_prefix
is_assessment_id s = holds id_body (after_prefix (Text.codes "ASM-") (Text.codes s))

unfoldable pub is_approval_id : String → Bool
unfolding after_prefix
is_approval_id s = holds filled (after_prefix (Text.codes "APR-") (Text.codes s))

unfoldable pub validate_optional_string : Option String → Attempt AssessmentError (Unit {0})
unfolding clean_string
validate_optional_string none = returns tt
validate_optional_string (some s) = clean_string s

unfoldable pub validate_approval_id : Option String → Attempt AssessmentError (Unit {0})
unfolding is_approval_id
validate_approval_id none = returns tt
validate_approval_id (some s) = require (is_approval_id s) approval_id_format

-- The loop of `_validated_dimension_results`, along `_DIMENSION_ORDER`; lists of different lengths
-- are what its first check refuses.
unfoldable pub dimension_results_from :
    List AssessmentDimension → List String → Attempt AssessmentError (List DimensionResult)
unfolding clean_string policy_for rationale_policy
dimension_results_from [] [] = returns []
dimension_results_from (d ∷ ds) (key ∷ keys) = do
  clean_string key
  policy ← or_raise (policy_for key rationale_policy) rationale_key_unknown
  require (policy.dimension == d) rationale_dimension_order
  rest ← dimension_results_from ds keys
  returns (row key policy.dimension policy.difficulty policy.hard_floor ∷ rest)
dimension_results_from _ _ = raises rationale_keys_count

abbrev pub count : {A : Type 0} → List A → ℕ
count [] = zero
count (x ∷ xs) = suc (count xs)

unfoldable pub validated_dimension_results :
    List String → Attempt AssessmentError (List DimensionResult)
unfolding dimension_results_from
validated_dimension_results keys = do
  require (count keys == count dimension_order) rationale_keys_count
  dimension_results_from dimension_order keys

pub record AssessRequest : Type 0 where
  pub assessment_id : String
  pub task_id : String
  pub revision : ℕ
  pub rationale_keys : List String
  pub selected_difficulty : Option TaskDifficulty
  pub override_reason : Option String
  pub approval_id : Option String

-- `_OVERRIDE_REASONS`
abbrev pub override_reasons : List String
override_reasons =
    "pm_scope_calibration" ∷ "pm_known_pattern" ∷ "pm_bounded_failure_impact"
    ∷ "pm_reviewed_rollback" ∷ []

abbrev pub is_override_reason : Option String → Bool
is_override_reason none = false
is_override_reason (some reason) = any (λ r. r == reason) override_reasons

abbrev pub present : Option String → Bool
present none = false
present (some s) = true

abbrev pub minimum_of : List DimensionResult → TaskDifficulty
minimum_of results = maximum_difficulty (map (λ r. r.difficulty) (keep (λ r. r.hard_floor) results))

abbrev pub recommended_of : List DimensionResult → TaskDifficulty
recommended_of results = maximum_difficulty (map (λ r. r.difficulty) results)

abbrev pub selected_of : Option TaskDifficulty → TaskDifficulty → TaskDifficulty
selected_of none recommended = recommended
selected_of (some selected) recommended = selected

-- The three branches on the selected and the recommended difficulty.
unfoldable pub direction_for :
    TaskDifficulty
    → TaskDifficulty
    → Option String
    → Option String
    → Attempt AssessmentError OverrideDirection
unfolding difficulty_index
direction_for selected recommended reason approval =
    if selected == recommended
    then (do
      require (not (present reason || present approval)) override_fields_without_downward_override
      returns unchanged)
    else (if ltb (difficulty_index recommended) (difficulty_index selected)
        then (do
          require (not (present reason || present approval))
              override_fields_without_downward_override
          returns up)
        else (do
          require (is_override_reason reason) downward_override_reason
          require (present approval) downward_override_approval
          returns down))

-- The part of `assess_task_difficulty` after the validation of its arguments. The source sets the
-- reason and the approval to None where they are None already.
unfoldable pub settle :
    AssessRequest → List DimensionResult → Attempt AssessmentError TaskDifficultyAssessment
unfolding direction_for maximum_difficulty
settle r results = do
  let minimum = minimum_of results
  let recommended = recommended_of results
  let selected = selected_of r.selected_difficulty recommended
  require (not (ltb (difficulty_index selected) (difficulty_index minimum))) selected_below_minimum
  direction ← direction_for selected recommended r.override_reason r.approval_id
  returns (record {
    schema_version = schema_version;
    assessment_id = r.assessment_id;
    task_id = r.task_id;
    revision = r.revision;
    minimum_difficulty = minimum;
    recommended_difficulty = recommended;
    selected_difficulty = selected;
    dimension_results = results;
    override_direction = direction;
    override_reason = r.override_reason;
    approval_id = r.approval_id;
    policy_version = policy_version;
  })

unfoldable pub assess_task_difficulty :
    AssessRequest → Attempt AssessmentError TaskDifficultyAssessment
unfolding clean_string is_assessment_id validated_dimension_results validate_optional_string
    validate_approval_id settle
assess_task_difficulty r = do
  clean_string r.assessment_id
  require (is_assessment_id r.assessment_id) assessment_id_format
  clean_string r.task_id
  require (leb 1 r.revision) revision_range
  results ← validated_dimension_results r.rationale_keys
  validate_optional_string r.override_reason
  validate_optional_string r.approval_id
  validate_approval_id r.approval_id
  settle r results
