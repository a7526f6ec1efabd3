-- ===== src/Worktree.antt =====
-- The evidence of managed worktrees in skills/agentdesk/scripts/worktree_lifecycle_store.py: the
-- enumerations, the errors and the checks on texts that the records share.
pub mod Records
pub mod Identity
pub mod Store
pub mod Moves
pub mod Changes
pub mod Saves
pub mod History
pub mod Sound
pub mod Stages
pub mod Inventory
pub mod Reconcile
pub mod Removal
pub mod Checks
pub mod Total
pub mod Replay
pub mod Paths
pub mod Printing
pub mod Bindings
pub mod Document
pub mod Decoding
pub mod Decoded
pub mod Readers
pub mod Constructed
pub mod Roundtrip
pub mod Reservations
mod Examples
mod Files
use dockyard.Base.Text.{codes, is_blank, is_wrapped, list_eq, ◌<>◌}
use dockyard.Base.{
  ℕ, zero, suc, leb, ltb, ◌==◌, comparable_number, comparable_string, Comparable, String, Bool,
  true, false, not, ◌&&◌, ◌||◌, List, [], ◌∷◌, any, Option, none, some, if◌then◌else◌, Attempt,
  returns, raises, require, ◌>>=◌, ◌>>◌,
}

pub data WorktreeError : Type 0 where
  input_error schema_error security_error conflict_error transition_error : String → WorktreeError
  not_found_error permission_error : String → WorktreeError

pub data WorktreePhase : Type 0 where
  reserved creating ready releasing released : WorktreePhase

unfoldable pub WorktreePhase-discrete : Discrete WorktreePhase
WorktreePhase-discrete = hlevel

instance abbrev pub comparable_phase : Comparable WorktreePhase
comparable_phase = record { dec = WorktreePhase-discrete }

-- The place of a phase in `WorktreePhase.order()`.
unfoldable pub position : WorktreePhase → ℕ
position reserved = 0
position creating = 1
position ready = 2
position releasing = 3
position released = 4

unfoldable pub phase_text : WorktreePhase → String
phase_text reserved = "RESERVED"
phase_text creating = "CREATING"
phase_text ready = "READY"
phase_text releasing = "RELEASING"
phase_text released = "RELEASED"

pub data LifecycleAction : Type 0 where
  create release reconcile : LifecycleAction

pub data ReconciliationAction : Type 0 where
  no_op resume_create adopt_ready resume_release reject fail_closed : ReconciliationAction

unfoldable pub LifecycleAction-discrete : Discrete LifecycleAction
LifecycleAction-discrete = hlevel

instance abbrev pub comparable_action : Comparable LifecycleAction
comparable_action = record { dec = LifecycleAction-discrete }

-- What the program takes from hashlib, os.path and pathlib.
pub record Platform : Type 0 where
  -- The hexadecimal digest by SHA-256 of a text in UTF-8.
  pub sha256 : List ℕ → String
  pub casefold : String → String
  pub normcase : String → String
  pub normpath : String → String
  pub is_absolute : String → Bool
  pub parts : String → List String
  -- `str(root.parent / f"{root.name}{suffix}" / leaf)`
  pub sibling : String → String → String → String

abbrev pub schema_version : String
schema_version = "agentdesk.worktree-lifecycle/v1"

abbrev has_code : ℕ → List ℕ → Bool
has_code c cs = any (λ d. d == c) cs

abbrev is_prefix : List ℕ → List ℕ → Bool
is_prefix [] cs = true
is_prefix (p ∷ ps) [] = false
is_prefix (p ∷ ps) (c ∷ cs) = p == c && is_prefix ps cs

-- `value.startswith(prefix)`
unfoldable pub starts_with : String → String → Bool
starts_with value prefix = is_prefix (codes prefix) (codes value)

-- `_text`
unfoldable pub check_trimmed : String → String → Attempt WorktreeError (Unit {0})
check_trimmed value name =
    require
      (not (is_blank value || is_wrapped value || any (λ c. ltb c 32 || c == 127) (codes value)))
      (input_error (name <> "_unsafe"))

abbrev pub is_digit : ℕ → Bool
is_digit c = leb 48 c && leb c 57

abbrev is_alphanumeric : ℕ → Bool
is_alphanumeric c = is_digit c || (leb 65 c && leb c 90) || (leb 97 c && leb c 122)

-- `[A-Za-z0-9][A-Za-z0-9._-]*`
unfoldable pub matches_safe_id : List ℕ → Bool
matches_safe_id [] = false
matches_safe_id (c ∷ cs) =
    is_alphanumeric c
    && not (any (λ d. not (is_alphanumeric d || d == 46 || d == 95 || d == 45)) cs)

-- What stands before the first dot.
unfoldable pub stem : List ℕ → List ℕ
stem [] = []
stem (c ∷ cs) = if c == 46 then [] else c ∷ stem cs

abbrev reserved_names : List String
reserved_names =
    "con" ∷ "prn" ∷ "aux" ∷ "nul" ∷ "com1" ∷ "com2" ∷ "com3" ∷ "com4" ∷ "com5" ∷ "com6" ∷ "com7"
    ∷ "com8" ∷ "com9" ∷ "lpt1" ∷ "lpt2" ∷ "lpt3" ∷ "lpt4" ∷ "lpt5" ∷ "lpt6" ∷ "lpt7" ∷ "lpt8"
    ∷ "lpt9" ∷ []

-- `value.casefold().split(".", 1)[0] in _RESERVED_NAMES`
unfoldable pub is_reserved : Platform → String → Bool
unfolding stem
is_reserved os value =
    any (λ name. list_eq (codes name) (stem (codes (os.casefold value)))) reserved_names

-- `_SAFE_ID_RE.fullmatch(value)`, and no slash and no backslash.
unfoldable pub is_safe_id : List ℕ → Bool
unfolding matches_safe_id
is_safe_id cs = matches_safe_id cs && not (has_code 47 cs) && not (has_code 92 cs)

-- `_safe_id`
unfoldable pub check_safe_id :
    Platform → String → String → String → Attempt WorktreeError (Unit {0})
unfolding check_trimmed is_safe_id starts_with is_reserved
check_safe_id os value name prefix = do
  check_trimmed value name
  require (is_safe_id (codes value)) (input_error (name <> "_format"))
  require (starts_with value prefix) (input_error (name <> "_prefix"))
  require (not (is_reserved os value)) (security_error (name <> "_reserved"))

-- `_positive`, without and with a maximum.
unfoldable pub check_positive : ℕ → String → Option ℕ → Attempt WorktreeError (Unit {0})
check_positive n name none = require (leb 1 n) (input_error (name <> "_range"))
check_positive n name (some most) = require (leb 1 n && leb n most) (input_error (name <> "_range"))

abbrev pub is_lower_hex : ℕ → Bool
is_lower_hex c = is_digit c || (leb 97 c && leb c 102)

-- A pattern, code point by code point.
abbrev pub matches : List (ℕ → Bool) → List ℕ → Bool
matches [] [] = true
matches (p ∷ ps) (c ∷ cs) = p c && matches ps cs
matches _ _ = false

abbrev pub repeat : ℕ → (ℕ → Bool) → List (ℕ → Bool) → List (ℕ → Bool)
repeat zero p rest = rest
repeat (suc n) p rest = p ∷ repeat n p rest

abbrev pub exactly : List ℕ → List (ℕ → Bool) → List (ℕ → Bool)
exactly [] rest = rest
exactly (c ∷ cs) rest = (λ d. d == c) ∷ exactly cs rest

-- `_sha40`
unfoldable pub check_sha40 : String → String → Attempt WorktreeError (Unit {0})
check_sha40 value name =
    require (matches (repeat 40 is_lower_hex []) (codes value)) (input_error (name <> "_format"))

-- `_digest`
unfoldable pub check_digest : String → String → Attempt WorktreeError (Unit {0})
check_digest value name =
    require (matches (exactly (codes "sha256:") (repeat 64 is_lower_hex [])) (codes value))
      (input_error (name <> "_format"))

abbrev pub timestamp_pattern : List (ℕ → Bool)
timestamp_pattern = repeat 4 is_digit (
    exactly (codes "-") (
      repeat 2 is_digit (
        exactly (codes "-") (
          repeat 2 is_digit (
            exactly (codes "T") (
              repeat 2 is_digit (
                exactly (codes ":") (
                  repeat 2 is_digit (
                    exactly (codes ":") (
                      repeat 2 is_digit
                        (exactly (codes ".") (repeat 6 is_digit (exactly (codes "Z") [])))))))))))))

-- `_timestamp`
unfoldable pub check_timestamp_text : String → String → Attempt WorktreeError (Unit {0})
check_timestamp_text value name =
    require (matches timestamp_pattern (codes value)) (input_error (name <> "_format"))

unfoldable pub check_optional_timestamp : Option String → String → Attempt WorktreeError (Unit {0})
unfolding check_timestamp_text
check_optional_timestamp none name = returns tt
check_optional_timestamp (some value) name = check_timestamp_text value name

-- `TC-[0-9]{3,}`
unfoldable pub matches_task : List ℕ → Bool
matches_task (t ∷ c ∷ dash ∷ a ∷ b ∷ d ∷ rest) =
    t == 84
    && c == 67
    && dash == 45
    && is_digit a
    && is_digit b
    && is_digit d
    && not (any (λ e. not (is_digit e)) rest)
matches_task _ = false

-- The parts of a path behind the first.
unfoldable pub check_parts : Platform → List String → String → Attempt WorktreeError (Unit {0})
unfolding is_reserved
check_parts os [] name = returns tt
check_parts os (part ∷ more) name =
    let rest = check_parts os more name in
    do
      require (not (is_reserved os part)) (security_error (name <> "_reserved"))
      require (not (has_code 58 (codes part))) (security_error (name <> "_ads"))
      rest

unfoldable pub behind_first : List String → List String
behind_first [] = []
behind_first (x ∷ xs) = xs

-- `value.rstrip("\\/")`
unfoldable pub without_slashes : List ℕ → List ℕ
without_slashes [] = []
without_slashes (c ∷ cs) =
    let rest = without_slashes cs in
    elim rest [ [] ↦ if c == 92 || c == 47 then [] else c ∷ [] | d ∷ ds ↦ c ∷ d ∷ ds ]

-- `_path_text`
unfoldable pub check_path : Platform → String → String → Attempt WorktreeError (Unit {0})
unfolding check_trimmed starts_with check_parts behind_first without_slashes
check_path os value name = do
  check_trimmed value name
  require (not (starts_with value "\\\\" || starts_with value "//"))
      (security_error (name <> "_unc"))
  require (os.is_absolute value && not (any (λ part. part == "..") (os.parts value)))
      (security_error (name <> "_absolute"))
  check_parts os (behind_first (os.parts value)) name
  require (list_eq (codes (os.normpath value)) (without_slashes (codes value)))
      (security_error (name <> "_canonical"))

-- `split("/")`
unfoldable pub split_slash : List ℕ → List (List ℕ)
split_slash [] = [] ∷ []
split_slash (c ∷ cs) =
    let rest = split_slash cs in
    if c == 47 then [] ∷ rest else elim rest [ [] ↦ (c ∷ []) ∷ [] | p ∷ ps ↦ (c ∷ p) ∷ ps ]

-- `_branch`
unfoldable pub check_branch : String → Attempt WorktreeError (Unit {0})
unfolding check_trimmed starts_with split_slash
check_branch value = do
  check_trimmed value "branch"
  require
      (starts_with value "agentdesk/"
        && not (any (λ part. list_eq part (codes "..")) (split_slash (codes value)))
        && not (has_code 92 (codes value)))
      (input_error "branch_format")
