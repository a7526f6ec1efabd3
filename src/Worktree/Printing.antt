-- ===== src/Worktree/Printing.antt =====
-- The texts that the checks of skills/agentdesk/scripts/worktree_lifecycle_store.py accept have no
-- control characters.
use dockyard.Base.Text.{codes, Printable, Printable-of_any}
use dockyard.Base.{
  ℕ, zero, suc, ◌≡◌, refl, ◌==◌, comparable_number, comparable_string, String, true, false, not,
  List, [], ◌∷◌, All, All-of_any, All-map, any, ltb, ◌||◌, returns, arith, first_returns, required,
  Bool, eq_of_==,
}
use dockyard.Worktree.{
  Platform, check_branch, check_digest, check_path, check_safe_id, check_sha40,
  check_timestamp_text, check_trimmed, exactly, is_digit, is_lower_hex, matches, matches_task,
  repeat, timestamp_pattern,
}

pub check_trimmed-Printable :
    (value name : String) → check_trimmed value name ≡ returns tt → Printable (codes value)
unfolding check_trimmed
check_trimmed-Printable value name h =
    let ok = required _ _ h in
    let clean : any (λ c. ltb c 32 || c == 127) (codes value) ≡ false = ground (arith) in
    All-map _ _ (λ c k. ground (arith)) (codes value) (All-of_any _ (codes value) clean)

-- A pattern without control characters.
abbrev IsVisible : (ℕ → Bool) → Type 0
IsVisible p = (c : ℕ) → p c ≡ true → ltb c 32 ≡ false

digit-IsVisible : IsVisible is_digit
digit-IsVisible c h = ground (arith)

hex-IsVisible : IsVisible is_lower_hex
hex-IsVisible c h = ground (arith)

repeat-IsVisible :
    (n : ℕ) (p : ℕ → Bool) (ps : List (ℕ → Bool))
    → IsVisible p
    → All IsVisible ps
    → All IsVisible (repeat n p ps)
repeat-IsVisible zero p ps h k = k
repeat-IsVisible (suc n) p ps h k = (h, repeat-IsVisible n p ps h k)

exactly-IsVisible :
    (cs : List ℕ) (ps : List (ℕ → Bool))
    → Printable cs
    → All IsVisible ps
    → All IsVisible (exactly cs ps)
exactly-IsVisible [] ps h k = k
exactly-IsVisible (c ∷ cs) ps h k =
    (λ d e. let same : d ≡ c = eq_of_== d c e in rw same h.0, exactly-IsVisible cs ps h.1 k)

matches-Printable :
    (ps : List (ℕ → Bool)) (cs : List ℕ) → All IsVisible ps → matches ps cs ≡ true → Printable cs
matches-Printable [] [] h k = tt
matches-Printable [] (c ∷ cs) h k = cc
matches-Printable (p ∷ ps) [] h k = cc
matches-Printable (p ∷ ps) (c ∷ cs) h k =
    (h.0 c (ground (arith)), matches-Printable ps cs h.1 (ground (arith)))

pub check_sha40-Printable :
    (value name : String) → check_sha40 value name ≡ returns tt → Printable (codes value)
unfolding check_sha40
check_sha40-Printable value name h =
    matches-Printable (repeat 40 is_lower_hex []) (codes value)
      (repeat-IsVisible 40 is_lower_hex [] hex-IsVisible tt) (required _ _ h)

pub check_digest-Printable :
    (value name : String) → check_digest value name ≡ returns tt → Printable (codes value)
unfolding check_digest
check_digest-Printable value name h =
    matches-Printable (exactly (codes "sha256:") (repeat 64 is_lower_hex [])) (codes value)
      (exactly-IsVisible (codes "sha256:") (repeat 64 is_lower_hex [])
        (Printable-of_any (codes "sha256:") refl)
        (repeat-IsVisible 64 is_lower_hex [] hex-IsVisible tt))
      (required _ _ h)

timestamp-IsVisible : All IsVisible timestamp_pattern
timestamp-IsVisible = ground (arith)

pub check_timestamp_text-Printable :
    (value name : String) → check_timestamp_text value name ≡ returns tt → Printable (codes value)
unfolding check_timestamp_text
check_timestamp_text-Printable value name h =
    matches-Printable timestamp_pattern (codes value) timestamp-IsVisible (required _ _ h)

digits-Printable : (cs : List ℕ) → any (λ e. not (is_digit e)) cs ≡ false → Printable cs
digits-Printable cs h =
    All-map _ _ (λ c k. digit-IsVisible c (ground (arith))) cs
      (All-of_any (λ e. not (is_digit e)) cs h)

pub matches_task-Printable : (cs : List ℕ) → matches_task cs ≡ true → Printable cs
unfolding matches_task
matches_task-Printable (t ∷ c ∷ dash ∷ a ∷ b ∷ d ∷ rest) h = (
  ground (arith),
  (
    ground (arith),
    (
      ground (arith),
      (ground (arith), (ground (arith), (ground (arith), digits-Printable rest (ground (arith))))),
    ),
  ),
)
matches_task-Printable [] h = tt
matches_task-Printable (t ∷ []) h = cc
matches_task-Printable (t ∷ c ∷ []) h = cc
matches_task-Printable (t ∷ c ∷ dash ∷ []) h = cc
matches_task-Printable (t ∷ c ∷ dash ∷ a ∷ []) h = cc
matches_task-Printable (t ∷ c ∷ dash ∷ a ∷ b ∷ []) h = cc

module _ (os : Platform) where
  pub check_path-Printable :
      (value name : String) → check_path os value name ≡ returns tt → Printable (codes value)
  unfolding check_path
  check_path-Printable value name h =
      check_trimmed-Printable value name (first_returns (check_trimmed value name) _ tt h)

  pub check_safe_id-Printable :
      (value name prefix : String)
      → check_safe_id os value name prefix ≡ returns tt
      → Printable (codes value)
  unfolding check_safe_id
  check_safe_id-Printable value name prefix h =
      check_trimmed-Printable value name (first_returns (check_trimmed value name) _ tt h)

  pub check_branch-Printable :
      (value : String) → check_branch value ≡ returns tt → Printable (codes value)
  unfolding check_branch
  check_branch-Printable value h =
      check_trimmed-Printable value "branch" (first_returns (check_trimmed value "branch") _ tt h)
