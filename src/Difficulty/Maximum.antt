-- ===== src/Difficulty/Maximum.antt =====
-- `_difficulty_index` and `_maximum_difficulty` of skills/agentdesk/scripts/difficulty_assessor.py.
use dockyard.Base.{
  ℕ, ◌≤◌, ◌≡◌, refl, ltb, if◌then◌else◌, List, [], ◌∷◌, arith, All, inl, inr, Bool-cases,
}
use dockyard.CoreTypes.{TaskDifficulty, basic, standard, advanced, expert}

unfoldable pub difficulty_index : TaskDifficulty → ℕ
difficulty_index basic = 0
difficulty_index standard = 1
difficulty_index advanced = 2
difficulty_index expert = 3

-- The loop of `_maximum_difficulty`, with the maximum so far.
unfoldable pub maximum_from : TaskDifficulty → List TaskDifficulty → TaskDifficulty
unfolding difficulty_index
maximum_from maximum [] = maximum
maximum_from maximum (value ∷ values) =
    maximum_from
      (if ltb (difficulty_index maximum) (difficulty_index value) then value else maximum) values

unfoldable pub maximum_difficulty : List TaskDifficulty → TaskDifficulty
unfolding maximum_from
maximum_difficulty values = maximum_from basic values

abbrev larger : TaskDifficulty → TaskDifficulty → TaskDifficulty
larger m v = if ltb (difficulty_index m) (difficulty_index v) then v else m

pub difficulty_index_injective :
    (a b : TaskDifficulty) → difficulty_index a ≡ difficulty_index b → a ≡ b
unfolding difficulty_index
difficulty_index_injective basic basic h = refl
difficulty_index_injective basic standard h = absurd (omega arith)
difficulty_index_injective basic advanced h = absurd (omega arith)
difficulty_index_injective basic expert h = absurd (omega arith)
difficulty_index_injective standard basic h = absurd (omega arith)
difficulty_index_injective standard standard h = refl
difficulty_index_injective standard advanced h = absurd (omega arith)
difficulty_index_injective standard expert h = absurd (omega arith)
difficulty_index_injective advanced basic h = absurd (omega arith)
difficulty_index_injective advanced standard h = absurd (omega arith)
difficulty_index_injective advanced advanced h = refl
difficulty_index_injective advanced expert h = absurd (omega arith)
difficulty_index_injective expert basic h = absurd (omega arith)
difficulty_index_injective expert standard h = absurd (omega arith)
difficulty_index_injective expert advanced h = absurd (omega arith)
difficulty_index_injective expert expert h = refl

abbrev pub Below : TaskDifficulty → TaskDifficulty → Type 0
Below a b = difficulty_index a ≤ difficulty_index b

larger-Below : (m v : TaskDifficulty) → Below m (larger m v) × Below v (larger m v)
larger-Below m v = elim (Bool-cases (ltb (difficulty_index m) (difficulty_index v))) [
  | inl t ↦ rw t (ground (arith), ground (arith))
  | inr f ↦ rw f (ground (arith), ground (arith))
]

≤-trans : {a b c : ℕ} → a ≤ b → b ≤ c → a ≤ c
≤-trans h k = omega arith

maximum_from_above :
    (m : TaskDifficulty) (vs : List TaskDifficulty)
    → Below m (maximum_from m vs) × All (λ v. Below v (maximum_from m vs)) vs
unfolding maximum_from
maximum_from_above m [] = (omega arith, tt)
maximum_from_above m (v ∷ vs) =
    let (a, all) = maximum_from_above (larger m v) vs in
    let (l, r) = larger-Below m v in (≤-trans l a, (≤-trans r a, all))

maximum_from_least :
    (m b : TaskDifficulty) (vs : List TaskDifficulty)
    → Below m b
    → All (λ v. Below v b) vs
    → Below (maximum_from m vs) b
unfolding maximum_from
maximum_from_least m b [] h k = h
maximum_from_least m b (v ∷ vs) h k =
    elim (Bool-cases (ltb (difficulty_index m) (difficulty_index v))) [
      | inl t ↦ rw t (maximum_from_least v b vs k.0 k.1)
      | inr f ↦ rw f (maximum_from_least m b vs h k.1)
    ]

-- No value lies above the maximum.
pub maximum_difficulty_above :
    (vs : List TaskDifficulty) → All (λ v. Below v (maximum_difficulty vs)) vs
unfolding maximum_difficulty
maximum_difficulty_above vs = (maximum_from_above basic vs).1

-- Whatever lies above all values lies above the maximum.
pub maximum_difficulty_least :
    (b : TaskDifficulty) (vs : List TaskDifficulty)
    → All (λ v. Below v b) vs
    → Below (maximum_difficulty vs) b
unfolding maximum_difficulty difficulty_index
maximum_difficulty_least b vs k = maximum_from_least basic b vs (omega arith) k
