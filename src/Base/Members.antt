-- ===== src/Base/Members.antt =====
-- Membership in a list, and how it and `All` pass through filters and maps.
use mathlib.Core.Path.{◌≡◌, refl, sym, ap}
use mathlib.Core.Bool.{Bool, true, ◌&&◌}
use mathlib.Core.List.{List, [], ◌∷◌, map}
use mathlib.Core.Logic.{◌⊎◌, inl, inr}
use native.Mathlib.Omega.{arith}
use dockyard.Base.Tests.{Bool-cases}
use dockyard.Base.Lists.{All, keep, any}

-- `a` stands in the list.
abbrev pub In : {A : Type 0} → A → List A → Type 0
In a [] = ⊥
In a (x ∷ xs) = (x ≡ a) ⊎ In a xs

pub All-In : {A : Type 0} (P : A → Type 0) (a : A) (xs : List A) → All P xs → In a xs → P a
All-In P a [] h i = absurd i
All-In P a (x ∷ xs) h (inl e) = ground arith
All-In P a (x ∷ xs) h (inr i) = All-In P a xs h.1 i

module _ {A : Type 0} where
  pub In-keep : (p : A → Bool) (a : A) (xs : List A) → In a xs → p a ≡ true → In a (keep p xs)
  In-keep p a [] i h = i
  In-keep p a (x ∷ xs) (inl e) h = let t : p x ≡ true = rw e h in rw t (inl e)
  In-keep p a (x ∷ xs) (inr i) h = elim (Bool-cases (p x)) [
    | inl t ↦ rw t (inr (In-keep p a xs i h))
    | inr f ↦ rw f (In-keep p a xs i h)
  ]

  pub In-of_keep : (p : A → Bool) (a : A) (xs : List A) → In a (keep p xs) → In a xs × (p a ≡ true)
  In-of_keep p a [] i = absurd i
  In-of_keep p a (x ∷ xs) i = elim (Bool-cases (p x)) [
    | inl t ↦
        let j : (x ≡ a) ⊎ In a (keep p xs) = rw t at i in
        elim j [
          | inl e ↦ (inl e, rw (← e) t)
          | inr k ↦ let (l, h) = In-of_keep p a xs k in (inr l, h)
        ]
    | inr f ↦ let (j, h) = In-of_keep p a xs (rw f at i) in (inr j, h)
  ]

  -- A predicate on the entries that a filter keeps.
  pub All-of_keep :
      (P : A → Type 0) (p : A → Bool) (xs : List A)
      → All P (keep p xs)
      → All (λ x. p x ≡ true → P x) xs
  All-of_keep P p [] h = tt
  All-of_keep P p (x ∷ xs) h = elim (Bool-cases (p x)) [
    | inl t ↦ let k : P x × All P (keep p xs) = rw t at h in (λ e. k.0, All-of_keep P p xs k.1)
    | inr f ↦ (λ e. cc, All-of_keep P p xs (rw f at h))
  ]

  pub keep-All :
      (P : A → Type 0) (p : A → Bool) (xs : List A)
      → All (λ x. p x ≡ true → P x) xs
      → All P (keep p xs)
  keep-All P p [] h = tt
  keep-All P p (x ∷ xs) h = elim (Bool-cases (p x)) [
    | inl t ↦ rw t (h.0 t, keep-All P p xs h.1)
    | inr f ↦ rw f (keep-All P p xs h.1)
  ]

  pub In-map :
      {B : Type 0} (f : A → B) (b : B) (xs : List A)
      → In b (map f xs)
      → (a : A) × In a xs × (b ≡ f a)
  In-map f b [] i = absurd i
  In-map f b (x ∷ xs) (inl e) = (x, inl refl, sym e)
  In-map f b (x ∷ xs) (inr i) = let (a, j, e) = In-map f b xs i in (a, inr j, e)

  pub All-of_map :
      {B : Type 0} (P : B → Type 0) (f : A → B) (xs : List A)
      → All P (map f xs)
      → All (λ x. P (f x)) xs
  All-of_map P f [] h = tt
  All-of_map P f (x ∷ xs) h = (h.0, All-of_map P f xs h.1)

  pub In-All : (P : A → Type 0) (xs : List A) → ((a : A) → In a xs → P a) → All P xs
  In-All P [] f = tt
  In-All P (x ∷ xs) f = (f x (inl refl), In-All P xs (λ a i. f a (inr i)))

  pub keep-keep : (p q : A → Bool) (xs : List A) → keep p (keep q xs) ≡ keep (λ x. q x && p x) xs
  keep-keep p q [] = refl
  keep-keep p q (x ∷ xs) = ground (arith, keep-keep p q xs)

  -- Filters by tests that agree on the list.
  pub keep-congr : (p q : A → Bool) (xs : List A) → All (λ x. p x ≡ q x) xs → keep p xs ≡ keep q xs
  keep-congr p q [] h = refl
  keep-congr p q (x ∷ xs) h = ground (arith, keep-congr p q xs h.1)

  pub any-In : (p : A → Bool) (a : A) (xs : List A) → In a xs → p a ≡ true → any p xs ≡ true
  any-In p a [] i h = absurd i
  any-In p a (x ∷ xs) (inl e) h = let t : p x ≡ true = rw e h in rw t refl
  any-In p a (x ∷ xs) (inr i) h = ground (arith, any-In p a xs i h)

  pub In-of_any : (p : A → Bool) (xs : List A) → any p xs ≡ true → (a : A) × In a xs × (p a ≡ true)
  In-of_any p [] h = cc
  In-of_any p (x ∷ xs) h = elim (Bool-cases (p x)) [
    | inl t ↦ (x, inl refl, t)
    | inr f ↦ let (a, i, t) = In-of_any p xs (rw f at h) in (a, inr i, t)
  ]

  pub In-map_of : {B : Type 0} (f : A → B) (a : A) (xs : List A) → In a xs → In (f a) (map f xs)
  In-map_of f a [] i = i
  In-map_of f a (x ∷ xs) (inl e) = inl (ap f e)
  In-map_of f a (x ∷ xs) (inr i) = inr (In-map_of f a xs i)
