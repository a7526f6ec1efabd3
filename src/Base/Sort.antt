-- ===== src/Base/Sort.antt =====
-- `sorted(xs, key=…)` as stable insertion by a Boolean order, and lexicographic order on texts.
use Prim.Native.Nat.{ℕ}
use Prim.Native.String.{String}
use Prim.Native.Char.{code}
use text.Mathlib.TextEquality.{Char-path}
use mathlib.Core.Path.{◌≡◌, refl, ap₂}
use mathlib.Core.Bool.{Bool, true, false}
use mathlib.Core.List.{List, [], ◌∷◌}
use mathlib.Core.Logic.{◌⊎◌, inl, inr}
use native.Mathlib.Omega.{arith}
use dockyard.Base.Tests.{ltb, if◌then◌else◌, Bool-cases}
use dockyard.Base.Lists.{All, All-map}
use dockyard.Base.Members.{In}
use dockyard.Base.Text.{codes}

-- Python compares texts code point by code point.
unfoldable pub list_leb : List ℕ → List ℕ → Bool
list_leb [] bs = true
list_leb (a ∷ xs) [] = false
list_leb (a ∷ xs) (b ∷ bs) = if ltb a b then true else (if ltb b a then false else list_leb xs bs)

unfoldable pub text_leb : String → String → Bool
unfolding list_leb
text_leb s t = list_leb (codes s) (codes t)

list_leb_refl : (xs : List ℕ) → list_leb xs xs ≡ true
unfolding list_leb
list_leb_refl [] = refl
list_leb_refl (a ∷ xs) = ground (arith, list_leb_refl xs)

list_leb_total : (xs ys : List ℕ) → (list_leb xs ys ≡ true) ⊎ (list_leb ys xs ≡ true)
unfolding list_leb
list_leb_total [] ys = inl refl
list_leb_total (a ∷ xs) [] = inr refl
list_leb_total (a ∷ xs) (b ∷ ys) = ground (arith, list_leb_total xs ys)

list_leb_trans :
    (xs ys zs : List ℕ) → list_leb xs ys ≡ true → list_leb ys zs ≡ true → list_leb xs zs ≡ true
unfolding list_leb
list_leb_trans [] ys zs h k = refl
list_leb_trans (a ∷ xs) [] zs h k = cc
list_leb_trans (a ∷ xs) (b ∷ ys) [] h k = cc
list_leb_trans (a ∷ xs) (b ∷ ys) (c ∷ zs) h k = ground (arith, list_leb_trans xs ys zs)

list_leb_antisymm : (xs ys : List ℕ) → list_leb xs ys ≡ true → list_leb ys xs ≡ true → xs ≡ ys
unfolding list_leb
list_leb_antisymm [] [] h k = refl
list_leb_antisymm [] (b ∷ ys) h k = cc
list_leb_antisymm (a ∷ xs) [] h k = cc
list_leb_antisymm (a ∷ xs) (b ∷ ys) h k = ground (arith, list_leb_antisymm xs ys)

pub codes_injective : (s t : String) → codes s ≡ codes t → s ≡ t
codes_injective String.[] String.[] h = refl
codes_injective String.[] (String.◌∷◌ d t) h = cc
codes_injective (String.◌∷◌ c s) String.[] h = cc
codes_injective (String.◌∷◌ c s) (String.◌∷◌ d t) h =
    ap₂ String.◌∷◌ (Char-path c d (cons-head h)) (codes_injective s t (cons-tail h))
  where
    cons-head : code c ∷ codes s ≡ code d ∷ codes t → code c ≡ code d
    cons-head e = cc

    cons-tail : code c ∷ codes s ≡ code d ∷ codes t → codes s ≡ codes t
    cons-tail e = cc

pub text_leb_antisymm : (s t : String) → text_leb s t ≡ true → text_leb t s ≡ true → s ≡ t
unfolding text_leb
text_leb_antisymm s t h k = codes_injective s t (list_leb_antisymm (codes s) (codes t) h k)

-- A total preorder given by a Boolean test.
pub record IsOrder {A : Type 0} (le : A → A → Bool) : Type 0 where
  pub total : (a b : A) → (le a b ≡ true) ⊎ (le b a ≡ true)
  pub trans : (a b c : A) → le a b ≡ true → le b c ≡ true → le a c ≡ true

pub text_leb-IsOrder : IsOrder text_leb
unfolding text_leb
text_leb-IsOrder = record {
  total = λ a b. list_leb_total (codes a) (codes b);
  trans = λ a b c. list_leb_trans (codes a) (codes b) (codes c);
}

module _ {A : Type 0} (le : A → A → Bool) where
  -- In front of the first entry that is not smaller.
  unfoldable pub insert_by : A → List A → List A
  insert_by x [] = x ∷ []
  insert_by x (y ∷ ys) = if le x y then x ∷ y ∷ ys else y ∷ insert_by x ys

  unfoldable pub sort_by : List A → List A
  unfolding insert_by
  sort_by [] = []
  sort_by (x ∷ xs) = insert_by x (sort_by xs)

module _ {A : Type 0} {le : A → A → Bool} (o : IsOrder le) where
  -- The head of the list is in `xs`, and not above any entry of it.
  abbrev pub Least : List A → List A → Type 0
  Least xs [] = xs ≡ []
  Least xs (h ∷ t) = In h xs × All (λ y. le h y ≡ true) xs

  le_refl : (a : A) → le a a ≡ true
  le_refl a = elim (o.total a a) [ inl h ↦ h | inr h ↦ h ]

  Least-insert : (x : A) (xs ys : List A) → Least xs ys → Least (x ∷ xs) (insert_by le x ys)
  unfolding insert_by
  Least-insert x xs [] h = rw h (inl refl, (le_refl x, tt))
  Least-insert x xs (h ∷ t) l = elim (Bool-cases (le x h)) [
    | inl small ↦ rw small (
      inl refl,
      (
        le_refl x,
        All-map (λ y. le h y ≡ true) (λ y. le x y ≡ true) (λ y k. o.trans x h y small k) xs l.1,
      ),
    )
    | inr big ↦
        let k : le h x ≡ true = elim (o.total x h) [ inl e ↦ cc | inr e ↦ e ] in
        rw big (inr l.0, (k, l.1))
  ]

  -- Sorting puts a least entry first.
  pub sort_by-Least : (xs : List A) → Least xs (sort_by le xs)
  unfolding sort_by
  sort_by-Least [] = refl
  sort_by-Least (x ∷ xs) = Least-insert x xs (sort_by le xs) (sort_by-Least xs)

  All-insert : (P : A → Type 0) (x : A) (ys : List A) → P x → All P ys → All P (insert_by le x ys)
  unfolding insert_by
  All-insert P x [] p h = (p, tt)
  All-insert P x (y ∷ ys) p h = ground (arith, All-insert P x ys p h.1)

  pub All-sort_by : (P : A → Type 0) (xs : List A) → All P xs → All P (sort_by le xs)
  unfolding sort_by
  All-sort_by P [] h = tt
  All-sort_by P (x ∷ xs) h = All-insert P x (sort_by le xs) h.0 (All-sort_by P xs h.1)

  In-insert : (a x : A) (ys : List A) → (x ≡ a) ⊎ In a ys → In a (insert_by le x ys)
  unfolding insert_by
  In-insert a x [] h = h
  In-insert a x (y ∷ ys) h = ground (arith, In-insert a x ys)

  pub In-sort_by : (a : A) (xs : List A) → In a xs → In a (sort_by le xs)
  unfolding sort_by
  In-sort_by a [] h = h
  In-sort_by a (x ∷ xs) (inl e) = In-insert a x (sort_by le xs) (inl e)
  In-sort_by a (x ∷ xs) (inr i) = In-insert a x (sort_by le xs) (inr (In-sort_by a xs i))
