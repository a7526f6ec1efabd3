-- ===== src/Base/LineBreaks.antt =====
-- The lines of a text, split at its line feeds.
use mathlib.Core.Path.{◌≡◌, refl}
use mathlib.Core.Bool.{false}
use mathlib.Core.List.{List, [], ◌∷◌, ◌++◌}
use native.Mathlib.Omega.{arith}
use Prim.Native.Nat.{ℕ}
use dockyard.Base.Tests.{◌==◌, comparable_number, if◌then◌else◌}
use dockyard.Base.Text.{Printable}

-- `text.split("\n")`
unfoldable pub lines : List ℕ → List (List ℕ)
lines [] = [] ∷ []
lines (c ∷ cs) = let rest = lines cs in if c == 10 then [] ∷ rest else into c rest
  where
    into : ℕ → List (List ℕ) → List (List ℕ)
    into c [] = (c ∷ []) ∷ []
    into c (l ∷ ls) = (c ∷ l) ∷ ls

pub Printable-append : (xs ys : List ℕ) → Printable xs → Printable ys → Printable (xs ++ ys)
Printable-append [] ys h k = k
Printable-append (x ∷ xs) ys h k = (h.0, Printable-append xs ys h.1 k)

pub lines-Printable : (xs ys : List ℕ) → Printable xs → lines (xs ++ (10 ∷ ys)) ≡ xs ∷ lines ys
unfolding lines
lines-Printable [] ys h = ground (arith)
lines-Printable (x ∷ xs) ys h =
    let other : (x == 10) ≡ false = let p = h.0 in ground (arith) in
    rw (other, lines-Printable xs ys h.1) refl

pub lines_empty : lines [] ≡ [] ∷ []
unfolding lines
lines_empty = refl

-- A text without a line feed is one line.
pub lines-alone : (xs : List ℕ) → Printable xs → lines xs ≡ xs ∷ []
unfolding lines
lines-alone [] h = refl
lines-alone (x ∷ xs) h =
    let other : (x == 10) ≡ false = let p = h.0 in ground (arith) in
    rw (other, lines-alone xs h.1) refl
