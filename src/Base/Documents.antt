-- ===== src/Base/Documents.antt =====
-- A text whose lines each end in a line feed: the text before the last one, and the lines with
-- line feeds between them.
use mathlib.Core.Option
use mathlib.Core.Option.{Option, some, none}
use mathlib.Core.Path.{◌≡◌, refl, ap, ◌∙◌}
use mathlib.Core.Bool.{Bool, true, false}
use mathlib.Core.List.{List, [], ◌∷◌, ◌++◌}
use native.Mathlib.Omega.{arith}
use native.Mathlib.Decide.{ℕ_discrete}
use Prim.Native.Nat.{ℕ}
use dockyard.Base.Tests.{◌==◌, comparable_number, if◌then◌else◌}
use dockyard.Base.Lists.{any, All}
use dockyard.Base.Text.{Printable}
use dockyard.Base.LineBreaks.{lines, lines-Printable, lines-alone}

-- What stands before a last line feed.
abbrev pub before_newline : List ℕ → Option (List ℕ)
before_newline [] = none
before_newline (c ∷ []) = if c == 10 then some [] else none
before_newline (c ∷ d ∷ ds) = Option.map (λ cs. c ∷ cs) (before_newline (d ∷ ds))

abbrev is_some : Option (List ℕ) → Bool
is_some none = false
is_some (some cs) = true

abbrev pub ends_with_newline : List ℕ → Bool
ends_with_newline cs = is_some (before_newline cs)

abbrev pub is_empty : List ℕ → Bool
is_empty [] = true
is_empty (c ∷ cs) = false

-- Lines with a line feed between them.
unfoldable pub joined : List ℕ → List (List ℕ) → List ℕ
joined l [] = l
joined l (m ∷ ms) = l ++ (10 ∷ joined m ms)

pub lines-joined :
    (l : List ℕ) (ls : List (List ℕ))
    → Printable l
    → All Printable ls
    → lines (joined l ls) ≡ l ∷ ls
unfolding joined
lines-joined l [] h k = lines-alone l h
lines-joined l (m ∷ ms) h k =
    lines-Printable l (joined m ms) h ∙ ap (λ ls. l ∷ ls) (lines-joined m ms k.0 k.1)

pub before_newline-append : (cs : List ℕ) → before_newline (cs ++ (10 ∷ [])) ≡ some cs
unfolding ℕ_discrete
before_newline-append [] = refl
before_newline-append (c ∷ []) = refl
before_newline-append (c ∷ d ∷ ds) = ap (Option.map (λ cs. c ∷ cs)) (before_newline-append (d ∷ ds))

before_newline-Printable : (cs : List ℕ) → Printable cs → before_newline cs ≡ none
before_newline-Printable [] h = refl
before_newline-Printable (c ∷ []) h = let p = h.0 in ground (arith)
before_newline-Printable (c ∷ d ∷ ds) h =
    ap (Option.map (λ cs. c ∷ cs)) (before_newline-Printable (d ∷ ds) h.1)

-- The end of a text is the end of its last part, unless that is empty.
before_newline-behind :
    (xs : List ℕ) (c : ℕ) (cs : List ℕ)
    → before_newline (c ∷ cs) ≡ none
    → before_newline (xs ++ (c ∷ cs)) ≡ none
before_newline-behind [] c cs h = h
before_newline-behind (x ∷ []) c cs h = ap (Option.map (λ cs. x ∷ cs)) h
before_newline-behind (x ∷ y ∷ ys) c cs h =
    ap (Option.map (λ cs. x ∷ cs)) (before_newline-behind (y ∷ ys) c cs h)

after_feed :
    (cs : List ℕ) → is_empty cs ≡ false → before_newline cs ≡ none → before_newline (10 ∷ cs) ≡ none
after_feed [] h k = cc
after_feed (c ∷ cs) h k = ap (Option.map (λ cs. 10 ∷ cs)) k

joined-nonempty :
    (l : List ℕ) (ls : List (List ℕ)) → is_empty l ≡ false → is_empty (joined l ls) ≡ false
unfolding joined
joined-nonempty [] ls h = cc
joined-nonempty (c ∷ cs) [] h = refl
joined-nonempty (c ∷ cs) (l ∷ ls) h = refl

pub before_newline-joined :
    (l : List ℕ) (ls : List (List ℕ))
    → All Printable (l ∷ ls)
    → any is_empty (l ∷ ls) ≡ false
    → before_newline (joined l ls) ≡ none
unfolding joined
before_newline-joined l [] h k = before_newline-Printable l h.0
before_newline-joined l (m ∷ ms) h k =
    let rest = before_newline-joined m ms h.1 (ground (arith)) in
    before_newline-behind l 10 (joined m ms)
      (after_feed (joined m ms) (joined-nonempty m ms (ground (arith))) rest)

pub any-append :
    (p : ℕ → Bool) (xs ys : List ℕ) → any p xs ≡ false → any p ys ≡ false → any p (xs ++ ys) ≡ false
any-append p [] ys h k = k
any-append p (x ∷ xs) ys h k = ground (arith, any-append p xs ys)

pub append-nonempty : (xs : List ℕ) (c : ℕ) (cs : List ℕ) → is_empty (xs ++ (c ∷ cs)) ≡ false
append-nonempty [] c cs = refl
append-nonempty (x ∷ xs) c cs = refl

-- `"\n".join(lines) + "\n"`
unfoldable pub finish : List (List ℕ) → List ℕ
unfolding joined
finish [] = 10 ∷ []
finish (l ∷ ls) = joined l ls ++ (10 ∷ [])

-- What holds for the parts and the line feed holds for the whole.
pub any-joined :
    (p : ℕ → Bool) (l : List ℕ) (ls : List (List ℕ))
    → p 10 ≡ false
    → All (λ m. any p m ≡ false) (l ∷ ls)
    → any p (joined l ls) ≡ false
unfolding joined
any-joined p l [] h k = k.0
any-joined p l (m ∷ ms) h k =
    let rest = any-joined p m ms h k.1 in any-append p l (10 ∷ joined m ms) k.0 (rw (h, rest) refl)
