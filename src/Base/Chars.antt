-- ===== src/Base/Chars.antt =====
-- A text from its code points.
use Prim.Native.Char.{Char, code, char, IsScalar, IsLt, nul}
use Prim.Native.Nat.{ℕ, Ordering, compare}
use Prim.Native.String.{String}
use mathlib.Core.Path.{◌≡◌, refl, ap₂}
use mathlib.Core.List.{List, [], ◌∷◌}
use text.Mathlib.TextEquality.{Char-path}
use dockyard.Base.Text.{codes}

abbrev Both : Ordering → Ordering → Type 0
Both Ordering.lt o = IsLt o
Both Ordering.eq _ = ⊥
Both Ordering.gt _ = ⊥

abbrev Valid : Ordering → Ordering → Ordering → Type 0
Valid Ordering.lt _ _ = Unit
Valid Ordering.eq o p = Both o p
Valid Ordering.gt o p = Both o p

abbrev below : (o : Ordering) → Dec (IsLt o)
below Ordering.lt = yes tt
below Ordering.eq = no (λ e. e)
below Ordering.gt = no (λ e. e)

abbrev both : (o p : Ordering) → Dec (Both o p)
both Ordering.lt o = below o
both Ordering.eq _ = no (λ e. e)
both Ordering.gt _ = no (λ e. e)

abbrev valid : (o p q : Ordering) → Dec (Valid o p q)
valid Ordering.lt _ _ = yes tt
valid Ordering.eq o p = both o p
valid Ordering.gt o p = both o p

-- What is no character counts as U+0000: a decoded text has none.
abbrev char_or_nul : (n : ℕ) → Dec (IsScalar n) → Char
char_or_nul n (yes p) = char n p
char_or_nul n (no _) = nul

abbrev character : ℕ → Char
character n = char_or_nul n (valid (compare n 55296) (compare 57343 n) (compare n 1114112))

-- The text of a list of code points.
abbrev pub text_of : List ℕ → String
text_of [] = String.[]
text_of (c ∷ cs) = String.◌∷◌ (character c) (text_of cs)

code-char_or_nul : (n : ℕ) (d : Dec (IsScalar n)) → IsScalar n → code (char_or_nul n d) ≡ n
code-char_or_nul n (yes p) h = refl
code-char_or_nul n (no other) h = absurd (other h)

character-code : (c : Char) → character (code c) ≡ c
character-code (char n p) = Char-path (character n) (char n p) (code-char_or_nul n _ p)

pub text_of-codes : (s : String) → text_of (codes s) ≡ s
text_of-codes String.[] = refl
text_of-codes (String.◌∷◌ c s) = ap₂ String.◌∷◌ (character-code c) (text_of-codes s)
