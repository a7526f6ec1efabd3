-- ===== src/Base/Text.antt =====
-- The text checks that several constructors of the program share (`str.strip`, control characters).
use Prim.Native.Char.{code}
use Prim.Native.Nat.{ℕ, zero, suc, ◌/◌, ◌%◌}
use Prim.Native.String.{String, ◌++◌}
use mathlib.Core.Bool.{Bool, true, false, ◌&&◌, ◌||◌, not}
use mathlib.Core.List.{List, [], ◌∷◌, reverse}
use dockyard.Base.Tests.{leb, ltb, if◌then◌else◌, ◌==◌, comparable_number, Bool-cases}
use dockyard.Base.Lists.{any, All, All-of_any}
use mathlib.Core.Path.{◌≡◌, refl}
use mathlib.Core.Logic.{inl, inr}
use text.Mathlib.TextLemmas.{nil-append, cons-append}

-- The code points of a text.
abbrev pub codes : String → List ℕ
codes String.[] = []
codes (String.◌∷◌ c s) = code c ∷ codes s

-- `str.isspace` of one code point.
unfoldable pub is_space : ℕ → Bool
is_space c =
    (leb 9 c && leb c 13)
    || (leb 28 c && leb c 32)
    || any (λ d. c == d) (0x85 ∷ 0xa0 ∷ 0x1680 ∷ 0x2028 ∷ 0x2029 ∷ 0x202f ∷ 0x205f ∷ 0x3000 ∷ [])
    || (leb 0x2000 c && leb c 0x200a)

unfoldable pub lstrip : List ℕ → List ℕ
unfolding is_space
lstrip [] = []
lstrip (c ∷ cs) = if is_space c then lstrip cs else c ∷ cs

-- `s.strip()`
unfoldable pub strip : List ℕ → List ℕ
unfolding lstrip
strip cs = reverse (lstrip (reverse (lstrip cs)))

abbrev pub list_eq : List ℕ → List ℕ → Bool
list_eq [] [] = true
list_eq (a ∷ as') (b ∷ bs) = a == b && list_eq as' bs
list_eq _ _ = false

unfoldable pub has_control : String → Bool
has_control s = any (λ c. c == 0 || c == 13 || c == 10) (codes s)

unfoldable pub is_blank : String → Bool
is_blank String.[] = true
is_blank (String.◌∷◌ c s) = false

-- `value != value.strip()`
unfoldable pub is_wrapped : String → Bool
unfolding strip
is_wrapped s = not (list_eq (codes s) (strip (codes s)))

infixr 65 ◌<>◌
abbrev pub ◌<>◌ : String → String → String
s <> t = s ++ t

-- `s[2:]`
unfoldable pub drop_two : String → String
drop_two String.[] = ""
drop_two (String.◌∷◌ c String.[]) = ""
drop_two (String.◌∷◌ c (String.◌∷◌ d s)) = s

abbrev digit : ℕ → String
digit zero = "0"
digit (suc zero) = "1"
digit (suc (suc zero)) = "2"
digit (suc (suc (suc zero))) = "3"
digit (suc (suc (suc (suc zero)))) = "4"
digit (suc (suc (suc (suc (suc zero))))) = "5"
digit (suc (suc (suc (suc (suc (suc zero)))))) = "6"
digit (suc (suc (suc (suc (suc (suc (suc zero))))))) = "7"
digit (suc (suc (suc (suc (suc (suc (suc (suc zero)))))))) = "8"
digit _ = "9"

-- The digits of `n` in front of `tail`; a number has no more digits than `n + 1`.
unfoldable pub decimal_from : ℕ → ℕ → String → String
decimal_from zero n tail = tail
decimal_from (suc fuel) n tail =
    let here = digit (n % 10) ++ tail in
    let rest = decimal_from fuel (n / 10) here in if leb n 9 then here else rest

-- `str(n)`
unfoldable pub decimal : ℕ → String
unfolding decimal_from
decimal n = decimal_from (suc n) n ""

-- No control character.
abbrev pub Printable : List ℕ → Type 0
Printable cs = All (λ c. ltb c 32 ≡ false) cs

pub Printable-of_any : (cs : List ℕ) → any (λ c. ltb c 32) cs ≡ false → Printable cs
Printable-of_any cs h = All-of_any (λ c. ltb c 32) cs h

join-Printable :
    (s t : String) → Printable (codes s) → Printable (codes t) → Printable (codes (s ++ t))
join-Printable String.[] t h k = rw (nil-append) k
join-Printable (String.◌∷◌ c s) t h k = rw (cons-append) (h.0, join-Printable s t h.1 k)

digit-Printable : (n : ℕ) → Printable (codes (digit n))
digit-Printable zero = (refl, tt)
digit-Printable (suc zero) = (refl, tt)
digit-Printable (suc (suc zero)) = (refl, tt)
digit-Printable (suc (suc (suc zero))) = (refl, tt)
digit-Printable (suc (suc (suc (suc zero)))) = (refl, tt)
digit-Printable (suc (suc (suc (suc (suc zero))))) = (refl, tt)
digit-Printable (suc (suc (suc (suc (suc (suc zero)))))) = (refl, tt)
digit-Printable (suc (suc (suc (suc (suc (suc (suc zero))))))) = (refl, tt)
digit-Printable (suc (suc (suc (suc (suc (suc (suc (suc zero)))))))) = (refl, tt)
digit-Printable (suc (suc (suc (suc (suc (suc (suc (suc (suc n))))))))) = (refl, tt)

decimal_from-Printable :
    (fuel n : ℕ) (tail : String)
    → Printable (codes tail)
    → Printable (codes (decimal_from fuel n tail))
unfolding decimal_from
decimal_from-Printable zero n tail h = h
decimal_from-Printable (suc fuel) n tail h =
    let here = join-Printable (digit (n % 10)) tail (digit-Printable (n % 10)) h in
    let rest = decimal_from-Printable fuel (n / 10) (digit (n % 10) ++ tail) here in
    elim (Bool-cases (leb n 9)) [ inl t ↦ rw t here | inr f ↦ rw f rest ]

pub decimal-Printable : (n : ℕ) → Printable (codes (decimal n))
unfolding decimal
decimal-Printable n = decimal_from-Printable (suc n) n "" tt
