-- ===== src/Portfolio/Codec/Printed.antt =====
-- The scalars and fields of skills/agentdesk/scripts/portfolio_scheduler_store.py are written
-- without control characters.
use dockyard.Base.LineBreaks.{Printable-append}
use dockyard.Base.Text.{Printable, Printable-of_any}
use dockyard.Base.{
  ℕ, zero, suc, ◌+◌, ◌/◌, ◌%◌, refl, leb, ◌==◌, comparable_number, String, true, false, [], ◌∷◌,
  arith, inl, inr, Bool-cases,
}
use dockyard.Portfolio.Codec.{
  Line, escape, quote, digits, digits_from, scalar, field, text, Scalar, null, flag, number, word,
}

-- A text has no control characters.
abbrev pub IsPlain : Scalar → Type 0
IsPlain null = Unit
IsPlain (flag b) = Unit
IsPlain (number n) = Unit
IsPlain (word cs) = Printable cs

escape-Printable : (cs : Line) → Printable cs → Printable (escape cs)
unfolding escape
escape-Printable [] h = tt
escape-Printable (c ∷ cs) h =
    let rest = escape-Printable cs h.1 in
    elim (Bool-cases (c == 92)) [
      | inl t ↦ rw t (refl, (refl, rest))
      | inr f ↦ elim (Bool-cases (c == 34)) [
        | inl t ↦ rw (f, t) (refl, (refl, rest))
        | inr g ↦ rw (f, g) (h.0, rest)
      ]
    ]

digits_from-Printable :
    (fuel n : ℕ) (tail : Line) → Printable tail → Printable (digits_from fuel n tail)
unfolding digits_from
digits_from-Printable zero n tail h = h
digits_from-Printable (suc fuel) n tail h =
    let here : Printable ((48 + n % 10) ∷ tail) = (ground (arith), h) in
    let rest = digits_from-Printable fuel (n / 10) ((48 + n % 10) ∷ tail) here in
    elim (Bool-cases (leb n 9)) [ inl t ↦ rw t here | inr f ↦ rw f rest ]

pub scalar-Printable : (v : Scalar) → IsPlain v → Printable (scalar v)
unfolding scalar digits quote
scalar-Printable null h = Printable-of_any (text "null") refl
scalar-Printable (flag true) h = Printable-of_any (text "true") refl
scalar-Printable (flag false) h = Printable-of_any (text "false") refl
scalar-Printable (number n) h = digits_from-Printable (suc n) n [] tt
scalar-Printable (word cs) h =
    (refl, Printable-append (escape cs) (34 ∷ []) (escape-Printable cs h) (refl, tt))

pub field-Printable :
    (key : String) (v : Scalar) → Printable (text key) → IsPlain v → Printable (field [] key v)
unfolding field
field-Printable key v h k =
    Printable-append (text key) (58 ∷ 32 ∷ scalar v) h (refl, (refl, scalar-Printable v k))
