-- ===== src/Portfolio/Codec/RoundTrip.antt =====
-- The writer and the reader of a scalar in
-- skills/agentdesk/scripts/portfolio_scheduler_store.py, one after the other.
use mathlib.Core.Option
use mathlib.Core.List.{append_assoc}
use dockyard.Base.Text
use dockyard.Base.{
  ℕ, zero, suc, ◌+◌, ◌*◌, ◌-◌, ◌/◌, ◌%◌, ◌<◌, ◌≤◌, ◌≡◌, refl, sym, ap, ◌∙◌, leb, ◌==◌,
  comparable_number, String, true, false, not, List, [], ◌∷◌, ◌++◌, any, some, returns, require,
  or_raise, arith, inl, inr, Bool-cases, ==-refl, eq_of_==, ℕ_discrete, peel, past, first_returns,
}
use dockyard.Portfolio.Codec.{
  Line, text, escape, quote, digits, digits_from, scalar, field, same_lines, Scalar, null, flag,
  number, word,
}
use dockyard.Portfolio.Codec.Reader.{
  bad_scalar, noncanonical, is_control, before_quote, quoted_body, unescape, parse_quoted_scalar,
  is_digit, is_number, number_from, parse_scalar, after_prefix, parse_line_scalar,
}

pub list_eq_refl : (cs : Line) → Text.list_eq cs cs ≡ true
list_eq_refl [] = refl
list_eq_refl (c ∷ cs) = rw (==-refl c, list_eq_refl cs) refl

pub eq_of_list_eq : (as' bs : Line) → Text.list_eq as' bs ≡ true → as' ≡ bs
eq_of_list_eq [] [] h = refl
eq_of_list_eq [] (b ∷ bs) h = cc
eq_of_list_eq (a ∷ as') [] h = cc
eq_of_list_eq (a ∷ as') (b ∷ bs) h = ground (arith, eq_of_list_eq as' bs)

pub before_quote-append : (cs : Line) → before_quote (cs ++ (34 ∷ [])) ≡ some cs
unfolding ℕ_discrete
before_quote-append [] = refl
before_quote-append (c ∷ []) = refl
before_quote-append (c ∷ d ∷ ds) = ap (Option.map (λ cs. c ∷ cs)) (before_quote-append (d ∷ ds))

unescape-escape : (cs : Line) → any is_control cs ≡ false → unescape false (escape cs) ≡ returns cs
unfolding unescape escape ℕ_discrete
unescape-escape [] h = refl
unescape-escape (c ∷ cs) h =
    let rest = unescape-escape cs (ground (arith)) in
    elim (Bool-cases (c == 92)) [
      | inl t ↦ rw (t, rest) (ap (λ d. returns (d ∷ cs)) (sym (eq_of_== c 92 t)))
      | inr f ↦ elim (Bool-cases (c == 34)) [
        | inl t ↦ rw (f, t, rest) (ap (λ d. returns (d ∷ cs)) (sym (eq_of_== c 34 t)))
        | inr g ↦
            let plain : is_control c ≡ false = ground (arith) in rw (f, g, f, g, plain, rest) refl
      ]
    ]

pub parse_quoted_scalar-quote :
    (cs : Line) → any is_control cs ≡ false → parse_quoted_scalar (quote cs) ≡ returns cs
unfolding parse_quoted_scalar quote ℕ_discrete
parse_quoted_scalar-quote cs h =
    rw (before_quote-append (escape cs), unescape-escape cs h, list_eq_refl (quote cs)) refl

-- A token that _parse_quoted_scalar accepts is the quotation of the text it returns, so a text
-- has one spelling.
pub quote-parse_quoted_scalar :
    (token cs : Line) → parse_quoted_scalar token ≡ returns cs → quote cs ≡ token
unfolding parse_quoted_scalar
quote-parse_quoted_scalar token cs h =
    let (body, found, k) = peel (or_raise (quoted_body token) bad_scalar) _ cs h in
    let (value, read, k₁) = peel (unescape false body) _ cs k in
    let same : value ≡ cs =
      ground (arith, past (require (Text.list_eq (quote value) token) noncanonical) _ cs k₁) in
    ap quote (sym same)
    ∙ eq_of_list_eq (quote value) token (
        ground
          (arith, first_returns (require (Text.list_eq (quote value) token) noncanonical) _ cs k₁))

number_from-digits :
    (fuel n : ℕ) (tail : Line)
    → n < fuel
    → number_from 0 (digits_from fuel n tail) ≡ number_from n tail
unfolding number_from digits_from
number_from-digits zero n tail h = omega arith
number_from-digits (suc fuel) n tail h = elim (Bool-cases (leb n 9)) [
  | inl small ↦ rw small (
      ap (λ m. number_from m tail)
        (let e : 0 * 10 + ((48 + n % 10) - 48) ≡ n = ground (arith) in e))
  | inr large ↦ rw large (
      number_from-digits fuel (n / 10) ((48 + n % 10) ∷ tail) (ground (arith))
      ∙ ap (λ m. number_from m tail)
          (let e : (n / 10) * 10 + ((48 + n % 10) - 48) ≡ n = ground (arith) in e))
]

-- The digits begin with a digit that is not zero, unless the number is zero.
digits_from-number :
    (fuel n : ℕ) (tail : Line)
    → n < fuel
    → 0 < n
    → any (λ d. not (is_digit d)) tail ≡ false
    → (c : ℕ) × (cs : Line) × (digits_from fuel n tail ≡ c ∷ cs)
      × (49 ≤ c)
      × (c ≤ 57)
      × (any (λ d. not (is_digit d)) cs ≡ false)
unfolding digits_from
digits_from-number zero n tail h p t = absurd (omega arith)
digits_from-number (suc fuel) n tail h p t = elim (Bool-cases (leb n 9)) [
  | inl small ↦ (48 + n % 10, tail, rw small refl, ground (arith), ground (arith), t)
  | inr large ↦
      let (c, cs, made, low, high, all) =
        digits_from-number fuel (n / 10) ((48 + n % 10) ∷ tail) (ground (arith)) (ground (arith))
          (ground (arith)) in
      (c, cs, rw large made, low, high, all)
]

pub digits-is_number : (n : ℕ) → is_number (digits n) ≡ true
unfolding digits digits_from
digits-is_number n = elim (Bool-cases (leb n 9)) [
  | inl small ↦ rw small (ground (arith))
  | inr large ↦
      let (c, cs, made, low, high, all) =
        digits_from-number (suc n) n [] (ground (arith)) (ground (arith)) refl in
      ap is_number made ∙ ground (arith)
]

pub digits-number_from : (n : ℕ) → number_from 0 (digits n) ≡ n
unfolding digits number_from
digits-number_from n = number_from-digits (suc n) n [] (omega arith)

pub parse_scalar-digits :
    (cs : Line) → is_number cs ≡ true → parse_scalar cs ≡ returns (number (number_from 0 cs))
unfolding parse_scalar ℕ_discrete
parse_scalar-digits [] h = cc
parse_scalar-digits (c ∷ cs) h =
    let n : (c == 110) ≡ false = ground (arith) in
    let t : (c == 116) ≡ false = ground (arith) in
    let f : (c == 102) ≡ false = ground (arith) in
    let q : (c == 34) ≡ false = ground (arith) in rw (n, t, f, q, h) refl

-- A text has no control characters.
abbrev pub IsClean : Scalar → Type 0
IsClean null = Unit
IsClean (flag b) = Unit
IsClean (number n) = Unit
IsClean (word cs) = any is_control cs ≡ false

pub parse_scalar-scalar : (v : Scalar) → IsClean v → parse_scalar (scalar v) ≡ returns v
unfolding parse_scalar scalar quote ℕ_discrete
parse_scalar-scalar null clean = refl
parse_scalar-scalar (flag true) clean = refl
parse_scalar-scalar (flag false) clean = refl
parse_scalar-scalar (number n) clean =
    parse_scalar-digits (digits n) (digits-is_number n)
    ∙ ap (λ m. returns (number m)) (digits-number_from n)
parse_scalar-scalar (word cs) clean = rw (parse_quoted_scalar-quote cs clean) refl

pub after_prefix-append : (ps cs : Line) → after_prefix ps (ps ++ cs) ≡ some cs
after_prefix-append [] cs = refl
after_prefix-append (p ∷ ps) cs = rw (==-refl p) (after_prefix-append ps cs)

scalar-nonempty : (v : Scalar) → any (λ c. true) (scalar v) ≡ true
unfolding scalar quote
scalar-nonempty null = refl
scalar-nonempty (flag true) = refl
scalar-nonempty (flag false) = refl
scalar-nonempty (number n) = nonempty (digits n) (digits-is_number n)
  where
    nonempty : (cs : Line) → is_number cs ≡ true → any (λ c. true) cs ≡ true
    nonempty [] h = cc
    nonempty (c ∷ cs) h = refl
scalar-nonempty (word cs) = refl

field-split :
    (indent : Line) (key : String) (v : Scalar)
    → field indent key v ≡ (indent ++ (text key ++ (58 ∷ 32 ∷ []))) ++ scalar v
unfolding field
field-split indent key v = rw (append_assoc, append_assoc) refl

-- _parse_line_scalar reads from the line written for a key and a value (null, a flag, a number,
-- or a text without control characters) that value, and leaves the lines after it.
pub parse_line_scalar-field :
    (indent : Line) (key : String) (v : Scalar) (rest : List Line)
    → IsClean v
    → parse_line_scalar (field indent key v ∷ rest) indent key ≡ returns (v, rest)
unfolding parse_line_scalar
parse_line_scalar-field indent key v rest clean =
    rw
      (
        field-split indent key v,
        after_prefix-append (indent ++ (text key ++ (58 ∷ 32 ∷ []))) (scalar v),
        scalar-nonempty v,
        parse_scalar-scalar v clean,
      )
      refl

pub same_lines_refl : (ls : List Line) → same_lines ls ls ≡ true
unfolding same_lines
same_lines_refl [] = refl
same_lines_refl (l ∷ ls) = rw (list_eq_refl l, same_lines_refl ls) refl
