-- ===== src/Worktree/Document/Scalars.antt =====
-- The writer and the reader of a scalar in
-- skills/agentdesk/scripts/worktree_lifecycle_store.py, one after the other.

use dockyard.Base.Text.{Printable}
use dockyard.Base.{
  ◌≡◌, refl, sym, ap, ◌∙◌, ltb, ◌==◌, ◌||◌, comparable_number, String, true, false, [], ◌∷◌, ◌++◌,
  some, returns, arith, inl, inr, Bool-cases, eq_of_==, ℕ_discrete,
}
use dockyard.Portfolio.Codec.{Line, escape, quote, digits, scalar, Scalar, null, flag, number, word}
use dockyard.Portfolio.Codec.Printed.{IsPlain}
use dockyard.Portfolio.Codec.Reader.{is_number, number_from}
use dockyard.Portfolio.Codec.RoundTrip.{
  before_quote-append, digits-is_number, digits-number_from, list_eq_refl,
}
use dockyard.Worktree.Document.{inside_quotes, unescape, parse_quoted, parse_scalar}

unescape-escape :
    (key : String) (cs : Line) → Printable cs → unescape key false (escape cs) ≡ returns cs
unfolding unescape escape ℕ_discrete
unescape-escape key [] h = refl
unescape-escape key (c ∷ cs) h =
    let rest = unescape-escape key cs h.1 in
    elim (Bool-cases (c == 92)) [
      | inl t ↦ rw (t, rest) (ap (λ d. returns (d ∷ cs)) (sym (eq_of_== c 92 t)))
      | inr f ↦ elim (Bool-cases (c == 34)) [
        | inl t ↦ rw (f, t, rest) (ap (λ d. returns (d ∷ cs)) (sym (eq_of_== c 34 t)))
        | inr g ↦
            let plain : ((c == 34) || ltb c 32) ≡ false = rw (g) h.0 in
            rw (f, g, f, plain, rest) refl
      ]
    ]

inside_quotes-append : (es : Line) → inside_quotes (34 ∷ (es ++ (34 ∷ []))) ≡ some es
unfolding ℕ_discrete
inside_quotes-append [] = refl
inside_quotes-append (e ∷ es) = before_quote-append (e ∷ es)

parse_quoted-quote :
    (key : String) (cs : Line) → Printable cs → parse_quoted key (quote cs) ≡ returns (word cs)
unfolding parse_quoted quote ℕ_discrete
parse_quoted-quote key cs h =
    rw (inside_quotes-append (escape cs), unescape-escape key cs h, list_eq_refl (quote cs)) refl

parse_scalar-digits :
    (key : String) (cs : Line)
    → is_number cs ≡ true
    → parse_scalar key cs ≡ returns (number (number_from 0 cs))
unfolding parse_scalar ℕ_discrete
parse_scalar-digits key [] h = cc
parse_scalar-digits key (c ∷ cs) h =
    let n : (c == 110) ≡ false = ground (arith) in
    let t : (c == 116) ≡ false = ground (arith) in
    let f : (c == 102) ≡ false = ground (arith) in rw (n, t, f, h) refl

pub parse_scalar-scalar :
    (key : String) (v : Scalar) → IsPlain v → parse_scalar key (scalar v) ≡ returns v
unfolding parse_scalar scalar quote ℕ_discrete
parse_scalar-scalar key null plain = refl
parse_scalar-scalar key (flag true) plain = refl
parse_scalar-scalar key (flag false) plain = refl
parse_scalar-scalar key (number n) plain =
    parse_scalar-digits key (digits n) (digits-is_number n)
    ∙ ap (λ m. returns (number m)) (digits-number_from n)
parse_scalar-scalar key (word cs) plain = parse_quoted-quote key cs plain
