-- ===== src/Portfolio/Codec/Examples.antt =====
-- A token with an escaped quotation mark.
use dockyard.Base.{comparable_number, ◌≡◌, refl, [], ◌∷◌, returns, ℕ_discrete}
use dockyard.Portfolio.Codec.{escape, quote}
use dockyard.Portfolio.Codec.Reader.{parse_quoted_scalar, unescape}

quoted : parse_quoted_scalar (34 ∷ 97 ∷ 92 ∷ 34 ∷ 34 ∷ []) ≡ returns (97 ∷ 34 ∷ [])
unfolding parse_quoted_scalar unescape quote escape ℕ_discrete
quoted = refl
