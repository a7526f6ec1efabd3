-- ===== src/Base/Results.antt =====
-- Python's exceptions as values: a call returns a value or raises an exception of type `E`.
use mathlib.Core.Bool.{Bool, true, false}
use mathlib.Core.Path.{◌≡◌, refl, sym, ap, ◌∙◌}
use mathlib.Core.Logic.{◌⊎◌, inl, inr}
use native.Mathlib.Omega.{arith}
use mathlib.Core.Option.{Option, none, some}

pub data Attempt {ℓ} (E : Type 0) (A : Type ℓ) : Type ℓ where
  raises : E → Attempt E A
  returns : A → Attempt E A

module _ {ℓ κ} {E : Type 0} {A : Type ℓ} {B : Type κ} where
  abbrev pub and_then : (A → Attempt E B) → Attempt E A → Attempt E B
  and_then next (raises e) = raises e
  and_then next (returns a) = next a

infixl 5 ◌>>=◌ ◌>>◌
abbrev pub ◌>>=◌ {ℓ κ} :
    {E : Type 0} {A : Type ℓ} {B : Type κ} → Attempt E A → (A → Attempt E B) → Attempt E B
m >>= next = and_then next m

abbrev pub ◌>>◌ {ℓ} : {E : Type 0} {B : Type ℓ} → Attempt E (Unit {0}) → Attempt E B → Attempt E B
m >> k = and_then (λ done. k) m

-- `if not test: raise e`
abbrev pub require : {E : Type 0} → Bool → E → Attempt E (Unit {0})
require false e = raises e
require true e = returns tt

-- `if x is None: raise e`
abbrev pub or_raise {ℓ} : {E : Type 0} {A : Type ℓ} → Option A → E → Attempt E A
or_raise none e = raises e
or_raise (some a) e = returns a

-- What an attempt came to, and what a chain of attempts that returned says of its parts.
pub attempt_cases :
    {E A : Type 0} (m : Attempt E A) → ((e : E) × (m ≡ raises e)) ⊎ ((a : A) × (m ≡ returns a))
attempt_cases (raises e) = inl (e, refl)
attempt_cases (returns a) = inr (a, refl)

pub peel :
    {E A B : Type 0} (m : Attempt E A) (next : A → Attempt E B) (b : B)
    → (m >>= next) ≡ returns b
    → (a : A) × (m ≡ returns a) × (next a ≡ returns b)
peel (raises e) next b h = absurd (ground (arith))
peel (returns a) next b h = (a, refl, h)

-- The same, for a chain that is long.
pub along {κ} :
    {E A B : Type 0} {P : Type κ} (m : Attempt E A) (next : A → Attempt E B) (b : B)
    → (m >>= next) ≡ returns b
    → ((a : A) → m ≡ returns a → next a ≡ returns b → P)
    → P
along (raises e) next b h k = absurd (ground (arith))
along (returns a) next b h k = k a refl h

pub past :
    {E B : Type 0} (m : Attempt E (Unit {0})) (next : Attempt E B) (b : B)
    → (m >> next) ≡ returns b
    → next ≡ returns b
past (raises e) next b h = absurd (ground (arith))
past (returns a) next b h = h

pub first_returns :
    {E B : Type 0} (m : Attempt E (Unit {0})) (next : Attempt E B) (b : B)
    → (m >> next) ≡ returns b
    → m ≡ returns tt
first_returns (raises e) next b h = absurd (ground (arith))
first_returns (returns a) next b h = refl

pub guarded :
    {E B : Type 0} (test : Bool) (e : E) (next : Attempt E B) {b : B}
    → (require test e >> next) ≡ returns b
    → (test ≡ true) × (next ≡ returns b)
guarded true e next h = (refl, h)
guarded false e next h = absurd (ground (arith))

pub returned_same :
    {E A : Type 0} (m : Attempt E A) {a b : A} → m ≡ returns a → m ≡ returns b → a ≡ b
returned_same (raises e) h k = absurd (ground (arith))
returned_same (returns x) h k = ground (arith)

pub required : {E : Type 0} (test : Bool) (e : E) → require test e ≡ returns tt → test ≡ true
required true e h = refl
required false e h = absurd (ground (arith))

-- A chain of attempts that return.
pub and_next :
    {E B : Type 0} {m : Attempt E (Unit {0})} {next x : Attempt E B}
    → m ≡ returns tt
    → next ≡ x
    → (m >> next) ≡ x
and_next h k = rw h k

-- The exception of a check that passes does not matter.
pub require_other :
    {E : Type 0} (test : Bool) (e f : E) → require test e ≡ returns tt → require test f ≡ returns tt
require_other test e f h = let ok = required test e h in rw ok refl

pub bind_next :
    {E A B : Type 0} {m : Attempt E A} {a : A} {x : Attempt E B} (next : A → Attempt E B)
    → m ≡ returns a
    → next a ≡ x
    → (m >>= next) ≡ x
bind_next next h k = rw h k

-- A value that is returned behind a check passes it.
pub checked :
    {E A : Type 0} (m : Attempt E A) (check : A → Attempt E (Unit {0})) (a : A)
    → (m >>= λ x. check x >> returns x) ≡ returns a
    → check a ≡ returns tt
checked m check a h = along m _ a h (λ x e k.
    let same : x ≡ a = let p = past (check x) (returns x) a k in cc in
    ap check (sym same) ∙ first_returns (check x) (returns x) a k)

-- The steps of a chain that returns, one behind the other.
infixr 3 ◌▸⟨◌⟩◌
pub ◌▸⟨◌⟩◌ :
    {E A B : Type 0} {m : Attempt E A} {a : A} {x : Attempt E B}
    → m ≡ returns a
    → (next : A → Attempt E B) → next a ≡ x
    → (m >>= next) ≡ x
h ▸⟨ next ⟩ k = bind_next next h k
