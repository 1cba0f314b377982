-- ===== src/Result.antt =====
-- The outcome of a fallible step: a value, the diagnostic of a failure, or no fuel left, which the
-- source does not have.
use skg.Base.{◌≡◌, ◌≢◌, refl, Bool, true, false, if◌then◌else◌, subst}
use skg.Error.{Diagnostic}

pub data Outcome {ℓ} (E : Type 0) (A : Type ℓ) : Type ℓ where
  ok : A → Outcome E A
  err : E → Outcome E A
  out_of_fuel : Outcome E A

-- `Result<A, ParseError>`
abbrev pub Result {ℓ} : Type ℓ → Type ℓ
Result A = Outcome Diagnostic A

module _ {ℓ κ} {E : Type 0} {A : Type ℓ} {B : Type κ} where
  abbrev pub bind : Outcome E A → (A → Outcome E B) → Outcome E B
  bind (ok a) f = f a
  bind (err d) f = err d
  bind out_of_fuel f = out_of_fuel

-- The run had fuel enough; where it did not fail, its value has the property.
pub data Ensures {ℓ κ} {E : Type 0} {A : Type ℓ} (P : A → Type κ) : Outcome E A → Type (ℓ ⊔ κ) where
  failed : (d : E) → Ensures P (err d)
  holds : {a : A} → P a → Ensures P (ok a)

-- A step after a step.
pub Ensures-bind {ℓ κ ℓ' κ'} :
    {E : Type 0} {A : Type ℓ} {B : Type κ} {Before : A → Type ℓ'} {After : B → Type κ'}
    {first : Outcome E A} {next : A → Outcome E B}
    → Ensures Before first
    → ((v : A) → Before v → Ensures After (next v))
    → Ensures After (bind first next)
Ensures-bind (failed d) step = failed d
Ensures-bind (holds {a} here) step = step a here

module _ {ℓ κ} {E : Type 0} {A : Type ℓ} {P : A → Type κ} where
  pub Ensures-map {κ'} :
      {Q : A → Type κ'} {r : Outcome E A} → Ensures P r → ((a : A) → P a → Q a) → Ensures Q r
  Ensures-map (holds {a} h) k = holds (k a h)
  Ensures-map (failed d) k = failed d

  pub Ensures-if :
      (test : Bool) {m n : Outcome E A}
      → (test ≡ true → Ensures P m)
      → (test ≡ false → Ensures P n)
      → Ensures P (if test then m else n)
  Ensures-if false hm hn = hn refl
  Ensures-if true hm hn = hm refl

  -- What a run that gave a value says of the value.
  pub Ensures-ok : {run : Outcome E A} {v : A} → Ensures P run → run ≡ ok v → P v
  Ensures-ok (failed d) e = cc
  Ensures-ok (holds h) e = subst P (cc) h

  pub Ensures-out_of_fuel : {run : Outcome E A} → Ensures P run → run ≢ out_of_fuel
  Ensures-out_of_fuel (failed d) = cc
  Ensures-out_of_fuel (holds h) = cc

-- The run gave a value with the property, or had too little fuel; it did not fail.
pub data Yields {ℓ κ} {E : Type 0} {A : Type ℓ} (P : A → Type κ) : Outcome E A → Type (ℓ ⊔ κ) where
  spent : Yields P out_of_fuel
  yields : {a : A} → P a → Yields P (ok a)

pub Yields-bind {ℓ κ ℓ' κ'} :
    {E : Type 0} {A : Type ℓ} {B : Type κ} {Before : A → Type ℓ'} {After : B → Type κ'}
    {first : Outcome E A} {next : A → Outcome E B}
    → Yields Before first
    → ((v : A) → Before v → Yields After (next v))
    → Yields After (bind first next)
Yields-bind spent step = spent
Yields-bind (yields {a} here) step = step a here

pub Yields-map {ℓ κ κ'} :
    {E : Type 0} {A : Type ℓ} {P : A → Type κ} {Q : A → Type κ'} {r : Outcome E A}
    → Yields P r
    → ((a : A) → P a → Q a)
    → Yields Q r
Yields-map spent k = spent
Yields-map (yields {a} h) k = yields (k a h)

-- A run with fuel enough that does not fail gives a value with both properties.
pub Yields-Ensures {ℓ κ κ'} :
    {E : Type 0} {A : Type ℓ} {P : A → Type κ} {Q : A → Type κ'} {r : Outcome E A}
    → Yields P r
    → Ensures Q r
    → (a : A) × (r ≡ ok a) × P a
Yields-Ensures spent e = absurd (Ensures-out_of_fuel e refl)
Yields-Ensures (yields {a} h) e = (a, refl, h)
