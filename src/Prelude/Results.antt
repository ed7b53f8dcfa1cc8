-- ===== src/Prelude/Results.antt =====
-- A Go result `(value, error)`: the value, or the error that took its place.
use mathlib.Core.Path.{◌≡◌, refl}
use mathlib.Core.Bool.{Bool, true, false}

pub data Outcome {ℓ} (E A : Type ℓ) : Type ℓ where
  err : E → Outcome E A
  ok : A → Outcome E A

-- `if bad { return err }`.
abbrev pub refuse_if {ℓ} : {E : Type ℓ} → Bool → E → Outcome E (Unit {ℓ})
refuse_if false problem = ok tt
refuse_if true problem = err problem

abbrev pub succeeded {ℓ} : {E A : Type ℓ} → Outcome E A → Bool
succeeded (err _) = false
succeeded (ok _) = true

-- `value, err := first; if err != nil { return err }`, and what is done with the value.
infixl 5 ◌>>=◌
abbrev pub ◌>>=◌ {ℓ} : {E A B : Type ℓ} (first : Outcome E A) (rest : A → Outcome E B) → Outcome E B
err problem >>= rest = err problem
ok value >>= rest = rest value

-- The same where only the error matters.
infixl 5 ◌>>◌
abbrev pub ◌>>◌ {ℓ} :
    {E B : Type ℓ} (check : Outcome E (Unit {ℓ})) (rest : Outcome E B) → Outcome E B
check >> rest = check >>= λ _. rest

-- A chain that ends well passed its first check, and a check that passed refused nothing.
pub then_ok {ℓ} :
    {E B : Type ℓ} (check : Outcome E (Unit {ℓ})) (rest : Outcome E B) {value : B}
    → (check >> rest) ≡ ok value
    → (check ≡ ok tt) × (rest ≡ ok value)
then_ok (err problem) rest h = cc
then_ok (ok tt) rest h = (refl, h)

pub unrefused {ℓ} :
    {E : Type ℓ} (bad : Bool) (problem : E) → refuse_if bad problem ≡ ok tt → bad ≡ false
unrefused true problem h = cc
unrefused false problem h = refl

pub passed {ℓ} :
    {E B : Type ℓ} (bad : Bool) (problem : E) (rest : Outcome E B) {value : B}
    → (refuse_if bad problem >> rest) ≡ ok value
    → (bad ≡ false) × (rest ≡ ok value)
passed true problem rest h = cc
passed false problem rest h = (refl, h)
