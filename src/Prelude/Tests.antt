-- ===== src/Prelude/Tests.antt =====
-- The conditional, Boolean tests on the native numbers, and equality tests as instances.
use Prim.Native.Nat.{ℕ, compare, Ordering}
use Prim.Native.String.{String}
use mathlib.Core.Path.{◌≡◌, refl, sym, ap, ap₂, ◌∙◌}
use mathlib.Core.Logic.{◌↔◌, ◌⊎◌, inl, inr}
use mathlib.Core.Bool.{Bool, true, false, false≢true, not, ◌&&◌, ◌||◌}
use mathlib.Core.Option.{Option, none, some}
use native.Mathlib.Omega.{arith}
use text.Mathlib.Text.{◌==◌ as text_eq}
use text.Mathlib.TextEquality.{eq_iff}

abbrev pub ltb : ℕ → ℕ → Bool
ltb a b = elim (compare a b) [ Ordering.lt ↦ true | _ ↦ false ]

abbrev pub leb : ℕ → ℕ → Bool
leb a b = elim (compare a b) [ Ordering.gt ↦ false | _ ↦ true ]

infix 1 if◌then◌else◌
abbrev pub if◌then◌else◌ {ℓ} : {A : Type ℓ} → Bool → A → A → A
if true then x else y = x
if false then x else y = y

unfoldable pub Bool-cases : (b : Bool) → (b ≡ true) ⊎ (b ≡ false)
Bool-cases true = inl refl
Bool-cases false = inr refl

-- A test that failed or passed tells of its parts.
pub unnot : (x : Bool) → not x ≡ false → x ≡ true
unnot true h = refl
unnot false h = sym h

pub or_left : (x y : Bool) → (x || y) ≡ false → x ≡ false
or_left true y h = h
or_left false y h = refl

pub or_right : (x y : Bool) → (x || y) ≡ false → y ≡ false
or_right true y h = absurd (false≢true (sym h))
or_right false y h = h

pub and_left : (x y : Bool) → (x && y) ≡ true → x ≡ true
and_left true y h = refl
and_left false y h = h

pub and_right : (x y : Bool) → (x && y) ≡ true → y ≡ true
and_right true y h = h
and_right false y h = absurd (false≢true h)

-- What holds of both branches holds of the conditional.
pub if_both {ℓ κ} :
    {A : Type ℓ} (P : A → Type κ) (b : Bool) {x y : A}
    → (b ≡ true → P x)
    → (b ≡ false → P y)
    → P (if b then x else y)
if_both P true t f = t refl
if_both P false t f = f refl

pub Option-cases {ℓ} : {A : Type ℓ} (o : Option A) → (o ≡ none) ⊎ ((a : A) × (o ≡ some a))
Option-cases none = inl refl
Option-cases (some a) = inr (a, refl)

abbrev pub is_some {ℓ} : {A : Type ℓ} → Option A → Bool
is_some none = false
is_some (some _) = true

-- The test on what is there; false where nothing is.
abbrev pub holds {ℓ} : {A : Type ℓ} → (A → Bool) → Option A → Bool
holds p none = false
holds p (some a) = p a

abbrev nat_eqb : ℕ → ℕ → Bool
nat_eqb a b = elim (compare a b) [ Ordering.eq ↦ true | _ ↦ false ]

pub nat_eqb_iff : (a b : ℕ) → (nat_eqb a b ≡ true) ↔ (a ≡ b)
nat_eqb_iff a b = ground arith

abbrev bool_eqb : Bool → Bool → Bool
bool_eqb true b = b
bool_eqb false true = false
bool_eqb false false = true

pub bool_eqb_iff : (a b : Bool) → (bool_eqb a b ≡ true) ↔ (a ≡ b)
bool_eqb_iff a b = ground arith

-- Go's `==` at a comparable type.
pub record Eq {ℓ} (A : Type ℓ) : Type ℓ where
  pub eqb : A → A → Bool
  pub eqb_iff : (a b : A) → (eqb a b ≡ true) ↔ (a ≡ b)

infix 50 ◌==◌
abbrev pub ◌==◌ {ℓ} : {A : Type ℓ} ⦃e : Eq A⦄ → A → A → Bool
◌==◌ ⦃e⦄ = e.eqb

instance abbrev pub nat_Eq : Eq ℕ
nat_Eq = record { eqb = nat_eqb; eqb_iff = nat_eqb_iff }

instance abbrev pub string_Eq : Eq String
string_Eq = record { eqb = text_eq; eqb_iff = eq_iff }

instance abbrev pub bool_Eq : Eq Bool
bool_Eq = record { eqb = bool_eqb; eqb_iff = bool_eqb_iff }

-- Decidable equality as a test, and the test on texts as a decision.
abbrev decided {ℓ} : {A : Type ℓ} → Dec A → Bool
decided (yes _) = true
decided (no _) = false

pub decided_iff {ℓ} : {A : Type ℓ} (d : Dec A) → (decided d ≡ true) ↔ A
decided_iff (yes a) = ((λ _. a), (λ _. refl))
decided_iff (no f) = ((λ p. cc), (λ a. absurd (f a)))

abbrev pub discrete_Eq {ℓ} : {A : Type ℓ} → Discrete A → Eq A
discrete_Eq d = record { eqb = λ a b. decided (d a b); eqb_iff = λ a b. decided_iff (d a b) }

unfoldable pub string_discrete : Discrete String
string_discrete s t = elim (Bool-cases (text_eq s t)) [
  | inl same ↦ yes ((eq_iff s t).0 same)
  | inr differ ↦ no (λ p. false≢true (sym differ ∙ (eq_iff s t).1 p))
]

-- Equality of optional values, as of two pointers that are compared through what they point to.
abbrev pub opt_eqb {ℓ} : {A : Type ℓ} ⦃e : Eq A⦄ → Option A → Option A → Bool
opt_eqb none none = true
opt_eqb (some a) (some b) = a == b
opt_eqb _ _ = false

abbrev or_else {ℓ} : {A : Type ℓ} → A → Option A → A
or_else a none = a
or_else a (some b) = b

pub opt_eqb_iff {ℓ} : {A : Type ℓ} ⦃e : Eq A⦄ (a b : Option A) → (opt_eqb a b ≡ true) ↔ (a ≡ b)
opt_eqb_iff none none = ((λ h. refl), (λ p. refl))
opt_eqb_iff none (some b) = ((λ h. cc), (λ p. cc))
opt_eqb_iff (some a) none = ((λ h. cc), (λ p. cc))
opt_eqb_iff ⦃e⦄ (some a) (some b) =
    (λ h. ap some ((e.eqb_iff a b).0 h), λ p. (e.eqb_iff a b).1 (ap (or_else a) p))

instance abbrev pub opt_Eq {ℓ} : {A : Type ℓ} ⦃e : Eq A⦄ → Eq (Option A)
opt_Eq = record { eqb = opt_eqb; eqb_iff = opt_eqb_iff }

-- Two pairs are compared part by part.
module _ {ℓ κ} {A : Type ℓ} {B : Type κ} ⦃d : Eq A⦄ ⦃e : Eq B⦄ where
  abbrev pair_eqb : A × B → A × B → Bool
  pair_eqb x y = if x.0 == y.0 then x.1 == y.1 else false

  pub pair_eqb_iff : (x y : A × B) → (pair_eqb x y ≡ true) ↔ (x ≡ y)
  pair_eqb_iff x y = (
    λ h. elim (Bool-cases (x.0 == y.0)) [
      | inl same ↦
          ap₂ (λ (a : A) (b : B). (a, b)) ((d.eqb_iff x.0 y.0).0 same)
            ((e.eqb_iff x.1 y.1).0 (ground (arith, same, h)))
      | inr differ ↦ absurd (ground (arith, differ, h))
    ],
    λ p.
        rw ((d.eqb_iff x.0 y.0).1 (ap (λ (z : A × B). z.0) p))
          ((e.eqb_iff x.1 y.1).1 (ap (λ (z : A × B). z.1) p)),
  )

  instance abbrev pub pair_Eq : Eq (A × B)
  pair_Eq = record { eqb = pair_eqb; eqb_iff = pair_eqb_iff }

-- A struct is compared by its fields, which `f` lists and `g` puts together again.
abbrev pub fields_Eq {ℓ κ} :
    {A : Type ℓ} {B : Type κ} (f : A → B) (g : B → A) → ((a : A) → g (f a) ≡ a) → Eq B → Eq A
fields_Eq f g back e = record {
  eqb = λ a b. e.eqb (f a) (f b);
  eqb_iff = λ a b. (
    λ h. sym (back a) ∙ ap g ((e.eqb_iff (f a) (f b)).0 h) ∙ back b,
    λ p. (e.eqb_iff (f a) (f b)).1 (ap f p),
  );
}
