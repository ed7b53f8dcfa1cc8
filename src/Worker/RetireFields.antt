-- ===== src/Worker/RetireFields.antt =====
-- A field that is added to the fields of a record, which does not have it
-- (internal/worker/start_retirement.go).
use Prim.Native.Nat.{suc}
use text.Mathlib.TextEquality.{eq_iff}
use agent_remote_node.Prelude.{
  String, Bool, true, false, ◌&&◌, ◌||◌, none, some, [], ◌∷◌, ◌≡◌, refl, ap, ◌==◌, string_Eq,
  nat_Eq, int_Eq, arith, Bool-cases, inl, inr, if◌then◌else◌, if_both,
}
use agent_remote_node.Ledger.Value.{Value, Fields, end, field, normal_fields, normal, normal_map}
use agent_remote_node.Worker.Json.{get_field, set_field, count_fields, exact_fields}
use agent_remote_node.Worker.StartRecord.{result_Eq}
use agent_remote_node.Worker.StartDecode.{data_of}

module _ (before : String → String → Bool) where
  pub get_field-set :
      (k : String) (v : Value) (j : String) (fs : Fields)
      → get_field j (set_field before k v fs) ≡ (if k == j then some v else get_field j fs)
  unfolding get_field set_field
  get_field-set k v j end = refl
  get_field-set k v j (field i w fs) =
      ground (arith, eq_iff i k, eq_iff i j, eq_iff k j, get_field-set k v j fs)

  count-set :
      (k : String) (v : Value) (fs : Fields)
      → get_field k fs ≡ none
      → count_fields (set_field before k v fs) ≡ suc (count_fields fs)
  unfolding get_field set_field
  count-set k v end h = refl
  count-set k v (field i w fs) h = elim (Bool-cases (i == k)) [
    | inl same ↦ absurd (ground (arith, h, same))
    | inr differ ↦ rw differ (
        if_both (λ r. count_fields r ≡ suc (suc (count_fields fs))) (before k i) (λ _. refl)
          (λ _. ap suc (count-set k v fs (ground (arith, h, differ)))))
  ]

  pub normal-set :
      (k : String) (v : Value) (fs : Fields)
      → normal_fields (set_field before k v fs) ≡ set_field before k (normal v) (normal_fields fs)
  unfolding set_field normal_fields
  normal-set k v end = refl
  normal-set k v (field i w fs) = elim (Bool-cases (i == k)) [
    | inl same ↦ rw same refl
    | inr differ ↦ elim (Bool-cases (before k i)) [
      | inl early ↦ rw (differ, early) refl
      | inr late ↦ rw (differ, late) (ap (field i (normal w)) (normal-set k v fs))
    ]
  ]

pub data_normal : (fs : Fields) → data_of (normal_map (some fs)) ≡ normal_fields fs
unfolding normal_map normal_fields
data_normal end = refl
data_normal (field k v fs) = refl

-- Two fields do not have three names.
abbrev covered : String → String → Bool
covered b c =
    ((b == "schema_version") || (c == "schema_version"))
    && (((b == "binding") || (c == "binding")) && ((b == "outcome") || (c == "outcome")))

one_name : (t : String) → ((t == "binding") && (t == "outcome")) ≡ false
one_name t = elim (Bool-cases (t == "binding")) [
  | inl h ↦ rw ((string_Eq.eqb_iff t "binding").0 h) refl
  | inr h ↦ rw h refl
]

-- A field of one name has no other.
other_names :
    (t : String)
    → (t == "schema_version") ≡ true
    → ((t == "binding") ≡ false) × ((t == "outcome") ≡ false)
other_names t h =
    let e = (string_Eq.eqb_iff t "schema_version").0 h in
    (ap (λ x. x == "binding") e, ap (λ x. x == "outcome") e)

two_names : (b c : String) → covered b c ≡ false
two_names b c = elim (Bool-cases (b == "schema_version")) [
  | inl first ↦ let f = other_names b first in ground (arith, f.0, f.1, one_name c)
  | inr not_first ↦ elim (Bool-cases (c == "schema_version")) [
    | inl second ↦ let f = other_names c second in ground (arith, f.0, f.1, one_name b)
    | inr neither ↦ ground (arith, not_first, neither)
  ]
]

retirement_only :
    (t : String)
    → (t == "retirement") ≡ true
    → ((t == "schema_version") ≡ false) × ((t == "binding") ≡ false) × ((t == "outcome") ≡ false)
retirement_only t h =
    let e = (string_Eq.eqb_iff t "retirement").0 h in
    (ap (λ x. x == "schema_version") e, ap (λ x. x == "binding") e, ap (λ x. x == "outcome") e)

-- Three fields that have these three names have no other.
no_fourth :
    (fs : Fields)
    → exact_fields ("schema_version" ∷ ("binding" ∷ ("outcome" ∷ []))) fs ≡ true
    → get_field "retirement" fs ≡ none
unfolding exact_fields get_field
no_fourth end h = refl
no_fourth (field a x end) h = absurd (ground (arith, h))
no_fourth (field a x (field b y end)) h = absurd (ground (arith, h))
no_fourth (field a x (field b y (field c z end))) h = elim (Bool-cases (a == "retirement")) [
  | inl first ↦
      let f = retirement_only a first in absurd (ground (arith, h, f.0, f.1, f.2, two_names b c))
  | inr not_first ↦ elim (Bool-cases (b == "retirement")) [
    | inl second ↦
        let f = retirement_only b second in absurd (ground (arith, h, f.0, f.1, f.2, two_names a c))
    | inr not_second ↦ elim (Bool-cases (c == "retirement")) [
      | inl third ↦
          let f = retirement_only c third in
          absurd (ground (arith, h, f.0, f.1, f.2, two_names a b))
      | inr not_third ↦ rw (not_first, not_second, not_third) refl
    ]
  ]
]
no_fourth (field a x (field b y (field c z (field d w fs)))) h = absurd (ground (arith, h))

module _ (before : String → String → Bool) where
  pub exact_set :
      (v : Value) (fs : Fields)
      → exact_fields ("schema_version" ∷ ("binding" ∷ ("outcome" ∷ []))) fs ≡ true
      → exact_fields
          ("schema_version" ∷ ("binding" ∷ ("outcome" ∷ ("retirement" ∷ []))))
          (set_field before "retirement" v fs)
        ≡ true
  unfolding exact_fields
  exact_set v fs h =
      let count = count-set before "retirement" v fs (no_fourth fs h) in
      let get = λ (j : String). get_field-set before "retirement" v j fs in
      rw (count, get "schema_version", get "binding", get "outcome", get "retirement")
        (ground (arith, h))
