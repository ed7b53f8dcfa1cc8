-- ===== src/Prelude/Map.antt =====
-- A Go map: an association list in which no key stands twice. Tests compute with it, and
-- proofs use the laws; `retain` is a loop that deletes during `range`.
use agent_remote_node.Prelude.Tests.{if◌then◌else◌, Bool-cases, Eq, ◌==◌}
use agent_remote_node.Prelude.Lists.{all}
use Prim.Native.Nat.{ℕ, suc, ◌+◌, ◌≤◌}
use mathlib.Core.Path.{◌≡◌, refl, sym, ap, ◌∙◌, subst}
use mathlib.Core.Logic.{◌≢◌, inl, inr}
use mathlib.Core.Bool.{Bool, true, false}
use mathlib.Core.Option.{Option, none, some}
use mathlib.Core.Option
use mathlib.Core.List.{List, [], ◌∷◌}
use native.Mathlib.Omega.{arith}

module _ {ℓ κ} {K : Type ℓ} {V : Type κ} where
  abbrev pub Fresh : K → List (K × V) → Type ℓ
  Fresh k [] = Unit
  Fresh k ((j, v) ∷ m) = (k ≢ j) × Fresh k m

  abbrev pub Unique : List (K × V) → Type ℓ
  Unique [] = Unit
  Unique ((j, v) ∷ m) = Fresh j m × Unique m

  unfoldable pub filter_pairs : (K → V → Bool) → List (K × V) → List (K × V)
  filter_pairs p [] = []
  filter_pairs p ((j, v) ∷ m) = let rest = filter_pairs p m in if p j v then (j, v) ∷ rest else rest

  pub filter_pairs-Fresh :
      (p : K → V → Bool) (k : K) (m : List (K × V)) → Fresh k m → Fresh k (filter_pairs p m)
  unfolding filter_pairs
  filter_pairs-Fresh p k [] h = tt
  filter_pairs-Fresh p k ((j, v) ∷ m) h = elim (Bool-cases (p j v)) [
    | inl e ↦ rw e (h.0, filter_pairs-Fresh p k m h.1)
    | inr e ↦ rw e (filter_pairs-Fresh p k m h.1)
  ]

  pub filter_pairs-Unique :
      (p : K → V → Bool) (m : List (K × V)) → Unique m → Unique (filter_pairs p m)
  unfolding filter_pairs
  filter_pairs-Unique p [] h = tt
  filter_pairs-Unique p ((j, v) ∷ m) h = elim (Bool-cases (p j v)) [
    | inl e ↦ rw e (filter_pairs-Fresh p j m h.0, filter_pairs-Unique p m h.1)
    | inr e ↦ rw e (filter_pairs-Unique p m h.1)
  ]

pub record Map {ℓ κ} (K : Type ℓ) (V : Type κ) : Type (ℓ ⊔ κ) where
  pub pairs : List (K × V)
  pub unique : Unique pairs

unfoldable pub empty {ℓ κ} : {K : Type ℓ} {V : Type κ} → Map K V
empty = record { pairs = []; unique = tt }

module _ {ℓ κ} {K : Type ℓ} {V : Type κ} where
  -- `for k, v := range m { if !p(k, v) { delete(m, k) } }`
  unfoldable pub retain : (K → V → Bool) → Map K V → Map K V
  unfolding filter_pairs
  retain p m = record {
    pairs = filter_pairs p m.pairs;
    unique = filter_pairs-Unique p m.pairs m.unique;
  }

  unfoldable pub count_pairs : (K → V → Bool) → List (K × V) → ℕ
  count_pairs p [] = 0
  count_pairs p ((j, v) ∷ m) = let rest = count_pairs p m in if p j v then suc rest else rest

  -- The number of entries that pass the test.
  unfoldable pub count : (K → V → Bool) → Map K V → ℕ
  unfolding count_pairs
  count p m = count_pairs p m.pairs

  -- The entries, in the order of the representation.
  unfoldable pub entries : Map K V → List (K × V)
  entries m = m.pairs

  abbrev pub kept : (K → V → Bool) → K → Option V → Option V
  kept p k none = none
  kept p k (some v) = if p k v then some v else none

  count-filter :
      (q p : K → V → Bool) (m : List (K × V)) → count_pairs q (filter_pairs p m) ≤ count_pairs q m
  unfolding count_pairs filter_pairs
  count-filter q p [] = omega arith
  count-filter q p ((j, v) ∷ m) = ground (arith, count-filter q p m)

  pub count-retain : (q p : K → V → Bool) (m : Map K V) → count q (retain p m) ≤ count q m
  unfolding count retain
  count-retain q p m = count-filter q p m.pairs

module _ {ℓ κ μ} {K : Type ℓ} {V : Type κ} {W : Type μ} where
  unfoldable pub image_pairs : (V → W) → List (K × V) → List (K × W)
  image_pairs f [] = []
  image_pairs f ((j, v) ∷ m) = (j, f v) ∷ image_pairs f m

  pub image-Fresh : (f : V → W) (k : K) (m : List (K × V)) → Fresh k m → Fresh k (image_pairs f m)
  unfolding image_pairs
  image-Fresh f k [] h = tt
  image-Fresh f k ((j, v) ∷ m) h = (h.0, image-Fresh f k m h.1)

  pub image-Unique : (f : V → W) (m : List (K × V)) → Unique m → Unique (image_pairs f m)
  unfolding image_pairs
  image-Unique f [] h = tt
  image-Unique f ((j, v) ∷ m) h = (image-Fresh f j m h.0, image-Unique f m h.1)

  -- The map with every value replaced by its image.
  unfoldable pub map_values : (V → W) → Map K V → Map K W
  unfolding image_pairs
  map_values f m = record {
    pairs = image_pairs f m.pairs;
    unique = image-Unique f m.pairs m.unique;
  }

module _ {ℓ κ} {K : Type ℓ} {V : Type κ} ⦃e : Eq K⦄ where
  unfoldable pub lookup_pairs : K → List (K × V) → Option V
  lookup_pairs k [] = none
  lookup_pairs k ((j, v) ∷ m) = if j == k then some v else lookup_pairs k m

  -- `m[k]`
  unfoldable pub get : Map K V → K → Option V
  unfolding lookup_pairs
  get m k = lookup_pairs k m.pairs

  abbrev pub other_key : K → K → V → Bool
  other_key k j v = if j == k then false else true

  pub filter-other-Fresh : (k : K) (m : List (K × V)) → Fresh k (filter_pairs (other_key k) m)
  unfolding filter_pairs
  filter-other-Fresh k [] = tt
  filter-other-Fresh k ((j, v) ∷ m) = elim (Bool-cases (j == k)) [
    | inl h ↦ rw h (filter-other-Fresh k m)
    | inr h ↦ rw h ((λ p. cc (h, (e.eqb_iff j k).1 (sym p))), filter-other-Fresh k m)
  ]

  -- `m[k] = v`
  unfoldable pub put : Map K V → K → V → Map K V
  unfolding filter_pairs
  put m k v = record {
    pairs = (k, v) ∷ filter_pairs (other_key k) m.pairs;
    unique = (filter-other-Fresh k m.pairs, filter_pairs-Unique (other_key k) m.pairs m.unique);
  }

  -- `delete(m, k)`
  unfoldable pub remove : Map K V → K → Map K V
  unfolding retain
  remove m k = retain (other_key k) m

  pub lookup-Fresh : (k : K) (m : List (K × V)) → Fresh k m → lookup_pairs k m ≡ none
  unfolding lookup_pairs
  lookup-Fresh k [] h = refl
  lookup-Fresh k ((j, v) ∷ m) h = elim (Bool-cases (j == k)) [
    | inl same ↦ absurd (h.0 (sym ((e.eqb_iff j k).0 same)))
    | inr differ ↦ rw differ (lookup-Fresh k m h.1)
  ]

  lookup-filter :
      (p : K → V → Bool) (k : K) (m : List (K × V))
      → Unique m
      → lookup_pairs k (filter_pairs p m) ≡ kept p k (lookup_pairs k m)
  unfolding lookup_pairs filter_pairs
  lookup-filter p k [] u = refl
  lookup-filter p k ((j, v) ∷ m) u = elim (Bool-cases (j == k)) [
    | inl same ↦
        let eq = (e.eqb_iff j k).0 same in
        let gone = lookup-Fresh k m (subst (λ x. Fresh x m) eq u.0) in
        let ih = lookup-filter p k m u.1 in
        elim (Bool-cases (p j v)) [
          | inl stays ↦ rw (stays, same) (rw (ap (λ x. p x v) (sym eq) ∙ stays) refl)
          | inr goes ↦
              rw (goes, same) (rw (ap (λ x. p x v) (sym eq) ∙ goes) (ih ∙ ap (kept p k) gone))
        ]
    | inr differ ↦ ground (arith, differ, lookup-filter p k m u.1)
  ]

  pub get-empty : (k : K) → get empty k ≡ none
  unfolding get empty
  get-empty k = refl

  pub get-retain :
      (p : K → V → Bool) (m : Map K V) (k : K) → get (retain p m) k ≡ kept p k (get m k)
  unfolding get retain
  get-retain p m k = lookup-filter p k m.pairs m.unique

  kept-other : (k j : K) (o : Option V) → kept (other_key k) j o ≡ (if k == j then none else o)
  kept-other k j none = ground arith
  kept-other k j (some v) = elim (Bool-cases (k == j)) [
    | inl same ↦ rw (same, (e.eqb_iff j k).1 (sym ((e.eqb_iff k j).0 same)))
    | inr differ ↦ elim (Bool-cases (j == k)) [
      | inl same ↦ cc (differ, (e.eqb_iff k j).1 (sym ((e.eqb_iff j k).0 same)))
      | inr h ↦ rw (differ, h)
    ]
  ]

  pub get-remove : (m : Map K V) (k j : K) → get (remove m k) j ≡ (if k == j then none else get m j)
  unfolding remove
  get-remove m k j = get-retain (other_key k) m j ∙ kept-other k j (get m j)

  pub get-put :
      (m : Map K V) (k : K) (v : V) (j : K)
      → get (put m k v) j ≡ (if k == j then some v else get m j)
  unfolding get put
  get-put m k v j = elim (Bool-cases (k == j)) [
    | inl same ↦ rw same
    | inr differ ↦ rw differ (
        lookup-filter (other_key k) j m.pairs m.unique
        ∙ kept-other k j (lookup_pairs j m.pairs)
        ∙ rw differ)
  ]

  pub count-put :
      (p : K → V → Bool) (m : Map K V) (k : K) (v : V)
      → count p (put m k v) ≤ count p m + (if p k v then 1 else 0)
  unfolding count put
  count-put p m k v = ground (arith, count-filter p (other_key k) m.pairs)

  pub count-remove : (p : K → V → Bool) (m : Map K V) (k : K) → count p (remove m k) ≤ count p m
  unfolding remove
  count-remove p m k = count-retain p (other_key k) m

  filter-Fresh-id : (k : K) (m : List (K × V)) → Fresh k m → filter_pairs (other_key k) m ≡ m
  unfolding filter_pairs
  filter-Fresh-id k [] h = refl
  filter-Fresh-id k ((j, v) ∷ m) h = elim (Bool-cases (j == k)) [
    | inl same ↦ absurd (h.0 (sym ((e.eqb_iff j k).0 same)))
    | inr differ ↦ rw differ (ap (λ r. (j, v) ∷ r) (filter-Fresh-id k m h.1))
  ]

  count-filter-found :
      (p : K → V → Bool) (k : K) (v : V) (m : List (K × V))
      → Unique m
      → lookup_pairs k m ≡ some v
      → count_pairs p m ≡ count_pairs p (filter_pairs (other_key k) m) + (if p k v then 1 else 0)
  unfolding lookup_pairs filter_pairs count_pairs
  count-filter-found p k v [] u f = cc
  count-filter-found p k v ((j, w) ∷ m) u f = elim (Bool-cases (j == k)) [
    | inl same ↦
        let eq = (e.eqb_iff j k).0 same in
        let gone = filter-Fresh-id k m (subst (λ x. Fresh x m) eq u.0) in
        let value : w ≡ v = ground (arith, same, f) in
        let test : p j w ≡ p k v = ap (λ x. p x w) eq ∙ ap (p k) value in
        rw (same, gone, test) (ground arith)
    | inr differ ↦
        ground (arith, differ, count-filter-found p k v m u.1 (ground (arith, differ, f)))
  ]

  -- Removing the entry of a key takes it from the count.
  pub count-remove-found :
      (p : K → V → Bool) (m : Map K V) (k : K) (v : V)
      → get m k ≡ some v
      → count p m ≡ count p (remove m k) + (if p k v then 1 else 0)
  unfolding get count remove retain
  count-remove-found p m k v f = count-filter-found p k v m.pairs m.unique f

  -- A new value that passes the same tests as the old one keeps the count.
  pub count-replace :
      (p : K → V → Bool) (m : Map K V) (k : K) (v w : V)
      → get m k ≡ some v
      → p k w ≡ p k v
      → count p (put m k w) ≡ count p m
  unfolding get count put
  count-replace p m k v w f same =
      rw (count-filter-found p k v m.pairs m.unique f, same) (ground arith)

  -- What is found under a key is one of the entries.
  lookup-All :
      (p : K → V → Bool) (k : K) (v : V) (m : List (K × V))
      → all (λ x. p x.0 x.1) m ≡ true
      → lookup_pairs k m ≡ some v
      → p k v ≡ true
  unfolding lookup_pairs
  lookup-All p k v [] h f = cc
  lookup-All p k v ((j, w) ∷ m) h f = elim (Bool-cases (j == k)) [
    | inl same ↦ subst (λ x. p x v ≡ true) ((e.eqb_iff j k).0 same) (ground (arith, same, h, f))
    | inr differ ↦ lookup-All p k v m (ground (arith, h)) (ground (arith, differ, f))
  ]

  -- A test that every entry passes is passed by what is found under a key.
  pub all_entries :
      (p : K → V → Bool) (m : Map K V) (k : K) (v : V)
      → all (λ x. p x.0 x.1) (entries m) ≡ true
      → get m k ≡ some v
      → p k v ≡ true
  unfolding get entries
  all_entries p m k v h f = lookup-All p k v m.pairs h f

module _ {ℓ κ μ} {K : Type ℓ} {V : Type κ} {W : Type μ} ⦃e : Eq K⦄ where
  lookup-image :
      (f : V → W) (k : K) (m : List (K × V))
      → lookup_pairs k (image_pairs f m) ≡ Option.map f (lookup_pairs k m)
  unfolding lookup_pairs image_pairs
  lookup-image f k [] = refl
  lookup-image f k ((j, v) ∷ m) = elim (Bool-cases (j == k)) [
    | inl same ↦ rw same
    | inr differ ↦ rw differ (lookup-image f k m)
  ]

  pub get-map_values :
      (f : V → W) (m : Map K V) (k : K) → get (map_values f m) k ≡ Option.map f (get m k)
  unfolding get map_values
  get-map_values f m k = lookup-image f k m.pairs

pub ruleset map_laws = (get-empty, get-retain, get-remove, get-put)
