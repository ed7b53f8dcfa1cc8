-- ===== src/Prelude/Counts.antt =====
-- Counting the entries of a map.
use Prim.Native.Nat.{◌+◌}
use mathlib.Core.Path.{◌≡◌, refl}
use mathlib.Core.Bool.{Bool}
use mathlib.Core.Option.{none}
use mathlib.Core.List.{List, [], ◌∷◌}
use mathlib.Core.Logic.{inl, inr}
use native.Mathlib.Omega.{arith}
use agent_remote_node.Prelude.Tests.{Eq, ◌==◌, Bool-cases, if◌then◌else◌}
use agent_remote_node.Prelude.Map.{
  Map, get, put, count, lookup_pairs, count_pairs, filter_pairs, other_key,
}

module _ {ℓ κ} {K : Type ℓ} {V : Type κ} ⦃e : Eq K⦄ where
  count-filter-absent :
      (p : K → V → Bool) (k : K) (m : List (K × V))
      → lookup_pairs k m ≡ none
      → count_pairs p (filter_pairs (other_key k) m) ≡ count_pairs p m
  unfolding lookup_pairs filter_pairs count_pairs
  count-filter-absent p k [] h = refl
  count-filter-absent p k ((j, v) ∷ m) h = elim (Bool-cases (j == k)) [
    | inl same ↦ absurd (ground (arith, h, same))
    | inr differ ↦ ground (arith, differ, count-filter-absent p k m (ground (arith, h, differ)))
  ]

  -- A key that was absent adds its entry to the count.
  pub count-put-absent :
      (p : K → V → Bool) (m : Map K V) (k : K) (v : V)
      → get m k ≡ none
      → count p (put m k v) ≡ count p m + (if p k v then 1 else 0)
  unfolding get count put count_pairs
  count-put-absent p m k v h = ground (arith, count-filter-absent p k m.pairs h)
