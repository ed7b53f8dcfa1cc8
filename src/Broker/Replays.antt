-- ===== src/Broker/Replays.antt =====
-- The memory of consumed permits is bounded, and its pruning ends.
use Prim.Native.Nat.{◌*◌}
use agent_remote_node.Prelude.{
  ℕ, zero, suc, ◌+◌, ◌≤◌, ◌≡◌, refl, ap, true, Option, none, some, List, [], ◌∷◌, if_both, arith,
  ◌==◌, nat_Eq, leb, ltb, Bool-cases, Option-cases, inl, inr, ◌⊎◌,
}
use agent_remote_node.Prelude.Map.{
  Map, get, retain, count, entries, Unique, lookup_pairs, lookup-Fresh, count-remove-found,
  count_pairs,
}
use agent_remote_node.Broker.State.{drop_oldest, prune_consumed, oldest, older, without, second}

older_cases :
    (y : ℕ × ℕ) (o : Option (ℕ × ℕ)) (x : ℕ × ℕ) → older y o ≡ some x → (y ≡ x) ⊎ (o ≡ some x)
older_cases y none x h = inl (ground (arith, h))
older_cases y (some z) x h = elim (Bool-cases (leb y.1 z.1)) [
  | inl le ↦ inl (ground (arith, le, h))
  | inr gt ↦ inr (ground (arith, gt, h))
]

oldest_found :
    (l : List (ℕ × ℕ)) (x : ℕ × ℕ) → Unique l → oldest l ≡ some x → lookup_pairs x.0 l ≡ some x.1
unfolding lookup_pairs
oldest_found [] x u h = cc
oldest_found ((k, v) ∷ rest) x u h = elim (older_cases (k, v) (oldest rest) x h) [
  | inl same ↦
      let key : k ≡ x.0 = ap (λ (z : ℕ × ℕ). z.0) same in
      let value : v ≡ x.1 = ap (λ (z : ℕ × ℕ). z.1) same in
      rw ((nat_Eq.eqb_iff k x.0).1 key) (ap some value)
  | inr later ↦
      let ih = oldest_found rest x u.1 later in
      elim (Bool-cases (k == x.0)) [
        | inl clash ↦ cc (
          ih,
          lookup-Fresh k rest u.0,
          ap (λ z. lookup_pairs z rest) ((nat_Eq.eqb_iff k x.0).0 clash),
        )
        | inr differ ↦ rw differ ih
      ]
]

oldest-none : (l : List (ℕ × ℕ)) → oldest l ≡ none → count_pairs (λ (_ _ : ℕ). true) l ≡ 0
unfolding count_pairs
oldest-none [] h = refl
oldest-none (x ∷ rest) h = elim (Option-cases (oldest rest)) [
  | inl e ↦ absurd (ground (arith, e, h))
  | inr (y, e) ↦ absurd (ground (arith, e, h))
]

abbrev size : Map ℕ ℕ → ℕ
size m = count (λ _ _. true) m

without_less :
    (m : Map ℕ ℕ) (o : Option (ℕ × ℕ))
    → oldest (entries m) ≡ o
    → suc (size (without o m)) ≤ size m ⊎ (size m ≡ 0)
unfolding entries
without_less m none e = inr (unfold count in oldest-none m.pairs e)
without_less m (some x) e =
    let found : get m x.0 ≡ some x.1 = unfold get in oldest_found m.pairs x m.unique e in
    inl (omega (arith, count-remove-found (λ (_ _ : ℕ). true) m x.0 x.1 found))

drop_bound :
    (rounds : ℕ) (m : Map ℕ ℕ) → size m ≤ 4096 + rounds → size (drop_oldest rounds m) ≤ 4096
unfolding drop_oldest
drop_bound zero m h = omega (arith, h)
drop_bound (suc rounds) m h =
    if_both (λ (x : Map ℕ ℕ). size x ≤ 4096) (leb (size m) 4096) (λ small. ground (arith, small))
      (λ large.
        drop_bound rounds (without (oldest (entries m)) m)
          (elim (without_less m (oldest (entries m)) refl) [
            | inl less ↦ omega (arith, less, h)
            | inr none_left ↦ absurd (ground (arith, large, none_left))
          ]))

-- The loop that prunes consumed permits ends with at most 4096 of them: as many rounds as there are
-- entries are enough.
pub prune_consumed_bound :
    (now : ℕ) (m : Map ℕ ℕ) → count (λ _ _. true) (prune_consumed now m) ≤ 4096
unfolding prune_consumed
prune_consumed_bound now m =
    let recent = retain (λ s at. ltb now (at + 600 * second)) m in
    let fits : size recent ≤ 4096 + size recent = omega arith in
    drop_bound (size recent) recent fits
