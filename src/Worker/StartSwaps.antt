-- ===== src/Worker/StartSwaps.antt =====
-- internal/worker/start_journal.go: what a swap of the ledger leaves to the reads of the journal.
use Prim.Native.Nat.{ℕ}
use mathlib.Core.Option
use mathlib.Core.Bool.{false≢true}
use agent_remote_node.Prelude.{
  String, true, false, Option, none, some, ◌≡◌, refl, sym, ap, ◌∙◌, ◌==◌, string_Eq, arith,
  Bool-cases, inl, inr, if◌then◌else◌, ◌⊎◌, Outcome, ok, err, subst,
}
use agent_remote_node.Prelude.Map.{get}
use agent_remote_node.Ledger.Value.{
  Entry, normal_entry, normal_entry_idem, marshalable_entry, marshalable_entry-normal,
}
use agent_remote_node.Ledger.{
  Ledger, LedgerError, Calls, get_entry, marshal, Written, compare_and_swap, write, swaps,
}
use agent_remote_node.Ledger.Swap.{answer, get_entry-answer, compare_and_swap_sound, get_entry-save}
use agent_remote_node.Ledger.Durable.{write_error}

found_normal :
    (o : Option Entry) (e : Entry)
    → answer o ≡ ok (some e)
    → (normal_entry e ≡ e) × (marshalable_entry e ≡ true)
unfolding marshal
found_normal none e h = cc
found_normal (some c) e h = elim (Bool-cases (marshalable_entry c)) [
  | inr bad ↦ absurd (ground (arith, h, bad))
  | inl good ↦
      let same : normal_entry c ≡ e = ground (arith, h, good) in
      (
        subst (λ x. normal_entry x ≡ x) same (normal_entry_idem c),
        subst (λ x. marshalable_entry x ≡ true) same (marshalable_entry-normal c ∙ good),
      )
]

failed_read :
    (k : String) (l : Ledger) (e : Entry) → l.failed ≡ true → ¬ (get_entry k l ≡ ok (some e))
unfolding get_entry
failed_read k l e f h = absurd (ground (arith, f, h))

-- What a read of the ledger returns is as its JSON reads back.
pub read_normal :
    (k : String) (l : Ledger) (e : Entry)
    → get_entry k l ≡ ok (some e)
    → (normal_entry e ≡ e) × (marshalable_entry e ≡ true)
read_normal k l e h = elim (Bool-cases l.failed) [
  | inl failed ↦ absurd (failed_read k l e failed h)
  | inr live ↦ found_normal (get l.entries k) e (sym (get_entry-answer k l live) ∙ h)
]

abbrev pub stamped : ℕ → Entry → Entry
stamped now e = record e { updated_at = now }

-- What a swap that succeeded has found, and what reads return after it.
pub record Swapped (now : ℕ) (x : Option Entry) (e : Entry) (l l' : Ledger) : Type 0 where
  pub expected : get_entry e.task_id l ≡ ok (Option.map normal_entry x)
  pub reads :
      (k : String)
      → get_entry k l'
        ≡ (if e.task_id == k then ok (some (normal_entry (stamped now e))) else get_entry k l)

swap_error :
    (now : ℕ) (c : Calls) (x : Option Entry) (e : Entry) (l : Ledger) (problem : LedgerError)
    → (compare_and_swap now c x e l).1 ≡ err problem
    → ((compare_and_swap now c x e l).0 ≡ l) ⊎ ((compare_and_swap now c x e l).0.failed ≡ true)
unfolding write
swap_error now c x e l problem h = write_error (swaps now c x e) l problem h

pub swap_success :
    (now : ℕ) (c : Calls) (x : Option Entry) (e : Entry) (l : Ledger)
    → (compare_and_swap now c x e l).1 ≡ ok tt
    → Swapped now x e l (compare_and_swap now c x e l).0
swap_success now c x e l h =
    let (found, same) = compare_and_swap_sound now c x e l h in
    let saved = sym (ap (λ (r : Written). r.1) same) ∙ h in
    record {
      expected = found;
      reads = λ k. ap (λ (r : Written). get_entry k r.0) same ∙ get_entry-save now c e l k saved;
    }

-- A swap after which the ledger has not failed has changed nothing, or has swapped.
pub swap_cases :
    (now : ℕ) (c : Calls) (x : Option Entry) (e : Entry) (l : Ledger)
    → (compare_and_swap now c x e l).0.failed ≡ false
    → ((compare_and_swap now c x e l).0 ≡ l) ⊎ Swapped now x e l (compare_and_swap now c x e l).0
swap_cases now c x e l live = by_result (compare_and_swap now c x e l).1 refl
  where
    by_result :
        (o : Outcome LedgerError (Unit {0}))
        → (compare_and_swap now c x e l).1 ≡ o
        → ((compare_and_swap now c x e l).0 ≡ l)
          ⊎ Swapped now x e l (compare_and_swap now c x e l).0
    by_result (err problem) h = elim (swap_error now c x e l problem h) [
      | inl same ↦ inl same
      | inr failed ↦ absurd (false≢true (sym live ∙ failed))
    ]
    by_result (ok done) h = inr (swap_success now c x e l h)
