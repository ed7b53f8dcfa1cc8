-- ===== src/Worker/StartKept.antt =====
-- internal/worker/start_journal.go and start_retirement.go: what a managed startup keeps over any
-- calls of the journal.
use mathlib.Core.Bool.{false≢true}
use agent_remote_node.Prelude.{
  ℕ, String, Bool, true, false, Option, some, List, [], ◌∷◌, ◌≡◌, refl, sym, ap, ◌∙◌, string_Eq,
  int_Eq, arith, inl, inr, ◌⊎◌, ok, subst, All, lez, ℤ, pos, negsuc,
}
use agent_remote_node.Ledger.Value.{Entry}
use agent_remote_node.Ledger.{
  Ledger, Written, File, Calls, open_file, compare_and_swap, swaps, write,
}
use agent_remote_node.Ledger.Durable.{IsSynced, failed_refuses, swap-IsSynced, open_file-IsSynced}
use agent_remote_node.Worker.StartRecord.{identity_Eq, ManagedStartRecord, result_Eq}
use agent_remote_node.Worker.StartDecode.{pending, ManagedStartEntry}
use agent_remote_node.Worker.StartJournal.{Loaded, load}
use agent_remote_node.Worker.StartSettle.{StartCall, start_call, start_calls}
use agent_remote_node.Worker.Startups.{Advances, replaced, accepted, withdrawn, Moves}
use agent_remote_node.Worker.StartRuns.{IsFromLoad, start_calls_keep, start_call-Moves}

swap_failed :
    (now : ℕ) (c : Calls) (x : Option Entry) (e : Entry) (l : Ledger)
    → l.failed ≡ true
    → (compare_and_swap now c x e l).0.failed ≡ true
unfolding write
swap_failed now c x e l h =
    ap (λ (w : Written). w.0.failed) (failed_refuses l (swaps now c x e) "" "" h).0 ∙ h

-- What a startup keeps: its binding, a lease attempt that does not fall, and all of it once it is
-- confirmed or retired.
pub record Keeps (p d : ManagedStartEntry) : Type 0 where
  pub binding : d.content.binding ≡ p.content.binding
  pub attempt : lez p.content.outcome.lease_attempt d.content.outcome.lease_attempt ≡ true
  pub settled : (p.phase ≡ pending) ⊎ (d ≡ p)

lez_self : (a : ℤ) → lez a a ≡ true
lez_self (pos n) = ground arith
lez_self (negsuc n) = ground arith

lez_chain : (a b c : ℤ) → lez a b ≡ true → lez b c ≡ true → lez a c ≡ true
lez_chain (pos a) (pos b) (pos c) h k = ground (arith, h, k)
lez_chain (pos a) (pos b) (negsuc c) h k = absurd (ground (arith, h, k))
lez_chain (pos a) (negsuc b) c h k = absurd (ground (arith, h))
lez_chain (negsuc a) (pos b) (pos c) h k = refl
lez_chain (negsuc a) (pos b) (negsuc c) h k = absurd (ground (arith, k))
lez_chain (negsuc a) (negsuc b) (pos c) h k = refl
lez_chain (negsuc a) (negsuc b) (negsuc c) h k = ground (arith, h, k)

lez_other : (a b : ℤ) → lez a b ≡ false → lez b a ≡ true
lez_other (pos a) (pos b) h = ground (arith, h)
lez_other (pos a) (negsuc b) h = refl
lez_other (negsuc a) (pos b) h = absurd (ground (arith, h))
lez_other (negsuc a) (negsuc b) h = ground (arith, h)

Keeps-all : (p : ManagedStartEntry) → Keeps p p
Keeps-all p = record {
  binding = refl;
  attempt = lez_self p.content.outcome.lease_attempt;
  settled = inr refl;
}

Keeps-on : {p d e : ManagedStartEntry} → Keeps p d → Keeps d e → Keeps p e
Keeps-on {p} {d} {e} first next = record {
  binding = next.binding ∙ first.binding;
  attempt =
      lez_chain p.content.outcome.lease_attempt d.content.outcome.lease_attempt
        e.content.outcome.lease_attempt first.attempt next.attempt;
  settled = elim first.settled [
    | inl early ↦ inl early
    | inr same ↦ elim next.settled [
      | inl early ↦ inl (ap (λ (x : ManagedStartEntry). x.phase) (sym same) ∙ early)
      | inr again ↦ inr (again ∙ same)
    ]
  ];
}

same_content : {p d : ManagedStartEntry} → p.phase ≡ pending → d.content ≡ p.content → Keeps p d
same_content {p} {d} early same = record {
  binding = ap (λ (x : ManagedStartRecord). x.binding) same;
  attempt =
      ap (λ (x : ManagedStartRecord). lez p.content.outcome.lease_attempt x.outcome.lease_attempt)
        same
      ∙ lez_self p.content.outcome.lease_attempt;
  settled = inl early;
}

-- What an advance of an entry keeps.
advance-Keeps :
    (p : ManagedStartEntry) (after : Option ManagedStartEntry)
    → Advances (some p) after
    → (d : ManagedStartEntry) × (after ≡ some d) × Keeps p d
advance-Keeps p after (replaced {d = d} early late bound higher) = (
  d,
  refl,
  record {
    binding = bound;
    attempt = lez_other d.content.outcome.lease_attempt p.content.outcome.lease_attempt higher;
    settled = inl early;
  },
)
advance-Keeps p after (accepted {d = d} early late same) = (d, refl, same_content early same)
advance-Keeps p after (withdrawn {d = d} early late same evidence) =
    (d, refl, same_content early same)

module _ (hash : String → String) where
  move-Keeps :
      (k : String) (l l' : Ledger) (p : ManagedStartEntry)
      → load hash k l ≡ ok (some p)
      → Moves hash k l l'
      → (d : ManagedStartEntry) × (load hash k l' ≡ ok (some d)) × Keeps p d
  move-Keeps k l l' p h (inl same) = (p, same ∙ h, Keeps-all p)
  move-Keeps k l l' p h (inr (before, after, old, new, advance)) =
      let there = subst (λ x. Advances x after) (found before (some p) (sym old ∙ h)) advance in
      let (d, at, keeps) = advance-Keeps p after there in (d, new ∙ ap ok at, keeps)
    where
      found : (x y : Option ManagedStartEntry) → ◌≡◌ {A = Loaded} (ok x) (ok y) → x ≡ y
      found x y e = cc

  pub start_calls-Keeps :
      (calls : List StartCall) (k : String) (l : Ledger) (p : ManagedStartEntry)
      → All (IsFromLoad hash) calls
      → load hash k l ≡ ok (some p)
      → (start_calls hash calls l).failed ≡ false
      → (d : ManagedStartEntry) × (load hash k (start_calls hash calls l) ≡ ok (some d)) × Keeps p d
  unfolding start_calls
  start_calls-Keeps [] k l p loaded h live = (p, h, Keeps-all p)
  start_calls-Keeps (c ∷ rest) k l p (first, others) h live =
      let (d, there, keeps) =
        move-Keeps k l (start_call hash c l) p h
          (start_call-Moves hash c l k first (usable (start_call hash c l).failed refl)) in
      let (e, last, keeps_last) =
        start_calls-Keeps rest k (start_call hash c l) d others there live in
      (e, last, Keeps-on keeps keeps_last)
    where
      usable : (x : Bool) → (start_call hash c l).failed ≡ x → (start_call hash c l).failed ≡ false
      usable false s = s
      usable true s = absurd (
          false≢true (
            sym live
            ∙ start_calls_keep hash (λ m. m.failed ≡ true) swap_failed rest (start_call hash c l)
                s))

  -- A startup that the journal holds after its ledger file was opened is held over any calls that are made
  -- with loaded entries, for one task or for many, and that leave the ledger usable; and a restart then
  -- opens the very ledger that they left. Of the startup its binding stays, its lease attempt does not
  -- fall, and once it is confirmed or retired nothing of it changes.
  pub start_calls-Restarts :
      (f : File) (l : Ledger) (calls : List StartCall) (k : String) (p : ManagedStartEntry)
      → open_file f ≡ ok l
      → All (IsFromLoad hash) calls
      → load hash k l ≡ ok (some p)
      → (start_calls hash calls l).failed ≡ false
      → (open_file (start_calls hash calls l).disk ≡ ok (start_calls hash calls l))
        × ((d : ManagedStartEntry) × (load hash k (start_calls hash calls l) ≡ ok (some d))
            × Keeps p d)
  start_calls-Restarts f l calls k p opened loaded h live = (
    start_calls_keep hash IsSynced swap-IsSynced calls l (open_file-IsSynced f l opened) live,
    start_calls-Keeps calls k l p loaded h live,
  )
