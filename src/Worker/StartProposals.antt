-- ===== src/Worker/StartProposals.antt =====
-- internal/worker/start_journal.go: what a proposal does to the startups of the journal.
use Prim.Native.Nat.{ℕ}
use mathlib.Core.Option
use agent_remote_node.Prelude.{
  String, Bool, true, false, not, ◌&&◌, ◌||◌, Option, none, some, ◌≡◌, refl, sym, ap, ◌∙◌, ◌==◌,
  string_Eq, int_Eq, arith, inl, ok, err, subst, if_both, lez, and_left, unnot, or_right,
}
use agent_remote_node.Ledger.Value.{
  Entry, normal_entry, normal_map, normal_map_idem, marshalable_entry,
}
use agent_remote_node.Ledger.{Ledger, Written, Calls, compare_and_swap}
use agent_remote_node.Worker.StartRecord.{
  SkillSnapshotIdentity, identity_Eq, ManagedSessionStartResult, result_Eq, ManagedStartRecord,
  ManagedStartObservation, valid_start_record, same_record,
}
use agent_remote_node.Worker.StartEncode.{encode_record}
use agent_remote_node.Worker.StartDecode.{
  StartPhase, pending, confirmed, retired, ManagedStartEntry, decode_start_entry, decode_plain,
  data_of,
}
use agent_remote_node.Worker.StartCodec.{recorded, record_read}
use agent_remote_node.Worker.StartJournal.{
  Loaded, decoded, proposed_entry, replaces, write_proposal, propose_over, propose, is_pending,
  is_live_status, after_swap,
}
use agent_remote_node.Worker.StartReads.{IsLoaded, read_pending}
use agent_remote_node.Worker.StartSwaps.{Swapped, stamped, read_normal}
use agent_remote_node.Worker.Startups.{
  Advances, Moves, chosen, expected-loaded, proposed, replaced, swap-Moves, Swapped-Moves,
}

module _ (hash : String → String) where
  proposed_read :
      (now : ℕ) (x : Option Entry) (task : String) (b : SkillSnapshotIdentity)
      (outcome : ManagedSessionStartResult) (l l' : Ledger)
      → valid_start_record hash (recorded b outcome) task ≡ true
      → Swapped now x (proposed_entry task (recorded b outcome)) l l'
      → decode_start_entry hash
          (normal_entry (stamped now (proposed_entry task (recorded b outcome))))
        ≡ some (record {
          entry = normal_entry (stamped now (proposed_entry task (recorded b outcome)));
          content = recorded b outcome;
          phase = pending;
        })
  unfolding normal_entry normal_map encode_record marshalable_entry
  proposed_read now x task b outcome l l' valid s =
      let e = stamped now (proposed_entry task (recorded b outcome)) in
      let written =
        s.reads task ∙ ap (chosen hash now e l task) ((string_Eq.eqb_iff task task).1 refl) in
      let good = (read_normal task l' (normal_entry e) written).1 in
      read_pending hash (normal_entry e) (recorded b outcome) refl (and_left _ _ good) refl (
        ap (λ r. decode_plain hash task (data_of r)) (normal_map_idem e.result)
        ∙ record_read hash b outcome task valid)

  after_swap_state : (task : String) (w : Written) → (after_swap hash task w).0 ≡ w.0
  unfolding after_swap
  after_swap_state task (l, err x) = refl
  after_swap_state task (l, ok _) = refl

  pub write_proposal_state :
      (now : ℕ) (c : Calls) (x : Option Entry) (task : String) (r : ManagedStartRecord) (l : Ledger)
      → (write_proposal hash now c x task r l).0
        ≡ (compare_and_swap now c x (proposed_entry task r) l).0
  unfolding write_proposal
  write_proposal_state now c x task r l =
      after_swap_state task (compare_and_swap now c x (proposed_entry task r) l)

  write_proposal-Moves :
      (now : ℕ) (c : Calls) (x : Option Entry) (task : String) (b : SkillSnapshotIdentity)
      (outcome : ManagedSessionStartResult) (l : Ledger) (k : String)
      (before : Option ManagedStartEntry)
      → valid_start_record hash (recorded b outcome) task ≡ true
      → decoded hash (Option.map normal_entry x) ≡ ok before
      → ((d : ManagedStartEntry)
          → d.phase ≡ pending
          → d.content ≡ recorded b outcome
          → Advances before (some d))
      → (write_proposal hash now c x task (recorded b outcome) l).0.failed ≡ false
      → Moves hash k l (write_proposal hash now c x task (recorded b outcome) l).0
  write_proposal-Moves now c x task b outcome l k before valid old advance live =
      let same = write_proposal_state now c x task (recorded b outcome) l in
      subst (Moves hash k l) (sym same) (
        swap-Moves hash now c x (proposed_entry task (recorded b outcome)) l k
          (sym (ap (λ (m : Ledger). m.failed) same) ∙ live)
          (λ s.
            Swapped-Moves hash now x (proposed_entry task (recorded b outcome)) l _ k before _ s old
              (proposed_read now x task b outcome l _ valid s) (advance _ refl refl)))

  replaces_facts :
      (p : ManagedStartEntry) (outcome : ManagedSessionStartResult)
      (o : Option ManagedStartObservation)
      → replaces p outcome o ≡ true
      → (p.phase ≡ pending) × (lez outcome.lease_attempt p.content.outcome.lease_attempt ≡ false)
  unfolding replaces
  replaces_facts p outcome none h = cc
  replaces_facts p outcome (some o) h =
      let (phase, later) =
        picked (is_pending p.phase) (not o.accepted) (o.result == p.content.outcome)
          (o.current_lease_attempt == outcome.lease_attempt)
          (lez outcome.lease_attempt p.content.outcome.lease_attempt) (is_live_status o.task_status)
          h in
      (to_pending p.phase phase, later)
    where
      picked :
          (a b c d e f : Bool)
          → (a && (b && (c && (d && (not e && f))))) ≡ true
          → (a ≡ true) × (e ≡ false)
      picked a b c d e f k = (ground (arith, k), ground (arith, k))

      to_pending : (x : StartPhase) → is_pending x ≡ true → x ≡ pending
      to_pending pending k = refl
      to_pending confirmed k = cc
      to_pending (retired seen) k = cc

  propose_over-Moves :
      (now : ℕ) (c : Calls) (task : String) (b : SkillSnapshotIdentity)
      (outcome : ManagedSessionStartResult) (o : Option ManagedStartObservation)
      (p : ManagedStartEntry) (l : Ledger) (k : String)
      → valid_start_record hash (recorded b outcome) task ≡ true
      → IsLoaded hash p
      → (propose_over hash now c task (recorded b outcome) o p l).0.failed ≡ false
      → Moves hash k l (propose_over hash now c task (recorded b outcome) o p l).0
  unfolding propose_over
  propose_over-Moves now c task b outcome o p l k valid loaded =
      let r = recorded b outcome in
      let P = λ (w : Ledger × Loaded). w.0.failed ≡ false → Moves hash k l w.0 in
      if_both P (elim p.phase [ retired _ ↦ true | _ ↦ false ]) (λ _ _. inl refl)
        (λ _.
          if_both P (not (p.entry.task_id == task) || not (p.content.binding == b))
            (λ _ _. inl refl)
            (λ ours.
              if_both P (same_record p.content r) (λ _ _. inl refl)
                (λ _.
                  if_both P (replaces p outcome o)
                    (λ due.
                      let facts = replaces_facts p outcome o due in
                      let bound =
                        (identity_Eq.eqb_iff p.content.binding b).0 (unnot _ (or_right _ _ ours)) in
                      write_proposal-Moves now c (some p.entry) task b outcome l k (some p) valid
                        (expected-loaded hash p loaded)
                        (λ d phase content.
                          replaced facts.0 phase
                            (ap (λ (x : ManagedStartRecord). x.binding) content ∙ sym bound)
                            (ap
                                (λ (x : ManagedStartRecord).
                                  lez x.outcome.lease_attempt p.content.outcome.lease_attempt)
                                content
                              ∙ facts.1)))
                    (λ _ _. inl refl))))

  pub propose-Moves :
      (now : ℕ) (c : Calls) (task : String) (b : SkillSnapshotIdentity)
      (outcome : ManagedSessionStartResult) (previous : Option ManagedStartEntry)
      (o : Option ManagedStartObservation) (l : Ledger) (k : String)
      → ((p : ManagedStartEntry) → previous ≡ some p → IsLoaded hash p)
      → (propose hash now c task b outcome previous o l).0.failed ≡ false
      → Moves hash k l (propose hash now c task b outcome previous o l).0
  unfolding propose
  propose-Moves now c task b outcome none o l k loaded =
      if_both (λ (w : Ledger × Loaded). w.0.failed ≡ false → Moves hash k l w.0)
        (valid_start_record hash (recorded b outcome) task)
        (λ valid live.
          write_proposal-Moves now c none task b outcome l k none valid (unfold decoded in refl)
            (λ d phase _. proposed phase) live)
        (λ _ _. inl refl)
  propose-Moves now c task b outcome (some p) o l k loaded =
      if_both (λ (w : Ledger × Loaded). w.0.failed ≡ false → Moves hash k l w.0)
        (valid_start_record hash (recorded b outcome) task)
        (λ valid live. propose_over-Moves now c task b outcome o p l k valid (loaded p refl) live)
        (λ _ _. inl refl)
