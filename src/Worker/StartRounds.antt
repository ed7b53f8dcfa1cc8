-- ===== src/Worker/StartRounds.antt =====
-- internal/worker/start_confirmation.go: a recovery is a list of calls of the journal.
use agent_remote_node.Prelude.{
  ℕ, String, Option, none, some, List, [], ◌∷◌, ◌++◌, ◌≡◌, refl, sym, ap, ◌∙◌, if_both, All, ◌==◌,
  string_Eq,
}
use agent_remote_node.Ledger.{Ledger, Calls}
use agent_remote_node.Worker.StartRecord.{ManagedStartObservation, result_Eq}
use agent_remote_node.Worker.StartDecode.{ManagedStartEntry}
use agent_remote_node.Worker.StartJournal.{StartError, Settled}
use agent_remote_node.Worker.StartSettle.{
  StartCall, confirms, retires, inspect_pending, start_call, start_calls,
}
use agent_remote_node.Worker.StartReads.{IsLoaded}
use agent_remote_node.Worker.StartRuns.{IsFromLoad}
use agent_remote_node.Worker.StartRecovery.{Inspection, inspect_entries}

module _ (hash : String → String) where
  -- A round makes at most one call of the journal.
  abbrev pub Runs : Ledger → Ledger → Type 0
  Runs l t = (calls : List StartCall) × All (IsFromLoad hash) calls × (t ≡ start_calls hash calls l)

  none_made : (l : Ledger) → Runs l l
  unfolding start_calls
  none_made l = ([], tt, refl)

  module _ (node : String) (at : ManagedStartEntry → Inspection) where
    inspect-Runs :
        (now : ℕ) (c : Calls) (x : Option ManagedStartObservation) (p : ManagedStartEntry)
        (l : Ledger)
        → IsLoaded hash p
        → Runs l (inspect_pending hash now c node x p l).0
    unfolding inspect_pending start_calls start_call
    inspect-Runs now c none p l loaded =
        if_both (λ (w : Settled). Runs l w.0) (p.content.binding.node_id == node) (λ _. none_made l)
          (λ _. none_made l)
    inspect-Runs now c (some o) p l loaded =
        let P = λ (w : Settled). Runs l w.0 in
        if_both P (p.content.binding.node_id == node)
          (λ _.
            if_both P (o.result == p.content.outcome)
              (λ _.
                if_both P o.accepted (λ _. (confirms now c p o.result ∷ [], (loaded, tt), refl))
                  (λ _.
                    if_both P (o.task_status == "cancelled")
                      (λ _. (retires now c p o ∷ [], (loaded, tt), refl)) (λ _. none_made l)))
              (λ _. none_made l))
          (λ _. none_made l)

    calls-append :
        (a b : List StartCall) (l : Ledger)
        → start_calls hash (a ++ b) l ≡ start_calls hash b (start_calls hash a l)
    unfolding start_calls
    calls-append [] b l = refl
    calls-append (x ∷ a) b l = calls-append a b (start_call hash x l)

    All-append :
        (a b : List StartCall)
        → All (IsFromLoad hash) a
        → All (IsFromLoad hash) b
        → All (IsFromLoad hash) (a ++ b)
    All-append [] b h k = k
    All-append (x ∷ a) b (h, hs) k = (h, All-append a b hs k)

    Runs-chain : (l m t : Ledger) → Runs l m → Runs m t → Runs l t
    Runs-chain l m t (a, loaded, first) (b, later, second) = (
      a ++ b,
      All-append a b loaded later,
      second ∙ ap (start_calls hash b) first ∙ sym (calls-append a b l),
    )

    pub entries-Runs :
        (ps : List ManagedStartEntry) (l : Ledger)
        → All (IsLoaded hash) ps
        → Runs l (inspect_entries hash node at ps l).0
    unfolding inspect_entries
    entries-Runs [] l h = none_made l
    entries-Runs (p ∷ rest) l (first, others) =
        let r = at p in
        if_both (λ (w : Ledger × List StartError). Runs l w.0) r.ended (λ _. none_made l)
          (λ _.
            Runs-chain l _ _ (inspect-Runs r.now r.calls r.observed p l first)
              (entries-Runs rest _ others))
