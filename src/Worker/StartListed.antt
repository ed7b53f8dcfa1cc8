-- ===== src/Worker/StartListed.antt =====
-- internal/worker/start_journal.go: what `pending` returns was loaded, and is pending.
use agent_remote_node.Prelude.{
  String, true, Option, none, some, List, [], ◌∷◌, map, Outcome, ok, err, ◌≡◌, refl, sym, ap, subst,
  All, ◌==◌, string_Eq, if_both, all,
}
use agent_remote_node.Prelude.Map.{entries}
use agent_remote_node.Ledger.Value.{
  Entry, Fields, normal_entry, normal_entry_idem, marshalable_entry, normal_map,
}
use agent_remote_node.Ledger.{
  Ledger, LedgerError, list_entries, with_status, sort_entries, in_order, insert_sorted,
}
use agent_remote_node.Worker.StartDecode.{
  pending, pending_status, ManagedStartEntry, decode_start_entry, decode_by_status, decode_plain,
  data_of,
}
use agent_remote_node.Worker.StartJournal.{
  StartError, invalid_entry, of_ledger, pending_entries, decode_all,
}
use agent_remote_node.Worker.Chain.{bind_some, some_inj}
use agent_remote_node.Worker.StartReads.{IsLoaded, start_parts, entry-IsLoaded}

-- An entry as `List` returns it for the pending ones.
abbrev IsListed : Entry → Type 0
IsListed e = (normal_entry e ≡ e) × ((e.status == pending_status) ≡ true)

with_status-All :
    (m : List (String × Entry))
    → All (λ (e : Entry). (e.status == pending_status) ≡ true) (with_status pending_status m)
unfolding with_status
with_status-All [] = tt
with_status-All ((k, e) ∷ m) =
    if_both (All _) (e.status == pending_status) (λ same. (same, with_status-All m))
      (λ _. with_status-All m)

normal-IsListed :
    (es : List Entry)
    → All (λ (e : Entry). (e.status == pending_status) ≡ true) es
    → All IsListed (map normal_entry es)
unfolding normal_entry
normal-IsListed [] h = tt
normal-IsListed (e ∷ es) (status, rest) = ((normal_entry_idem e, status), normal-IsListed es rest)

insert-All :
    (P : Entry → Type 0) (e : Entry) (es : List Entry) → P e → All P es → All P (insert_sorted e es)
unfolding insert_sorted
insert-All P e [] h hs = (h, tt)
insert-All P e (x ∷ xs) h (first, rest) =
    if_both (All P) (in_order e x) {x = e ∷ (x ∷ xs)} {y = x ∷ insert_sorted e xs}
      (λ _. (h, (first, rest))) (λ _. (first, insert-All P e xs h rest))

sort-All : (P : Entry → Type 0) (es : List Entry) → All P es → All P (sort_entries es)
unfolding sort_entries
sort-All P [] h = tt
sort-All P (e ∷ es) (first, rest) = insert-All P e (sort_entries es) first (sort-All P es rest)

all_ok : {E A : Type 0} {x y : A} → ◌≡◌ {A = Outcome E A} (ok x) (ok y) → x ≡ y
all_ok h = cc

list-IsListed :
    (l : Ledger) (es : List Entry) → list_entries pending_status l ≡ ok es → All IsListed es
unfolding list_entries
list-IsListed l es =
    let found = with_status pending_status (entries l.entries) in
    let P = λ (o : Outcome LedgerError (List Entry)). o ≡ ok es → All IsListed es in
    if_both P l.failed (λ _ h. absurd cc)
      (λ _.
        if_both P (all marshalable_entry found)
          (λ _ h. subst (All IsListed) (all_ok h) (
            sort-All IsListed (map normal_entry found)
              (normal-IsListed found (with_status-All (entries l.entries)))))
          (λ _ h. absurd cc))

module _ (hash : String → String) where
  pending_phase :
      (e : Entry) (fs : Fields) (p : ManagedStartEntry)
      → (e.status == pending_status) ≡ true
      → decode_by_status hash e fs ≡ some p
      → p.phase ≡ pending
  unfolding decode_by_status
  pending_phase e fs p status h =
      let (c, read, same) = bind_some (decode_plain hash e.task_id fs) _ (rw status at h) in
      sym (ap (λ (x : ManagedStartEntry). x.phase) (some_inj same))

  decoded_pending :
      (e : Entry) (p : ManagedStartEntry)
      → IsListed e
      → decode_start_entry hash e ≡ some p
      → IsLoaded hash p × (p.phase ≡ pending)
  unfolding decode_start_entry
  decoded_pending e p (normal, status) h =
      let parts = start_parts hash e p h in
      (
        entry-IsLoaded hash e p normal h,
        pending_phase e (data_of (normal_map e.result)) p status (rw (parts.0, parts.1) at h),
      )

  -- `pending` returns entries that came from the ledger, and are pending.
  abbrev pub ArePending : List ManagedStartEntry → Type 0
  ArePending ps = All (IsLoaded hash) ps × All (λ (q : ManagedStartEntry). q.phase ≡ pending) ps

  decode_all-ArePending :
      (es : List Entry) (ps : List ManagedStartEntry)
      → All IsListed es
      → decode_all hash es ≡ ok ps
      → ArePending ps
  unfolding decode_all
  decode_all-ArePending [] ps listed h = subst ArePending (all_ok h) (tt, tt)
  decode_all-ArePending (e ∷ rest) ps (first, others) h =
      by_entry (decode_start_entry hash e) (decode_all hash rest) refl (decode_all-ArePending rest)
        refl h
    where
      by_entry :
          (x : Option ManagedStartEntry) (y : Outcome StartError (List ManagedStartEntry))
          → decode_start_entry hash e ≡ x
          → ((qs : List ManagedStartEntry)
              → All IsListed rest
              → decode_all hash rest ≡ ok qs
              → ArePending qs)
          → decode_all hash rest ≡ y
          → ◌≡◌ {A = Outcome StartError (List ManagedStartEntry)}
              (elim x [
                | none ↦ err invalid_entry
                | some d ↦ elim y [ err z ↦ err z | ok ds ↦ ok (d ∷ ds) ]
              ])
              (ok ps)
          → ArePending ps
      by_entry none y read later more k = absurd cc
      by_entry (some d) (err z) read later more k = absurd cc
      by_entry (some d) (ok ds) read later more k =
          let (loaded, phase) = decoded_pending e d first read in
          let (all_loaded, phases) = later ds others more in
          subst ArePending (all_ok k) ((loaded, all_loaded), (phase, phases))

  pub pending_entries-ArePending :
      (l : Ledger) (ps : List ManagedStartEntry) → pending_entries hash l ≡ ok ps → ArePending ps
  unfolding pending_entries
  pending_entries-ArePending l ps h = by_list (list_entries pending_status l) refl h
    where
      by_list :
          (x : Outcome LedgerError (List Entry))
          → list_entries pending_status l ≡ x
          → ◌≡◌ {A = Outcome StartError (List ManagedStartEntry)}
              (elim x [ err z ↦ err (of_ledger z) | ok es ↦ decode_all hash es ])
              (ok ps)
          → ArePending ps
      by_list (err z) listed k = absurd cc
      by_list (ok es) listed k = decode_all-ArePending es ps (list-IsListed l es listed) k
