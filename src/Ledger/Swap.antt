-- ===== src/Ledger/Swap.antt =====
-- What reads, saves and compare-and-swap promise about entries.
use mathlib.Core.Option
use agent_remote_node.Prelude.{
  ℕ, String, ◌≡◌, refl, ap, sym, ◌∙◌, true, false, Option, none, some, Outcome, ok, err, arith,
  if◌then◌else◌, ◌==◌, string_Eq, Bool-cases, if_both, inl, inr,
}
use agent_remote_node.Prelude.Map.{Map, get, put, get-put, all_entries, get-map_values, map_values}
use agent_remote_node.Ledger.Value.{
  Entry, entry_Eq, normal_entry, normal_entry_idem, marshalable_entry, marshalable_entry-normal,
}
use agent_remote_node.Ledger.{
  Ledger, Written, LedgerError, conflict, Calls, save_next, save_locked, save, round_trip,
  compare_and_swap, swapped, mismatch, compare_json, marshal, detached, get_entry,
}

save_next_entries :
    (c : Calls) (m : Map String Entry) (l : Ledger)
    → (save_next c (round_trip m) l).1 ≡ ok tt
    → ((save_next c (round_trip m) l).0.entries ≡ map_values normal_entry m)
      × ((save_next c (round_trip m) l).0.failed ≡ l.failed)
unfolding save_next round_trip
save_next_entries c m l h = (ground arith, ground arith)

marshal-normal : (e : Entry) → marshal (normal_entry e) ≡ marshal e
unfolding marshal
marshal-normal e = rw (marshalable_entry-normal, normal_entry_idem)

-- What `Get` returns for what it finds.
abbrev pub answer : Option Entry → Outcome LedgerError (Option Entry)
answer none = ok none
answer (some e) = detached (marshal e)

answer-normal : (o : Option Entry) → answer (Option.map normal_entry o) ≡ answer o
answer-normal none = refl
answer-normal (some e) = ap detached (marshal-normal e)

pub get_entry-answer :
    (id : String) (l : Ledger) → l.failed ≡ false → get_entry id l ≡ answer (get l.entries id)
unfolding get_entry
get_entry-answer id l h = ground (arith, h)

-- What a successful save tells of its state, of its ledger before, and of the entry.
record Stored (e : Entry) (l l' : Ledger) : Type 0 where
  live : l.failed ≡ false
  live' : l'.failed ≡ false
  accepted : marshalable_entry e ≡ true
  map : l'.entries ≡ map_values normal_entry (put l.entries e.task_id e)

round_trip-accepts :
    (m : Map String Entry) (k : String) (e : Entry) (c : Calls) (l : Ledger)
    → (save_next c (round_trip (put m k e)) l).1 ≡ ok tt
    → marshalable_entry e ≡ true
unfolding save_next round_trip
round_trip-accepts m k e c l h =
    all_entries (λ _ x. marshalable_entry x) (put m k e) k e (ground (arith, h))
      (get-put m k e k ∙ rw ((string_Eq.eqb_iff k k).1 refl))

save_locked-Stored :
    (now : ℕ) (c : Calls) (e : Entry) (l : Ledger)
    → (save_locked now c e l).1 ≡ ok tt
    → Stored (record e { updated_at = now }) l (save_locked now c e l).0
unfolding save_locked
save_locked-Stored now c e l =
    if_both (λ (r : Written). r.1 ≡ ok tt → Stored (record e { updated_at = now }) l r.0) l.failed
      (λ _ h. cc)
      λ live h.
        let stamped : Entry = record e { updated_at = now } in
        let done = save_next_entries c (put l.entries e.task_id stamped) l h in
        record {
          live = live;
          live' = done.1 ∙ live;
          accepted = round_trip-accepts l.entries e.task_id stamped c l h;
          map = done.0;
        }

get_entry-Stored :
    (e : Entry) (l l' : Ledger) (id : String)
    → Stored e l l'
    → get_entry id l' ≡ (if e.task_id == id then ok (some (normal_entry e)) else get_entry id l)
get_entry-Stored e l l' id s =
    get_entry-answer id l' s.live'
    ∙ ap (λ m. answer (get m id)) s.map
    ∙ ap answer (get-map_values normal_entry (put l.entries e.task_id e) id)
    ∙ answer-normal (get (put l.entries e.task_id e) id)
    ∙ ap answer (get-put l.entries e.task_id e id)
    ∙ elim (Bool-cases (e.task_id == id)) [
      | inl same ↦ rw same (unfold marshal in rw (s.accepted))
      | inr differ ↦ rw differ (sym (get_entry-answer id l s.live))
    ]

-- After a save that succeeded, a read of its task returns the entry with the time of the save, as
-- its JSON reads back, and a read of any other task returns what it returned before.
pub get_entry-save :
    (now : ℕ) (c : Calls) (e : Entry) (l : Ledger) (id : String)
    → (save now c e l).1 ≡ ok tt
    → get_entry id (save now c e l).0 ≡ (
        if e.task_id == id
        then ok (some (normal_entry (record e { updated_at = now })))
        else get_entry id l)
unfolding save
get_entry-save now c e l id h =
    get_entry-Stored (record e { updated_at = now }) l (save_locked now c e l).0 id
      (save_locked-Stored now c e l h)

compare_json_agrees :
    (x current : Entry)
    → compare_json (marshal x) (marshal current) ≡ none
    → answer (some current) ≡ ok (some (normal_entry x))
unfolding marshal compare_json
compare_json_agrees x current h =
    ground (arith, h, entry_Eq.eqb_iff (normal_entry x) (normal_entry current))

mismatch-none :
    (x : Option Entry) (e : Entry) (found : Option Entry)
    → mismatch x e found ≡ none
    → answer found ≡ ok (Option.map normal_entry x)
unfolding mismatch
mismatch-none none e none h = refl
mismatch-none none e (some current) h = cc
mismatch-none (some x) e none h = cc
mismatch-none (some x) e (some current) h = compare_json_agrees x current (ground (arith, h))

swapped_ok :
    (now : ℕ) (c : Calls) (e : Entry) (l : Ledger) (o : Option LedgerError)
    → (swapped now c e l o).1 ≡ ok tt
    → (o ≡ none) × (swapped now c e l o ≡ save_locked now c e l)
unfolding swapped
swapped_ok now c e l none h = (refl, refl)
swapped_ok now c e l (some x) h = cc

-- A compare-and-swap that succeeds found exactly the expected record, up to its JSON (no record,
-- where absence was expected), and then did what a plain save does.
pub compare_and_swap_sound :
    (now : ℕ) (c : Calls) (x : Option Entry) (e : Entry) (l : Ledger)
    → (compare_and_swap now c x e l).1 ≡ ok tt
    → (get_entry e.task_id l ≡ ok (Option.map normal_entry x))
      × (compare_and_swap now c x e l ≡ save now c e l)
unfolding compare_and_swap save
compare_and_swap_sound now c x e l =
    if_both
      (λ (r : Written).
        r.1 ≡ ok tt
        → (get_entry e.task_id l ≡ ok (Option.map normal_entry x)) × (r ≡ save_locked now c e l))
      l.failed (λ _ h. cc)
      λ live h.
        let done = swapped_ok now c e l (mismatch x e (get l.entries e.task_id)) h in
        (
          get_entry-answer e.task_id l live ∙ mismatch-none x e (get l.entries e.task_id) done.0,
          done.1,
        )

compare_json_self :
    (current : Entry)
    → marshalable_entry current ≡ true
    → compare_json (marshal current) (marshal current) ≡ none
unfolding marshal compare_json
compare_json_self current h =
    rw (h, (entry_Eq.eqb_iff (normal_entry current) (normal_entry current)).1 refl)

mismatch_observed :
    (x : Option Entry) (e : Entry) (found : Option Entry)
    → answer found ≡ ok x
    → ((y : Entry) → x ≡ some y → y.task_id ≡ e.task_id)
    → mismatch x e found ≡ none
unfolding mismatch
mismatch_observed none e none h same = refl
mismatch_observed (some y) e none h same = cc
mismatch_observed none e (some current) h same = unfold marshal in ground (arith, h)
mismatch_observed (some y) e (some current) h same =
    let accepted : marshalable_entry current ≡ true = unfold marshal in ground (arith, h) in
    let read : normal_entry current ≡ y = unfold marshal in ground (arith, h) in
    rw ((string_Eq.eqb_iff y.task_id e.task_id).1 (same y refl))
      (rw (sym read, marshal-normal) (compare_json_self current accepted))

-- A compare-and-swap against what a read just returned does what a plain save does: it does not
-- conflict. The record expected, where there is one, is of the task that is written.
pub compare_and_swap_observed :
    (now : ℕ) (c : Calls) (x : Option Entry) (e : Entry) (l : Ledger)
    → get_entry e.task_id l ≡ ok x
    → ((y : Entry) → x ≡ some y → y.task_id ≡ e.task_id)
    → compare_and_swap now c x e l ≡ save now c e l
unfolding compare_and_swap save swapped
compare_and_swap_observed now c x e l read same = elim (Bool-cases l.failed) [
  | inl failed ↦ unfold get_entry in ground (arith, failed, read)
  | inr live ↦
      let fits =
        mismatch_observed x e (get l.entries e.task_id)
          (sym (get_entry-answer e.task_id l live) ∙ read) same in
      ground (arith, live, fits)
]

Stored-get :
    (e : Entry) (l l' : Ledger) (id : String)
    → Stored e l l'
    → id ≡ e.task_id
    → get l'.entries id ≡ some (normal_entry e)
Stored-get e l l' id s same =
    let here : get (put l.entries e.task_id e) id ≡ some e =
      get-put l.entries e.task_id e id ∙ rw ((string_Eq.eqb_iff e.task_id id).1 (sym same)) in
    ap (λ m. get m id) s.map
    ∙ get-map_values normal_entry (put l.entries e.task_id e) id
    ∙ ap (Option.map normal_entry) here

present_conflicts :
    (now : ℕ) (c : Calls) (e found : Entry) (l : Ledger)
    → l.failed ≡ false
    → get l.entries e.task_id ≡ some found
    → compare_and_swap now c none e l ≡ (l, err conflict)
unfolding compare_and_swap swapped mismatch
present_conflicts now c e found l live h = ground (arith, live, h)

-- Of two swaps that expect the same task to be absent, the second conflicts when the first
-- succeeded, and changes nothing.
pub compare_and_swap_once :
    (now later : ℕ) (c d : Calls) (e f : Entry) (l : Ledger)
    → (compare_and_swap now c none e l).1 ≡ ok tt
    → f.task_id ≡ e.task_id
    → compare_and_swap later d none f (compare_and_swap now c none e l).0
      ≡ ((compare_and_swap now c none e l).0, err conflict)
compare_and_swap_once now later c d e f l h same =
    let done = (compare_and_swap_sound now c none e l h).1 in
    let saved = sym (ap (λ (r : Written). r.1) done) ∙ h in
    let stamped : Entry = record e { updated_at = now } in
    let stored : Stored stamped l (save now c e l).0 =
      unfold save in save_locked-Stored now c e l saved in
    rw done (
      present_conflicts later d f (normal_entry stamped) (save now c e l).0 stored.live'
        (Stored-get stamped l (save now c e l).0 f.task_id stored same))
