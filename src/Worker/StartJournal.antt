-- ===== src/Worker/StartJournal.antt =====
-- internal/worker/start_journal.go, start_retirement.go and start_confirmation.go: the journal of
-- managed startups over the task ledger.
use Prim.Native.Nat.{ℕ, Ordering}
use Prim.Native.String.{compare}
use agent_remote_node.Prelude.{
  String, Bool, true, false, not, ◌&&◌, ◌||◌, Option, none, some, List, [], ◌∷◌, ◌==◌, string_Eq,
  int_Eq, pos, lez, if◌then◌else◌, Outcome, ok, err,
}
use agent_remote_node.Ledger.Value.{Entry, object}
use agent_remote_node.Ledger.{
  Ledger, LedgerError, conflict, Calls, Written, get_entry, compare_and_swap, list_entries,
}
use agent_remote_node.Worker.Json.{set_field}
use agent_remote_node.Worker.StartRecord.{
  SkillSnapshotIdentity, identity_Eq, ManagedSessionStartResult, result_Eq, ManagedStartObservation,
  ManagedStartRecord, same_record, same_observation, valid_start_record,
}
use agent_remote_node.Worker.StartEncode.{encode_record, encode_observation}
use agent_remote_node.Worker.StartDecode.{
  StartPhase, pending, confirmed, retired, pending_status, retired_status, ManagedStartEntry,
  decode_start_entry, data_of,
}

-- The errors: the ledger's, and those of the journal.
pub data StartError : Type 0 where
  of_ledger : LedgerError → StartError
  invalid_entry invalid_record start_retired start_pending stopped wrong_node changed_outcome :
      StartError

abbrev pub conflicting : StartError
conflicting = of_ledger conflict

-- A pointer to an entry, or nil.
abbrev pub Loaded : Type 0
Loaded = Outcome StartError (Option ManagedStartEntry)

abbrev pub before_key : String → String → Bool
before_key a b = elim (compare a b) [ Ordering.lt ↦ true | _ ↦ false ]

abbrev pub is_pending : StartPhase → Bool
is_pending pending = true
is_pending _ = false

abbrev pub is_live_status : String → Bool
is_live_status s = (s == "leased") || (s == "running")

-- The new entry of a proposal.
abbrev pub proposed_entry : String → ManagedStartRecord → Entry
proposed_entry task r = record {
  task_id = task;
  status = pending_status;
  result = some (encode_record r);
  error = none;
  updated_at = 0;
}

abbrev pub retired_entry : Entry → ManagedStartObservation → Entry
retired_entry e o = record e {
  status = retired_status;
  result =
      some (set_field before_key "retirement" (object (encode_observation o)) (data_of e.result));
}

-- The observation lets the new outcome take the place of the pending one.
unfoldable pub replaces :
    ManagedStartEntry → ManagedSessionStartResult → Option ManagedStartObservation → Bool
replaces p outcome none = false
replaces p outcome (some o) =
    is_pending p.phase
    && (not o.accepted
        && ((o.result == p.content.outcome)
            && ((o.current_lease_attempt == outcome.lease_attempt)
                && (not (lez outcome.lease_attempt p.content.outcome.lease_attempt)
                    && is_live_status o.task_status))))

abbrev pub is_confirmed : StartPhase → Bool
is_confirmed confirmed = true
is_confirmed _ = false

abbrev pub is_retired_by : ManagedStartObservation → StartPhase → Bool
is_retired_by o (retired seen) = same_observation seen o
is_retired_by o _ = false

-- `confirmManagedStart` before the receipt: an error, `true` for a startup that is confirmed already,
-- or the pending entry whose outcome is sent. The context may have ended before the proposal or after.
pub data Sent : Type 0 where
  not_sent : StartError → Sent
  committed : Sent
  sent : ManagedStartEntry → Sent

abbrev pub or_invalid : Option ManagedStartEntry → Loaded
or_invalid none = err invalid_entry
or_invalid (some d) = ok (some d)

abbrev pub Settled : Type 0
Settled = Ledger × Outcome StartError (Unit {0})

module _ (hash : String → String) where
  unfoldable pub decoded : Option Entry → Loaded
  unfolding decode_start_entry
  decoded none = ok none
  decoded (some e) = or_invalid (decode_start_entry hash e)

  unfoldable pub read_entry : Outcome LedgerError (Option Entry) → Loaded
  unfolding decoded
  read_entry (err x) = err (of_ledger x)
  read_entry (ok o) = decoded o

  -- `load`
  unfoldable pub load : String → Ledger → Loaded
  unfolding read_entry
  load task l = read_entry (get_entry task l)

  unfoldable pub decode_all : List Entry → Outcome StartError (List ManagedStartEntry)
  unfolding decode_start_entry
  decode_all [] = ok []
  decode_all (e ∷ rest) =
      let others = decode_all rest in
      elim (decode_start_entry hash e) [
        | none ↦ err invalid_entry
        | some d ↦ elim others [ err x ↦ err x | ok ds ↦ ok (d ∷ ds) ]
      ]

  -- `pending`
  unfoldable pub pending_entries : Ledger → Outcome StartError (List ManagedStartEntry)
  unfolding decode_all
  pending_entries l = elim (list_entries pending_status l) [
    | err x ↦ err (of_ledger x)
    | ok es ↦ decode_all es
  ]

  -- What `propose` returns where the same record is proposed again.
  unfoldable pub confirm_same : ManagedStartRecord → Loaded → Loaded
  confirm_same r (ok (some d)) = if same_record d.content r then ok (some d) else err conflicting
  confirm_same r _ = err conflicting

  -- After the swap of `propose` the entry is read back.
  unfoldable pub after_swap : String → Written → Ledger × Loaded
  unfolding load
  after_swap task (l, err x) = (l, err (of_ledger x))
  after_swap task (l, ok _) = (l, load task l)

  -- The swap of `propose`.
  unfoldable pub write_proposal :
      ℕ → Calls → Option Entry → String → ManagedStartRecord → Ledger → Ledger × Loaded
  unfolding after_swap
  write_proposal now c expected task r l =
      after_swap task (compare_and_swap now c expected (proposed_entry task r) l)

  unfoldable pub propose_over :
      ℕ
      → Calls
      → String
      → ManagedStartRecord
      → Option ManagedStartObservation
      → ManagedStartEntry
      → Ledger
      → Ledger × Loaded
  unfolding write_proposal confirm_same replaces load
  propose_over now c task r o p l =
      if elim p.phase [ retired _ ↦ true | _ ↦ false ]
      then (l, err conflicting)
      else if not (p.entry.task_id == task) || not (p.content.binding == r.binding)
      then (l, err conflicting)
      else if same_record p.content r
      then (l, confirm_same r (load task l))
      else if replaces p r.outcome o
      then write_proposal now c (some p.entry) task r l
      else (l, err conflicting)

  -- `propose`
  unfoldable pub propose :
      ℕ
      → Calls
      → String
      → SkillSnapshotIdentity
      → ManagedSessionStartResult
      → Option ManagedStartEntry
      → Option ManagedStartObservation
      → Ledger
      → Ledger × Loaded
  unfolding propose_over write_proposal valid_start_record
  propose now c task binding outcome previous o l =
      let r : ManagedStartRecord = record {
        schema_version = pos 1;
        binding = binding;
        outcome = outcome;
      } in
      if valid_start_record hash r task
      then elim previous [
        | none ↦ write_proposal now c none task r l
        | some p ↦ propose_over now c task r o p l
      ]
      else (l, err invalid_record)
