-- ===== src/Worker/StartExamples.antt =====
-- Concrete runs of the journal of managed startups.
use agent_remote_node.Prelude.{
  String, true, false, none, some, List, [], ◌∷◌, ◌≡◌, refl, ok, pos, Bool-cases,
}
use agent_remote_node.Prelude.Map.{empty, get, put, map_values, entries}
use agent_remote_node.Ledger.Value.{Entry-discrete, normal_entry, marshalable_entry}
use agent_remote_node.Ledger.{
  open_file, Ledger, Calls, absent, regular, compare_and_swap, get_entry, save,
}
use agent_remote_node.Finalization.Identity.{valid_skill_uuid}
use agent_remote_node.Worker.StartRecord.{
  result-discrete, SkillSnapshotIdentity, ManagedSessionStartResult, ManagedStartObservation,
}
use agent_remote_node.Worker.StartEncode.{encode_record}
use agent_remote_node.Worker.StartDecode.{ManagedStartEntry, pending, confirmed}
use agent_remote_node.Worker.StartJournal.{load, propose, proposed_entry}
use agent_remote_node.Worker.StartSettle.{
  StartCall, confirm, start_calls, proposes, confirms, retires,
}
use agent_remote_node.Worker.StartReads.{IsLoaded, load-IsLoaded}
use agent_remote_node.Worker.StartCodec.{recorded}
use agent_remote_node.Worker.StartKept.{start_calls-Restarts, Keeps}
use agent_remote_node.Worker.StartJournal.{StartError}
use agent_remote_node.Worker.StartRecovery.{Inspection, inspect_pending_starts}
use agent_remote_node.Worker.StartEnds.{confirm-Ends, Ends}

abbrev all_well : Calls
all_well = record {
  mkdir = true;
  lstat = regular;
  open_parent = true;
  create = true;
  write = true;
  sync = true;
  close = true;
  rename = true;
  sync_parent = true;
}

abbrev hash : String → String
hash s = "0123456789ab"

abbrev identity : SkillSnapshotIdentity
identity = record {
  snapshot_id = "00000000-0000-4000-8000-000000000001";
  task_id = "00000000-0000-4000-8000-000000000002";
  node_id = "00000000-0000-4000-8000-000000000003";
  user_id = "00000000-0000-4000-8000-000000000004";
  account_id = "00000000-0000-4000-8000-000000000005";
  session_id = "00000000-0000-4000-8000-000000000006";
  runtime_backend = "native";
}

abbrev outcome : ManagedSessionStartResult
outcome = record {
  session_id = identity.session_id;
  account_id = identity.account_id;
  runtime_backend = "native";
  runtime_resource_id = "agent-remote-session-0123456789ab.service";
  snapshot_id = identity.snapshot_id;
  task_record_id = identity.task_id;
  lease_attempt = pos 1;
  status = "running";
  tool_type = "claude";
  tmux_session_name = "main";
  code = "";
  message = "";
}

abbrev cancellation : ManagedStartObservation
cancellation = record {
  result = outcome;
  accepted = false;
  current_lease_attempt = pos 2;
  task_status = "cancelled";
}

abbrev startup : ManagedStartEntry
startup = record {
  entry =
      normal_entry (record (proposed_entry "t1" (recorded identity outcome)) { updated_at = 7 });
  content = recorded identity outcome;
  phase = pending;
}

-- The ledger in which the startup of the task has been proposed.
abbrev proposed_ledger : Ledger
proposed_ledger =
    (propose hash 7 all_well "t1" identity outcome none none
      (record { entries = empty; failed = false; disk = absent })).0

is_there : load hash "t1" proposed_ledger ≡ ok (some startup)
unfolding load propose compare_and_swap get_entry save put get empty map_values entries
    marshalable_entry valid_skill_uuid result-discrete Bool-cases encode_record normal_entry
is_there = refl

startup-IsLoaded : IsLoaded hash startup
startup-IsLoaded = load-IsLoaded hash "t1" proposed_ledger startup is_there

confirm_ok : (confirm hash 8 all_well startup outcome proposed_ledger).1 ≡ ok tt
unfolding load propose compare_and_swap get_entry save put get empty map_values entries
    marshalable_entry valid_skill_uuid result-discrete Bool-cases encode_record normal_entry confirm
    Entry-discrete
confirm_ok = refl

confirm-Ends_example :
    (outcome ≡ startup.content.outcome)
    × Ends hash startup confirmed (confirm hash 8 all_well startup outcome proposed_ledger).0
confirm-Ends_example =
    confirm-Ends hash 8 all_well startup outcome proposed_ledger startup-IsLoaded refl confirm_ok

-- The startup is confirmed; a late retirement and a second proposal change nothing.
abbrev later_calls : List StartCall
later_calls =
    confirms 8 all_well startup outcome
    ∷ (retires 9 all_well startup cancellation
        ∷ (proposes 9 all_well "t1" identity outcome none none ∷ []))

still_usable : (start_calls hash later_calls proposed_ledger).failed ≡ false
unfolding load propose compare_and_swap get_entry save put get empty map_values entries
    marshalable_entry valid_skill_uuid result-discrete Bool-cases encode_record normal_entry
    start_calls Entry-discrete
still_usable = refl

restarted : open_file proposed_ledger.disk ≡ ok proposed_ledger
unfolding load propose compare_and_swap get_entry save put get empty map_values entries
    marshalable_entry valid_skill_uuid result-discrete Bool-cases encode_record normal_entry
    open_file
restarted = refl

start_calls-Restarts_example :
    (open_file (start_calls hash later_calls proposed_ledger).disk
      ≡ ok (start_calls hash later_calls proposed_ledger))
    × ((d : ManagedStartEntry) × (load hash "t1" (start_calls hash later_calls proposed_ledger)
          ≡ ok (some d))
        × Keeps startup d)
start_calls-Restarts_example =
    start_calls-Restarts hash proposed_ledger.disk proposed_ledger later_calls "t1" startup
      restarted (startup-IsLoaded, (startup-IsLoaded, (tt, tt))) is_there still_usable

-- The Server has accepted the startup.
abbrev acceptance : ManagedStartEntry → Inspection
acceptance p = record {
  now = 8;
  calls = all_well;
  ended = false;
  observed = some (record cancellation { accepted = true; task_status = "running" });
}

abbrev recovered : Ledger × List StartError
recovered = inspect_pending_starts hash identity.node_id acceptance proposed_ledger
