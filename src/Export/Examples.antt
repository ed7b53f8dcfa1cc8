-- ===== src/Export/Examples.antt =====
-- An export with one renewal.
use Prim.Native.Nat.{◌+◌, ◌*◌, ◌≤◌, ◌<◌}
use agent_remote_node.Prelude.{String, ◌≡◌, refl, true, false, none, some, List, [], ◌∷◌, ok, pos}
use agent_remote_node.Export.{
  NodeExportBinding, NodeExportPermission, ExportFacts, ExportIdentity, ExportAuthorization, Next,
  ExportEvent, observes, answers, looks, new_export, finish_verify, export_run,
}
use agent_remote_node.Finalization.Identity.{valid_skill_uuid, is_content_digest}
use agent_remote_node.Export.Facts.{KeepsFacts, export_run-KeepsFacts, finish_verify_window}

abbrev id : String
id = "11111111-2222-3333-4444-555555555555"

abbrev digest : String
digest = "0123456789abcdef0123456789abcdef0123456789abcdef0123456789abcdef"

abbrev origin : NodeExportBinding
origin = record {
  snapshot_id = id;
  session_id = id;
  user_id = id;
  account_id = id;
  node_id = id;
  task_id = id;
  library_generation = pos 0;
  directory_epoch = pos 1;
  initial_tree_digest = digest;
}

abbrev permission : NodeExportPermission
permission = record {
  binding = origin;
  device_id = id;
  ssh_key_id = id;
  expires_at = 60 * 1000000000;
  recheck_seconds = pos 10;
  incoming_digest = none;
  unclean = some false;
}

abbrev identity : ExportIdentity
identity = record { node_id = id; snapshot_id = id; device_id = id; ssh_key_id = id }

abbrev opened : ExportAuthorization
opened = new_export identity "grant-1" permission 1000000000

abbrev renewal : Next
renewal = record {
  permission = record permission { incoming_digest = some digest };
  grant = "grant-2";
  renewed = true;
}

abbrev header : ExportFacts
header = record { binding = origin; tree_digest = digest; unclean = false }

abbrev events : List ExportEvent
events =
    observes header
    ∷ (answers 6000000000 7000000000 7000000001 (ok renewal) ∷ (looks false 8000000000 ∷ []))

export_run-KeepsFacts_example : KeepsFacts opened (export_run events opened)
export_run-KeepsFacts_example = export_run-KeepsFacts events opened

renewal_accepted : (finish_verify 6000000000 7000000000 7000000001 (ok renewal) opened).1 ≡ true
unfolding finish_verify new_export valid_skill_uuid is_content_digest
renewal_accepted = refl

finish_verify_window_example :
    (7000000001
      < (finish_verify 6000000000 7000000000 7000000001 (ok renewal) opened).0.valid_until)
    × ((finish_verify 6000000000 7000000000 7000000001 (ok renewal) opened).0.valid_until
        ≤ 6000000000 + 10 * 1000000000)
    × ((finish_verify 6000000000 7000000000 7000000001 (ok renewal) opened).0.valid_until
        ≤ 60 * 1000000000)
finish_verify_window_example =
    finish_verify_window 6000000000 7000000000 7000000001 renewal opened renewal_accepted
