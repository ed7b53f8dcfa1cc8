-- ===== src/Finalization/Examples.antt =====
-- Concrete records and acknowledgements.
use agent_remote_node.Prelude.{
  Bool-cases, string_discrete, ℤ-discrete, String, ◌≡◌, refl, true, false, none, some, List, [],
  ◌∷◌, ok, any, pos, arith,
}
use agent_remote_node.Finalization.Identity.{
  no_pins, validate_pins, valid_skill_uuid, is_content_digest, is_finalization_key,
}
use agent_remote_node.Finalization.Journal.{
  Phase, local_durable, upload_pending, persisted, published, conflicted, detached, SnapshotBinding,
  FinalizationRecord, valid_finalization_state, is_terminal, Advance, advance_finalization,
  advance_all, can_delete_session, validate_record, validate_binding,
}
use agent_remote_node.Finalization.Receipt.{
  bad_reason, keeps_checkpoint, not_retained, is_committed, phase_fits, FinalizationReceipt, staged,
  committed, validate_receipt, validate_receipt_after, follows_receipt, validate_publication,
  validate_input, receipt_phase, decision_fits, valid_present,
}
use agent_remote_node.Finalization.Acknowledgement.{
  FinalizationAcknowledgement, ack_input, validate_ack, validate_decision, ack_state, phase_of,
  receipt_state, follows_ack, same_finalization_input, keeps_decision,
}
use agent_remote_node.Finalization.Reclamation.{
  match_publication, terminal_state, bad_lifetime, bad_status, publication_follows, same_input,
  ReclamationAuthorization, match_authorization, Reclaimable, match_authorization-Reclaimable,
}
use agent_remote_node.Finalization.Lifecycle.{
  advance_all_safe, delete_after_persisted, records_persistence,
}
use agent_remote_node.Finalization.Progress.{follows-Reaches, Reaches}

abbrev id : String
id = "11111111-2222-3333-4444-555555555555"

abbrev digest : String
digest = "0123456789abcdef0123456789abcdef0123456789abcdef0123456789abcdef"

abbrev capture : FinalizationRecord
capture = record {
  version = pos 1;
  objects_version = pos 1;
  binding = record {
    user_id = id;
    account_id = id;
    node_id = id;
    session_id = id;
    snapshot_id = id;
    directory_epoch = pos 1;
    library_generation = pos 0;
    initial_tree_digest = digest;
    task_id = "";
    preparation_digest = "";
    system_releases = no_pins;
  };
  tree_digest = digest;
  unclean = false;
  state = local_durable;
}

abbrev calls : List Advance
calls =
    record { expected = local_durable; next = upload_pending; stored = true }
    ∷ (record { expected = upload_pending; next = persisted; stored = true }
        ∷ (record { expected = persisted; next = published; stored = true }
            ∷ (record { expected = published; next = detached; stored = true } ∷ [])))

advance_all_safe_example :
    (valid_finalization_state (advance_all calls capture).state (advance_all calls capture).unclean
      ≡ true)
    × (is_terminal capture.state ≡ true → advance_all calls capture ≡ capture)
unfolding valid_finalization_state
advance_all_safe_example = advance_all_safe calls capture refl

delete_after_persisted_example : any records_persistence calls ≡ true
unfolding can_delete_session advance_all agent_remote_node.Finalization.Journal.Phase-discrete
delete_after_persisted_example = delete_after_persisted calls capture (omega arith) refl

abbrev retained : FinalizationReceipt
retained = record {
  id = id;
  snapshot_id = id;
  incoming_digest = digest;
  unclean = false;
  status = persisted;
  checkpoint_id = some id;
  upload_id = id;
  upload_attempt = pos 1;
  upload_status = committed;
  expires_at = 5;
}

abbrev uploading : FinalizationAcknowledgement
uploading = record {
  version = pos 1;
  capture = capture;
  receipt = record retained {
    status = upload_pending;
    checkpoint_id = none;
    upload_status = staged;
  };
  publication = none;
}

abbrev decided : FinalizationAcknowledgement
decided = record {
  version = pos 1;
  capture = record capture { state = upload_pending };
  receipt = record retained { status = published };
  publication = some (record {
    id = id;
    finalization_id = id;
    attempt = pos 1;
    status = published;
    reason = none;
    result_checkpoint_id = some id;
    conflict_count = pos 0;
  });
}

decided_accepted : ack_state decided ≡ ok published
unfolding ack_state follows_ack validate_ack validate_decision validate_record validate_binding
    validate_receipt validate_receipt_after validate_input validate_publication receipt_phase
    decision_fits valid_present valid_skill_uuid is_content_digest is_finalization_key phase_of
    receipt_state same_finalization_input keeps_decision follows_receipt keeps_checkpoint
    not_retained is_committed phase_fits ack_input bad_reason validate_pins valid_finalization_state
    agent_remote_node.Finalization.Journal.Phase-discrete string_discrete ℤ-discrete Bool-cases
decided_accepted = refl

uploading_accepted : ack_state uploading ≡ ok upload_pending
unfolding ack_state follows_ack validate_ack validate_decision validate_record validate_binding
    validate_receipt validate_receipt_after validate_input validate_publication receipt_phase
    decision_fits valid_present valid_skill_uuid is_content_digest is_finalization_key phase_of
    receipt_state same_finalization_input keeps_decision follows_receipt keeps_checkpoint
    not_retained is_committed phase_fits ack_input bad_reason validate_pins valid_finalization_state
    agent_remote_node.Finalization.Journal.Phase-discrete string_discrete ℤ-discrete Bool-cases
uploading_accepted = refl

decided_follows : follows_ack decided uploading ≡ ok tt
unfolding ack_state follows_ack validate_ack validate_decision validate_record validate_binding
    validate_receipt validate_receipt_after validate_input validate_publication receipt_phase
    decision_fits valid_present valid_skill_uuid is_content_digest is_finalization_key phase_of
    receipt_state same_finalization_input keeps_decision follows_receipt keeps_checkpoint
    not_retained is_committed phase_fits ack_input bad_reason validate_pins valid_finalization_state
    agent_remote_node.Finalization.Journal.Phase-discrete string_discrete ℤ-discrete Bool-cases
decided_follows = refl

follows-Reaches_example : Reaches false upload_pending published
follows-Reaches_example =
    follows-Reaches decided uploading upload_pending published decided_follows uploading_accepted
      decided_accepted

abbrev permission : ReclamationAuthorization
permission = record {
  version = pos 1;
  request_id = id;
  node_id = id;
  user_id = id;
  account_id = id;
  session_id = id;
  snapshot_id = id;
  finalization_id = id;
  checkpoint_id = id;
  tree_digest = digest;
  unclean = false;
  publication_id = id;
  publication_attempt = pos 1;
  publication_status = published;
  verified_at = 1000;
  expires_at = 60000001000;
}

permission_matches : match_authorization permission decided ≡ ok tt
unfolding match_authorization match_publication terminal_state bad_lifetime bad_status
    publication_follows same_input valid_skill_uuid
    agent_remote_node.Finalization.Journal.Phase-discrete string_discrete Bool-cases
permission_matches = rw decided_accepted refl

match_authorization-Reclaimable_example : Reclaimable permission decided
match_authorization-Reclaimable_example =
    match_authorization-Reclaimable permission decided permission_matches
