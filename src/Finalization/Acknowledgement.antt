-- ===== src/Finalization/Acknowledgement.antt =====
-- internal/skillmanager/finalization_acknowledgement.go: a Server receipt bound to a capture.
use Prim.Native.String.{◌++◌}
use agent_remote_node.Prelude.{
  String, Bool, true, not, ◌||◌, Outcome, ok, ◌>>◌, refuse_if, ◌==◌, Eq, Option, none, some,
  string_Eq, fields_Eq, pair_Eq, opt_Eq, refl, bool_Eq, ℤ, pos, int_Eq, if◌then◌else◌, opt_eqb,
  succeeded,
}
use agent_remote_node.Finalization.Identity.{Refusal, bad_acknowledgement}
use agent_remote_node.Finalization.Journal.{
  Phase, phase_Eq, upload_pending, persisted, persisted_unclean, superseded, unknown,
  FinalizationRecord, record_Eq, validate_record,
}
use agent_remote_node.Finalization.Receipt.{
  FinalizationInput, FinalizationReceipt, PublicationReceipt, validate_receipt_after,
  validate_publication,
}

pub record FinalizationAcknowledgement : Type 0 where
  pub version : ℤ
  pub capture : FinalizationRecord
  pub receipt : FinalizationReceipt
  pub publication : Option PublicationReceipt

instance abbrev pub publication_Eq : Eq PublicationReceipt
publication_Eq =
    fields_Eq
      (λ (r : PublicationReceipt). (
        r.id,
        (
          r.finalization_id,
          (r.attempt, (r.status, (r.reason, (r.result_checkpoint_id, r.conflict_count)))),
        ),
      ))
      (λ (x : String × (String × (ℤ × (Phase × (Option String × (Option String × ℤ)))))). record {
        id = x.0;
        finalization_id = x.1.0;
        attempt = x.1.1.0;
        status = x.1.1.1.0;
        reason = x.1.1.1.1.0;
        result_checkpoint_id = x.1.1.1.1.1.0;
        conflict_count = x.1.1.1.1.1.1;
      })
      (λ r. refl) pair_Eq

-- `Input`
unfoldable pub ack_input : FinalizationAcknowledgement → FinalizationInput
ack_input a = record {
  snapshot_id = a.capture.binding.snapshot_id;
  session_id = a.capture.binding.session_id;
  idempotency_key = "skill-finalization:" ++ a.capture.binding.snapshot_id;
  tree_digest = a.capture.tree_digest;
  unclean = a.capture.unclean;
}

unfoldable pub validate_decision :
    Option PublicationReceipt → FinalizationInput → FinalizationReceipt → Outcome Refusal (Unit {0})
validate_decision none i r = ok tt
validate_decision (some p) i r = validate_publication p i r

-- `FinalizationAcknowledgement.Validate`
unfoldable pub validate_ack : FinalizationAcknowledgement → Outcome Refusal (Unit {0})
validate_ack a = do
  refuse_if
      (not (a.version == pos 1)
        || (not (a.capture.objects_version == pos 1)
            || not (succeeded (validate_record a.capture))))
      bad_acknowledgement
  validate_receipt_after a.receipt (ack_input a) none
  validate_decision a.publication (ack_input a) a.receipt

unfoldable pub receipt_state : Option String → Bool → Phase
receipt_state none unclean = upload_pending
receipt_state (some c) unclean = if unclean then persisted_unclean else persisted

unfoldable pub phase_of : Option PublicationReceipt → Option String → Bool → Phase
unfolding receipt_state
phase_of none checkpoint unclean = receipt_state checkpoint unclean
phase_of (some p) checkpoint unclean =
    if p.status == superseded then receipt_state checkpoint unclean else p.status

-- `FinalizationAcknowledgement.State`
unfoldable pub ack_state : FinalizationAcknowledgement → Outcome Refusal Phase
ack_state a = do
  validate_ack a
  ok (phase_of a.publication a.receipt.checkpoint_id a.capture.unclean)

-- `SameFinalizationInput`
unfoldable pub same_finalization_input : FinalizationRecord → FinalizationRecord → Bool
same_finalization_input a b = record a { state = unknown "" } == record b { state = unknown "" }

-- `reflect.DeepEqual` of two publications, asked only where the previous one is there.
unfoldable pub keeps_decision : Option PublicationReceipt → Option PublicationReceipt → Bool
keeps_decision none next = true
keeps_decision (some p) next = opt_eqb ⦃e = publication_Eq⦄ (some p) next

-- `FinalizationAcknowledgement.Follows`
unfoldable pub follows_ack :
    FinalizationAcknowledgement → FinalizationAcknowledgement → Outcome Refusal (Unit {0})
follows_ack a previous = do
  validate_ack a
  validate_ack previous
  refuse_if (not (same_finalization_input a.capture previous.capture)) bad_acknowledgement
  validate_receipt_after a.receipt (ack_input a) (some previous.receipt)
  refuse_if (not (keeps_decision previous.publication a.publication)) bad_acknowledgement
