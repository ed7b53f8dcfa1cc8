-- ===== src/Finalization/Receipt.antt =====
-- internal/skillmanager/finalization_receipt.go: the Server's receipts for a retained capture.
use agent_remote_node.Prelude.{
  ℕ, String, Bool, true, false, not, ◌&&◌, ◌||◌, Outcome, ok, err, ◌>>◌, refuse_if, ◌==◌, Option,
  none, some, is_some, string_Eq, bool_Eq, nat_Eq, ℤ, pos, ltz, lez, int_Eq, if◌then◌else◌, opt_eqb,
}
use agent_remote_node.Finalization.Identity.{
  valid_skill_uuid, is_content_digest, is_finalization_key, is_publication_reason, Refusal,
  bad_input, bad_receipt, bad_phase, bad_authority, lost_checkpoint, bad_publication,
}
use agent_remote_node.Finalization.Journal.{
  Phase, upload_pending, persisted, persisted_unclean, published, conflicted, detached, superseded,
}

pub record FinalizationInput : Type 0 where
  pub snapshot_id : String
  pub session_id : String
  pub idempotency_key : String
  pub tree_digest : String
  pub unclean : Bool

-- The upload phases that the source names; `other` is any other text.
pub data Upload : Type 0 where
  staged expired committed : Upload
  other : String → Upload

-- `expires_at` counts nanoseconds from Go's zero time.
pub record FinalizationReceipt : Type 0 where
  pub id : String
  pub snapshot_id : String
  pub incoming_digest : String
  pub unclean : Bool
  pub status : Phase
  pub checkpoint_id : Option String
  pub upload_id : String
  pub upload_attempt : ℤ
  pub upload_status : Upload
  pub expires_at : ℕ

pub record PublicationReceipt : Type 0 where
  pub id : String
  pub finalization_id : String
  pub attempt : ℤ
  pub status : Phase
  pub reason : Option String
  pub result_checkpoint_id : Option String
  pub conflict_count : ℤ

-- `FinalizationInput.Validate`
unfoldable pub validate_input : FinalizationInput → Outcome Refusal (Unit {0})
validate_input i =
    refuse_if
      (not (valid_skill_uuid i.snapshot_id)
        || (not (valid_skill_uuid i.session_id)
            || (not (is_finalization_key i.idempotency_key)
                || not (is_content_digest i.tree_digest))))
      bad_input

-- Whether an optional identity is present and valid.
unfoldable pub valid_present : Option String → Bool
unfolding valid_skill_uuid
valid_present none = false
valid_present (some s) = valid_skill_uuid s

unfoldable pub not_retained : FinalizationReceipt → Outcome Refusal (Unit {0})
not_retained v = elim v.upload_status [
  | staged ↦ if is_some v.checkpoint_id then err bad_phase else ok tt
  | expired ↦ if is_some v.checkpoint_id then err bad_phase else ok tt
  | _ ↦ err bad_phase
]

unfoldable pub is_committed : Upload → Bool
is_committed committed = true
is_committed _ = false

unfoldable pub phase_fits : Phase → Bool → Bool
phase_fits persisted unclean = not unclean
phase_fits published unclean = not unclean
phase_fits conflicted unclean = not unclean
phase_fits persisted_unclean unclean = unclean
phase_fits detached unclean = true
phase_fits _ unclean = false

unfoldable pub receipt_phase : Phase → FinalizationReceipt → Outcome Refusal (Unit {0})
unfolding not_retained is_committed valid_present phase_fits
receipt_phase upload_pending v = not_retained v
receipt_phase status v = do
  refuse_if (not (is_committed v.upload_status) || not (valid_present v.checkpoint_id)) bad_phase
  refuse_if (not (phase_fits status v.unclean)) bad_phase

-- `FinalizationReceipt.validate`
unfoldable pub validate_receipt :
    FinalizationReceipt → FinalizationInput → Outcome Refusal (Unit {0})
validate_receipt v i = do
  validate_input i
  refuse_if
      (not (valid_skill_uuid v.id)
        || (not (v.snapshot_id == i.snapshot_id)
            || (not (v.incoming_digest == i.tree_digest)
                || (not (v.unclean == i.unclean)
                    || (not (valid_skill_uuid v.upload_id)
                        || (lez v.upload_attempt (pos 0) || v.expires_at == 0))))))
      bad_receipt
  receipt_phase v.status v

unfoldable pub keeps_checkpoint : Option String → Option String → Bool
keeps_checkpoint none next = true
keeps_checkpoint (some c) next = opt_eqb next (some c)

-- `FinalizationReceipt.follows`
unfoldable pub follows_receipt :
    FinalizationReceipt → FinalizationReceipt → Outcome Refusal (Unit {0})
unfolding keeps_checkpoint
follows_receipt v previous = do
  refuse_if
      (not (v.id == previous.id)
        || (ltz v.upload_attempt previous.upload_attempt
            || not (
                (v.upload_attempt == previous.upload_attempt)
                == (v.upload_id == previous.upload_id))))
      bad_authority
  refuse_if
      (is_some previous.checkpoint_id
        && (not (keeps_checkpoint previous.checkpoint_id v.checkpoint_id)
            || not (v.upload_id == previous.upload_id)))
      lost_checkpoint

-- `FinalizationReceipt.ValidateReceipt`
unfoldable pub validate_receipt_after :
    FinalizationReceipt
    → FinalizationInput
    → Option FinalizationReceipt
    → Outcome Refusal (Unit {0})
validate_receipt_after v i none = validate_receipt v i
validate_receipt_after v i (some previous) = do
  validate_receipt v i
  validate_receipt previous i
  follows_receipt v previous

unfoldable pub bad_reason : Option String → Bool
unfolding is_publication_reason
bad_reason none = false
bad_reason (some r) = not (is_publication_reason r)

-- The `switch` of `PublicationReceipt.ValidateReceipt`.
unfoldable pub decision_fits : Phase → PublicationReceipt → Bool → Bool
unfolding valid_present
decision_fits published v unclean =
    not unclean
    && (not (is_some v.reason)
        && (v.conflict_count == pos 0 && valid_present v.result_checkpoint_id))
decision_fits conflicted v unclean =
    not unclean
    && (not (is_some v.reason)
        && (ltz (pos 0) v.conflict_count && not (is_some v.result_checkpoint_id)))
decision_fits detached v unclean =
    is_some v.reason
    && (v.conflict_count == pos 0
        && (not (is_some v.result_checkpoint_id)
            && (not unclean || opt_eqb v.reason (some "unclean"))))
decision_fits superseded v unclean =
    not unclean && (is_some v.reason && not (is_some v.result_checkpoint_id))
decision_fits _ v unclean = false

-- `PublicationReceipt.ValidateReceipt`
unfoldable pub validate_publication :
    PublicationReceipt → FinalizationInput → FinalizationReceipt → Outcome Refusal (Unit {0})
validate_publication v i retained = do
  validate_receipt retained i
  refuse_if
      (not (is_some retained.checkpoint_id)
        || (not (valid_skill_uuid v.id)
            || (not (v.finalization_id == retained.id)
                || (lez v.attempt (pos 0)
                    || (ltz v.conflict_count (pos 0) || bad_reason v.reason)))))
      bad_publication
  refuse_if (not (decision_fits v.status v i.unclean)) bad_publication
