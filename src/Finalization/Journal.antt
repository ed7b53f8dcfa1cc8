-- ===== src/Finalization/Journal.antt =====
-- internal/skillmanager/journal.go: the finalization record and its phases, with
-- `AdvanceFinalization` of journal_linux.go.
use agent_remote_node.Prelude.{
  String, Bool, true, false, not, ◌&&◌, ◌||◌, Outcome, ok, err, ◌>>◌, refuse_if, ◌==◌, Eq, all,
  string_Eq, discrete_Eq, string_discrete, fields_Eq, pair_Eq, refl, bool_Eq, ℤ, pos, ltz, lez,
  int_Eq, List, [], ◌∷◌, if◌then◌else◌,
}
use agent_remote_node.Finalization.Identity.{
  SystemReleasePins, pins_Eq, no_pins, validate_pins, valid_skill_uuid, is_content_digest, Refusal,
  bad_identity, bad_generation, bad_preparation, bad_record, state_conflict, write_failed,
}

-- The phases and publication decisions that the source names as texts; `unknown` is any other text.
pub data Phase : Type 0 where
  local_durable upload_pending persisted persisted_unclean published conflicted detached : Phase
  superseded : Phase
  unknown : String → Phase

unfoldable pub Phase-discrete : Discrete Phase
unfolding string_discrete
Phase-discrete = hlevel string_discrete

instance abbrev pub phase_Eq : Eq Phase
phase_Eq = discrete_Eq Phase-discrete

pub record SnapshotBinding : Type 0 where
  pub user_id : String
  pub account_id : String
  pub node_id : String
  pub session_id : String
  pub snapshot_id : String
  pub directory_epoch : ℤ
  pub library_generation : ℤ
  pub initial_tree_digest : String
  pub task_id : String
  pub preparation_digest : String
  pub system_releases : SystemReleasePins

instance abbrev pub binding_Eq : Eq SnapshotBinding
binding_Eq =
    fields_Eq
      (λ (r : SnapshotBinding). (
        r.user_id,
        (
          r.account_id,
          (
            r.node_id,
            (
              r.session_id,
              (
                r.snapshot_id,
                (
                  r.directory_epoch,
                  (
                    r.library_generation,
                    (r.initial_tree_digest, (r.task_id, (r.preparation_digest, r.system_releases))),
                  ),
                ),
              ),
            ),
          ),
        ),
      ))
      (λ (x : String
          × (String
              × (String
                  × (String
                      × (String
                          × (ℤ × (ℤ × (String × (String × (String × SystemReleasePins)))))))))).
        record {
          user_id = x.0;
          account_id = x.1.0;
          node_id = x.1.1.0;
          session_id = x.1.1.1.0;
          snapshot_id = x.1.1.1.1.0;
          directory_epoch = x.1.1.1.1.1.0;
          library_generation = x.1.1.1.1.1.1.0;
          initial_tree_digest = x.1.1.1.1.1.1.1.0;
          task_id = x.1.1.1.1.1.1.1.1.0;
          preparation_digest = x.1.1.1.1.1.1.1.1.1.0;
          system_releases = x.1.1.1.1.1.1.1.1.1.1;
        })
      (λ r. refl) pair_Eq

pub record FinalizationRecord : Type 0 where
  pub version : ℤ
  pub objects_version : ℤ
  pub binding : SnapshotBinding
  pub tree_digest : String
  pub unclean : Bool
  pub state : Phase

instance abbrev pub record_Eq : Eq FinalizationRecord
record_Eq =
    fields_Eq
      (λ (r : FinalizationRecord).
        (r.version, (r.objects_version, (r.binding, (r.tree_digest, (r.unclean, r.state))))))
      (λ (x : ℤ × (ℤ × (SnapshotBinding × (String × (Bool × Phase))))). record {
        version = x.0;
        objects_version = x.1.0;
        binding = x.1.1.0;
        tree_digest = x.1.1.1.0;
        unclean = x.1.1.1.1.0;
        state = x.1.1.1.1.1;
      })
      (λ r. refl) pair_Eq

-- `SnapshotBinding.Validate`
unfoldable pub validate_binding : SnapshotBinding → Outcome Refusal (Unit {0})
validate_binding b = do
  refuse_if
      (not (
        all valid_skill_uuid
          (b.user_id ∷ (b.account_id ∷ (b.node_id ∷ (b.session_id ∷ (b.snapshot_id ∷ [])))))))
      bad_identity
  refuse_if
      (lez b.directory_epoch (pos 0)
        || (ltz b.library_generation (pos 0) || not (is_content_digest b.initial_tree_digest)))
      bad_generation
  refuse_if
      ((not (b.task_id == "") || not (b.preparation_digest == ""))
        && (not (valid_skill_uuid b.task_id) || not (is_content_digest b.preparation_digest)))
      bad_preparation
  if b.system_releases == no_pins then ok tt else validate_pins b.system_releases

-- `validFinalizationState`
unfoldable pub valid_finalization_state : Phase → Bool → Bool
valid_finalization_state local_durable unclean = true
valid_finalization_state upload_pending unclean = true
valid_finalization_state detached unclean = true
valid_finalization_state persisted_unclean unclean = unclean
valid_finalization_state persisted unclean = not unclean
valid_finalization_state published unclean = not unclean
valid_finalization_state conflicted unclean = not unclean
valid_finalization_state _ unclean = false

unfoldable pub next_phase : Phase → Phase → Bool
next_phase local_durable upload_pending = true
next_phase upload_pending persisted = true
next_phase upload_pending persisted_unclean = true
next_phase persisted published = true
next_phase persisted conflicted = true
next_phase persisted detached = true
next_phase persisted_unclean detached = true
next_phase _ _ = false

-- `allowedFinalizationTransition`
unfoldable pub allowed_finalization_transition : Phase → Phase → Bool → Bool
unfolding valid_finalization_state next_phase
allowed_finalization_transition current next unclean =
    if not (valid_finalization_state next unclean) then false else next_phase current next

-- `FinalizationRecord.Validate`
unfoldable pub validate_record : FinalizationRecord → Outcome Refusal (Unit {0})
validate_record r = do
  validate_binding r.binding
  refuse_if
      (not (r.version == pos 1)
        || (ltz r.objects_version (pos 0)
            || (ltz (pos 1) r.objects_version
                || (not (is_content_digest r.tree_digest)
                    || not (valid_finalization_state r.state r.unclean)))))
      bad_record

abbrev pub is_terminal : Phase → Bool
is_terminal published = true
is_terminal conflicted = true
is_terminal detached = true
is_terminal _ = false

-- `CanDeleteSession`
unfoldable pub can_delete_session : FinalizationRecord → Bool
unfolding valid_finalization_state
can_delete_session r =
    r.version == pos 1 && (valid_finalization_state r.state r.unclean && is_terminal r.state)

-- One call of `AdvanceFinalization` on the record that `ReadFinalization` returned; `stored` tells
-- whether `writePrivateJSON` replaced the record file.
pub record Advance : Type 0 where
  pub expected : Phase
  pub next : Phase
  pub stored : Bool

-- `AdvanceFinalization`: the record on disk afterwards, and whether the call returned an error.
unfoldable pub advance_finalization :
    Advance → FinalizationRecord → FinalizationRecord × Outcome Refusal FinalizationRecord
unfolding allowed_finalization_transition
advance_finalization a r =
    if r.state == a.next
    then (r, ok r)
    else if not (r.state == a.expected)
        || not (allowed_finalization_transition r.state a.next r.unclean)
    then (r, err state_conflict)
    else if a.stored
    then (record r { state = a.next }, ok (record r { state = a.next }))
    else (r, err write_failed)

unfoldable pub advance_all : List Advance → FinalizationRecord → FinalizationRecord
unfolding advance_finalization
advance_all [] r = r
advance_all (a ∷ rest) r = advance_all rest (advance_finalization a r).0
