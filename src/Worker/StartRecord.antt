-- ===== src/Worker/StartRecord.antt =====
-- What the journal of managed startups records: internal/api/skill_start_result.go,
-- skill_start_observation.go, internal/skillmanager/preparation.go (`SkillSnapshotIdentity`) and
-- internal/worker/start_journal.go (`managedStartRecord`, `decodeManagedStartEntry`).
use Prim.Native.String.{◌++◌, len}
use agent_remote_node.Prelude.{
  String, Bool, false, not, ◌&&◌, ◌||◌, Option, none, some, [], ◌∷◌, ◌==◌, Eq, nat_Eq, string_Eq,
  int_Eq, bool_Eq, discrete_Eq, string_discrete, ℤ, ℤ-discrete, pos, ltz, lez, leb, if◌then◌else◌,
  all, any, codes, has_line_break,
}
use agent_remote_node.Finalization.Identity.{valid_skill_uuid}

pub record SkillSnapshotIdentity : Type 0 where
  pub snapshot_id : String
  pub task_id : String
  pub node_id : String
  pub user_id : String
  pub account_id : String
  pub session_id : String
  pub runtime_backend : String

pub record ManagedSessionStartResult : Type 0 where
  pub session_id : String
  pub account_id : String
  pub runtime_backend : String
  pub runtime_resource_id : String
  pub snapshot_id : String
  pub task_record_id : String
  pub lease_attempt : ℤ
  pub status : String
  pub tool_type : String
  pub tmux_session_name : String
  pub code : String
  pub message : String

pub record ManagedStartObservation : Type 0 where
  pub result : ManagedSessionStartResult
  pub accepted : Bool
  pub current_lease_attempt : ℤ
  pub task_status : String

-- `managedStartRecord`
pub record ManagedStartRecord : Type 0 where
  pub schema_version : ℤ
  pub binding : SkillSnapshotIdentity
  pub outcome : ManagedSessionStartResult

unfoldable pub identity-discrete : Discrete SkillSnapshotIdentity
unfolding string_discrete
identity-discrete = hlevel string_discrete

unfoldable pub result-discrete : Discrete ManagedSessionStartResult
unfolding string_discrete ℤ-discrete
result-discrete = hlevel (string_discrete, ℤ-discrete)

instance abbrev pub identity_Eq : Eq SkillSnapshotIdentity
identity_Eq = discrete_Eq identity-discrete

instance abbrev pub result_Eq : Eq ManagedSessionStartResult
result_Eq = discrete_Eq result-discrete

abbrev pub same_record : ManagedStartRecord → ManagedStartRecord → Bool
same_record a b =
    (a.schema_version == b.schema_version) && ((a.binding == b.binding) && (a.outcome == b.outcome))

abbrev pub same_observation : ManagedStartObservation → ManagedStartObservation → Bool
same_observation a b =
    (a.result == b.result)
    && ((a.accepted == b.accepted)
        && ((a.current_lease_attempt == b.current_lease_attempt)
            && (a.task_status == b.task_status)))

-- `SkillSnapshotIdentity.Validate`
unfoldable pub valid_identity : SkillSnapshotIdentity → Bool
valid_identity b =
    all valid_skill_uuid (
      b.snapshot_id
      ∷ (b.task_id ∷ (b.node_id ∷ (b.user_id ∷ (b.account_id ∷ (b.session_id ∷ []))))))
    && ((b.runtime_backend == "native") || (b.runtime_backend == "docker_sandbox"))

-- `managedStartStoppedMessage`
abbrev pub stopped_message : String
stopped_message = "Managed startup stopped; skill finalization is pending."

abbrev pub max_attempt : ℤ
max_attempt = pos 2147483647

-- `hash` is the hexadecimal text of the first six bytes of SHA-256.
module _ (hash : String → String) where
  abbrev pub resource_of : String → String
  resource_of session = "agent-remote-session-" ++ (hash session ++ ".service")

  -- The first check of `ManagedSessionStartResult.validate`.
  unfoldable pub bad_result_identity : ManagedSessionStartResult → SkillSnapshotIdentity → ℤ → Bool
  unfolding valid_identity
  bad_result_identity r b attempt =
      not (valid_identity b)
      || (not (b.runtime_backend == "native")
          || (lez attempt (pos 0)
              || (ltz max_attempt attempt
                  || (not (r.session_id == b.session_id)
                      || (not (r.account_id == b.account_id)
                          || (not (r.runtime_backend == b.runtime_backend)
                              || (not (r.snapshot_id == b.snapshot_id)
                                  || (not (r.task_record_id == b.task_id)
                                      || (not (r.lease_attempt == attempt)
                                          || not (
                                              r.runtime_resource_id
                                              == resource_of b.session_id))))))))))

-- The two forms of an outcome.
unfoldable pub is_running : ManagedSessionStartResult → Bool
is_running r =
    (r.status == "running")
    && ((r.tool_type == "claude")
        && (not (r.tmux_session_name == "")
            && (leb (len r.tmux_session_name) 128
                && (not (has_line_break r.tmux_session_name)
                    && ((r.code == "") && (r.message == ""))))))

unfoldable pub is_stopped : ManagedSessionStartResult → Bool
is_stopped r =
    (r.code == "SKILL_START_STOPPED")
    && ((r.message == stopped_message)
        && ((r.status == "") && ((r.tool_type == "") && (r.tmux_session_name == ""))))

abbrev pub is_expected : Option ManagedSessionStartResult → ManagedSessionStartResult → Bool
is_expected none r = false
is_expected (some expected) r = expected == r

abbrev pub status_word : ManagedSessionStartResult → String
status_word r = if r.code == "SKILL_START_STOPPED" then "stopped" else "running"

-- `strings.ContainsAny(taskID, "/\\\x00\r\n")`
abbrev pub has_path_character : String → Bool
has_path_character s =
    any (λ c. (c == b'/') || ((c == 92) || ((c == 0) || ((c == 13) || (c == 10))))) (codes s)

module _ (hash : String → String) where
  -- `ManagedSessionStartResult.validate`
  unfoldable pub valid_result : ManagedSessionStartResult → SkillSnapshotIdentity → ℤ → Bool
  unfolding bad_result_identity is_running is_stopped
  valid_result r b attempt =
      not (bad_result_identity hash r b attempt) && (is_running r || is_stopped r)

  abbrev pub common_result : SkillSnapshotIdentity → ℤ → ManagedSessionStartResult
  common_result b attempt = record {
    session_id = b.session_id;
    account_id = b.account_id;
    runtime_backend = b.runtime_backend;
    runtime_resource_id = resource_of hash b.session_id;
    snapshot_id = b.snapshot_id;
    task_record_id = b.task_id;
    lease_attempt = attempt;
    status = "";
    tool_type = "";
    tmux_session_name = "";
    code = "";
    message = "";
  }

  abbrev pub validated :
      ManagedSessionStartResult → SkillSnapshotIdentity → ℤ → Option ManagedSessionStartResult
  validated r b attempt = if valid_result r b attempt then some r else none

  -- `NewManagedSessionStartResult`
  unfoldable pub new_start_result :
      SkillSnapshotIdentity → ℤ → String → String → Option ManagedSessionStartResult
  unfolding valid_result
  new_start_result b attempt status tmux =
      if status == "running"
      then validated
          (record (common_result b attempt) {
            status = "running";
            tool_type = "claude";
            tmux_session_name = tmux;
          })
          b attempt
      else if status == "stopped"
      then if tmux == ""
        then validated
            (record (common_result b attempt) {
              code = "SKILL_START_STOPPED";
              message = stopped_message;
            })
            b attempt
        else none
      else none

  -- `managedStartRecord.validate`
  unfoldable pub valid_start_record : ManagedStartRecord → String → Bool
  unfolding new_start_result
  valid_start_record r task =
      (r.schema_version == pos 1)
      && (not (task == "")
          && (leb (len task) 128
              && (not (has_path_character task)
                  && is_expected
                      (new_start_result r.binding r.outcome.lease_attempt (status_word r.outcome)
                        r.outcome.tmux_session_name)
                      r.outcome)))

-- `cancelledManagedStart`
unfoldable pub cancelled_start : ManagedSessionStartResult → ManagedStartObservation → Bool
cancelled_start outcome o =
    (o.result == outcome)
    && (not o.accepted
        && ((o.task_status == "cancelled")
            && (lez outcome.lease_attempt o.current_lease_attempt
                && lez o.current_lease_attempt max_attempt)))
