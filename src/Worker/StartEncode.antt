-- ===== src/Worker/StartEncode.antt =====
-- internal/worker/start_journal.go, start_retirement.go and the records of internal/api: the JSON of what the
-- journal keeps.
use agent_remote_node.Prelude.{String, ◌==◌, nat_Eq, string_Eq, int_Eq, bool_Eq, if◌then◌else◌}
use agent_remote_node.Ledger.Value.{Fields, go_number, flag, str, object, end, field}
use agent_remote_node.Worker.Json.{literal}
use agent_remote_node.Worker.StartRecord.{
  ManagedSessionStartResult, ManagedStartObservation, ManagedStartRecord, SkillSnapshotIdentity,
}

-- The JSON of the values, as `map[string]any` holds it: fields in the order of their keys, and
-- `omitempty` fields left out.
abbrev optional : String → String → Fields → Fields
optional key text rest = if text == "" then rest else field key (str text) rest

unfoldable pub encode_result : ManagedSessionStartResult → Fields
unfolding literal
encode_result r = optional "code" r.code (
    field "lease_attempt" (go_number (literal r.lease_attempt)) (
      optional "message" r.message (
        field "runtime_backend" (str r.runtime_backend) (
          field "runtime_resource_id" (str r.runtime_resource_id) (
            field "session_id" (str r.session_id) (
              field "skill_snapshot_id" (str r.snapshot_id) (
                optional "status" r.status (
                  field "task_record_id" (str r.task_record_id) (
                    optional "tmux_session_name" r.tmux_session_name (
                      field "tool_account_id" (str r.account_id)
                        (optional "tool_type" r.tool_type end)))))))))))

unfoldable pub encode_identity : SkillSnapshotIdentity → Fields
encode_identity b = field "account_id" (str b.account_id) (
    field "node_id" (str b.node_id) (
      field "runtime_backend" (str b.runtime_backend) (
        field "session_id" (str b.session_id) (
          field "snapshot_id" (str b.snapshot_id)
            (field "task_id" (str b.task_id) (field "user_id" (str b.user_id) end))))))

unfoldable pub encode_record : ManagedStartRecord → Fields
unfolding encode_result encode_identity literal
encode_record r = field "binding" (object (encode_identity r.binding)) (
    field "outcome" (object (encode_result r.outcome))
      (field "schema_version" (go_number (literal r.schema_version)) end))

unfoldable pub encode_observation : ManagedStartObservation → Fields
encode_observation o = field "accepted" (flag o.accepted) (
    field "current_lease_attempt" (go_number (literal o.current_lease_attempt)) (
      field "result" (object (encode_result o.result))
        (field "task_status" (str o.task_status) end)))
