-- ===== src/Worker/StartDecode.antt =====
-- Reading a record of the journal of managed startups back: the `UnmarshalJSON` methods of
-- internal/api/skill_start_result.go and skill_start_observation.go, and `decodeManagedStartEntry` of
-- internal/worker/start_journal.go.
use agent_remote_node.Prelude.{
  String, Bool, true, false, not, ◌&&◌, ◌||◌, Option, none, some, List, [], ◌∷◌, ◌++◌, ◌==◌,
  string_Eq, if◌then◌else◌, any, is_some,
}
use agent_remote_node.Ledger.Value.{Value, Fields, null, end, Entry, marshalable_map, normal_map}
use agent_remote_node.Worker.Json.{get_field, exact_fields, text_of, int_of, flag_of, fields_of}
use agent_remote_node.Worker.StartRecord.{
  SkillSnapshotIdentity, ManagedSessionStartResult, ManagedStartObservation, ManagedStartRecord,
  valid_start_record, cancelled_start,
}

infixl 5 ◌>>=◌ ◌>>◌
abbrev pub ◌>>=◌ : {A B : Type 0} → Option A → (A → Option B) → Option B
none >>= f = none
some a >>= f = f a

abbrev pub ◌>>◌ : {B : Type 0} → Option (Unit {0}) → Option B → Option B
m >> rest = m >>= λ _. rest

abbrev pub require : Bool → Option (Unit {0})
require true = some tt
require false = none

abbrev is_null : Option Value → Bool
is_null (some null) = true
is_null _ = false

-- Every name is there, nothing else is, and nothing is null.
abbrev pub complete : List String → Fields → Bool
complete names fs = exact_fields names fs && not (any (λ name. is_null (get_field name fs)) names)

abbrev common_names : List String
common_names =
    "session_id"
    ∷ ("tool_account_id"
        ∷ ("runtime_backend"
            ∷ ("runtime_resource_id"
                ∷ ("skill_snapshot_id" ∷ ("task_record_id" ∷ ("lease_attempt" ∷ []))))))

abbrev result_names : Fields → List String
result_names fs =
    common_names
    ++ (if is_some (get_field "status" fs)
        then "status" ∷ ("tool_type" ∷ ("tmux_session_name" ∷ []))
        else "code" ∷ ("message" ∷ []))

-- `ManagedSessionStartResult.UnmarshalJSON`
unfoldable pub decode_result : Fields → Option ManagedSessionStartResult
unfolding get_field exact_fields text_of int_of
decode_result fs = do
  require (complete (result_names fs) fs)
  session ← text_of (get_field "session_id" fs)
  account ← text_of (get_field "tool_account_id" fs)
  backend ← text_of (get_field "runtime_backend" fs)
  resource ← text_of (get_field "runtime_resource_id" fs)
  snapshot ← text_of (get_field "skill_snapshot_id" fs)
  task ← text_of (get_field "task_record_id" fs)
  attempt ← int_of (get_field "lease_attempt" fs)
  status ← text_of (get_field "status" fs)
  tool ← text_of (get_field "tool_type" fs)
  tmux ← text_of (get_field "tmux_session_name" fs)
  code ← text_of (get_field "code" fs)
  message ← text_of (get_field "message" fs)
  some (record {
    session_id = session;
    account_id = account;
    runtime_backend = backend;
    runtime_resource_id = resource;
    snapshot_id = snapshot;
    task_record_id = task;
    lease_attempt = attempt;
    status = status;
    tool_type = tool;
    tmux_session_name = tmux;
    code = code;
    message = message;
  })

abbrev identity_names : List String
identity_names =
    "snapshot_id"
    ∷ ("task_id"
        ∷ ("node_id" ∷ ("user_id" ∷ ("account_id" ∷ ("session_id" ∷ ("runtime_backend" ∷ []))))))

-- The binding: its fields are counted, and then read.
unfoldable pub decode_identity : Fields → Option SkillSnapshotIdentity
unfolding get_field exact_fields text_of
decode_identity fs = do
  require (exact_fields identity_names fs)
  snapshot ← text_of (get_field "snapshot_id" fs)
  task ← text_of (get_field "task_id" fs)
  node ← text_of (get_field "node_id" fs)
  user ← text_of (get_field "user_id" fs)
  account ← text_of (get_field "account_id" fs)
  session ← text_of (get_field "session_id" fs)
  backend ← text_of (get_field "runtime_backend" fs)
  some (record {
    snapshot_id = snapshot;
    task_id = task;
    node_id = node;
    user_id = user;
    account_id = account;
    session_id = session;
    runtime_backend = backend;
  })

abbrev observation_names : List String
observation_names = "result" ∷ ("accepted" ∷ ("current_lease_attempt" ∷ ("task_status" ∷ [])))

-- `ManagedStartObservation.UnmarshalJSON`
unfoldable pub decode_observation : Fields → Option ManagedStartObservation
unfolding get_field exact_fields text_of int_of flag_of fields_of
decode_observation fs = do
  require (complete observation_names fs)
  inner ← fields_of (get_field "result" fs)
  result ← decode_result inner
  accepted ← flag_of (get_field "accepted" fs)
  attempt ← int_of (get_field "current_lease_attempt" fs)
  status ← text_of (get_field "task_status" fs)
  some (record {
    result = result;
    accepted = accepted;
    current_lease_attempt = attempt;
    task_status = status;
  })

unfoldable pub decode_record : Fields → Option ManagedStartRecord
unfolding get_field int_of fields_of decode_identity decode_result
decode_record fs = do
  bound ← fields_of (get_field "binding" fs)
  binding ← decode_identity bound
  inner ← fields_of (get_field "outcome" fs)
  outcome ← decode_result inner
  version ← int_of (get_field "schema_version" fs)
  some (record { schema_version = version; binding = binding; outcome = outcome })

-- The three states of a startup, by the status of its entry.
pub data StartPhase : Type 0 where
  pending confirmed : StartPhase
  retired : ManagedStartObservation → StartPhase

abbrev pub pending_status : String
pending_status = "managed_start_pending"

abbrev pub confirmed_status : String
confirmed_status = "managed_start_confirmed"

abbrev pub retired_status : String
retired_status = "managed_start_retired"

-- `managedStartEntry`
pub record ManagedStartEntry : Type 0 where
  pub entry : Entry
  pub content : ManagedStartRecord
  pub phase : StartPhase

abbrev plain_names : List String
plain_names = "schema_version" ∷ ("binding" ∷ ("outcome" ∷ []))

abbrev retired_names : List String
retired_names = "schema_version" ∷ ("binding" ∷ ("outcome" ∷ ("retirement" ∷ [])))

abbrev pub data_of : Option Fields → Fields
data_of none = end
data_of (some fs) = fs

module _ (hash : String → String) where
  -- The record of an entry that has no retirement.
  unfoldable pub decode_plain : String → Fields → Option ManagedStartRecord
  unfolding decode_record exact_fields valid_start_record
  decode_plain task fs = do
    require (exact_fields plain_names fs)
    content ← decode_record fs
    require (valid_start_record hash content task)
    some content

  -- The record of a retired entry, and its evidence.
  unfoldable pub decode_retired :
      String → Fields → Option (ManagedStartRecord × ManagedStartObservation)
  unfolding decode_record exact_fields valid_start_record get_field fields_of decode_observation
      cancelled_start
  decode_retired task fs = do
    require (exact_fields retired_names fs)
    content ← decode_record fs
    require (valid_start_record hash content task)
    inner ← fields_of (get_field "retirement" fs)
    evidence ← decode_observation inner
    require (cancelled_start content.outcome evidence)
    some (content, evidence)

  unfoldable pub decode_by_status : Entry → Fields → Option ManagedStartEntry
  unfolding decode_plain decode_retired
  decode_by_status e fs =
      if e.status == pending_status
      then (do
        content ← decode_plain e.task_id fs
        some (record { entry = e; content = content; phase = pending }))
      else if e.status == confirmed_status
      then (do
        content ← decode_plain e.task_id fs
        some (record { entry = e; content = content; phase = confirmed }))
      else if e.status == retired_status
      then (do
        both ← decode_retired e.task_id fs
        some (record { entry = e; content = both.0; phase = retired both.1 }))
      else none

  -- `decodeManagedStartEntry`; `none` is an error.
  unfoldable pub decode_start_entry : Entry → Option ManagedStartEntry
  unfolding decode_by_status
  decode_start_entry e =
      if is_some e.error || not (marshalable_map e.result)
      then none
      else decode_by_status e (data_of (normal_map e.result))
