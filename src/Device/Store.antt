-- ===== src/Device/Store.antt =====
-- internal/devicecontrol/activation.go: `Activate` and `Deactivate` over the files below the managed
-- root, one for each device session.
use agent_remote_node.Prelude.{
  String, Bool, true, false, ◌&&◌, Option, none, some, List, [], ◌∷◌, Outcome, ok, err, refuse_if,
  ◌==◌, string_Eq, nat_Eq, ltb, if◌then◌else◌,
}
use agent_remote_node.Prelude.Map.{Map, get, put, remove}
use agent_remote_node.Device.Payload.{
  ActivatePayload, DeactivatePayload, DeviceError, activate_Eq, bad_root, unsafe_root, bad_manifest,
  stale_generation, changed_binding, wrong_tool, io_error,
}

-- What `loadManifest` makes of a file that is there: `broken` if it cannot be opened, is not safe, is
-- too large or is no JSON object of the fields.
pub data Manifest : Type 0 where
  broken : Manifest
  holding : ActivatePayload → Manifest

-- The files by the device session that they are named after.
abbrev pub Manifests : Type 0
Manifests = Map String Manifest

-- What `prepareRoot` finds at the root, with the outcome of `MkdirAll` where nothing is there.
pub data Root : Type 0 where
  relative unsafe unreadable ready : Root
  missing : Bool → Root

-- `prepareRoot`
unfoldable pub prepare_root : Root → Outcome DeviceError (Unit {0})
prepare_root relative = err bad_root
prepare_root unsafe = err unsafe_root
prepare_root unreadable = err io_error
prepare_root ready = ok tt
prepare_root (missing made) = if made then ok tt else err io_error

-- The outcomes of the system calls that write a manifest, `true` for success.
pub record WriteCalls : Type 0 where
  pub create : Bool
  pub chmod : Bool
  pub write : Bool
  pub sync : Bool
  pub close : Bool
  pub rename : Bool

abbrev pub written : WriteCalls → Bool
written c = c.create && (c.chmod && (c.write && (c.sync && (c.close && c.rename))))

-- The state after a call, with what the call returns.
abbrev pub After : Type 0 → Type 0
After A = Manifests × Outcome DeviceError A

-- Whether the manifest of a payload is small enough to be read back.
module _ (fits : ActivatePayload → Bool) where
  -- The file that a payload is written to, as it will be read.
  unfoldable pub stored : ActivatePayload → Manifest
  stored p = if fits p then holding p else broken

  unfoldable pub replace : WriteCalls → ActivatePayload → Manifests → After (Unit {0})
  unfolding stored
  replace c p m =
      if written c then (put m p.device_session_id (stored p), ok tt) else (m, err io_error)

  -- `Activate` once the current manifest has been loaded.
  unfoldable pub activate_over :
      WriteCalls → ActivatePayload → Manifests → Option Manifest → After (Unit {0})
  unfolding replace
  activate_over c p m none = replace c p m
  activate_over c p m (some broken) = (m, err bad_manifest)
  activate_over c p m (some (holding q)) =
      if ltb p.generation q.generation
      then (m, err stale_generation)
      else if q.generation == p.generation
      then (m, refuse_if (if q == p then false else true) changed_binding)
      else replace c p m

  unfoldable pub activate_in :
      Outcome DeviceError (Unit {0}) → WriteCalls → ActivatePayload → Manifests → After (Unit {0})
  unfolding activate_over
  activate_in (err x) c p m = (m, err x)
  activate_in (ok _) c p m = activate_over c p m (get m p.device_session_id)

  -- `Activate`
  unfoldable pub activate : Root → WriteCalls → ActivatePayload → Manifests → After (Unit {0})
  unfolding activate_in prepare_root
  activate root c p m = activate_in (prepare_root root) c p m

-- `Deactivate` once the current manifest has been loaded; `removed` is the outcome of `os.Remove`.
unfoldable pub deactivate_over : Bool → DeactivatePayload → Manifests → Option Manifest → After Bool
deactivate_over removed d m none = (m, ok false)
deactivate_over removed d m (some broken) = (m, err bad_manifest)
deactivate_over removed d m (some (holding q)) =
    if q.tool_session_id == d.tool_session_id
    then if ltb d.generation q.generation
      then (m, ok false)
      else if removed
      then (remove m d.device_session_id, ok true)
      else (m, err io_error)
    else (m, err wrong_tool)

unfoldable pub deactivate_in :
    Outcome DeviceError (Unit {0}) → Bool → DeactivatePayload → Manifests → After Bool
unfolding deactivate_over
deactivate_in (err x) removed d m = (m, err x)
deactivate_in (ok _) removed d m = deactivate_over removed d m (get m d.device_session_id)

-- `Deactivate`
unfoldable pub deactivate : Root → Bool → DeactivatePayload → Manifests → After Bool
unfolding deactivate_in prepare_root
deactivate root removed d m = deactivate_in (prepare_root root) removed d m

-- One call of the component, with the outcomes of its system calls.
pub data DeviceCall : Type 0 where
  activates : Root → WriteCalls → ActivatePayload → DeviceCall
  deactivates : Root → Bool → DeactivatePayload → DeviceCall

unfoldable pub device_call : (ActivatePayload → Bool) → DeviceCall → Manifests → Manifests
unfolding activate deactivate
device_call fits (activates root c p) m = (activate fits root c p m).0
device_call fits (deactivates root removed d) m = (deactivate root removed d m).0

unfoldable pub device_calls : (ActivatePayload → Bool) → List DeviceCall → Manifests → Manifests
unfolding device_call
device_calls fits [] m = m
device_calls fits (c ∷ rest) m = device_calls fits rest (device_call fits c m)
