-- ===== src/Device/Generations.antt =====
-- internal/devicecontrol/activation.go: a device session never goes back to an older generation, and
-- what the two operations leave behind on every path.
use Prim.Native.Nat.{ℕ, ◌≤◌, ◌<◌}
use agent_remote_node.Prelude.{String, Option, none, some, nat_Eq, ◌≡◌}
use agent_remote_node.Device.Payload.{ActivatePayload, activate_Eq}
use agent_remote_node.Device.Store.{Manifest, broken, holding, DeviceCall, activates, deactivates}

-- What is stored for a session is no older than `p`, and is `p` itself within its generation. A file
-- that cannot be read blocks every activation.
abbrev pub NotOlder : ActivatePayload → Option Manifest → Type 0
NotOlder p none = ⊥
NotOlder p (some broken) = Unit
NotOlder p (some (holding q)) =
    (p.generation ≤ q.generation) × (p.generation ≡ q.generation → q ≡ p)

-- The call does not deactivate the session at the generation or a later one.
abbrev pub Spares : String → ℕ → DeviceCall → Type 0
Spares k g (activates root c p) = Unit
Spares k g (deactivates root removed d) = d.device_session_id ≡ k → d.generation < g
