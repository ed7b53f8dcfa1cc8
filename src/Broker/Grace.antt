-- ===== src/Broker/Grace.antt =====
-- Failed renewals do not move the deadline that the first of them set.
use agent_remote_node.Prelude.{ℕ, String, ◌≡◌, true, false, some, if◌then◌else◌, string_Eq, leb}
use agent_remote_node.Prelude.Map.{get}
use agent_remote_node.Broker.Binding.{at}
use agent_remote_node.Broker.State.{Broker, BindingState, adjusted}
use agent_remote_node.Broker.Bindings.{Handle, in_grace}

-- A binding in grace until `t`, and not ended.
pub record InGrace (id : String) (t : ℕ) (b : Broker) (s : BindingState) : Type 0 where
  pub found : get b.bindings id ≡ some s
  pub live : s.terminal ≡ false
  pub active : s.metadata.status ≡ "active"
  pub health : s.metadata.lease_health ≡ "renewal_grace"
  pub deadline : s.metadata.lease_grace_until ≡ some (at t)

abbrev in_grace_at : ℕ → Handle → Broker → Broker
in_grace_at now h b = record b { bindings = adjusted (in_grace now b.cfg) h.binding_id b.bindings }

-- What a failed renewal leaves of a binding in grace until `t`.
abbrev pub LeftByFailure : ℕ → ℕ → BindingState → Type 0
LeftByFailure now t c =
    if leb t now
    then (c.terminal ≡ true) × (c.metadata.status ≡ "expired")
    else (c.terminal ≡ false) × (c.metadata.lease_grace_until ≡ some (at t))
