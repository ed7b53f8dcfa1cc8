-- ===== src/Broker/Order.antt =====
-- Requests of a binding are sent in the order of their sequences.
use agent_remote_node.Prelude.{string_Eq, nat_Eq}
use agent_remote_node.Broker.State.{Broker}
