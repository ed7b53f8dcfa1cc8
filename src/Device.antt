-- ===== src/Device.antt =====
-- internal/devicecontrol/activation.go: which generation of a device session this node has activated,
-- and the payloads of the control plane that change it.
pub mod Capabilities
pub mod Payload
pub mod Store
pub mod Generations
pub mod Outcomes
pub mod Trust
mod Examples
