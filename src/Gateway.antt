-- ===== src/Gateway.antt =====
-- crates/wiremesh-gateway: the state machines of a gateway.
pub mod Path
pub mod Backoff
pub mod Rotation
pub mod Overlap
pub mod Base64
pub mod EpochKeys
pub mod Tunnels
pub mod TunnelSet
pub mod Desired
pub mod RoleB
pub mod Reconcile
