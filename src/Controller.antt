-- ===== src/Controller.antt =====
-- crates/wiremesh-controller: the decisions of the controller.
pub mod Rotation
pub mod Broker
pub mod Streams
