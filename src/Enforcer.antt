-- ===== src/Enforcer.antt =====
-- crates/wiremesh-enforcer and crates/wiremesh-enforcer-ebpf: from the policy IR to the verdict on a
-- packet.
pub mod RuleBits
pub mod Iface
pub mod Flatten
pub mod Maps
pub mod Scan
pub mod Tables
pub mod Verdict
pub mod Flow
pub mod Packet
pub mod Classifier
pub mod Generation
