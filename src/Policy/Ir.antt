-- ===== src/Policy/Ir.antt =====
-- crates/wiremesh-policy/src/ir.rs: the compiled policy.
use wire_mesh.Common.{ℕ, String, List}

pub data IrAction : Type 0 where
  allow deny : IrAction

pub data IrProto : Type 0 where
  tcp udp icmp any : IrProto

pub record IrRule : Type 0 where
  pub rule_id : String
  pub action : IrAction
  pub proto : IrProto
  pub src : List String
  pub dst : List String
  pub ports : List (ℕ × ℕ)

pub record IrBlock : Type 0 where
  pub from : String
  pub to : String
  pub src_cidrs : List String
  pub dst_cidrs : List String
  pub rules : List IrRule

pub record PolicyIr : Type 0 where
  pub schema : ℕ
  pub version : ℕ
  pub blocks : List IrBlock
