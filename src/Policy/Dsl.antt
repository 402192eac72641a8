-- ===== src/Policy/Dsl.antt =====
-- crates/wiremesh-policy/src/dsl.rs and lib.rs: the parsed policy, the segments, and the errors. The
-- YAML parser is serde's. An error's text is a constructor; its `(from→to)` is the block's.
use wire_mesh.Common.{ℕ, String, List, Option}

-- an `i64`, within its bounds
pub data ℤ : Type 0 where
  pos negsuc : ℕ → ℤ

pub data PortSpec : Type 0 where
  single : ℤ → PortSpec
  range : String → PortSpec

pub record RuleBody : Type 0 where
  pub src : List String
  pub dst : List String
  pub ports : List PortSpec
  pub proto : Option String

pub record RuleSrc : Type 0 where
  pub allow : Option RuleBody
  pub deny : Option RuleBody

pub record BlockSrc : Type 0 where
  pub from : String
  pub to : String
  pub rules : List RuleSrc

pub record PolicyDoc : Type 0 where
  pub policy : List BlockSrc

pub record SegmentDef (Net : Type 0) : Type 0 where
  pub name : String
  pub cidrs : List Net

pub data Field : Type 0 where
  on_src on_dst : Field

pub data Fault : Type 0 where
  unknown_segment empty_segment : Field → String → Fault
  duplicate_pair : ℕ → Fault
  no_action both_actions : Fault
  not_ipv4 invalid_cidr not_subset : Field → String → Fault
  bad_proto : Option String → Fault
  ports_need_proto port_zero : Fault
  port_out_of_range : ℤ → Fault
  inverted_range malformed_range : String → Fault
  too_many_rules : ℕ → Fault
  too_many_cidrs : Field → ℕ → Fault
  yaml_error : Fault

pub record CompileError : Type 0 where
  pub block : Option ℕ
  pub rule : Option ℕ
  pub msg : Fault
