-- ===== src/Enforcer/Flatten.antt =====
-- crates/wiremesh-enforcer/src/flatten.rs: the front half that both enforcer backends share.
pub mod Distinct
pub mod Observe
pub mod Shape
pub mod Capacity
use wire_mesh.Common.{
  ℕ, zero, suc, ◌+◌, max, String, ◌≡◌, Bool, true, false, Option, none, some, List, [], ◌∷◌, ◌++◌,
  ltb, if◌then◌else◌, length, is_empty, sum_of,
}
use wire_mesh.Common.Result.{Result, ok, err, guard, ◌>>=◌, ◌>>◌}
use wire_mesh.External.Ipnet.{Ipnet}
use wire_mesh.Policy.Ir.{IrAction, IrProto, IrRule, IrBlock, PolicyIr}
use wire_mesh.Enforcer.RuleBits.{max_rules}
use Distinct.{DistinctSideCidrs, lpm_max_entries, default, observe, over_capacity}

pub data Side : Type 0 where
  src dst : Side

-- the errors of `flatten` and of the capacity check
pub data FlattenError : Type 0 where
  too_many_rules : ℕ → FlattenError
  invalid_cidr : String → FlattenError
  no_cidrs : String → String → String → Side → FlattenError
  lpm_capacity : Side → ℕ → FlattenError

pub record FlatRule (Net : Type 0) : Type 0 where
  pub idx : ℕ
  pub rule_id : String
  pub action : IrAction
  pub proto : IrProto
  pub src_cidrs : List Net
  pub dst_cidrs : List Net
  pub port_lo : ℕ
  pub port_hi : ℕ

-- `r.ports.len().max(1)` summed over every rule of every block
unfoldable pub expansion : IrRule → ℕ
expansion r = max (length r.ports) 1

unfoldable pub expanded : List IrBlock → ℕ
unfolding expansion
expanded blocks = sum_of (λ b. sum_of expansion b.rules) blocks

module _ {Net : Type 0} where
  -- the `for (i, f) in flat.iter_mut().enumerate()` that fixes up `idx`
  unfoldable pub reindex : ℕ → List (FlatRule Net) → List (FlatRule Net)
  reindex i [] = []
  reindex i (f ∷ fs) = record f { idx = i } ∷ reindex (suc i) fs

  -- one `FlatRule` for each port range, or one for any port
  unfoldable pub explode : IrRule → List Net → List Net → List (ℕ × ℕ) → List (FlatRule Net)
  explode r s d [] = []
  explode r s d ((lo, hi) ∷ ps) =
      record {
        idx = 0;
        rule_id = r.rule_id;
        action = r.action;
        proto = r.proto;
        src_cidrs = s;
        dst_cidrs = d;
        port_lo = lo;
        port_hi = hi;
      }
      ∷ explode r s d ps

  unfoldable pub push_rule : IrRule → List Net → List Net → List (FlatRule Net)
  unfolding explode
  push_rule r s d = if is_empty r.ports then explode r s d ((0, 0) ∷ []) else explode r s d r.ports

-- the locals of the loop
pub record Progress (Net : Type 0) : Type 0 where
  pub flat : List (FlatRule Net)
  pub src_distinct : DistinctSideCidrs Net
  pub dst_distinct : DistinctSideCidrs Net

module _ (ip : Ipnet) where
  open ip use {Net, net_eq, parse}

  parsed : String → Option Net → Result FlattenError Net
  parsed s none = err (invalid_cidr s)
  parsed s (some n) = ok n

  unfoldable pub parse_cidrs : List String → Result FlattenError (List Net)
  unfolding parsed
  parse_cidrs [] = ok []
  parse_cidrs (s ∷ raw) = do n ← parsed s (parse s); rest ← parse_cidrs raw; ok (n ∷ rest)

  -- `DistinctSideCidrs::check`
  unfoldable pub check_side : Side → DistinctSideCidrs Net → Result FlattenError (Unit {0})
  check_side side d = if over_capacity d then err (lpm_capacity side (length d.order)) else ok tt

  -- the guard on an effective side without CIDRs
  unfoldable pub check_some : FlattenError → List Net → Result FlattenError (Unit {0})
  check_some e cidrs = if is_empty cidrs then err e else ok tt

  -- a side of a rule, or the block's where the rule has none
  unfoldable pub effective : List Net → List String → Result FlattenError (List Net)
  effective block_side own = if is_empty own then ok block_side else parse_cidrs own

  unfoldable pub flatten_rule :
      IrBlock → List Net → List Net → Progress Net → IrRule → Result FlattenError (Progress Net)
  flatten_rule block block_src block_dst p rule = do
    s ← effective block_src rule.src
    d ← effective block_dst rule.dst
    check_some (no_cidrs block.from block.to rule.rule_id src) s
    check_some (no_cidrs block.from block.to rule.rule_id dst) d
    let sd = observe net_eq p.src_distinct s
    check_side src sd
    let dd = observe net_eq p.dst_distinct d
    check_side dst dd
    ok (record { flat = p.flat ++ push_rule rule s d; src_distinct = sd; dst_distinct = dd })

  unfoldable pub flatten_rules :
      IrBlock
      → List Net
      → List Net
      → Progress Net
      → List IrRule
      → Result FlattenError (Progress Net)
  flatten_rules block bs bd p [] = ok p
  flatten_rules block bs bd p (r ∷ rs) = do
    q ← flatten_rule block bs bd p r
    flatten_rules block bs bd q rs

  unfoldable pub flatten_blocks : Progress Net → List IrBlock → Result FlattenError (Progress Net)
  flatten_blocks p [] = ok p
  flatten_blocks p (b ∷ bs) = do
    s ← parse_cidrs b.src_cidrs
    d ← parse_cidrs b.dst_cidrs
    q ← flatten_rules b s d p b.rules
    flatten_blocks q bs

  abbrev pub start : Progress Net
  start = record { flat = []; src_distinct = default; dst_distinct = default }

  unfoldable pub flatten : PolicyIr → Result FlattenError (List (FlatRule Net))
  flatten ir =
      if ltb max_rules (expanded ir.blocks)
      then err (too_many_rules (expanded ir.blocks))
      else (do p ← flatten_blocks start ir.blocks; ok (reindex 0 p.flat))
