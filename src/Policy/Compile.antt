-- ===== src/Policy/Compile.antt =====
-- crates/wiremesh-policy/src/compile.rs: from a validated policy to the policy IR, and the two limits
-- that are counted on the result. `expect` and `unreachable!` panic.
pub mod Success
pub mod Lowering
pub mod Sets
pub mod Admission
pub mod Installation
use wire_mesh.Policy.Limits.{limit_errors}
use wire_mesh.Policy.RuleId.{rule_id}
use wire_mesh.Common.{
  str_eq, str_eq, ℕ, zero, suc, ◌+◌, ◌-◌, ◌*◌, ◌/◌, ◌%◌, ◌^◌, ◌≤◌, ◌<◌, min, max, String, ◌≡◌, refl,
  sym, ap, ◌∙◌, subst, ◌≢◌, ◌↔◌, ◌⊎◌, inl, inr, Bool, true, false, not, ◌&&◌, ◌||◌, Option, none,
  some, List, [], ◌∷◌, ◌++◌, map, arith, ltb, leb, ◌==◌, if◌then◌else◌, is_some, leb→le, ==_iff,
  Bool-cases, Option-cases, length, is_empty, get_elem?, any_of, all_of, sum_of, In, here, there,
}
use wire_mesh.Policy.Dsl.{
  negsuc, range, on_dst, RuleBody, BlockSrc, too_many_cidrs, single, pos, on_src, RuleSrc, Field,
  Fault, ℤ, PortSpec, PolicyDoc, SegmentDef, CompileError,
}
use wire_mesh.Common.Result.{Result, ok, err, ◌>>=◌}
use wire_mesh.External.Ipnet.{Ipnet}
use wire_mesh.Policy.Ir.{
  IrAction, allow, deny, IrProto, tcp, udp, icmp, any, IrRule, IrBlock, PolicyIr,
}
use wire_mesh.Policy.Numbers.{codes, trim, split_once, parse_u16}
use wire_mesh.Policy.Validate.{find_segment}

pub data Failure : Type 0 where
  panicked : Failure
  errors : List CompileError → Failure

abbrev pub Compiled : Type 0 → Type 0
Compiled A = Result Failure A

-- the two ends, or a panic
abbrev pub ends : Option ℕ → Option ℕ → Compiled (ℕ × ℕ)
ends none hi = err panicked
ends (some lo) none = err panicked
ends (some lo) (some hi) = ok (lo, hi)

abbrev pub range_ends : Option (List ℕ × List ℕ) → Compiled (ℕ × ℕ)
range_ends none = err panicked
range_ends (some (lo, hi)) = ends (parse_u16 (trim lo)) (parse_u16 (trim hi))

-- `n as u16`
abbrev pub as_u16 : ℤ → ℕ
as_u16 (pos n) = n % 2 ^ 16
as_u16 (negsuc n) = 2 ^ 16 - 1 - n % 2 ^ 16

unfoldable pub normalize_port : PortSpec → Compiled (ℕ × ℕ)
normalize_port (single n) = ok (as_u16 n, as_u16 n)
normalize_port (range s) = range_ends (split_once (codes s))

unfoldable pub normalize_ports : List PortSpec → Compiled (List (ℕ × ℕ))
unfolding normalize_port
normalize_ports [] = ok []
normalize_ports (p ∷ ps) = do q ← normalize_port p; qs ← normalize_ports ps; ok (q ∷ qs)

unfoldable pub proto_of : Option String → Compiled IrProto
proto_of none = ok any
proto_of (some p) =
    if str_eq p "tcp"
    then ok tcp
    else if str_eq p "udp"
    then ok udp
    else if str_eq p "icmp"
    then ok icmp
    else if str_eq p "any"
    then ok any
    else err panicked

unfoldable pub action_of : RuleSrc → Compiled (IrAction × RuleBody)
action_of rule = elim rule.allow [
  | none ↦ elim rule.deny [ none ↦ err panicked | some body ↦ ok (deny, body) ]
  | some body ↦ elim rule.deny [ none ↦ ok (allow, body) | some other ↦ err panicked ]
]

abbrev pub unnamed : IrAction → IrProto → List String → List String → List (ℕ × ℕ) → IrRule
unnamed action proto src dst ports = record {
  rule_id = "";
  action = action;
  proto = proto;
  src = src;
  dst = dst;
  ports = ports;
}

module _ (ip : Ipnet) where
  open ip use {Net, addr, prefix_len, parse, to_string}

  -- `(c.addr(), c.prefix_len())`, in order
  unfoldable pub key_le : Net → Net → Bool
  key_le a b = ltb (addr a) (addr b) || (addr a == addr b && leb (prefix_len a) (prefix_len b))

  -- the stable `sort_by_key`
  unfoldable pub insert_sorted : Net → List Net → List Net
  unfolding key_le
  insert_sorted n [] = n ∷ []
  insert_sorted n (m ∷ ms) =
      let rest = insert_sorted n ms in if key_le n m then n ∷ m ∷ ms else m ∷ rest

  unfoldable pub sort_by_key : List Net → List Net
  unfolding insert_sorted
  sort_by_key [] = []
  sort_by_key (n ∷ ns) = insert_sorted n (sort_by_key ns)

  unfoldable pub sorted_cidr_strings : List Net → List String
  unfolding sort_by_key
  sorted_cidr_strings ns = map to_string (sort_by_key ns)

  abbrev pub normalized : Option Net → Compiled String
  normalized none = err panicked
  normalized (some n) = ok (to_string n)

  unfoldable pub normalized_cidr_strings : List String → Compiled (List String)
  normalized_cidr_strings [] = ok []
  normalized_cidr_strings (s ∷ raw) = do
    n ← normalized (parse s)
    rest ← normalized_cidr_strings raw
    ok (n ∷ rest)

  -- the segment, or a panic
  abbrev pub expect : {A : Type 0} → Option A → Compiled A
  expect none = err panicked
  expect (some a) = ok a

  -- SHA-256 of a text's UTF-8, as bytes
  module _ (sha256 : String → List ℕ) where
    -- `ir_rule.rule_id = rule_id(&block.from, &block.to, &ir_rule)`
    abbrev pub named : String → String → IrRule → IrRule
    named from to rule = record rule { rule_id = rule_id sha256 from to rule }

    unfoldable pub compile_rule : String → String → RuleSrc → Compiled IrRule
    unfolding action_of proto_of normalized_cidr_strings normalize_ports rule_id
    compile_rule from to rule = do
      chosen ← action_of rule
      proto ← proto_of chosen.1.proto
      src ← normalized_cidr_strings chosen.1.src
      dst ← normalized_cidr_strings chosen.1.dst
      ports ← normalize_ports chosen.1.ports
      ok (named from to (unnamed chosen.0 proto src dst ports))

    unfoldable pub compile_rules : String → String → List RuleSrc → Compiled (List IrRule)
    unfolding compile_rule
    compile_rules from to [] = ok []
    compile_rules from to (r ∷ rs) = do
      rule ← compile_rule from to r
      rest ← compile_rules from to rs
      ok (rule ∷ rest)

    unfoldable pub compile_block : List (SegmentDef Net) → BlockSrc → Compiled IrBlock
    unfolding find_segment sorted_cidr_strings compile_rules
    compile_block segments block = do
      from_seg ← expect (find_segment ip block.from segments)
      to_seg ← expect (find_segment ip block.to segments)
      rules ← compile_rules block.from block.to block.rules
      ok (record {
        from = block.from;
        to = block.to;
        src_cidrs = sorted_cidr_strings from_seg.cidrs;
        dst_cidrs = sorted_cidr_strings to_seg.cidrs;
        rules = rules;
      })

    unfoldable pub compile_blocks : List (SegmentDef Net) → List BlockSrc → Compiled (List IrBlock)
    unfolding compile_block
    compile_blocks segments [] = ok []
    compile_blocks segments (b ∷ bs) = do
      block ← compile_block segments b
      rest ← compile_blocks segments bs
      ok (block ∷ rest)

abbrev pub within_limits : ℕ → List IrBlock → List CompileError → Compiled PolicyIr
within_limits version blocks [] = ok (record { schema = 1; version = version; blocks = blocks })
within_limits version blocks (e ∷ es) = err (errors (e ∷ es))

unfoldable pub compile :
    (ip : Ipnet)
    → (String → List ℕ)
    → PolicyDoc
    → List (SegmentDef (Ipnet.Net ip))
    → ℕ
    → Compiled PolicyIr
unfolding compile_blocks limit_errors
compile ip sha256 doc segments version = do
  blocks ← compile_blocks ip sha256 segments doc.policy
  within_limits version blocks (limit_errors blocks)
