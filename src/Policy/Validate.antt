-- ===== src/Policy/Validate.antt =====
-- crates/wiremesh-policy/src/validate.rs: every error of a policy, in source order. The vector that
-- the code pushes to is returned, each part of a check appended to those before it.
use wire_mesh.Policy.Dsl.{
  not_subset, ports_need_proto, both_actions, port_out_of_range, negsuc, on_dst, range,
  invalid_cidr, empty_segment, pos, RuleSrc, single, BlockSrc, port_zero, on_src, not_ipv4,
  bad_proto, unknown_segment, no_action, duplicate_pair, malformed_range, inverted_range, RuleBody,
  ℤ, PolicyDoc, Fault, Field, CompileError, PortSpec, SegmentDef,
}
use wire_mesh.Common.{
  str_eq, str_eq, ℕ, suc, String, Bool, true, false, not, ◌&&◌, ◌||◌, Option, none, some, List, [],
  ◌∷◌, ◌++◌, ltb, leb, ◌==◌, if◌then◌else◌, is_empty, any_of,
}
use wire_mesh.External.Ipnet.{Ipnet}
use wire_mesh.Policy.Numbers.{codes, trim, split_once, parse_i64}

unfoldable pub at_block : ℕ → Fault → CompileError
at_block b f = record { block = some b; rule = none; msg = f }

unfoldable pub at_rule : ℕ → ℕ → Fault → CompileError
at_rule b r f = record { block = some b; rule = some r; msg = f }

abbrev pub both : Option ℤ → Option ℤ → Option (ℤ × ℤ)
both none hi = none
both (some lo) none = none
both (some lo) (some hi) = some (lo, hi)

abbrev pub range_of : Option (List ℕ × List ℕ) → Option (ℤ × ℤ)
range_of none = none
range_of (some (lo, hi)) = both (parse_i64 (trim lo)) (parse_i64 (trim hi))

unfoldable pub parse_range : String → Option (ℤ × ℤ)
parse_range s = range_of (split_once (codes s))

-- `(1..=65535).contains(&n)`
abbrev pub in_port_range : ℤ → Bool
in_port_range (pos n) = leb 1 n && leb n 65535
in_port_range (negsuc n) = false

abbrev pub is_zero : ℤ → Bool
is_zero (pos n) = n == 0
is_zero (negsuc n) = false

-- `lo > hi`
abbrev pub above : ℤ → ℤ → Bool
above (pos a) (pos b) = ltb b a
above (pos a) (negsuc b) = true
above (negsuc a) (pos b) = false
above (negsuc a) (negsuc b) = ltb a b

-- the errors, and whether there are none
unfoldable pub check_port_value : ℕ → ℕ → ℤ → List CompileError × Bool
check_port_value b r n =
    if is_zero n
    then (at_rule b r port_zero ∷ [], false)
    else if not (in_port_range n)
    then (at_rule b r (port_out_of_range n) ∷ [], false)
    else ([], true)

abbrev pub inverted : ℕ → ℕ → String → ℤ → ℤ → List CompileError
inverted b r s lo hi = if above lo hi then at_rule b r (inverted_range s) ∷ [] else []

abbrev pub check_high : ℕ → ℕ → String → ℤ → ℤ → List CompileError × Bool → List CompileError
check_high b r s lo hi (errors, fine) = errors ++ (if fine then inverted b r s lo hi else [])

abbrev pub check_low : ℕ → ℕ → String → ℤ → ℤ → List CompileError × Bool → List CompileError
check_low b r s lo hi (errors, fine) =
    errors ++ (if fine then check_high b r s lo hi (check_port_value b r hi) else [])

abbrev pub check_range : ℕ → ℕ → String → Option (ℤ × ℤ) → List CompileError
check_range b r s none = at_rule b r (malformed_range s) ∷ []
check_range b r s (some (lo, hi)) = check_low b r s lo hi (check_port_value b r lo)

unfoldable pub validate_port : ℕ → ℕ → PortSpec → List CompileError
unfolding check_port_value parse_range
validate_port b r (single n) = (check_port_value b r n).0
validate_port b r (range s) = check_range b r s (parse_range s)

unfoldable pub each_port : ℕ → ℕ → List PortSpec → List CompileError
unfolding validate_port
each_port b r [] = []
each_port b r (p ∷ ps) = validate_port b r p ++ each_port b r ps

unfoldable pub valid_proto : Option String → Bool
valid_proto none = true
valid_proto (some p) = str_eq p "tcp" || str_eq p "udp" || str_eq p "icmp"

unfoldable pub has_ports : Option String → Bool
has_ports none = false
has_ports (some p) = str_eq p "tcp" || str_eq p "udp"

unfoldable pub validate_ports : ℕ → ℕ → RuleBody → List CompileError
unfolding each_port valid_proto has_ports
validate_ports b r body =
    if not (valid_proto body.proto)
    then at_rule b r (bad_proto body.proto) ∷ []
    else if is_empty body.ports
    then []
    else if not (has_ports body.proto)
    then at_rule b r ports_need_proto ∷ []
    else each_port b r body.ports

module _ (ip : Ipnet) where
  open ip use {Net, contains, parse, parses_v6}

  -- `segments.iter().find(|s| s.name == name)`
  unfoldable pub find_segment : String → List (SegmentDef Net) → Option (SegmentDef Net)
  find_segment name [] = none
  find_segment name (s ∷ ss) = if str_eq s.name name then some s else find_segment name ss

  -- a CIDR lies in the segment, if the segment is known
  abbrev pub within : Option (SegmentDef Net) → Net → Bool
  within none v4 = true
  within (some seg) v4 = any_of (λ c. contains c v4) seg.cidrs

  abbrev pub cidr_errors :
      ℕ → ℕ → Field → Option (SegmentDef Net) → String → Option Net → List CompileError
  cidr_errors b r field seg raw none =
      at_rule b r (if parses_v6 raw then not_ipv4 field raw else invalid_cidr field raw) ∷ []
  cidr_errors b r field seg raw (some v4) =
      if within seg v4 then [] else at_rule b r (not_subset field raw) ∷ []

  unfoldable pub validate_cidrs :
      ℕ → ℕ → Field → List String → Option (SegmentDef Net) → List CompileError
  validate_cidrs b r field [] seg = []
  validate_cidrs b r field (raw ∷ raws) seg =
      cidr_errors b r field seg raw (parse raw) ++ validate_cidrs b r field raws seg

  unfoldable pub validate_body :
      ℕ → ℕ → Option (SegmentDef Net) → Option (SegmentDef Net) → RuleBody → List CompileError
  unfolding validate_cidrs validate_ports
  validate_body b r from_seg to_seg body =
      validate_cidrs b r on_src body.src from_seg
      ++ (validate_cidrs b r on_dst body.dst to_seg ++ validate_ports b r body)

  abbrev pub validate_actions :
      ℕ
      → ℕ
      → Option (SegmentDef Net)
      → Option (SegmentDef Net)
      → Option RuleBody
      → Option RuleBody
      → List CompileError
  validate_actions b r from_seg to_seg none none = at_rule b r no_action ∷ []
  validate_actions b r from_seg to_seg (some allow) (some deny) = at_rule b r both_actions ∷ []
  validate_actions b r from_seg to_seg (some body) none = validate_body b r from_seg to_seg body
  validate_actions b r from_seg to_seg none (some body) = validate_body b r from_seg to_seg body

  unfoldable pub validate_rule :
      ℕ → ℕ → Option (SegmentDef Net) → Option (SegmentDef Net) → RuleSrc → List CompileError
  unfolding validate_body
  validate_rule b r from_seg to_seg rule = validate_actions b r from_seg to_seg rule.allow rule.deny

  unfoldable pub validate_rules :
      ℕ → ℕ → Option (SegmentDef Net) → Option (SegmentDef Net) → List RuleSrc → List CompileError
  unfolding validate_rule
  validate_rules b r from_seg to_seg [] = []
  validate_rules b r from_seg to_seg (rule ∷ rules) =
      validate_rule b r from_seg to_seg rule ++ validate_rules b (suc r) from_seg to_seg rules

  abbrev pub segment_errors : ℕ → Field → String → Option (SegmentDef Net) → List CompileError
  segment_errors b field name none = at_block b (unknown_segment field name) ∷ []
  segment_errors b field name (some seg) =
      if is_empty seg.cidrs then at_block b (empty_segment field name) ∷ [] else []

  -- the `HashMap` from a pair to the block where it was first seen
  abbrev pub Seen : Type 0
  Seen = List ((String × String) × ℕ)

  unfoldable pub seen_at : String → String → Seen → Option ℕ
  seen_at from to [] = none
  seen_at from to (((f, t), i) ∷ seen) =
      let rest = seen_at from to seen in if str_eq f from && str_eq t to then some i else rest

  abbrev pub pair_errors : ℕ → Option ℕ → List CompileError
  pair_errors b none = []
  pair_errors b (some original) = at_block b (duplicate_pair original) ∷ []

  abbrev pub remember : ℕ → String → String → Option ℕ → Seen → Seen
  remember b from to none seen = ((from, to), b) ∷ seen
  remember b from to (some original) seen = seen

  unfoldable pub validate_block : ℕ → List (SegmentDef Net) → Seen → BlockSrc → List CompileError
  unfolding find_segment seen_at validate_rules
  validate_block b segments seen block =
      let from_seg = find_segment block.from segments in
      let to_seg = find_segment block.to segments in
      segment_errors b on_src block.from from_seg
      ++ (segment_errors b on_dst block.to to_seg
          ++ (pair_errors b (seen_at block.from block.to seen)
              ++ validate_rules b 0 from_seg to_seg block.rules))

  unfoldable pub validate_blocks :
      ℕ → List (SegmentDef Net) → Seen → List BlockSrc → List CompileError
  unfolding validate_block
  validate_blocks b segments seen [] = []
  validate_blocks b segments seen (block ∷ blocks) =
      validate_block b segments seen block
      ++ validate_blocks (suc b) segments
          (remember b block.from block.to (seen_at block.from block.to seen) seen) blocks

  unfoldable pub validate : PolicyDoc → List (SegmentDef Net) → List CompileError
  unfolding validate_blocks
  validate doc segments = validate_blocks 0 segments [] doc.policy
