-- ===== src/Tests/Policies.antt =====
-- Concrete policies, validated, compiled and installed.
use wire_mesh.Policy.Compile.Installation.{install-compile}
use wire_mesh.Policy.Numbers.{
  split_once, parse_i64, parse_u16, trim, trim_end, trim_start, is_whitespace,
}
use wire_mesh.Enforcer.Tables.{build_rules, build_lpm_entries, install_generation}
use wire_mesh.Enforcer.RuleBits.{RuleBits}
use wire_mesh.Policy.Parse.{parse_policy, compile-parse_policy}
use wire_mesh.Enforcer.Maps.{Write}
use wire_mesh.Policy.Compile.Admission.{compile-IsRange}
use wire_mesh.Policy.Validate.{at_rule, at_block, validate}
use wire_mesh.Policy.Compile.{panicked, compile}
use wire_mesh.Enforcer.Flatten.{dst, src, flatten, FlatRule}
use wire_mesh.Policy.Ir.{tcp, allow, IrRule, IrBlock, PolicyIr}
use wire_mesh.Policy.Dsl.{
  duplicate_pair, no_action, port_out_of_range, malformed_range, inverted_range, port_zero, on_src,
  not_subset, on_dst, unknown_segment, negsuc, range, pos, single, PolicyDoc, SegmentDef, RuleBody,
}
use wire_mesh.Policy.Compile.Success.{IsRange}
use wire_mesh.Common.{
  str_eq, if◌then◌else◌, Option, ℕ, String, ◌≡◌, refl, ◌≢◌, none, some, List, [], ◌∷◌, length, here,
  there,
}
use wire_mesh.Common.Result.{ok, err}
use wire_mesh.Tests.Concrete.{ListTrie, text_network, text_prefix, text_nets, list_trie}

abbrev fake_sha256 : String → List ℕ
fake_sha256 s = 202 ∷ 254 ∷ 0 ∷ 1 ∷ 2 ∷ 3 ∷ 4 ∷ 5 ∷ 6 ∷ []

abbrev segment_table : List (SegmentDef String)
segment_table =
    record { name = "lab"; cidrs = "10.1.0.0/16" ∷ [] }
    ∷ record { name = "prod"; cidrs = "10.2.3.0/24" ∷ "10.2.0.0/16" ∷ [] }
    ∷ []

abbrev web_body : RuleBody
web_body = record {
  src = [];
  dst = "10.2.3.0/24" ∷ [];
  ports = single (pos 443) ∷ range "8000 - 8080" ∷ [];
  proto = some "tcp";
}

abbrev web_policy : PolicyDoc
web_policy = record {
  policy =
      record {
        from = "lab";
        to = "prod";
        rules = record { allow = some web_body; deny = none } ∷ [];
      }
      ∷ [];
}

web_policy-valid : validate text_nets web_policy segment_table ≡ []
unfolding validate split_once parse_i64 trim trim_end trim_start is_whitespace text_prefix
    text_network
web_policy-valid = refl

abbrev web_rule : IrRule
web_rule = record {
  rule_id = "cafe000102030405";
  action = allow;
  proto = tcp;
  src = [];
  dst = "10.2.3.0/24" ∷ [];
  ports = (443, 443) ∷ (8000, 8080) ∷ [];
}

abbrev web_block : IrBlock
web_block = record {
  from = "lab";
  to = "prod";
  src_cidrs = "10.1.0.0/16" ∷ [];
  dst_cidrs = "10.2.0.0/16" ∷ "10.2.3.0/24" ∷ [];
  rules = web_rule ∷ [];
}

abbrev web_ir : PolicyIr
web_ir = record { schema = 1; version = 7; blocks = web_block ∷ [] }

web_compiled : compile text_nets fake_sha256 web_policy segment_table 7 ≡ ok web_ir
unfolding compile split_once parse_u16 trim trim_end trim_start is_whitespace text_prefix
    text_network
web_compiled = refl

abbrev bad_body : RuleBody
bad_body = record {
  src = "10.2.3.0/24" ∷ [];
  dst = [];
  ports = single (pos 0) ∷ range "9-5" ∷ range "x" ∷ single (negsuc 0) ∷ [];
  proto = some "udp";
}

abbrev bad_policy : PolicyDoc
bad_policy = record {
  policy =
      record {
        from = "lab";
        to = "nowhere";
        rules =
            record { allow = some bad_body; deny = none }
            ∷ record { allow = none; deny = none }
            ∷ [];
      }
      ∷ record { from = "lab"; to = "nowhere"; rules = [] }
      ∷ [];
}

every_error :
    validate text_nets bad_policy segment_table
    ≡ at_block 0 (unknown_segment on_dst "nowhere")
      ∷ at_rule 0 0 (not_subset on_src "10.2.3.0/24")
      ∷ at_rule 0 0 port_zero
      ∷ at_rule 0 0 (inverted_range "9-5")
      ∷ at_rule 0 0 (malformed_range "x")
      ∷ at_rule 0 0 (port_out_of_range (negsuc 0))
      ∷ at_rule 0 1 no_action
      ∷ at_block 1 (unknown_segment on_dst "nowhere")
      ∷ at_block 1 (duplicate_pair 0)
      ∷ []
unfolding validate split_once parse_i64 trim trim_end trim_start is_whitespace text_prefix
    text_network at_block at_rule
every_error = refl

-- a reader of two texts
abbrev fake_yaml : String → Option PolicyDoc
fake_yaml s =
    if str_eq s "web" then some web_policy else if str_eq s "bad" then some bad_policy else none

web_parsed : parse_policy text_nets fake_yaml "web" segment_table ≡ ok web_policy
unfolding parse_policy split_once parse_i64 trim trim_end trim_start is_whitespace text_prefix
    text_network
web_parsed = refl

compile-parse_policy_example :
    compile text_nets fake_sha256 web_policy segment_table 7 ≢ err panicked
compile-parse_policy_example =
    compile-parse_policy text_nets fake_yaml fake_sha256 "web" segment_table 7 web_parsed

compile-IsRange_example : IsRange (8000, 8080)
compile-IsRange_example =
    compile-IsRange text_nets fake_sha256 web_policy segment_table 7 web_policy-valid web_compiled
      web_block web_rule (8000, 8080) (here refl) (here refl) (there (here refl))

install-compile_example :
    (flat : List (FlatRule String)) × (flatten text_nets web_ir ≡ ok flat)
    × (ws : List (Write (ListTrie RuleBits))) × (install_generation text_nets list_trie 1
          (build_lpm_entries text_nets flat src)
          (build_lpm_entries text_nets flat dst)
          (build_rules flat).0
        ≡ some ws)
    × (length ws ≡ 4)
install-compile_example =
    install-compile text_nets list_trie fake_sha256 web_policy segment_table 7 1 web_policy-valid
      web_compiled
