-- ===== src/Tests/Enforcement.antt =====
-- Concrete runs of the enforcer: a policy of one block, and a flow through it.
use wire_mesh.Enforcer.Flatten.Distinct.{over_capacity, member, observe_one, observe}
use wire_mesh.Common.{
  if◌then◌else◌, ℕ, ◌*◌, ◌≤◌, ◌<◌, min, String, ◌≡◌, refl, ◌⊎◌, true, Option, none, some, List, [],
  ◌∷◌, length, arith, ◌==◌,
}
use wire_mesh.Common.Result.{ok}
use wire_mesh.External.LpmTrie.{swap32}
use wire_mesh.Policy.Ir.{IrAction, allow, deny, IrProto, tcp, any, IrRule, IrBlock, PolicyIr}
use wire_mesh.Enforcer.RuleBits.{RuleBits, bit_set, max_rules}
use wire_mesh.Enforcer.Flatten.{
  expansion, reindex, explode, push_rule, check_side, check_some, effective, parse_cidrs,
  flatten_rule, flatten_rules, flatten_blocks, FlatRule, src, dst, flatten, expanded,
}
use wire_mesh.Enforcer.Flatten.Shape.{length-flatten}
use wire_mesh.Enforcer.Flatten.Capacity.{check_lpm_capacity-flatten}
use wire_mesh.Enforcer.Maps.{update, RuleMeta, zero_meta, Maps}
use wire_mesh.Enforcer.Tables.{
  proto_num, action_num, side_cidrs, covering_bits, accumulate_from, accumulate_side, rule_meta,
  key_of, insert_all, build_rules, fill_rules, build_lpm_entries, build_trie, check_lpm_capacity,
}
use wire_mesh.Enforcer.Scan.{swap16, deciding_rule}
use wire_mesh.Enforcer.Verdict.{first_match}
use wire_mesh.Enforcer.Verdict.Scanning.{reported}
use wire_mesh.Enforcer.Verdict.Generation.{Holds, deciding_rule-eq}
use wire_mesh.Enforcer.Flow.{
  timeout_ns, rate_cap, rate_step, cfg_or_default, FlowKey, RateVal, log_allows,
}
use wire_mesh.Enforcer.Flow.Sampling.{IsWithinCaps, log_allows-IsWithinCaps}
use wire_mesh.Enforcer.Classifier.RateCap.Runs.{Attempt, tries, admitted, misses, admitted_lem}
use wire_mesh.Enforcer.Packet.{reverse_key, Ipv4, ipv4_at, forward_key}
use wire_mesh.Enforcer.Classifier.{
  rate_allows, record_flow, flow_hit, ingress_ipv4, try_egress_at, try_ingress, aeth_egress, State,
  pipe, aeth_ingress,
}
use wire_mesh.Enforcer.Classifier.Branches.{rules_allow}
use wire_mesh.Enforcer.Classifier.Provenance.{present}
use wire_mesh.Enforcer.Classifier.Traces.{
  egress, step, Trace, begin, next, Recorded, Concerns, present-Recorded, ingress-Recorded,
}
use wire_mesh.Tests.Concrete.{
  text_network, text_prefix, list_insert, text_nets, ListTrie, list_trie, kernel,
}

abbrev ssh_and_web : IrRule
ssh_and_web = record {
  rule_id = "r2";
  action = allow;
  proto = tcp;
  src = [];
  dst = [];
  ports = (22, 22) ∷ (443, 443) ∷ [];
}

abbrev no_lab : IrRule
no_lab = record {
  rule_id = "r1";
  action = deny;
  proto = any;
  src = [];
  dst = "10.2.3.0/24" ∷ [];
  ports = [];
}

abbrev block : IrBlock
block = record {
  from = "office";
  to = "plant";
  src_cidrs = "10.1.0.0/16" ∷ [];
  dst_cidrs = "10.2.0.0/16" ∷ [];
  rules = no_lab ∷ ssh_and_web ∷ [];
}

abbrev policy : PolicyIr
policy = record { schema = 1; version = 7; blocks = block ∷ [] }

abbrev pub flat_rule : ℕ → String → IrAction → IrProto → String → ℕ → FlatRule String
flat_rule i id a p d port = record {
  idx = i;
  rule_id = id;
  action = a;
  proto = p;
  src_cidrs = "10.1.0.0/16" ∷ [];
  dst_cidrs = d ∷ [];
  port_lo = port;
  port_hi = port;
}

abbrev pub flat_rules : List (FlatRule String)
flat_rules =
    flat_rule 0 "r1" deny any "10.2.3.0/24" 0
    ∷ flat_rule 1 "r2" allow tcp "10.2.0.0/16" 22
    ∷ flat_rule 2 "r2" allow tcp "10.2.0.0/16" 443
    ∷ []

flattened : flatten text_nets policy ≡ ok flat_rules
unfolding flatten flatten_blocks flatten_rules flatten_rule parse_cidrs effective check_some
    check_side observe observe_one member over_capacity push_rule explode reindex expanded expansion
flattened = refl

length-flatten_example :
    (length flat_rules ≡ expanded policy.blocks) × (length flat_rules ≤ max_rules)
length-flatten_example = length-flatten text_nets policy flattened

check_lpm_capacity-flatten_example : check_lpm_capacity text_nets flat_rules ≡ ok tt
check_lpm_capacity-flatten_example = check_lpm_capacity-flatten text_nets policy flattened

abbrev pub value_or {ℓ} : {A : Type ℓ} → A → Option A → A
value_or d none = d
value_or d (some a) = a

abbrev pub no_trie : ListTrie RuleBits
no_trie = record { room = 0; items = [] }

abbrev pub src_trie : ListTrie RuleBits
src_trie =
    value_or no_trie (build_trie text_nets list_trie (build_lpm_entries text_nets flat_rules src))

abbrev pub dst_trie : ListTrie RuleBits
dst_trie =
    value_or no_trie (build_trie text_nets list_trie (build_lpm_entries text_nets flat_rules dst))

abbrev pub rules_arr : ℕ → RuleMeta
rules_arr = value_or (λ _. zero_meta) (fill_rules 0 (build_rules flat_rules).0 (λ _. zero_meta))

abbrev pub installed : Maps (ListTrie RuleBits)
installed = record {
  active = 1;
  gen_src = λ s. if s == 1 then some src_trie else none;
  gen_dst = λ s. if s == 1 then some dst_trie else none;
  gen_rules = λ s. if s == 1 then some rules_arr else none;
  gen_meta = λ s. if s == 1 then some 3 else none;
  counters = λ _. 0;
}

installed-Holds : Holds text_nets list_trie installed 1 flat_rules
unfolding build_trie insert_all key_of build_lpm_entries build_rules rule_meta fill_rules update
    list_insert accumulate_side accumulate_from covering_bits side_cidrs observe observe_one member
    bit_set action_num proto_num text_prefix text_network
installed-Holds = record {
  indexed = (refl, (refl, (refl, tt)));
  fits = omega arith;
  src_trie = src_trie;
  dst_trie = dst_trie;
  arr = rules_arr;
  src_built = refl;
  dst_built = refl;
  filled = refl;
  at_src = refl;
  at_dst = refl;
  at_rules = refl;
  at_meta = refl;
}

-- 10.1.0.5 to port 22 of 10.2.3.4: the narrower rule, a deny, decides
deciding_rule-eq_example :
    deciding_rule list_trie installed (swap32 167837701) (swap32 167904004) 6 (swap16 22)
    ≡ reported (
        first_match text_nets flat_rules
          (swap32 (swap32 167837701))
          (swap32 (swap32 167904004))
          6
          (swap16 (swap16 22)))
deciding_rule-eq_example =
    deciding_rule-eq text_nets list_trie flat_rules installed 1 installed-Holds (swap32 167837701)
      (swap32 167904004) 6 (swap16 22) refl

abbrev blank : RateVal
blank = record { window_start_ns = 0; count = 0 }

abbrev start_state : State kernel
start_state = record {
  maps = installed;
  flows = λ _. none;
  rates = λ _. none;
  config = record {
    tcp_ns = 0;
    udp_ns = 0;
    icmp_ns = 0;
    rate_cap = 0;
    log_per_rule = 0;
    log_aggregate = 0;
  };
  budgets = record { per_rule = λ _. blank; aggregate = blank };
  events = [];
}

-- 10.1.0.5:40000 to 10.2.0.9:80 over TCP
abbrev request : List ℕ
request =
    69 ∷ 0 ∷ 0 ∷ 24 ∷ 0 ∷ 0 ∷ 0 ∷ 0 ∷ 64 ∷ 6 ∷ 0 ∷ 0 ∷ 10 ∷ 1 ∷ 0 ∷ 5 ∷ 10 ∷ 2 ∷ 0 ∷ 9 ∷ 156 ∷ 64
    ∷ 0 ∷ 80 ∷ []

abbrev answer : List ℕ
answer =
    69 ∷ 0 ∷ 0 ∷ 24 ∷ 0 ∷ 0 ∷ 0 ∷ 0 ∷ 64 ∷ 6 ∷ 0 ∷ 0 ∷ 10 ∷ 2 ∷ 0 ∷ 9 ∷ 10 ∷ 1 ∷ 0 ∷ 5 ∷ 0 ∷ 80
    ∷ 156 ∷ 64 ∷ []

abbrev opened : State kernel
opened = step kernel start_state (egress request 1000)

abbrev opening : Trace kernel opened
opening = next (egress request 1000) (begin start_state refl)

answer-pass : (aeth_ingress kernel opened answer 5000).0 ≡ pipe
unfolding step aeth_ingress aeth_egress try_ingress try_egress_at ingress_ipv4 flow_hit ipv4_at
    forward_key reverse_key record_flow rate_allows rate_step rate_cap timeout_ns cfg_or_default
answer-pass = refl

ingress-Recorded_example :
    (h : Ipv4) × (ipv4_at answer ≡ some h)
    × ((rules_allow kernel opened (forward_key answer h) ≡ true)
        ⊎ ((key : FlowKey) × Concerns kernel answer h key × Recorded kernel opening key))
ingress-Recorded_example = ingress-Recorded kernel opening answer 5000 answer-pass

abbrev request_key : FlowKey
request_key = record { src = 83886346; dst = 150995466; sport = 16540; dport = 20480; proto = 6 }

request_key-present : present kernel opened request_key ≡ true
unfolding step aeth_egress try_egress_at ipv4_at forward_key record_flow rate_allows rate_step
    rate_cap cfg_or_default
request_key-present = refl

present-Recorded_example : Recorded kernel opening request_key
present-Recorded_example = present-Recorded kernel opening request_key request_key-present

start-IsWithinCaps : IsWithinCaps start_state.config start_state.budgets
unfolding cfg_or_default
start-IsWithinCaps = record { per_rule = λ i. omega arith; aggregate = omega arith }

log_allows-IsWithinCaps_example :
    IsWithinCaps start_state.config
      (log_allows start_state.config start_state.budgets 3 2000000000).1
unfolding cfg_or_default
log_allows-IsWithinCaps_example =
    log_allows-IsWithinCaps start_state.config start_state.budgets 3 2000000000 (omega arith)
      (omega arith) start-IsWithinCaps

abbrev capped_state : State kernel
capped_state = record start_state { config = record start_state.config { rate_cap = 2 } }

-- three attempts of one source, and one of another
abbrev attempts : List Attempt
attempts = (7, 1000) ∷ (8, 1500) ∷ (7, 2000) ∷ (7, 3000) ∷ []

two_admitted : admitted kernel 7 capped_state attempts ≡ 2
unfolding admitted rate_allows rate_step rate_cap cfg_or_default
two_admitted = refl

capped : 0 < rate_cap capped_state.config
unfolding rate_cap cfg_or_default
capped = omega arith

admitted_example :
    (min (rate_cap capped_state.config) (tries 7 attempts)
      ≤ admitted kernel 7 capped_state attempts)
    × (admitted kernel 7 capped_state attempts
        ≤ min
            (misses kernel 7 capped_state attempts * rate_cap capped_state.config)
            (tries 7 attempts))
admitted_example = admitted_lem kernel 7 1000 capped_state attempts capped (omega arith) refl
