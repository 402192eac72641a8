-- ===== src/Tests/Generations.antt =====
-- A concrete reload of the policy.
use wire_mesh.Enforcer.Flatten.Distinct.{member, observe_one, observe}
use wire_mesh.External.LpmTrie.{swap32}
use wire_mesh.Enforcer.Verdict.{first_match}
use wire_mesh.Enforcer.Generation.Flip.{apply_generation-eq, install-atomic}
use wire_mesh.Enforcer.Verdict.Scanning.{reported}
use wire_mesh.Enforcer.Generation.Counts.{apply_generation-counts, kept_of}
use wire_mesh.Enforcer.RuleBits.{bit_set, RuleBits}
use wire_mesh.Enforcer.Scan.{swap16, deciding_rule}
use wire_mesh.Enforcer.Tables.{
  generation_writes, install_generation, proto_num, action_num, side_cidrs, covering_bits,
  accumulate_from, accumulate_side, fill_rules, rule_meta, build_rules, build_lpm_entries, key_of,
  insert_all, build_trie,
}
use wire_mesh.Enforcer.Generation.{
  install, default_deny, apply_writes, flip, flip_after, by_rule, apply_generation, GenerationState,
}
use wire_mesh.Common.{◌≡◌, refl, ap, none, some, List, [], ◌∷◌, ◌++◌, arith, ◌==◌, if◌then◌else◌}
use wire_mesh.Tests.Concrete.{
  text_network, text_prefix, list_insert, text_nets, ListTrie, list_trie,
}
use wire_mesh.Tests.Enforcement.{flat_rules, installed, src_trie, dst_trie, rules_arr}
use wire_mesh.Enforcer.Maps.{update, Maps, Write, set_src, set_dst, set_rules, set_meta}

-- the second rule has matched five packets
abbrev counted : Maps (ListTrie RuleBits)
counted = record installed { counters = λ i. if i == 1 then 5 else 0 }

abbrev before : GenerationState
before = record {
  idx_to_rule_id = "r1" ∷ "r2" ∷ "r2" ∷ [];
  pending_reap = none;
  counter_accum = λ _. none;
  default_deny_accum = 3;
}

abbrev first_write : List (Write (ListTrie RuleBits))
first_write = set_src 0 src_trie ∷ []

abbrev other_writes : List (Write (ListTrie RuleBits))
other_writes = set_dst 0 dst_trie ∷ set_rules 0 rules_arr ∷ set_meta 0 3 ∷ []

installs : install text_nets list_trie counted flat_rules ≡ some (first_write ++ other_writes)
unfolding build_trie insert_all key_of build_lpm_entries build_rules rule_meta fill_rules update
    list_insert accumulate_side accumulate_from covering_bits side_cidrs observe observe_one member
    bit_set action_num proto_num text_prefix text_network install install_generation
    generation_writes
installs = refl

install-atomic_example :
    deciding_rule list_trie (apply_writes counted first_write) 100 200 6 5632
    ≡ deciding_rule list_trie counted 100 200 6 5632
install-atomic_example =
    install-atomic text_nets list_trie counted flat_rules first_write other_writes 100 200 6 5632
      (omega arith) installs

abbrev after : Maps (ListTrie RuleBits) × GenerationState
after = flip text_nets list_trie counted before flat_rules 77 (first_write ++ other_writes)

applies : apply_generation text_nets list_trie counted before flat_rules 77 ≡ some after
unfolding apply_generation flip_after
applies = ap (flip_after text_nets list_trie counted before flat_rules 77) installs

apply_generation-eq_example :
    deciding_rule list_trie after.0 100 200 6 5632
    ≡ reported (first_match text_nets flat_rules (swap32 100) (swap32 200) 6 (swap16 5632))
apply_generation-eq_example =
    apply_generation-eq text_nets list_trie counted before flat_rules 77 100 200 6 5632
      (refl, (refl, (refl, tt))) (omega arith) applies

apply_generation-counts_example :
    (by_rule after.0 after.1
      ≡ kept_of text_nets list_trie (build_rules flat_rules).1 (by_rule counted before))
    × (default_deny after.0 after.1 ≡ default_deny counted before)
apply_generation-counts_example =
    apply_generation-counts text_nets list_trie counted before flat_rules 77 (omega arith)
      (omega arith) (omega arith) applies
