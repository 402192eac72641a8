-- ===== src/Enforcer/Scan.antt =====
-- crates/wiremesh-enforcer-ebpf/program/src/main.rs: the verdict of the rules on a packet
-- (`scan_generation` and `meta_matches`), without its counters and events, which `Classifier` adds.
-- A word that a program loads from a packet has its bytes in the machine's (little-endian) order.
use wire_mesh.Common.{
  ℕ, zero, suc, ◌+◌, ◌*◌, ◌/◌, ◌%◌, min, Bool, not, ◌&&◌, ◌||◌, Option, none, some, leb, ltb, ◌==◌,
  if◌then◌else◌,
}
use wire_mesh.External.LpmTrie.{LpmTrie}
use wire_mesh.Enforcer.RuleBits.{RuleBits, no_bits, bit_get, and_bits, max_rules}
use wire_mesh.Enforcer.Maps.{RuleMeta, Maps}

-- `u16::from_be`
abbrev pub swap16 : ℕ → ℕ
swap16 x = x % 256 * 256 + x / 256 % 256

-- a concrete protocol number, or 0 for tcp, udp and icmp
unfoldable pub meta_matches : RuleMeta → ℕ → ℕ → Bool
meta_matches m proto dport =
    (if m.proto == 0 then proto == 1 || proto == 6 || proto == 17 else m.proto == proto)
    && (m.port_hi == 0 || (leb m.port_lo (swap16 dport) && leb (swap16 dport) m.port_hi))

-- `GEN_RULES.get_value(slot, &i)`
abbrev pub rule_at : Option (ℕ → RuleMeta) → ℕ → Option RuleMeta
rule_at none i = none
rule_at (some r) i = if ltb i max_rules then some (r i) else none

-- one round of the loop, `rest` being the later rounds
scan_round : Option RuleMeta → ℕ → ℕ → ℕ → Option (ℕ × RuleMeta) → Option (ℕ × RuleMeta)
unfolding meta_matches
scan_round none i proto dport rest = none
scan_round (some m) i proto dport rest = if meta_matches m proto dport then some (i, m) else rest

-- `for i in 0..MAX_RULES`, from round `i` with `fuel` rounds left
unfoldable pub scan_from :
    RuleBits → Option (ℕ → RuleMeta) → ℕ → ℕ → ℕ → ℕ → ℕ → Option (ℕ × RuleMeta)
unfolding scan_round
scan_from bits rules len proto dport zero i = none
scan_from bits rules len proto dport (suc fuel) i =
    let rest = scan_from bits rules len proto dport fuel (suc i) in
    if leb len i
    then none
    else if not (bit_get bits i)
    then rest
    else scan_round (rule_at rules i) i proto dport rest

abbrev pub bits_or_none : Option RuleBits → RuleBits
bits_or_none none = no_bits
bits_or_none (some b) = b

abbrev pub length_or_zero : Option ℕ → ℕ
length_or_zero none = 0
length_or_zero (some n) = n

module _ (lpm : LpmTrie RuleBits) where
  open lpm use {Trie, get}

  abbrev pub side_bits : Option Trie → ℕ → RuleBits
  side_bits none a = no_bits
  side_bits (some t) a = bits_or_none (get t a)

  -- the rule that decides the packet, or none for the default deny
  unfoldable pub deciding_rule : Maps Trie → ℕ → ℕ → ℕ → ℕ → Option (ℕ × RuleMeta)
  deciding_rule maps src dst proto dport =
      let slot = maps.active in
      let bits = and_bits (side_bits (maps.gen_src slot) src) (side_bits (maps.gen_dst slot) dst) in
      let len = min (length_or_zero (maps.gen_meta slot)) max_rules in
      scan_from bits (maps.gen_rules slot) len proto dport max_rules 0
