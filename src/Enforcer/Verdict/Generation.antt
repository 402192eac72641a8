-- ===== src/Enforcer/Verdict/Generation.antt =====
-- The verdict of an installed generation is the policy's.
use wire_mesh.Common.{
  ℕ, zero, suc, ◌+◌, ◌≤◌, ◌<◌, min, ◌≡◌, ◌∙◌, ap, true, some, List, [], ◌∷◌, ltb, length, get_elem?,
  arith,
}
use wire_mesh.External.Ipnet.{Ipnet}
use wire_mesh.External.LpmTrie.{LpmTrie, swap32}
use wire_mesh.Enforcer.RuleBits.{RuleBits, bit_get, and_bits, bit_get-and_bits, max_rules}
use wire_mesh.Enforcer.Maps.{RuleMeta, zero_meta, Maps}
use wire_mesh.Enforcer.Flatten.{FlatRule, Side, src, dst}
use wire_mesh.Enforcer.Tables.{build_rules, side_cidrs, fill_rules, build_lpm_entries, build_trie}
use wire_mesh.Enforcer.Scan.{swap16, bits_or_none, scan_from, deciding_rule}
use wire_mesh.Enforcer.Verdict.{holds, first_match}
use wire_mesh.Enforcer.Verdict.Covering.{IsIndexed, at_index-eq}
use wire_mesh.Enforcer.Verdict.Lookup.{bit_get-get}
use wire_mesh.Enforcer.Verdict.Scanning.{
  Faithful, reported, scan_from-eq, fill_rules-at, length-build_rules,
}

module _ (ip : Ipnet) (lpm : LpmTrie RuleBits) where
  open ip use {Net}
  open lpm use {Trie, get}

  -- the slot holds the tables of the flat rules
  pub record Holds (maps : Maps Trie) (slot : ℕ) (flat : List (FlatRule Net)) : Type 0 where
    pub indexed : IsIndexed 0 flat
    pub fits : length flat ≤ max_rules
    pub src_trie : Trie
    pub dst_trie : Trie
    pub arr : ℕ → RuleMeta
    pub src_built : build_trie ip lpm (build_lpm_entries ip flat src) ≡ some src_trie
    pub dst_built : build_trie ip lpm (build_lpm_entries ip flat dst) ≡ some dst_trie
    pub filled : fill_rules 0 (build_rules flat).0 (λ _. zero_meta) ≡ some arr
    pub at_src : maps.gen_src slot ≡ some src_trie
    pub at_dst : maps.gen_dst slot ≡ some dst_trie
    pub at_rules : maps.gen_rules slot ≡ some arr
    pub at_meta : maps.gen_meta slot ≡ some (length (build_rules flat).0)

  get_elem?-lt {ℓ} :
      {A : Type ℓ} (xs : List A) (k : ℕ) {a : A} → get_elem? xs k ≡ some a → k < length xs
  get_elem?-lt [] k e = absurd (ground arith)
  get_elem?-lt (x ∷ xs) zero e = omega arith
  get_elem?-lt (x ∷ xs) (suc k) e = omega (arith, get_elem?-lt xs k e)

  module _ (flat : List (FlatRule Net)) (maps : Maps Trie) (slot : ℕ) (h : Holds maps slot flat)
      (s d proto dport : ℕ) where
    abbrev joined : RuleBits
    joined = and_bits (bits_or_none (get h.src_trie s)) (bits_or_none (get h.dst_trie d))

    side-at :
        (side : Side) (u : Trie) (a k : ℕ) (f : FlatRule Net)
        → build_trie ip lpm (build_lpm_entries ip flat side) ≡ some u
        → get_elem? flat k ≡ some f
        → bit_get (bits_or_none (get u a)) k ≡ holds ip (side_cidrs f side) (swap32 a)
    side-at side u a k f built e =
        let pos : 0 + k ≡ k = omega arith in
        let at_k =
          at_index-eq (λ (g : FlatRule Net). holds ip (side_cidrs g side) (swap32 a)) 0 k flat
            {f = f} h.indexed e in
        bit_get-get ip lpm flat side u 0 h.indexed (omega (arith, h.fits)) built a k
        ∙ rw pos at at_k

    tables-Faithful : Faithful ip joined (some h.arr) s d proto dport 0 flat
    unfolding side_cidrs
    tables-Faithful k f e =
        let pos : 0 + k ≡ k = omega arith in
        let in_src = side-at src h.src_trie s k f h.src_built e in
        let in_dst = side-at dst h.dst_trie d k f h.dst_built e in
        let below : ltb (0 + k) max_rules ≡ true = ground (arith, get_elem?-lt flat k e, h.fits) in
        (
          rw pos (
              bit_get-and_bits (bits_or_none (get h.src_trie s)) (bits_or_none (get h.dst_trie d)) k
              ∙ ground (arith, in_src, in_dst)),
          rw below (ap some (fill_rules-at 0 k flat (λ _. zero_meta) h.filled e)),
        )

    deciding_rule-unfold :
        maps.active ≡ slot
        → deciding_rule lpm maps s d proto dport
          ≡ scan_from joined
              (some h.arr)
              (min (length (build_rules flat).0) max_rules)
              proto
              dport
              max_rules
              0
    unfolding deciding_rule
    deciding_rule-unfold act = rw (act, h.at_src, h.at_dst, h.at_rules, h.at_meta)

    -- Where the active slot holds the tables of indexed flat rules, at most 256, the rule that
    -- decides a packet is the first flat rule that matches it.
    pub deciding_rule-eq :
        maps.active ≡ slot
        → deciding_rule lpm maps s d proto dport
          ≡ reported (first_match ip flat (swap32 s) (swap32 d) proto (swap16 dport))
    deciding_rule-eq act =
        deciding_rule-unfold act
        ∙ scan_from-eq ip joined (some h.arr) s d proto dport
            (min (length (build_rules flat).0) max_rules) max_rules 0 flat h.indexed tables-Faithful
            (omega (arith, length-build_rules flat, h.fits)) h.fits
