-- ===== src/Enforcer/Verdict/Scanning.antt =====
-- The bounded scan of a generation's tables finds the first flat rule that matches the packet.
use wire_mesh.Common.{
  ℕ, zero, suc, ◌+◌, ◌≤◌, ◌<◌, ◌≡◌, refl, ap, Bool, true, ◌&&◌, Option, none, some, List, [], ◌∷◌,
  leb, length, get_elem?, arith,
}
use wire_mesh.External.Ipnet.{Ipnet}
use wire_mesh.External.LpmTrie.{swap32}
use wire_mesh.Enforcer.RuleBits.{RuleBits, bit_get}
use wire_mesh.Enforcer.Maps.{RuleMeta, update}
use wire_mesh.Enforcer.Flatten.{FlatRule}
use wire_mesh.Enforcer.Tables.{rule_meta, build_rules, fill_rules}
use wire_mesh.Enforcer.Scan.{swap16, meta_matches, scan_from, rule_at}
use wire_mesh.Enforcer.Verdict.{holds, covers, first_match, proto_covers, port_covers}
use wire_mesh.Enforcer.Verdict.Covering.{IsIndexed}

-- the rule that the scan reports
abbrev pub reported : {Net : Type 0} → Option (FlatRule Net) → Option (ℕ × RuleMeta)
reported none = none
reported (some f) = some (f.idx, rule_meta f)

-- What `fill_rules` leaves alone.
fill_rules-below :
    (i j : ℕ) (rs : List RuleMeta) (arr : ℕ → RuleMeta) {out : ℕ → RuleMeta}
    → fill_rules i rs arr ≡ some out
    → j < i
    → out j ≡ arr j
unfolding fill_rules update
fill_rules-below i j [] arr {out} h lt = cc
fill_rules-below i j (r ∷ rs) arr {out} h lt =
    let rest =
      fill_rules-below (suc i) j rs (update arr i r) {out = out} (ground arith) (omega arith) in
    ground (arith, rest)

module _ {Net : Type 0} where
  pub meta_matches-rule_meta :
      (f : FlatRule Net) (proto dport : ℕ)
      → meta_matches (rule_meta f) proto dport
        ≡ (proto_covers f.proto proto && port_covers f.port_lo f.port_hi (swap16 dport))
  unfolding meta_matches rule_meta proto_covers port_covers
  meta_matches-rule_meta f proto dport = ground arith

  pub length-build_rules : (fs : List (FlatRule Net)) → length (build_rules fs).0 ≡ length fs
  unfolding build_rules
  length-build_rules [] = refl
  length-build_rules (f ∷ fs) = ap suc (length-build_rules fs)

  -- The array holds the rules in their order.
  pub fill_rules-at :
      (i k : ℕ) (fs : List (FlatRule Net)) (arr : ℕ → RuleMeta) {out : ℕ → RuleMeta}
      {f : FlatRule Net}
      → fill_rules i (build_rules fs).0 arr ≡ some out
      → get_elem? fs k ≡ some f
      → out (i + k) ≡ rule_meta f
  unfolding fill_rules build_rules update
  fill_rules-at i k [] arr h e = absurd (ground arith)
  fill_rules-at i zero (g ∷ fs) arr {out} {f} h e =
      let zero' : i + 0 ≡ i = omega arith in
      let kept =
        fill_rules-below (suc i) i (build_rules fs).0 (update arr i (rule_meta g)) {out = out}
          (ground arith) (omega arith) in
      rw zero' (ground (arith, kept))
  fill_rules-at i (suc k) (g ∷ fs) arr {out} {f} h e =
      let next : suc i + k ≡ i + suc k = omega arith in
      rw (← next)
        (fill_rules-at (suc i) k fs (update arr i (rule_meta g)) {out = out} (ground arith) e)

module _ (ip : Ipnet) (bits : RuleBits) (rules : Option (ℕ → RuleMeta))
    (src_word dst_word proto dport : ℕ) where
  open ip use {Net}

  -- both sides of the rule hold the packet's addresses
  abbrev sides : FlatRule Net → Bool
  sides f = holds ip f.src_cidrs (swap32 src_word) && holds ip f.dst_cidrs (swap32 dst_word)

  -- the tables say of the rule at each position what the rule says
  abbrev pub Faithful : ℕ → List (FlatRule Net) → Type 0
  Faithful i fs =
      (k : ℕ) (f : FlatRule Net)
      → get_elem? fs k ≡ some f
      → (bit_get bits (i + k) ≡ sides f) × (rule_at rules (i + k) ≡ some (rule_meta f))

  Faithful-tail :
      (i : ℕ) (f : FlatRule Net) (fs : List (FlatRule Net))
      → Faithful i (f ∷ fs)
      → Faithful (suc i) fs
  Faithful-tail i f fs at k g e =
      let next : suc i + k ≡ i + suc k = omega arith in rw next (at (suc k) g e)

  covers-sides :
      (f : FlatRule Net)
      → covers ip f (swap32 src_word) (swap32 dst_word) proto (swap16 dport)
        ≡ (sides f && meta_matches (rule_meta f) proto dport)
  unfolding covers
  covers-sides f = ground (arith, meta_matches-rule_meta f proto dport)

  pub scan_from-eq :
      (len fuel i : ℕ) (fs : List (FlatRule Net))
      → IsIndexed i fs
      → Faithful i fs
      → len ≡ i + length fs
      → length fs ≤ fuel
      → scan_from bits rules len proto dport fuel i
        ≡ reported (first_match ip fs (swap32 src_word) (swap32 dst_word) proto (swap16 dport))
  unfolding scan_from first_match
  scan_from-eq len zero i [] h at e le = refl
  scan_from-eq len zero i (f ∷ fs) h at e le = absurd (omega arith)
  scan_from-eq len (suc fuel) i [] h at e le = let over : leb len i ≡ true = ground arith in rw over
  scan_from-eq len (suc fuel) i (f ∷ fs) h at e le =
      let zero' : i + 0 ≡ i = omega arith in
      let (bit, rule) = rw zero' at (at 0 f refl) in
      let ih =
        scan_from-eq len fuel (suc i) fs h.1 (Faithful-tail i f fs at) (omega arith)
          (omega arith) in
      ground (arith, ih, bit, rule, h.0, covers-sides f)
