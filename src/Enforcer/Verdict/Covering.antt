-- ===== src/Enforcer/Verdict/Covering.antt =====
-- The bitsets that `build_lpm_entries` stores.
use wire_mesh.Common.{
  ℕ, zero, suc, ◌+◌, ◌≤◌, ◌<◌, ◌≡◌, refl, Bool, false, ◌&&◌, ◌||◌, some, List, [], ◌∷◌, ◌==◌,
  any_of, length, get_elem?, arith, Bool-cases, inl, inr,
}
use wire_mesh.External.Ipnet.{Ipnet}
use wire_mesh.Enforcer.RuleBits.{RuleBits, bit_get, bit_set, max_rules, bit_get-bit_set}
use wire_mesh.Enforcer.Flatten.{FlatRule, Side, reindex}
use wire_mesh.Enforcer.Tables.{side_cidrs, covering_bits}

-- The rules carry the indices from `i` on, in order.
abbrev pub IsIndexed : {Net : Type 0} → ℕ → List (FlatRule Net) → Type 0
IsIndexed i [] = Unit
IsIndexed i (f ∷ fs) = (f.idx ≡ i) × IsIndexed (suc i) fs

module _ {Net : Type 0} where
  pub reindex-IsIndexed : (i : ℕ) (fs : List (FlatRule Net)) → IsIndexed i (reindex i fs)
  unfolding reindex
  reindex-IsIndexed i [] = tt
  reindex-IsIndexed i (f ∷ fs) = (refl, reindex-IsIndexed (suc i) fs)

  -- a test of the rule with index `j`
  abbrev pub at_index : (FlatRule Net → Bool) → ℕ → FlatRule Net → Bool
  at_index test j f = f.idx == j && test f

  at_index-below :
      (test : FlatRule Net → Bool) (i j : ℕ) (fs : List (FlatRule Net))
      → IsIndexed i fs
      → j < i
      → any_of (at_index test j) fs ≡ false
  at_index-below test i j [] h lt = refl
  at_index-below test i j (f ∷ fs) h lt = ground (arith, h.0, at_index-below test (suc i) j fs h.1)

  -- Among indexed rules the test at an index is the test of the rule that stands there.
  pub at_index-eq :
      (test : FlatRule Net → Bool) (i k : ℕ) (fs : List (FlatRule Net)) {f : FlatRule Net}
      → IsIndexed i fs
      → get_elem? fs k ≡ some f
      → any_of (at_index test (i + k)) fs ≡ test f
  at_index-eq test i k [] h e = absurd (ground arith)
  at_index-eq test i zero (g ∷ fs) {f} h e =
      ground (arith, h.0, e, at_index-below test (suc i) (i + 0) fs h.1)
  at_index-eq test i (suc k) (g ∷ fs) {f} h e =
      let next : suc i + k ≡ i + suc k = omega arith in
      let rest = rw next at (at_index-eq test (suc i) k fs h.1 e) in ground (arith, h.0, rest)

module _ (ip : Ipnet) where
  open ip use {Net, contains}

  -- the rule covers the prefix `p` on the side
  abbrev pub covers_net : Side → Net → FlatRule Net → Bool
  covers_net side p f = any_of (λ c. contains c p) (side_cidrs f side)

  -- Bit `j` of the stored bitset is set exactly when a rule with index `j` covers the prefix.
  pub bit_get-covering_bits :
      (fs : List (FlatRule Net)) (side : Side) (p : Net) (bits : RuleBits) (i j : ℕ)
      → IsIndexed i fs
      → i + length fs ≤ max_rules
      → bit_get (covering_bits ip fs side p bits) j
        ≡ (bit_get bits j || any_of (at_index (covers_net side p) j) fs)
  unfolding covering_bits
  bit_get-covering_bits [] side p bits i j h fit = ground arith
  bit_get-covering_bits (f ∷ fs) side p bits i j h fit = elim (Bool-cases (covers_net side p f)) [
    | inl yes' ↦
        rw (yes', bit_get-covering_bits fs side p (bit_set bits f.idx) (suc i) j h.1 (omega arith))
          (ground (arith, bit_get-bit_set bits f.idx j, h.0))
    | inr no' ↦
        rw (no', bit_get-covering_bits fs side p bits (suc i) j h.1 (omega arith)) (ground arith)
  ]
