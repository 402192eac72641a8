-- ===== src/Policy/Compile/Installation.antt =====
-- A policy that validates and compiles is flattened, fits the tries, and is installed: none of the
-- checks between the controller and the kernel's maps refuses it.
use wire_mesh.Policy.Compile.{compile}
use wire_mesh.Policy.Validate.{validate}
use wire_mesh.Policy.Ir.{PolicyIr}
use wire_mesh.Enforcer.Flatten.Distinct.{over_capacity}
use wire_mesh.Policy.Dsl.{SegmentDef, PolicyDoc}
use wire_mesh.Enforcer.Maps.{
  set_meta, set_rules, set_dst, set_src, zero_meta, update, RuleMeta, Write,
}
use wire_mesh.Enforcer.Tables.{
  covering_bits, accumulate_side, generation_writes, key_of, build_trie, insert_all,
  install_generation, build_rules, fill_rules, build_lpm_entries,
}
use wire_mesh.Common.{
  length-map, ℕ, suc, ◌+◌, ◌≤◌, String, ◌≡◌, refl, ap, inl, inr, true, false, Option, some, List,
  [], ◌∷◌, arith, ltb, Option-cases, length,
}
use wire_mesh.Common.Result.{ok}
use wire_mesh.External.Ipnet.{Ipnet}
use wire_mesh.External.LpmTrie.{LpmTrie, LpmKey}
use wire_mesh.Enforcer.RuleBits.{no_bits, RuleBits}
use wire_mesh.Enforcer.Flatten.{FlatRule, Side, src, dst, flatten}
use wire_mesh.Enforcer.Flatten.Shape.{length-flatten}
use wire_mesh.Enforcer.Flatten.Capacity.{flatten-room}
use wire_mesh.Policy.Compile.Admission.{flatten-compile}

fill_rules-fits :
    (i : ℕ) (rs : List RuleMeta) (arr : ℕ → RuleMeta)
    → i + length rs ≤ 256
    → (out : ℕ → RuleMeta) × (fill_rules i rs arr ≡ some out)
unfolding fill_rules
fill_rules-fits i [] arr h = (arr, refl)
fill_rules-fits i (r ∷ rs) arr h =
    let (out, e) = fill_rules-fits (suc i) rs (update arr i r) (omega (arith, h)) in
    let low : ltb i 256 ≡ true = ground arith in (out, rw low e)

module _ (ip : Ipnet) (lpm : LpmTrie RuleBits) where
  open ip use {Net}
  open lpm use {Trie, create, insert, entries, max_entries}

  insert_all-fits :
      (t : Trie) (es : List (Net × RuleBits))
      → length (entries t) + length es ≤ max_entries t
      → (u : Trie) × (insert_all ip lpm t es ≡ some u)
  unfolding insert_all
  insert_all-fits t [] h = (t, refl)
  insert_all-fits t ((n, b) ∷ es) h = elim (Option-cases (insert (key_of ip n) b t)) [
    | inl none' ↦ absurd (
        lpm.insert-ne-none (key_of ip n) b t (unfold key_of in ip.prefix_len-le n)
          (omega (arith, h)) none')
    | inr (u, e) ↦
        let held =
          ap (λ (xs : List (LpmKey × RuleBits)). length xs)
            (lpm.entries-insert (key_of ip n) b t e) in
        let (v, f) =
          insert_all-fits u es
            (omega (arith, h, held, lpm.max_entries-insert (key_of ip n) b t e)) in
        (v, rw (insert_all, e) f)
  ]

  build_trie-fits :
      (es : List (Net × RuleBits)) → length es ≤ 1024 → (u : Trie) × (build_trie ip lpm es ≡ some u)
  unfolding build_trie
  build_trie-fits es h =
      let none_held = ap (λ (xs : List (LpmKey × RuleBits)). length xs) (lpm.entries-create 1024) in
      insert_all-fits (create 1024) es (omega (arith, none_held, lpm.max_entries-create 1024, h))

  length-build_rules : (flat : List (FlatRule Net)) → length (build_rules flat).0 ≡ length flat
  unfolding build_rules
  length-build_rules [] = refl
  length-build_rules (f ∷ fs) = ap suc (length-build_rules fs)

  length-build_lpm_entries :
      (flat : List (FlatRule Net)) (side : Side)
      → over_capacity (accumulate_side ip flat side) ≡ false
      → length (build_lpm_entries ip flat side) ≤ 1024
  unfolding build_lpm_entries over_capacity
  length-build_lpm_entries flat side h = omega (
    arith,
    length-map {B = Net × RuleBits} (λ p. (p, covering_bits ip flat side p no_bits))
        (accumulate_side ip flat side).order,
    room (length (accumulate_side ip flat side).order) h,
  )
    where
      room : (n : ℕ) → ltb 1024 n ≡ false → n ≤ 1024
      room n e = ground arith

  abbrev installed : ℕ → List (FlatRule Net) → Option (List (Write Trie))
  installed target flat =
      install_generation ip lpm target (build_lpm_entries ip flat src)
        (build_lpm_entries ip flat dst) (build_rules flat).0

  install-flat :
      (target : ℕ) (flat : List (FlatRule Net))
      → length flat ≤ 256
      → over_capacity (accumulate_side ip flat src) ≡ false
      → over_capacity (accumulate_side ip flat dst) ≡ false
      → (ws : List (Write Trie)) × (installed target flat ≡ some ws) × (length ws ≡ 4)
  unfolding install_generation generation_writes
  install-flat target flat few hs hd =
      let (ts, es) =
        build_trie-fits (build_lpm_entries ip flat src) (length-build_lpm_entries flat src hs) in
      let (td, ed) =
        build_trie-fits (build_lpm_entries ip flat dst) (length-build_lpm_entries flat dst hd) in
      let (arr, ea) =
        fill_rules-fits 0 (build_rules flat).0 (λ _. zero_meta)
          (omega (arith, few, length-build_rules flat)) in
      (
        set_src target ts
            ∷ set_dst target td
            ∷ set_rules target arr
            ∷ set_meta target (length (build_rules flat).0)
            ∷ [],
        rw (es, ed, ea) refl,
        refl,
      )

  -- A policy that `validate` and `compile` accept is flattened, and in any slot the installation of
  -- what it is flattened to succeeds, with its four writes.
  pub install-compile :
      (sha256 : String → List ℕ) (doc : PolicyDoc) (segments : List (SegmentDef Net))
      (version target : ℕ) {ir : PolicyIr}
      → validate ip doc segments ≡ []
      → compile ip sha256 doc segments version ≡ ok ir
      → (flat : List (FlatRule Net)) × (flatten ip ir ≡ ok flat)
        × (ws : List (Write Trie)) × (install_generation ip lpm target
              (build_lpm_entries ip flat src)
              (build_lpm_entries ip flat dst)
              (build_rules flat).0
            ≡ some ws)
        × (length ws ≡ 4)
  install-compile sha256 doc segments version target {ir} h k =
      let (flat, e) = flatten-compile ip sha256 doc segments version h k in
      let (hs, hd) = flatten-room ip ir e in
      let (ws, ew, el) = install-flat target flat (omega (arith, length-flatten ip ir e)) hs hd in
      (flat, e, ws, ew, el)
