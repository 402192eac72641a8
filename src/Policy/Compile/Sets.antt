-- ===== src/Policy/Compile/Sets.antt =====
-- The distinct texts that `compile` counts, and the networks that `flatten` counts.
use wire_mesh.Policy.Ir.{IrBlock}
use wire_mesh.Policy.Compile.{Field, IrRule}
use wire_mesh.Policy.Limits.{extend_rules, set_extend, set_insert, effective_texts, extend_blocks}
use wire_mesh.Common.{
  str_eq, eq_iff, length-append, Bool-eq_of_iff, ◌≤◌, String, ◌≡◌, refl, sym, ap, ◌∙◌, inl, inr,
  true, false, Option, some, List, [], ◌∷◌, map, arith, Bool-cases, length, any_of,
}
use wire_mesh.External.Ipnet.{Ipnet}
use wire_mesh.Enforcer.Flatten.Distinct.{DistinctSideCidrs, member, observe_one, observe}

-- sets only grow
length-set_insert : (s : String) (set : List String) → length set ≤ length (set_insert s set)
unfolding set_insert
length-set_insert s set = ground arith

length-set_extend : (set ss : List String) → length set ≤ length (set_extend set ss)
unfolding set_extend
length-set_extend set [] = omega arith
length-set_extend set (s ∷ ss) =
    omega (arith, length-set_insert s set, length-set_extend (set_insert s set) ss)

pub length-extend_rules :
    (side : Field) (b : IrBlock) (set : List String) (rs : List IrRule)
    → length set ≤ length (extend_rules side b set rs)
unfolding extend_rules
length-extend_rules side b set [] = omega arith
length-extend_rules side b set (r ∷ rs) = omega (
  arith,
  length-set_extend set (effective_texts side b r),
  length-extend_rules side b (set_extend set (effective_texts side b r)) rs,
)

pub length-extend_blocks :
    (side : Field) (set : List String) (bs : List IrBlock)
    → length set ≤ length (extend_blocks side set bs)
unfolding extend_blocks
length-extend_blocks side set [] = omega arith
length-extend_blocks side set (b ∷ bs) = omega (
  arith,
  length-extend_rules side b set b.rules,
  length-extend_blocks side (extend_rules side b set b.rules) bs,
)

module _ (ip : Ipnet) where
  open ip use {Net, net_eq, net_eq_iff, parse, to_string, parse-to_string}

  to_string-injective : (a b : Net) → to_string a ≡ to_string b → a ≡ b
  to_string-injective a b h =
      let same : ◌≡◌ {A = Option Net} (some a) (some b) =
        sym (parse-to_string a) ∙ ap parse h ∙ parse-to_string b in
      cc

  str_eq-to_string : (a b : Net) → str_eq (to_string a) (to_string b) ≡ net_eq a b
  str_eq-to_string a b =
      Bool-eq_of_iff _ _ (λ h. (net_eq_iff a b).1 (to_string-injective a b ((eq_iff _ _).0 h)))
        (λ h. (eq_iff _ _).1 (ap to_string ((net_eq_iff a b).0 h)))

  any_of-to_string :
      (c : Net) (seen : List Net)
      → any_of (str_eq (to_string c)) (map to_string seen) ≡ member net_eq c seen
  unfolding member
  any_of-to_string c [] = refl
  any_of-to_string c (n ∷ seen) = rw (str_eq-to_string c n, any_of-to_string c seen) refl

  -- the texts of a set of networks
  abbrev pub Mirrors : List String → DistinctSideCidrs Net → Type 0
  Mirrors set d = (set ≡ map to_string d.seen) × (length d.order ≡ length set)

  Mirrors-insert :
      (set : List String) (d : DistinctSideCidrs Net) (c : Net)
      → Mirrors set d
      → Mirrors (set_insert (to_string c) set) (observe_one net_eq d c)
  unfolding set_insert observe_one
  Mirrors-insert set d c (h, l) = elim (Bool-cases (member net_eq c d.seen)) [
    | inl old ↦
        let hit : any_of (str_eq (to_string c)) set ≡ true =
          rw h (any_of-to_string c d.seen ∙ old) in
        rw (old, hit) (h, l)
    | inr new ↦
        let miss : any_of (str_eq (to_string c)) set ≡ false =
          rw h (any_of-to_string c d.seen ∙ new) in
        rw (new, miss)
          (
            ap (λ (t : List String). to_string c ∷ t) h,
            omega (arith, l, length-append d.order (c ∷ [])),
          )
  ]

  pub Mirrors-extend :
      (set : List String) (d : DistinctSideCidrs Net) (ns : List Net)
      → Mirrors set d
      → Mirrors (set_extend set (map to_string ns)) (observe net_eq d ns)
  unfolding set_extend observe
  Mirrors-extend set d [] m = m
  Mirrors-extend set d (n ∷ ns) m =
      Mirrors-extend (set_insert (to_string n) set) (observe_one net_eq d n) ns
        (Mirrors-insert set d n m)
