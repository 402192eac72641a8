-- ===== src/Enforcer/Flatten/Capacity.antt =====
-- The capacity that `flatten` checks once for each rule is the one that `check_lpm_capacity` checks
-- over the flat rules, though a rule with several port ranges is flattened into several.
use wire_mesh.Common.{
  ℕ, suc, ◌≡◌, refl, sym, subst, ◌∙◌, ap, Bool, true, false, ◌↔◌, List, [], ◌∷◌, ◌++◌, is_empty,
  arith, Bool-cases, inl, inr, In, here, there,
}
use wire_mesh.Common.Result.{ok, >>=-eq-ok, ok-injective}
use wire_mesh.External.Ipnet.{Ipnet}
use wire_mesh.Policy.Ir.{IrRule, IrBlock, PolicyIr}
use wire_mesh.Enforcer.Flatten.{
  FlatRule, Side, src, dst, Progress, explode, push_rule, parse_cidrs, check_side, flatten_rule,
  flatten_rules, flatten_blocks, flatten, start, reindex,
}
use wire_mesh.Enforcer.Flatten.Shape.{Accepted, flatten_rule-Accepted, flatten-eq-ok}
use wire_mesh.Enforcer.Flatten.Distinct.{
  DistinctSideCidrs, default, member, observe_one, observe, over_capacity,
}
use wire_mesh.Enforcer.Tables.{side_cidrs, accumulate_from, accumulate_side, check_lpm_capacity}

module _ {Net : Type 0} (eq : Net → Net → Bool)
    (eq_iff : (a b : Net) → (eq a b ≡ true) ↔ (a ≡ b)) where
  member-observe_old :
      (c : Net) (d : DistinctSideCidrs Net) (cs : List Net)
      → member eq c d.seen ≡ true
      → member eq c (observe eq d cs).seen ≡ true
  unfolding observe
  member-observe_old c d [] h = h
  member-observe_old c d (e ∷ cs) h =
      member-observe_old c (observe_one eq d e) cs (unfold observe_one in ground (arith, h))

  member-observe_one :
      (c : Net) (d : DistinctSideCidrs Net) → member eq c (observe_one eq d c).seen ≡ true
  unfolding observe_one
  member-observe_one c d = ground (arith, (eq_iff c c).1 refl)

  -- CIDRs that were all seen change nothing.
  observe-seen :
      (d : DistinctSideCidrs Net) (cs : List Net)
      → ((c : Net) → In c cs → member eq c d.seen ≡ true)
      → observe eq d cs ≡ d
  unfolding observe
  observe-seen d [] h = refl
  observe-seen d (c ∷ cs) h =
      let old : observe_one eq d c ≡ d = unfold observe_one member in rw (h c (here refl)) in
      rw old (observe-seen d cs (λ e m. h e (there m)))

  member-observe :
      (d : DistinctSideCidrs Net) (cs : List Net) (c : Net)
      → In c cs
      → member eq c (observe eq d cs).seen ≡ true
  unfolding observe
  member-observe d [] c m = elim m [ ]
  member-observe d (x ∷ cs) c (here e) =
      member-observe_old c (observe_one eq d x) cs (rw (← e) (member-observe_one x d))
  member-observe d (x ∷ cs) c (there m) = member-observe (observe_one eq d x) cs c m

  pub observe-observe :
      (d : DistinctSideCidrs Net) (cs : List Net)
      → observe eq (observe eq d cs) cs ≡ observe eq d cs
  observe-observe d cs = observe-seen (observe eq d cs) cs (member-observe d cs)

-- the side that a rule's flat rules share
abbrev side_of {ℓ} : {A : Type ℓ} → A → A → Side → A
side_of s d src = s
side_of s d dst = d

module _ (ip : Ipnet) where
  open ip use {Net, net_eq, net_eq_iff}

  accumulate_from-append :
      (d : DistinctSideCidrs Net) (xs ys : List (FlatRule Net)) (side : Side)
      → accumulate_from ip d (xs ++ ys) side
        ≡ accumulate_from ip (accumulate_from ip d xs side) ys side
  unfolding accumulate_from
  accumulate_from-append d [] ys side = refl
  accumulate_from-append d (x ∷ xs) ys side =
      accumulate_from-append (observe net_eq d (side_cidrs x side)) xs ys side

  accumulate_from-reindex :
      (d : DistinctSideCidrs Net) (i : ℕ) (xs : List (FlatRule Net)) (side : Side)
      → accumulate_from ip d (reindex i xs) side ≡ accumulate_from ip d xs side
  unfolding accumulate_from reindex side_cidrs
  accumulate_from-reindex d i [] side = refl
  accumulate_from-reindex d i (x ∷ xs) src =
      accumulate_from-reindex (observe net_eq d x.src_cidrs) (suc i) xs src
  accumulate_from-reindex d i (x ∷ xs) dst =
      accumulate_from-reindex (observe net_eq d x.dst_cidrs) (suc i) xs dst

  accumulate_from-explode :
      (d : DistinctSideCidrs Net) (r : IrRule) (s t : List Net) (ps : List (ℕ × ℕ)) (side : Side)
      → accumulate_from ip (observe net_eq d (side_of s t side)) (explode r s t ps) side
        ≡ observe net_eq d (side_of s t side)
  unfolding accumulate_from explode side_cidrs
  accumulate_from-explode d r s t [] side = refl
  accumulate_from-explode d r s t ((lo, hi) ∷ ps) src =
      ap (λ (e : DistinctSideCidrs Net). accumulate_from ip e (explode r s t ps) src)
        (observe-observe net_eq net_eq_iff d s)
      ∙ accumulate_from-explode d r s t ps src
  accumulate_from-explode d r s t ((lo, hi) ∷ ps) dst =
      ap (λ (e : DistinctSideCidrs Net). accumulate_from ip e (explode r s t ps) dst)
        (observe-observe net_eq net_eq_iff d t)
      ∙ accumulate_from-explode d r s t ps dst

  accumulate_from-ports :
      (d : DistinctSideCidrs Net) (r : IrRule) (s t : List Net) (ps : List (ℕ × ℕ)) (side : Side)
      → is_empty ps ≡ false
      → accumulate_from ip d (explode r s t ps) side ≡ observe net_eq d (side_of s t side)
  unfolding accumulate_from explode side_cidrs
  accumulate_from-ports d r s t [] side h = cc
  accumulate_from-ports d r s t ((lo, hi) ∷ ps) src h = accumulate_from-explode d r s t ps src
  accumulate_from-ports d r s t ((lo, hi) ∷ ps) dst h = accumulate_from-explode d r s t ps dst

  -- The flat rules of a rule add its CIDRs once.
  accumulate_from-push_rule :
      (d : DistinctSideCidrs Net) (r : IrRule) (s t : List Net) (side : Side)
      → accumulate_from ip d (push_rule r s t) side ≡ observe net_eq d (side_of s t side)
  unfolding push_rule
  accumulate_from-push_rule d r s t side = elim (Bool-cases (is_empty r.ports)) [
    | inl bare ↦ rw bare (accumulate_from-ports d r s t ((0, 0) ∷ []) side refl)
    | inr listed ↦ rw listed (accumulate_from-ports d r s t r.ports side listed)
  ]

  pub record IsCounted (p : Progress Net) : Type 0 where
    pub src_same : accumulate_from ip default p.flat src ≡ p.src_distinct
    pub dst_same : accumulate_from ip default p.flat dst ≡ p.dst_distinct
    pub src_room : over_capacity p.src_distinct ≡ false
    pub dst_room : over_capacity p.dst_distinct ≡ false

  start-IsCounted : IsCounted (start ip)
  unfolding accumulate_from over_capacity
  start-IsCounted = record { src_same = refl; dst_same = refl; src_room = refl; dst_room = refl }

  Accepted-IsCounted :
      (bs bd : List Net) (p q : Progress Net) (r : IrRule)
      → Accepted ip bs bd p q r
      → IsCounted p
      → IsCounted q
  Accepted-IsCounted bs bd p q r a h = record {
    src_same =
        rw
          (
            a.pushed,
            accumulate_from-append default p.flat (push_rule r a.src_nets a.dst_nets) src,
            h.src_same,
          )
          (accumulate_from-push_rule p.src_distinct r a.src_nets a.dst_nets src ∙ sym a.src_seen);
    dst_same =
        rw
          (
            a.pushed,
            accumulate_from-append default p.flat (push_rule r a.src_nets a.dst_nets) dst,
            h.dst_same,
          )
          (accumulate_from-push_rule p.dst_distinct r a.src_nets a.dst_nets dst ∙ sym a.dst_seen);
    src_room = a.src_room;
    dst_room = a.dst_room;
  }

  flatten_rules-IsCounted :
      (b : IrBlock) (bs bd : List Net) (p : Progress Net) (rs : List IrRule) {q : Progress Net}
      → flatten_rules ip b bs bd p rs ≡ ok q
      → IsCounted p
      → IsCounted q
  unfolding flatten_rules
  flatten_rules-IsCounted b bs bd p [] {q} e h = subst IsCounted (ok-injective e) h
  flatten_rules-IsCounted b bs bd p (r ∷ rs) e h =
      let (m, e1, e2) = >>=-eq-ok (flatten_rule ip b bs bd p r) _ e in
      flatten_rules-IsCounted b bs bd m rs e2
        (Accepted-IsCounted bs bd p m r (flatten_rule-Accepted ip b bs bd p r e1) h)

  flatten_blocks-IsCounted :
      (p : Progress Net) (bs : List IrBlock) {q : Progress Net}
      → flatten_blocks ip p bs ≡ ok q
      → IsCounted p
      → IsCounted q
  unfolding flatten_blocks
  flatten_blocks-IsCounted p [] e h = subst IsCounted (ok-injective e) h
  flatten_blocks-IsCounted p (b ∷ bs) e h =
      let (s, e1, r1) = >>=-eq-ok (parse_cidrs ip b.src_cidrs) _ e in
      let (d, e2, r2) = >>=-eq-ok (parse_cidrs ip b.dst_cidrs) _ r1 in
      let (m, e3, r3) = >>=-eq-ok (flatten_rules ip b s d p b.rules) _ r2 in
      flatten_blocks-IsCounted m bs r3 (flatten_rules-IsCounted b s d p b.rules e3 h)

  -- The sides of the flat rules have room in their tries.
  pub flatten-room :
      (ir : PolicyIr) {flat : List (FlatRule Net)}
      → flatten ip ir ≡ ok flat
      → (over_capacity (accumulate_side ip flat src) ≡ false)
        × (over_capacity (accumulate_side ip flat dst) ≡ false)
  unfolding accumulate_side
  flatten-room ir {flat} h =
      let (p, run, out, _) = flatten-eq-ok ip ir h in
      let c = flatten_blocks-IsCounted (start ip) ir.blocks run start-IsCounted in
      (
        rw (out, accumulate_from-reindex default 0 p.flat src, c.src_same) c.src_room,
        rw (out, accumulate_from-reindex default 0 p.flat dst, c.dst_same) c.dst_room,
      )

  -- A policy that `flatten` accepts always passes `check_lpm_capacity`.
  pub check_lpm_capacity-flatten :
      (ir : PolicyIr) {flat : List (FlatRule Net)}
      → flatten ip ir ≡ ok flat
      → check_lpm_capacity ip flat ≡ ok tt
  unfolding check_lpm_capacity check_side
  check_lpm_capacity-flatten ir {flat} h = let r = flatten-room ir h in ground (arith, r)
