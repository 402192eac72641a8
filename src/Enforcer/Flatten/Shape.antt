-- ===== src/Enforcer/Flatten/Shape.antt =====
-- What `flatten` returns: how many rules, in what order, and within what capacity.
use wire_mesh.Common.{
  ℕ, suc, ◌+◌, ◌≤◌, max, ◌≡◌, refl, sym, ◌∙◌, ap, false, List, [], ◌∷◌, ◌++◌, ltb, if◌then◌else◌,
  length, is_empty, sum_of, arith, Bool-cases, inl, inr, length-append,
}
use wire_mesh.Common.Result.{Result, ok, err, >>=-eq-ok, ok-injective}
use wire_mesh.External.Ipnet.{Ipnet}
use wire_mesh.Policy.Ir.{IrRule, IrBlock, PolicyIr}
use wire_mesh.Enforcer.RuleBits.{max_rules}
use wire_mesh.Enforcer.Flatten.{
  FlatRule, FlattenError, Side, src, dst, Progress, expansion, expanded, explode, push_rule,
  parse_cidrs, effective, check_side, check_some, no_cidrs, flatten_rule, flatten_rules,
  flatten_blocks, flatten, start, reindex,
}
use wire_mesh.Enforcer.Flatten.Distinct.{DistinctSideCidrs, observe, over_capacity}

-- What a rule that is accepted has, with the two sides in force.
pub record Accepted (ip : Ipnet) (block_src block_dst : List (Ipnet.Net ip))
    (p q : Progress (Ipnet.Net ip)) (r : IrRule) : Type 0 where
  pub src_nets : List (Ipnet.Net ip)
  pub dst_nets : List (Ipnet.Net ip)
  pub src_in_force : effective ip block_src r.src ≡ ok src_nets
  pub dst_in_force : effective ip block_dst r.dst ≡ ok dst_nets
  pub src_some : is_empty src_nets ≡ false
  pub dst_some : is_empty dst_nets ≡ false
  pub pushed : q.flat ≡ p.flat ++ push_rule r src_nets dst_nets
  pub src_seen : q.src_distinct ≡ observe ip.net_eq p.src_distinct src_nets
  pub dst_seen : q.dst_distinct ≡ observe ip.net_eq p.dst_distinct dst_nets
  pub src_room : over_capacity q.src_distinct ≡ false
  pub dst_room : over_capacity q.dst_distinct ≡ false

err_ne_ok {ℓ κ} :
    {E : Type κ} {A : Type ℓ} {e : E} {a : A} → ◌≡◌ {A = Result E A} (err e) (ok a) → ⊥
err_ne_ok h = cc

length-reindex :
    {Net : Type 0} (i : ℕ) (fs : List (FlatRule Net)) → length (reindex i fs) ≡ length fs
unfolding reindex
length-reindex i [] = refl
length-reindex i (f ∷ fs) = ap suc (length-reindex (suc i) fs)

module _ (ip : Ipnet) where
  open ip use {Net, net_eq}

  check_some-ok :
      (e : FlattenError) (cs : List Net) {t : Unit {0}}
      → check_some ip e cs ≡ ok t
      → is_empty cs ≡ false
  unfolding check_some
  check_some-ok e cs h = ground arith

  check_side-ok :
      (s : Side) (d : DistinctSideCidrs Net) {t : Unit {0}}
      → check_side ip s d ≡ ok t
      → over_capacity d ≡ false
  unfolding check_side
  check_side-ok s d h = ground arith

  -- A rule that `flatten` accepts has both sides, and room on both.
  pub flatten_rule-Accepted :
      (b : IrBlock) (bs bd : List Net) (p : Progress Net) (r : IrRule) {q : Progress Net}
      → flatten_rule ip b bs bd p r ≡ ok q
      → Accepted ip bs bd p q r
  unfolding flatten_rule
  flatten_rule-Accepted b bs bd p r {q} h =
      let (s, es, h1) = >>=-eq-ok (effective ip bs r.src) _ h in
      let (d, ed, h2) = >>=-eq-ok (effective ip bd r.dst) _ h1 in
      let (_, gs, h3) = >>=-eq-ok (check_some ip (no_cidrs b.from b.to r.rule_id src) s) _ h2 in
      let (_, gd, h4) = >>=-eq-ok (check_some ip (no_cidrs b.from b.to r.rule_id dst) d) _ h3 in
      let (_, cs, h5) = >>=-eq-ok (check_side ip src (observe net_eq p.src_distinct s)) _ h4 in
      let (_, cd, h6) = >>=-eq-ok (check_side ip dst (observe net_eq p.dst_distinct d)) _ h5 in
      record {
        src_nets = s;
        dst_nets = d;
        src_in_force = es;
        dst_in_force = ed;
        src_some = check_some-ok (no_cidrs b.from b.to r.rule_id src) s gs;
        dst_some = check_some-ok (no_cidrs b.from b.to r.rule_id dst) d gd;
        pushed = cc;
        src_seen = cc;
        dst_seen = cc;
        src_room = ground (arith, check_side-ok src (observe net_eq p.src_distinct s) cs);
        dst_room = ground (arith, check_side-ok dst (observe net_eq p.dst_distinct d) cd);
      }

  -- What stands behind a policy that `flatten` accepts.
  pub flatten-eq-ok :
      (ir : PolicyIr) {flat : List (FlatRule Net)}
      → flatten ip ir ≡ ok flat
      → (p : Progress Net) × (flatten_blocks ip (start ip) ir.blocks ≡ ok p)
        × (flat ≡ reindex 0 p.flat)
        × (ltb max_rules (expanded ir.blocks) ≡ false)
  unfolding flatten
  flatten-eq-ok ir h = elim (Bool-cases (ltb max_rules (expanded ir.blocks))) [
    | inl over ↦ absurd (err_ne_ok (rw over at h))
    | inr fits ↦
        let (p, run, out) = >>=-eq-ok (flatten_blocks ip (start ip) ir.blocks) _ (rw fits at h) in
        (p, run, sym (ok-injective out), fits)
  ]

  length-explode :
      (r : IrRule) (s d : List Net) (ps : List (ℕ × ℕ)) → length (explode r s d ps) ≡ length ps
  unfolding explode
  length-explode r s d [] = refl
  length-explode r s d ((lo, hi) ∷ ps) = ap suc (length-explode r s d ps)

  length-push_rule_ports :
      (r : IrRule) (s d : List Net) (ps : List (ℕ × ℕ))
      → length (if is_empty ps then explode r s d ((0, 0) ∷ []) else explode r s d ps)
        ≡ max (length ps) 1
  unfolding explode
  length-push_rule_ports r s d [] = refl
  length-push_rule_ports r s d (p ∷ ps) = rw (length-explode r s d (p ∷ ps)) (omega arith)

  length-push_rule : (r : IrRule) (s d : List Net) → length (push_rule r s d) ≡ expansion r
  unfolding push_rule expansion
  length-push_rule r s d = length-push_rule_ports r s d r.ports

  length-flatten_rules :
      (b : IrBlock) (bs bd : List Net) (p : Progress Net) (rs : List IrRule) {q : Progress Net}
      → flatten_rules ip b bs bd p rs ≡ ok q
      → length q.flat ≡ length p.flat + sum_of expansion rs
  unfolding flatten_rules
  length-flatten_rules b bs bd p [] {q} e =
      omega (arith, ap (λ (x : Progress Net). length x.flat) (ok-injective e))
  length-flatten_rules b bs bd p (r ∷ rs) {q} e =
      let (m, e1, e2) = >>=-eq-ok (flatten_rule ip b bs bd p r) _ e in
      let a = flatten_rule-Accepted b bs bd p r e1 in
      omega (
        arith,
        length-flatten_rules b bs bd m rs e2,
        ap length a.pushed,
        length-append p.flat (push_rule r a.src_nets a.dst_nets),
        length-push_rule r a.src_nets a.dst_nets,
      )

  length-flatten_blocks :
      (p : Progress Net) (bs : List IrBlock) {q : Progress Net}
      → flatten_blocks ip p bs ≡ ok q
      → length q.flat ≡ length p.flat + expanded bs
  unfolding flatten_blocks expanded
  length-flatten_blocks p [] {q} e =
      omega (arith, ap (λ (x : Progress Net). length x.flat) (ok-injective e))
  length-flatten_blocks p (b ∷ bs) {q} e =
      let (s, e1, r1) = >>=-eq-ok (parse_cidrs ip b.src_cidrs) _ e in
      let (d, e2, r2) = >>=-eq-ok (parse_cidrs ip b.dst_cidrs) _ r1 in
      let (m, e3, r3) = >>=-eq-ok (flatten_rules ip b s d p b.rules) _ r2 in
      omega (arith, length-flatten_blocks m bs r3, length-flatten_rules b s d p b.rules e3)

  -- The bound that is checked before the expansion is the length of the expansion, and at most 256.
  pub length-flatten :
      (ir : PolicyIr) {flat : List (FlatRule Net)}
      → flatten ip ir ≡ ok flat
      → (length flat ≡ expanded ir.blocks) × (length flat ≤ max_rules)
  length-flatten ir {flat} h =
      let (p, run, out, fits) = flatten-eq-ok ir h in
      let all = length-flatten_blocks (start ip) ir.blocks run in
      let same : length flat ≡ length p.flat = ap length out ∙ length-reindex 0 p.flat in
      let bound : expanded ir.blocks ≤ max_rules = ground arith in (omega arith, omega arith)
