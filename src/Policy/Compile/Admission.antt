-- ===== src/Policy/Compile/Admission.antt =====
-- A policy that validates and compiles is never refused by the gateway's `flatten`: the limits that
-- the controller counts on texts are those that the gateway counts on networks.
use wire_mesh.Policy.Validate.{validate}
use wire_mesh.Policy.Ir.{IrBlock}
use wire_mesh.Policy.Dsl.{PolicyDoc}
use wire_mesh.Policy.Compile.{
  compile, within_limits, on_dst, PolicyIr, on_src, IrRule, CompileError, SegmentDef,
}
use wire_mesh.Policy.Limits.{
  side_errors, flattened_count, rules_errors, distinct_count, extend_rules, limit_errors,
  set_extend, effective_texts, extend_blocks,
}
use wire_mesh.Common.{
  ℕ, ◌≤◌, String, ◌≡◌, refl, sym, ap, ◌∙◌, false, List, [], ◌∷◌, ◌++◌, map, arith, ltb,
  if◌then◌else◌, length, is_empty, In,
}
use wire_mesh.Policy.Compile.Sets.{
  length-extend_rules, length-extend_blocks, Mirrors, Mirrors-extend,
}
use wire_mesh.Common.Result.{ok, ok-injective}
use wire_mesh.External.Ipnet.{Ipnet}
use wire_mesh.Policy.Compile.Success.{AllIn-In, AllIn, IsRange, ++-eq-nil}
use wire_mesh.Policy.Compile.Lowering.{Lowered, LoweredBlock, validate-lowered}
use wire_mesh.Enforcer.Flatten.{
  FlatRule, Progress, parse_cidrs, effective, check_some, check_side, flatten_rule, flatten_rules,
  flatten_blocks, flatten, start, reindex, expanded, expansion, push_rule,
}
use wire_mesh.Enforcer.Flatten.Distinct.{DistinctSideCidrs, observe, over_capacity}
use wire_mesh.Enforcer.Flatten.{Side}

module _ (ip : Ipnet) where
  open ip use {Net, net_eq, net_eq_iff, parse, to_string, parse-to_string}

  parse_cidrs-to_string : (ns : List Net) → parse_cidrs ip (map to_string ns) ≡ ok ns
  unfolding parse_cidrs
  parse_cidrs-to_string [] = refl
  parse_cidrs-to_string (n ∷ ns) = rw (parse-to_string n, parse_cidrs-to_string ns) refl

  -- a side that a rule takes from its block, or has
  side-effective :
      (block_texts : List String) (block_nets : List Net) (own : List String) (nets : List Net)
      → block_texts ≡ map to_string block_nets
      → is_empty block_nets ≡ false
      → own ≡ map to_string nets
      → (s : List Net) × (effective ip block_nets own ≡ ok s)
        × (is_empty s ≡ false)
        × ((if is_empty own then block_texts else own) ≡ map to_string s)
  unfolding effective
  side-effective bt bn own [] hb nb ho = (bn, rw ho refl, nb, rw ho hb)
  side-effective bt bn own (n ∷ ns) hb nb ho =
      (n ∷ ns, rw ho (parse_cidrs-to_string (n ∷ ns)), refl, rw ho refl)

  -- what the sets of both sides hold at a point of both loops
  abbrev Tracks : List String → List String → Progress Net → Type 0
  Tracks ss ds p = Mirrors ip ss p.src_distinct × Mirrors ip ds p.dst_distinct

  check_side-fits :
      (side : Side) (set : List String) (d : DistinctSideCidrs Net)
      → Mirrors ip set d
      → length set ≤ 1024
      → check_side ip side d ≡ ok tt
  unfolding check_side over_capacity
  check_side-fits side set d (_, l) h = ground arith

  rule-admitted :
      (b : IrBlock) (lb : LoweredBlock ip b) (ss ds : List String) (p : Progress Net) (r : IrRule)
      → Lowered ip r
      → Tracks ss ds p
      → length (set_extend ss (effective_texts on_src b r)) ≤ 1024
      → length (set_extend ds (effective_texts on_dst b r)) ≤ 1024
      → (q : Progress Net) × (flatten_rule ip b lb.src_nets lb.dst_nets p r ≡ ok q)
        × Tracks
            (set_extend ss (effective_texts on_src b r))
            (set_extend ds (effective_texts on_dst b r))
            q
  unfolding flatten_rule effective_texts check_some
  rule-admitted b lb ss ds p r l (ms, md) hs hd =
      let (s, es, ns, ts) =
        side-effective b.src_cidrs lb.src_nets r.src l.src_nets lb.src_texts lb.src_some
          l.src_texts in
      let (d, ed, nd, td) =
        side-effective b.dst_cidrs lb.dst_nets r.dst l.dst_nets lb.dst_texts lb.dst_some
          l.dst_texts in
      let ms' : Mirrors ip (set_extend ss (effective_texts on_src b r))
          (observe net_eq p.src_distinct s) =
        rw ts (Mirrors-extend ip ss p.src_distinct s ms) in
      let md' : Mirrors ip (set_extend ds (effective_texts on_dst b r))
          (observe net_eq p.dst_distinct d) =
        rw td (Mirrors-extend ip ds p.dst_distinct d md) in
      let cs = check_side-fits Side.src _ _ ms' hs in
      let cd = check_side-fits Side.dst _ _ md' hd in
      (
        record {
          flat = p.flat ++ push_rule r s d;
          src_distinct = observe net_eq p.src_distinct s;
          dst_distinct = observe net_eq p.dst_distinct d;
        },
        rw (es, ed, ns, nd, cs, cd) refl,
        (ms', md'),
      )

  rules-admitted :
      (b : IrBlock) (lb : LoweredBlock ip b) (ss ds : List String) (p : Progress Net)
      (rs : List IrRule)
      → AllIn (Lowered ip) rs
      → Tracks ss ds p
      → length (extend_rules on_src b ss rs) ≤ 1024
      → length (extend_rules on_dst b ds rs) ≤ 1024
      → (q : Progress Net) × (flatten_rules ip b lb.src_nets lb.dst_nets p rs ≡ ok q)
        × Tracks (extend_rules on_src b ss rs) (extend_rules on_dst b ds rs) q
  unfolding flatten_rules extend_rules
  rules-admitted b lb ss ds p [] ls t hs hd = (p, refl, t)
  rules-admitted b lb ss ds p (r ∷ rs) (l, ls) t hs hd =
      let ss' = set_extend ss (effective_texts on_src b r) in
      let ds' = set_extend ds (effective_texts on_dst b r) in
      let (q, e, t') =
        rule-admitted b lb ss ds p r l t (omega (arith, length-extend_rules on_src b ss' rs, hs))
          (omega (arith, length-extend_rules on_dst b ds' rs, hd)) in
      let (q', e', t'') = rules-admitted b lb ss' ds' q rs ls t' hs hd in (q', rw e e', t'')

  blocks-admitted :
      (ss ds : List String) (p : Progress Net) (bs : List IrBlock)
      → AllIn (LoweredBlock ip) bs
      → Tracks ss ds p
      → length (extend_blocks on_src ss bs) ≤ 1024
      → length (extend_blocks on_dst ds bs) ≤ 1024
      → (q : Progress Net) × (flatten_blocks ip p bs ≡ ok q)
  unfolding flatten_blocks extend_blocks
  blocks-admitted ss ds p [] ls t hs hd = (p, refl)
  blocks-admitted ss ds p (b ∷ bs) (l, ls) t hs hd =
      let ss' = extend_rules on_src b ss b.rules in
      let ds' = extend_rules on_dst b ds b.rules in
      let ps : parse_cidrs ip b.src_cidrs ≡ ok l.src_nets =
        rw l.src_texts (parse_cidrs-to_string l.src_nets) in
      let pd : parse_cidrs ip b.dst_cidrs ≡ ok l.dst_nets =
        rw l.dst_texts (parse_cidrs-to_string l.dst_nets) in
      let (q, e, t') =
        rules-admitted b l ss ds p b.rules l.rules t
          (omega (arith, length-extend_blocks on_src ss' bs, hs))
          (omega (arith, length-extend_blocks on_dst ds' bs, hd)) in
      let (q', e') = blocks-admitted ss' ds' q bs ls t' hs hd in (q', rw (ps, pd, e) e')

  limits-admitted :
      (bs : List IrBlock) (ir : PolicyIr)
      → ir.blocks ≡ bs
      → AllIn (LoweredBlock ip) bs
      → limit_errors bs ≡ []
      → (flat : List (FlatRule Net)) × (flatten ip ir ≡ ok flat)
  unfolding limit_errors distinct_count flatten expanded
  limits-admitted bs ir same ls h =
      let (h1, rest) = ++-eq-nil (rules_errors (flattened_count bs)) _ h in
      let (h2, h3) = ++-eq-nil (side_errors on_src (distinct_count on_src bs)) _ rest in
      let room : ltb 256 (flattened_count bs) ≡ false = ground (arith, h1) in
      let (q, e) =
        blocks-admitted [] [] (start ip) bs ls ((refl, refl), (refl, refl)) (ground (arith, h2))
          (ground (arith, h3)) in
      (reindex 0 q.flat, unfold flattened_count expansion in rw (same, room, e) refl)

  within_limits-ok :
      (version : ℕ) (bs : List IrBlock) (es : List CompileError) {ir : PolicyIr}
      → within_limits version bs es ≡ ok ir
      → (es ≡ []) × (ir.blocks ≡ bs)
  within_limits-ok version bs [] {ir} h =
      (refl, ap (λ (i : PolicyIr). i.blocks) (sym (ok-injective h)))
  within_limits-ok version bs (e ∷ es) h = cc

  -- A policy that `validate` and `compile` accept is one that `flatten` accepts.
  pub flatten-compile :
      (sha256 : String → List ℕ) (doc : PolicyDoc) (segments : List (SegmentDef Net)) (version : ℕ)
      {ir : PolicyIr}
      → validate ip doc segments ≡ []
      → compile ip sha256 doc segments version ≡ ok ir
      → (flat : List (FlatRule Net)) × (flatten ip ir ≡ ok flat)
  flatten-compile sha256 doc segments version {ir} h k =
      let (bs, e, ls) = validate-lowered ip sha256 doc segments version h in
      let (none', same) = within_limits-ok version bs (limit_errors bs) (sym e ∙ k) in
      limits-admitted bs ir same ls none'

  -- Each port range of a policy that `validate` and `compile` accept lies in 1 to 65535, with its
  -- ends in order.
  pub compile-IsRange :
      (sha256 : String → List ℕ) (doc : PolicyDoc) (segments : List (SegmentDef Net)) (version : ℕ)
      {ir : PolicyIr}
      → validate ip doc segments ≡ []
      → compile ip sha256 doc segments version ≡ ok ir
      → (b : IrBlock) (r : IrRule) (q : ℕ × ℕ) → In b ir.blocks
      → In r b.rules
      → In q r.ports
      → IsRange q
  compile-IsRange sha256 doc segments version {ir} h k b r q mb mr mq =
      let (bs, e, ls) = validate-lowered ip sha256 doc segments version h in
      let (_, same) = within_limits-ok version bs (limit_errors bs) (sym e ∙ k) in
      let lb = AllIn-In (LoweredBlock ip) bs ls (rw same at mb) in
      let lr = AllIn-In (Lowered ip) b.rules lb.rules mr in AllIn-In IsRange r.ports lr.ranges mq
