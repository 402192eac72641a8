-- ===== src/Policy/Compile/Lowering.antt =====
-- A policy without a validation error is lowered block by block, and `compile` never panics on it.
use wire_mesh.Policy.Compile.{
  unnamed, named, on_dst, allow, on_src, find_segment, action_of, RuleBody, IrAction, deny,
  BlockSrc, sorted_cidr_strings, within_limits, panicked, RuleSrc, compile, compile_blocks,
  SegmentDef, CompileError, normalized_cidr_strings, compile_rule, compile_rules, compile_block,
  sort_by_key, insert_sorted,
}
use wire_mesh.Policy.Limits.{limit_errors}
use wire_mesh.Policy.Dsl.{Field, PolicyDoc}
use wire_mesh.Policy.Ir.{IrRule, IrBlock}
use wire_mesh.Policy.Validate.{
  seen_at, pair_errors, cidr_errors, segment_errors, Seen, validate_rules, validate_blocks,
  validate_rule, validate_cidrs, validate, validate_block, validate_body,
}
use wire_mesh.Common.{
  ℕ, suc, String, ◌≡◌, refl, ◌≢◌, inl, inr, false, Option, none, some, List, [], ◌∷◌, map, arith,
  Option-cases, is_empty,
}
use wire_mesh.Common.Result.{ok, err}
use wire_mesh.External.Ipnet.{Ipnet}
use wire_mesh.Policy.Compile.Success.{AllIn, IsRange, ++-eq-nil, validate_ports-eq-nil}

-- the networks behind the texts of a compiled rule
pub record Lowered (ip : Ipnet) (r : IrRule) : Type 0 where
  pub src_nets : List (Ipnet.Net ip)
  pub dst_nets : List (Ipnet.Net ip)
  pub src_texts : r.src ≡ map ip.to_string src_nets
  pub dst_texts : r.dst ≡ map ip.to_string dst_nets
  pub ranges : AllIn IsRange r.ports

pub record LoweredBlock (ip : Ipnet) (b : IrBlock) : Type 0 where
  pub src_nets : List (Ipnet.Net ip)
  pub dst_nets : List (Ipnet.Net ip)
  pub src_texts : b.src_cidrs ≡ map ip.to_string src_nets
  pub dst_texts : b.dst_cidrs ≡ map ip.to_string dst_nets
  pub src_some : is_empty src_nets ≡ false
  pub dst_some : is_empty dst_nets ≡ false
  pub rules : AllIn (Lowered ip) b.rules

module _ (ip : Ipnet) where
  open ip use {Net, parse, to_string}

  is_empty-insert_sorted : (n : Net) (ns : List Net) → is_empty (insert_sorted ip n ns) ≡ false
  unfolding insert_sorted
  is_empty-insert_sorted n [] = refl
  is_empty-insert_sorted n (m ∷ ms) = ground arith

  is_empty-sort_by_key :
      (ns : List Net) → is_empty ns ≡ false → is_empty (sort_by_key ip ns) ≡ false
  unfolding sort_by_key
  is_empty-sort_by_key [] h = cc
  is_empty-sort_by_key (n ∷ ns) h = is_empty-insert_sorted n (sort_by_key ip ns)

  cidrs-lowered :
      (b r : ℕ) (field : Field) (raws : List String) (seg : Option (SegmentDef Net))
      → validate_cidrs ip b r field raws seg ≡ []
      → (ns : List Net) × (normalized_cidr_strings ip raws ≡ ok (map to_string ns))
  unfolding validate_cidrs normalized_cidr_strings
  cidrs-lowered b r field [] seg h = ([], refl)
  cidrs-lowered b r field (raw ∷ raws) seg h = elim (Option-cases (parse raw)) [
    | inl none' ↦ absurd (ground (arith, rw none' at h))
    | inr (n, e) ↦
        let (_, rest) =
          ++-eq-nil (cidr_errors ip b r field seg raw (parse raw))
            (validate_cidrs ip b r field raws seg) h in
        let (ns, es) = cidrs-lowered b r field raws seg rest in (n ∷ ns, rw (e, es) refl)
  ]

  module _ (sha256 : String → List ℕ) where
    body-Lowered :
        (from to : String) (b r : ℕ) (from_seg to_seg : Option (SegmentDef Net)) (rule : RuleSrc)
        (action : IrAction) (body : RuleBody)
        → action_of rule ≡ ok (action, body)
        → validate_body ip b r from_seg to_seg body ≡ []
        → (out : IrRule) × (compile_rule ip sha256 from to rule ≡ ok out) × Lowered ip out
    unfolding validate_body compile_rule
    body-Lowered from to b r from_seg to_seg rule action body chosen h =
        let (h1, rest) = ++-eq-nil (validate_cidrs ip b r on_src body.src from_seg) _ h in
        let (h2, h3) = ++-eq-nil (validate_cidrs ip b r on_dst body.dst to_seg) _ rest in
        let (s, es) = cidrs-lowered b r on_src body.src from_seg h1 in
        let (d, ed) = cidrs-lowered b r on_dst body.dst to_seg h2 in
        let (p, ep, qs, eq, fits) = validate_ports-eq-nil b r body h3 in
        (
          named ip sha256 from to (unnamed action p (map to_string s) (map to_string d) qs),
          rw (chosen, ep, es, ed, eq) refl,
          record { src_nets = s; dst_nets = d; src_texts = refl; dst_texts = refl; ranges = fits },
        )

    rule-Lowered :
        (from to : String) (b r : ℕ) (from_seg to_seg : Option (SegmentDef Net)) (rule : RuleSrc)
        → validate_rule ip b r from_seg to_seg rule ≡ []
        → (out : IrRule) × (compile_rule ip sha256 from to rule ≡ ok out) × Lowered ip out
    unfolding validate_rule
    rule-Lowered from to b r from_seg to_seg rule h = elim (Option-cases rule.allow) [
      | inl no_allow' ↦ elim (Option-cases rule.deny) [
        | inl no_deny' ↦ absurd (ground (arith, rw (no_allow', no_deny') at h))
        | inr (body, e) ↦
            body-Lowered from to b r from_seg to_seg rule deny body
              (unfold action_of in rw (no_allow', e) refl) (rw (no_allow', e) at h)
      ]
      | inr (body, e) ↦ elim (Option-cases rule.deny) [
        | inl no_deny' ↦
            body-Lowered from to b r from_seg to_seg rule allow body
              (unfold action_of in rw (e, no_deny') refl) (rw (e, no_deny') at h)
        | inr (other, f) ↦ absurd (ground (arith, rw (e, f) at h))
      ]
    ]

    rules-Lowered :
        (from to : String) (b r : ℕ) (from_seg to_seg : Option (SegmentDef Net))
        (rules : List RuleSrc)
        → validate_rules ip b r from_seg to_seg rules ≡ []
        → (out : List IrRule) × (compile_rules ip sha256 from to rules ≡ ok out)
          × AllIn (Lowered ip) out
    unfolding validate_rules compile_rules
    rules-Lowered from to b r from_seg to_seg [] h = ([], refl, tt)
    rules-Lowered from to b r from_seg to_seg (rule ∷ rules) h =
        let (h1, h2) = ++-eq-nil (validate_rule ip b r from_seg to_seg rule) _ h in
        let (o, e, l) = rule-Lowered from to b r from_seg to_seg rule h1 in
        let (os, es, ls) = rules-Lowered from to b (suc r) from_seg to_seg rules h2 in
        (o ∷ os, rw (e, es) refl, (l, ls))

    segment-found :
        (b : ℕ) (field : Field) (name : String) (o : Option (SegmentDef Net))
        → segment_errors ip b field name o ≡ []
        → (seg : SegmentDef Net) × (o ≡ some seg) × (is_empty seg.cidrs ≡ false)
    segment-found b field name none h = cc
    segment-found b field name (some seg) h = (seg, refl, ground (arith, h))

    block-lowered :
        (b : ℕ) (segments : List (SegmentDef Net)) (seen : Seen ip) (block : BlockSrc)
        → validate_block ip b segments seen block ≡ []
        → (out : IrBlock) × (compile_block ip sha256 segments block ≡ ok out) × LoweredBlock ip out
    unfolding validate_block compile_block sorted_cidr_strings
    block-lowered b segments seen block h =
        let from_seg = find_segment ip block.from segments in
        let to_seg = find_segment ip block.to segments in
        let (h1, r1) = ++-eq-nil (segment_errors ip b on_src block.from from_seg) _ h in
        let (h2, r2) = ++-eq-nil (segment_errors ip b on_dst block.to to_seg) _ r1 in
        let (_, h4) = ++-eq-nil (pair_errors ip b (seen_at ip block.from block.to seen)) _ r2 in
        let (sf, ef, nf) = segment-found b on_src block.from from_seg h1 in
        let (st, et, nt) = segment-found b on_dst block.to to_seg h2 in
        let (rs, er, ls) = rules-Lowered block.from block.to b 0 from_seg to_seg block.rules h4 in
        (
          record {
            from = block.from;
            to = block.to;
            src_cidrs = sorted_cidr_strings ip sf.cidrs;
            dst_cidrs = sorted_cidr_strings ip st.cidrs;
            rules = rs;
          },
          rw (ef, et, er) refl,
          record {
            src_nets = sort_by_key ip sf.cidrs;
            dst_nets = sort_by_key ip st.cidrs;
            src_texts = refl;
            dst_texts = refl;
            src_some = is_empty-sort_by_key sf.cidrs nf;
            dst_some = is_empty-sort_by_key st.cidrs nt;
            rules = ls;
          },
        )

    blocks-lowered :
        (b : ℕ) (segments : List (SegmentDef Net)) (seen : Seen ip) (blocks : List BlockSrc)
        → validate_blocks ip b segments seen blocks ≡ []
        → (out : List IrBlock) × (compile_blocks ip sha256 segments blocks ≡ ok out)
          × AllIn (LoweredBlock ip) out
    unfolding validate_blocks compile_blocks
    blocks-lowered b segments seen [] h = ([], refl, tt)
    blocks-lowered b segments seen (block ∷ blocks) h =
        let (h1, h2) = ++-eq-nil (validate_block ip b segments seen block) _ h in
        let (o, e, l) = block-lowered b segments seen block h1 in
        let (os, es, ls) = blocks-lowered (suc b) segments _ blocks h2 in
        (o ∷ os, rw (e, es) refl, (l, ls))

    -- The blocks of a policy without errors, within the limits or not.
    pub validate-lowered :
        (doc : PolicyDoc) (segments : List (SegmentDef Net)) (version : ℕ)
        → validate ip doc segments ≡ []
        → (bs : List IrBlock) × (compile ip sha256 doc segments version
            ≡ within_limits version bs (limit_errors bs))
          × AllIn (LoweredBlock ip) bs
    unfolding validate compile
    validate-lowered doc segments version h =
        let (bs, e, ls) = blocks-lowered 0 segments [] doc.policy h in (bs, rw e refl, ls)

    within_limits-panicked :
        (version : ℕ) (bs : List IrBlock) (es : List CompileError)
        → within_limits version bs es ≢ err panicked
    within_limits-panicked version bs [] h = cc
    within_limits-panicked version bs (e ∷ es) h = cc

    -- A policy in which `validate` finds no error never makes `compile` panic.
    pub compile-panicked :
        (doc : PolicyDoc) (segments : List (SegmentDef Net)) (version : ℕ)
        → validate ip doc segments ≡ []
        → compile ip sha256 doc segments version ≢ err panicked
    compile-panicked doc segments version h =
        let (bs, e, _) = validate-lowered doc segments version h in
        rw e (within_limits-panicked version bs (limit_errors bs))
