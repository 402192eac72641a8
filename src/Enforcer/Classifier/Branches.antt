-- ===== src/Enforcer/Classifier/Branches.antt =====
-- The verdict of the ingress classifier on every packet, in one equation.
use wire_mesh.Common.{
  ℕ, Bool, true, false, ◌||◌, Option, none, some, List, ◌==◌, if◌then◌else◌, ◌≡◌, refl, subst, ◌∙◌,
  ap, arith, Bool-cases, Option-cases, inl, inr,
}
use wire_mesh.Enforcer.Maps.{RuleMeta, Maps, act_allow}
use wire_mesh.Enforcer.Scan.{deciding_rule}
use wire_mesh.Enforcer.Flow.{FlowKey, flow_key_eq_iff, timeout_ns}
use wire_mesh.Enforcer.Packet.{Ipv4, ipv4_at, embedded_key, forward_key, reverse_key}
use wire_mesh.Enforcer.Classifier.{
  Kernel, State, Act, pipe, shot, decide, embedded, is_fresh, flow_hit, scan_generation, by_rules,
  icmp_or_rules, ingress_ipv4, try_ingress, aeth_ingress, or_shot,
}

pub proto-forward_key : (bytes : List ℕ) (h : Ipv4) → (forward_key bytes h).proto ≡ h.proto
unfolding forward_key
proto-forward_key bytes h = refl

pub proto-reverse_key : (bytes : List ℕ) (h : Ipv4) → (reverse_key bytes h).proto ≡ h.proto
unfolding reverse_key
proto-reverse_key bytes h = ground arith

module _ (kernel : Kernel) where
  open kernel use {lpm, flow_map, rate_map}

  -- a flow of the table that has not idled out
  abbrev pub fresh_flow : State kernel → FlowKey → ℕ → Bool
  fresh_flow s key now =
      is_fresh kernel (flow_map.get s.flows key) (timeout_ns s.config key.proto) now

  abbrev pub allowing : Option (ℕ × RuleMeta) → Bool
  allowing none = false
  allowing (some (i, m)) = m.action == act_allow

  abbrev pub rules_allow : State kernel → FlowKey → Bool
  rules_allow s fwd = allowing (deciding_rule lpm s.maps fwd.src fwd.dst fwd.proto fwd.dport)

  abbrev pub icmp_passes : State kernel → Option (Option FlowKey) → FlowKey → ℕ → Bool
  icmp_passes s none fwd now = false
  icmp_passes s (some none) fwd now = rules_allow s fwd
  icmp_passes s (some (some key)) fwd now = fresh_flow s key now || rules_allow s fwd

  -- What lets a packet in: a recorded flow that it replies to, continues, or reports an error of, or
  -- a rule that allows it.
  abbrev pub passes_ipv4 : State kernel → List ℕ → Ipv4 → ℕ → Bool
  passes_ipv4 s bytes h now =
      fresh_flow s (reverse_key bytes h) now
      || (fresh_flow s (forward_key bytes h) now
          || (if h.proto == 1
              then icmp_passes s (embedded_key bytes h.ihl) (forward_key bytes h) now
              else rules_allow s (forward_key bytes h)))

  abbrev pub passes : State kernel → List ℕ → Option Ipv4 → ℕ → Bool
  passes s bytes none now = false
  passes s bytes (some h) now = passes_ipv4 s bytes h now

  abbrev pub verdict_of : Bool → Act
  verdict_of b = if b then pipe else shot

  pub flow_hit-answer :
      (s : State kernel) (key : FlowKey) (now : ℕ) (r : Bool)
      → (flow_hit kernel s key key.proto now r).0 ≡ fresh_flow s key now
  unfolding flow_hit
  flow_hit-answer s key now r = ground arith

  -- A lookup that misses evicts its own stale entry at most: no flow's freshness changes.
  flow_hit-miss :
      (s : State kernel) (key j : FlowKey) (now : ℕ) (r : Bool)
      → fresh_flow s key now ≡ false
      → let t = (flow_hit kernel s key key.proto now r).1 in
        (fresh_flow t j now ≡ fresh_flow s j now) × (t.maps ≡ s.maps) × (t.config ≡ s.config)
  unfolding flow_hit
  flow_hit-miss s key j now r h =
      let kept = flow_map.get-remove s.flows key j in
      let same = flow_key_eq_iff key j in (ground (arith, kept, same), ground arith, ground arith)

  decide-action :
      (s : State kernel) (o : Option (ℕ × RuleMeta)) (a b proto dport now : ℕ)
      → ((decide kernel s o a b proto dport now).0 == act_allow) ≡ allowing o
  unfolding decide
  decide-action s none a b proto dport now = refl
  decide-action s (some (i, m)) a b proto dport now = refl

  pub scan_generation-action :
      (s : State kernel) (fwd : FlowKey) (now : ℕ)
      → ((scan_generation kernel s fwd.src fwd.dst fwd.proto fwd.dport now).0 == act_allow)
        ≡ rules_allow s fwd
  unfolding scan_generation
  scan_generation-action s fwd now =
      decide-action s (deciding_rule lpm s.maps fwd.src fwd.dst fwd.proto fwd.dport) fwd.src fwd.dst
        fwd.proto fwd.dport now

  by_rules-answer :
      (s : State kernel) (fwd : FlowKey) (now : ℕ)
      → (by_rules kernel s fwd now).0 ≡ verdict_of (rules_allow s fwd)
  unfolding by_rules
  by_rules-answer s fwd now = ground (arith, scan_generation-action s fwd now)

  embedded-answer :
      (s : State kernel) (o : Option (Option FlowKey)) (fwd : FlowKey) (now : ℕ)
      → or_shot kernel (embedded kernel s o fwd now).0 ≡ verdict_of (icmp_passes s o fwd now)
  unfolding embedded
  embedded-answer s none fwd now = refl
  embedded-answer s (some none) fwd now = by_rules-answer s fwd now
  embedded-answer s (some (some key)) fwd now =
      let t = (flow_hit kernel s key key.proto now false).1 in
      let answer = flow_hit-answer s key now false in
      let rules = by_rules-answer t fwd now in
      elim (Bool-cases (fresh_flow s key now)) [
        | inl hit ↦ rw (answer, hit)
        | inr miss ↦
            let (_, same, _) = flow_hit-miss s key key now false miss in
            rw (answer, miss)
              (rules
                ∙ ap
                    (λ (m : Maps lpm.Trie).
                      verdict_of
                        (allowing (deciding_rule lpm m fwd.src fwd.dst fwd.proto fwd.dport)))
                    same)
      ]

  -- the verdict of the last two steps
  icmp_or_rules-answer :
      (s : State kernel) (bytes : List ℕ) (h : Ipv4) (now : ℕ)
      → or_shot kernel (icmp_or_rules kernel s bytes h now).0
        ≡ verdict_of (
            if h.proto == 1
            then icmp_passes s (embedded_key bytes h.ihl) (forward_key bytes h) now
            else rules_allow s (forward_key bytes h))
  unfolding icmp_or_rules
  icmp_or_rules-answer s bytes h now = elim (Bool-cases (h.proto == 1)) [
    | inl icmp ↦ rw icmp (embedded-answer s (embedded_key bytes h.ihl) (forward_key bytes h) now)
    | inr other ↦ rw other (by_rules-answer s (forward_key bytes h) now)
  ]

  -- The two states show the same flows and the same rules.
  abbrev Alike : State kernel → State kernel → ℕ → Type 0
  Alike s t now = ((j : FlowKey) → fresh_flow t j now ≡ fresh_flow s j now) × (t.maps ≡ s.maps)

  rules_allow-Alike :
      (s t : State kernel) (now : ℕ) (fwd : FlowKey)
      → Alike s t now
      → rules_allow t fwd ≡ rules_allow s fwd
  rules_allow-Alike s t now fwd same =
      ap (λ (m : Maps lpm.Trie). allowing (deciding_rule lpm m fwd.src fwd.dst fwd.proto fwd.dport))
        same.1

  icmp_passes-Alike :
      (s t : State kernel) (now : ℕ) (o : Option (Option FlowKey)) (fwd : FlowKey)
      → Alike s t now
      → icmp_passes t o fwd now ≡ icmp_passes s o fwd now
  icmp_passes-Alike s t now none fwd same = refl
  icmp_passes-Alike s t now (some none) fwd same = rules_allow-Alike s t now fwd same
  icmp_passes-Alike s t now (some (some key)) fwd same =
      rw (same.0 key, rules_allow-Alike s t now fwd same)

  last_steps-Alike :
      (s t : State kernel) (now : ℕ)
      → Alike s t now
      → (bytes : List ℕ) (h : Ipv4)
      → (if h.proto == 1
          then icmp_passes t (embedded_key bytes h.ihl) (forward_key bytes h) now
          else rules_allow t (forward_key bytes h))
        ≡ (if h.proto == 1
            then icmp_passes s (embedded_key bytes h.ihl) (forward_key bytes h) now
            else rules_allow s (forward_key bytes h))
  last_steps-Alike s t now same bytes h = ground (
    arith,
    icmp_passes-Alike s t now (embedded_key bytes h.ihl) (forward_key bytes h) same,
    rules_allow-Alike s t now (forward_key bytes h) same,
  )

  flow_hit-Alike :
      (s : State kernel) (key : FlowKey) (now : ℕ) (r : Bool)
      → fresh_flow s key now ≡ false
      → Alike s (flow_hit kernel s key key.proto now r).1 now
  flow_hit-Alike s key now r miss =
      (λ j. (flow_hit-miss s key j now r miss).0, (flow_hit-miss s key key now r miss).1)

  flow_hit-answer_at :
      (s : State kernel) (key : FlowKey) (p now : ℕ) (r : Bool)
      → key.proto ≡ p
      → (flow_hit kernel s key p now r).0 ≡ fresh_flow s key now
  flow_hit-answer_at s key p now r e =
      subst (λ (x : ℕ). (flow_hit kernel s key x now r).0 ≡ fresh_flow s key now) e
        (flow_hit-answer s key now r)

  flow_hit-Alike_at :
      (s : State kernel) (key : FlowKey) (p now : ℕ) (r : Bool)
      → key.proto ≡ p
      → fresh_flow s key now ≡ false
      → Alike s (flow_hit kernel s key p now r).1 now
  flow_hit-Alike_at s key p now r e miss =
      subst (λ (x : ℕ). Alike s (flow_hit kernel s key x now r).1 now) e
        (flow_hit-Alike s key now r miss)

  ingress_ipv4-answer :
      (s : State kernel) (bytes : List ℕ) (h : Ipv4) (now : ℕ)
      → or_shot kernel (ingress_ipv4 kernel s bytes h now).0
        ≡ verdict_of (passes_ipv4 s bytes h now)
  unfolding ingress_ipv4
  ingress_ipv4-answer s bytes h now =
      let rev = reverse_key bytes h in
      let fwd = forward_key bytes h in
      let t = (flow_hit kernel s rev h.proto now true).1 in
      let u = (flow_hit kernel t fwd h.proto now true).1 in
      let replies = flow_hit-answer_at s rev h.proto now true (proto-reverse_key bytes h) in
      let continues = flow_hit-answer_at t fwd h.proto now true (proto-forward_key bytes h) in
      elim (Bool-cases (fresh_flow s rev now)) [
        | inl hit ↦ rw (replies, hit)
        | inr miss ↦
            let first = flow_hit-Alike_at s rev h.proto now true (proto-reverse_key bytes h) miss in
            elim (Bool-cases (fresh_flow s fwd now)) [
              | inl hit ↦ rw (replies, miss, continues, first.0 fwd, hit)
              | inr gone ↦
                  let second =
                    flow_hit-Alike_at t fwd h.proto now true (proto-forward_key bytes h)
                      (first.0 fwd ∙ gone) in
                  let both : Alike s u now = (λ j. second.0 j ∙ first.0 j, second.1 ∙ first.1) in
                  rw (replies, miss, continues, first.0 fwd, gone)
                    (icmp_or_rules-answer u bytes h now
                      ∙ ap verdict_of (last_steps-Alike s u now both bytes h))
            ]
      ]

  pub aeth_ingress_verdict :
      (s : State kernel) (bytes : List ℕ) (now : ℕ)
      → (aeth_ingress kernel s bytes now).0 ≡ verdict_of (passes s bytes (ipv4_at bytes) now)
  unfolding aeth_ingress try_ingress
  aeth_ingress_verdict s bytes now = elim (Option-cases (ipv4_at bytes)) [
    | inl bad ↦ rw bad
    | inr (h, ok) ↦ rw ok (ingress_ipv4-answer s bytes h now)
  ]
