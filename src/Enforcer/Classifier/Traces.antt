-- ===== src/Enforcer/Classifier/Traces.antt =====
-- Every sequence of packets, reloads of the policy and flushes of the flow table.
use wire_mesh.Common.{
  ℕ, Bool, true, false, Option, none, some, List, ◌==◌, ◌≡◌, refl, sym, ◌∙◌, ap, arith, Bool-cases,
  Option-cases, inl, inr, ◌⊎◌, is_some, ==_iff,
}
use wire_mesh.External.LpmTrie.{LpmTrie}
use wire_mesh.External.LruMap.{LruMap}
use wire_mesh.Enforcer.Maps.{Maps}
use wire_mesh.Enforcer.Flow.{FlowKey, Config}
use wire_mesh.Enforcer.Packet.{Ipv4, ipv4_at, embedded_key, forward_key, reverse_key}
use wire_mesh.Enforcer.Classifier.{
  Kernel, State, pipe, shot, aeth_ingress, aeth_egress, try_ingress, try_ingress_at, try_egress_at,
}
use wire_mesh.Enforcer.Classifier.Branches.{
  fresh_flow, rules_allow, icmp_passes, passes_ipv4, passes, verdict_of, aeth_ingress_verdict,
}
use wire_mesh.Enforcer.Classifier.Provenance.{present, ingress_ipv4-Adds, egress_found-Adds}

shot≢pipe : shot ≡ pipe → ⊥
shot≢pipe e = cc

module _ (kernel : Kernel) where
  open kernel use {lpm, flow_map, rate_map}

  pub data Event : Type 0 where
    ingress : List ℕ → ℕ → Event
    egress : List ℕ → ℕ → Event
    -- the loader writes the tables and counters, or the configuration
    reload : Maps (LpmTrie.Trie lpm) → Event
    configure : Config → Event
    -- `flush_flows` removes the keys one by one
    forget : FlowKey → Event

  unfoldable pub step : State kernel → Event → State kernel
  step s (ingress bytes now) = (aeth_ingress kernel s bytes now).1
  step s (egress bytes now) = (aeth_egress kernel s bytes now).1
  step s (reload m) = record s { maps = m }
  step s (configure c) = record s { config = c }
  step s (forget key) = record s { flows = flow_map.remove key s.flows }

  -- The event is a packet of the flow that left the segment, or one that a rule in force let in.
  pub data Records (s : State kernel) (key : FlowKey) : Event → Type 0 where
    sent :
        (bytes : List ℕ) (now : ℕ) (h : Ipv4)
        → ipv4_at bytes ≡ some h
        → forward_key bytes h ≡ key
        → Records s key (egress bytes now)
    admitted :
        (bytes : List ℕ) (now : ℕ) (h : Ipv4)
        → ipv4_at bytes ≡ some h
        → forward_key bytes h ≡ key
        → rules_allow kernel s key ≡ true
        → Records s key (ingress bytes now)

  -- the states that a run reaches from one whose flow table is empty
  pub data Trace : State kernel → Type 0 where
    begin : (s : State kernel) → s.flows ≡ flow_map.empty → Trace s
    next : {s : State kernel} (e : Event) → Trace s → Trace (step s e)

  pub Recorded : {s : State kernel} → Trace s → FlowKey → Type 0
  Recorded (begin s e) key = ⊥
  Recorded (next {s} e tr) key = Recorded tr key ⊎ Records s key e

  try_ingress_at-Adds :
      (s : State kernel) (bytes : List ℕ) (o : Option Ipv4) (now : ℕ) (key : FlowKey)
      → ipv4_at bytes ≡ o
      → present kernel (try_ingress_at kernel s bytes o now).1 key ≡ true
      → (present kernel s key ≡ true) ⊎ Records s key (ingress bytes now)
  unfolding try_ingress_at
  try_ingress_at-Adds s bytes none now key e h = inl h
  try_ingress_at-Adds s bytes (some ip) now key e h =
      elim (ingress_ipv4-Adds kernel s bytes ip now key h) [
        | inl old ↦ inl old
        | inr (same, allow') ↦ inr (admitted bytes now ip e same allow')
      ]

  ingress-Adds :
      (s : State kernel) (bytes : List ℕ) (now : ℕ) (key : FlowKey)
      → present kernel (step s (ingress bytes now)) key ≡ true
      → (present kernel s key ≡ true) ⊎ Records s key (ingress bytes now)
  unfolding step aeth_ingress try_ingress
  ingress-Adds s bytes now key h = try_ingress_at-Adds s bytes (ipv4_at bytes) now key refl h

  try_egress_at-Adds :
      (s : State kernel) (bytes : List ℕ) (o : Option Ipv4) (now : ℕ) (key : FlowKey)
      → ipv4_at bytes ≡ o
      → present kernel (try_egress_at kernel s bytes o now) key ≡ true
      → (present kernel s key ≡ true) ⊎ Records s key (egress bytes now)
  unfolding try_egress_at
  try_egress_at-Adds s bytes none now key e h = inl h
  try_egress_at-Adds s bytes (some ip) now key e h =
      let fwd = forward_key bytes ip in
      elim (egress_found-Adds kernel s fwd (flow_map.get s.flows fwd) now refl key h) [
        | inl old ↦ inl old
        | inr same ↦ inr (sent bytes now ip e same)
      ]

  egress-Adds :
      (s : State kernel) (bytes : List ℕ) (now : ℕ) (key : FlowKey)
      → present kernel (step s (egress bytes now)) key ≡ true
      → (present kernel s key ≡ true) ⊎ Records s key (egress bytes now)
  unfolding step aeth_egress
  egress-Adds s bytes now key h = try_egress_at-Adds s bytes (ipv4_at bytes) now key refl h

  step-Adds :
      (s : State kernel) (e : Event) (key : FlowKey)
      → present kernel (step s e) key ≡ true
      → (present kernel s key ≡ true) ⊎ Records s key e
  step-Adds s (ingress bytes now) key h = ingress-Adds s bytes now key h
  step-Adds s (egress bytes now) key h = egress-Adds s bytes now key h
  step-Adds s (reload m) key h = inl (unfold step in h)
  step-Adds s (configure c) key h = inl (unfold step in h)
  step-Adds s (forget k) key h =
      inl (unfold step in ground (arith, flow_map.get-remove s.flows k key))

  -- Over every run from an empty flow table, a flow of the table was sent from inside, or admitted
  -- by a rule then in force.
  pub present-Recorded :
      {s : State kernel} (tr : Trace s) (key : FlowKey)
      → present kernel s key ≡ true
      → Recorded tr key
  unfolding Recorded
  present-Recorded (begin s e) key h = absurd (
      ground (
        arith,
        ap (λ (m : LruMap.Map flow_map). is_some (flow_map.get m key)) e,
        flow_map.get-empty key,
      ))
  present-Recorded (next {s} e tr) key h = elim (step-Adds s e key h) [
    | inl old ↦ inl (present-Recorded tr key old)
    | inr new ↦ inr new
  ]

  verdict-pipe : (b : Bool) → verdict_of kernel b ≡ pipe → b ≡ true
  verdict-pipe true e = refl
  verdict-pipe false e = cc

  -- how a packet bears on a recorded flow
  pub data Concerns (bytes : List ℕ) (h : Ipv4) (key : FlowKey) : Type 0 where
    reply : reverse_key bytes h ≡ key → Concerns bytes h key
    continuation : forward_key bytes h ≡ key → Concerns bytes h key
    error_report : h.proto ≡ 1 → embedded_key bytes h.ihl ≡ some (some key) → Concerns bytes h key

  fresh-present :
      (s : State kernel) (key : FlowKey) (now : ℕ)
      → fresh_flow kernel s key now ≡ true
      → present kernel s key ≡ true
  fresh-present s key now h = ground arith

  abbrev LetIn : State kernel → List ℕ → Ipv4 → Type 0
  LetIn s bytes h =
      (rules_allow kernel s (forward_key bytes h) ≡ true)
      ⊎ ((key : FlowKey) × Concerns bytes h key × (present kernel s key ≡ true))

  icmp_passes-LetIn :
      (s : State kernel) (bytes : List ℕ) (h : Ipv4) (o : Option (Option FlowKey)) (now : ℕ)
      → h.proto ≡ 1
      → embedded_key bytes h.ihl ≡ o
      → icmp_passes kernel s o (forward_key bytes h) now ≡ true
      → LetIn s bytes h
  icmp_passes-LetIn s bytes h none now p e yes' = cc
  icmp_passes-LetIn s bytes h (some none) now p e yes' = inl yes'
  icmp_passes-LetIn s bytes h (some (some key)) now p e yes' =
      elim (Bool-cases (fresh_flow kernel s key now)) [
        | inl hit ↦ inr (key, error_report p e, fresh-present s key now hit)
        | inr miss ↦ inl (rw miss at yes')
      ]

  passes_ipv4-LetIn :
      (s : State kernel) (bytes : List ℕ) (h : Ipv4) (now : ℕ)
      → passes_ipv4 kernel s bytes h now ≡ true
      → LetIn s bytes h
  passes_ipv4-LetIn s bytes h now yes' =
      let rev = reverse_key bytes h in
      let fwd = forward_key bytes h in
      elim (Bool-cases (fresh_flow kernel s rev now)) [
        | inl hit ↦ inr (rev, reply refl, fresh-present s rev now hit)
        | inr miss ↦ elim (Bool-cases (fresh_flow kernel s fwd now)) [
          | inl hit ↦ inr (fwd, continuation refl, fresh-present s fwd now hit)
          | inr gone ↦ elim (Bool-cases (h.proto == 1)) [
            | inl icmp ↦
                icmp_passes-LetIn s bytes h (embedded_key bytes h.ihl) now
                  ((==_iff h.proto 1).0 icmp) refl (rw (miss, gone, icmp) at yes')
            | inr other ↦ inl (rw (miss, gone, other) at yes')
          ]
        ]
      ]

  -- Default deny over every run: a packet that is let in is an IPv4 packet that a rule in force
  -- allows, or that replies to, continues, or reports an error of a flow that was sent from inside or
  -- admitted by a rule then in force.
  pub ingress-Recorded :
      {s : State kernel} (tr : Trace s) (bytes : List ℕ) (now : ℕ)
      → (aeth_ingress kernel s bytes now).0 ≡ pipe
      → (h : Ipv4) × (ipv4_at bytes ≡ some h)
        × ((rules_allow kernel s (forward_key bytes h) ≡ true)
            ⊎ ((key : FlowKey) × Concerns bytes h key × Recorded tr key))
  ingress-Recorded {s} tr bytes now pass = elim (Option-cases (ipv4_at bytes)) [
    | inl bad ↦ absurd (
        shot≢pipe (
          sym (ap (λ (o : Option Ipv4). verdict_of kernel (passes kernel s bytes o now)) bad)
          ∙ sym (aeth_ingress_verdict kernel s bytes now)
          ∙ pass))
    | inr (h, ok) ↦
        let passed = verdict-pipe (passes_ipv4 kernel s bytes h now) (
          sym (ap (λ (o : Option Ipv4). verdict_of kernel (passes kernel s bytes o now)) ok)
          ∙ sym (aeth_ingress_verdict kernel s bytes now)
          ∙ pass) in
        elim (passes_ipv4-LetIn s bytes h now passed) [
          | inl rule ↦ (h, ok, inl rule)
          | inr (key, c, there') ↦ (h, ok, inr (key, c, present-Recorded tr key there'))
        ]
  ]
