-- ===== src/Enforcer/Classifier/Provenance.antt =====
-- Where the entries of the flow table come from: over every sequence of packets and reloads, a flow
-- is in the table only if it was sent from inside, or a rule allowed it in.
use wire_mesh.Common.{
  ℕ, ◌-◌, Bool, true, false, Option, none, some, List, ltb, ◌==◌, ◌≡◌, ◌≢◌, refl, sym, ◌∙◌, ap,
  arith, Bool-cases, inl, inr, ◌⊎◌, is_some,
}
use wire_mesh.External.LruMap.{LruMap}
use wire_mesh.Enforcer.Maps.{RuleMeta, Maps}
use wire_mesh.Enforcer.Scan.{deciding_rule}
use wire_mesh.Enforcer.Flow.{FlowKey, FlowVal, flow_key_eq, flow_key_eq_iff, timeout_ns}
use wire_mesh.Enforcer.Packet.{Ipv4, embedded_key, forward_key, reverse_key}
use wire_mesh.Enforcer.Classifier.{
  Kernel, State, bump, decide, embedded, flow_hit, flow_found, insert_flow, scan_generation,
  by_rules, icmp_or_rules, ingress_ipv4, record_flow, rate_allows, egress_found,
}
use wire_mesh.Enforcer.Classifier.Branches.{rules_allow, allowing, scan_generation-action}

module _ (kernel : Kernel) where
  open kernel use {lpm, flow_map, rate_map}

  abbrev pub present : State kernel → FlowKey → Bool
  present s key = is_some (flow_map.get s.flows key)

  -- `t` has no flow that `s` has not, and the rules of `s`
  pub record Within (s t : State kernel) : Type 0 where
    pub flows : (j : FlowKey) → present t j ≡ true → present s j ≡ true
    pub maps : t.maps ≡ s.maps

  Within-refl : (s : State kernel) → Within s s
  Within-refl s = record { flows = λ j h. h; maps = refl }

  Within-trans : (s t u : State kernel) → Within s t → Within t u → Within s u
  Within-trans s t u a b = record { flows = λ j h. a.flows j (b.flows j h); maps = b.maps ∙ a.maps }

  flow_found-flows :
      (s : State kernel) (key : FlowKey) (o : Option FlowVal) (timeout now : ℕ) (r : Bool)
      (j : FlowKey)
      → flow_map.get s.flows key ≡ o
      → present (flow_found kernel s key o timeout now r).1 j ≡ true
      → present s j ≡ true
  unfolding flow_found
  flow_found-flows s key none timeout now r j e h = h
  flow_found-flows s key (some v) timeout now r j e h =
      let there' : flow_map.get s.flows key ≢ none = λ gone. cc in
      ground (
        arith,
        flow_map.get-remove s.flows key j,
        flow_map.get-poke s.flows key j (record { last_seen_ns = now }) there',
        flow_key_eq_iff key j,
      )

  flow_found-maps :
      (s : State kernel) (key : FlowKey) (o : Option FlowVal) (timeout now : ℕ) (r : Bool)
      → (flow_found kernel s key o timeout now r).1.maps ≡ s.maps
  unfolding flow_found
  flow_found-maps s key none timeout now r = refl
  flow_found-maps s key (some v) timeout now r = ground arith

  flow_hit-Within :
      (s : State kernel) (key : FlowKey) (p now : ℕ) (r : Bool)
      → Within s (flow_hit kernel s key p now r).1
  unfolding flow_hit
  flow_hit-Within s key p now r = record {
    flows = λ j h.
        flow_found-flows s key (flow_map.get s.flows key) (timeout_ns s.config p) now r j refl h;
    maps = flow_found-maps s key (flow_map.get s.flows key) (timeout_ns s.config p) now r;
  }

  -- what the state has beyond `s` is a key of the kind `New`
  abbrev pub Adds : State kernel → State kernel → (FlowKey → Type 0) → Type 0
  Adds s t New = (j : FlowKey) → present t j ≡ true → (present s j ≡ true) ⊎ New j

  insert_flow-Adds :
      (s : State kernel) (key : FlowKey) (now : ℕ)
      → Adds s (insert_flow kernel s key now) (λ j. key ≡ j)
  insert_flow-Adds s key now j h = elim (Bool-cases (flow_key_eq key j)) [
    | inl same ↦ inr ((flow_key_eq_iff key j).0 same)
    | inr other ↦
        inl
          (elim (flow_map.get-insert_other s.flows key j (record { last_seen_ns = now })
            (λ e. cc)) [
              | inl kept ↦ rw (← kept) h
              | inr lost ↦ absurd (ground (arith, ap is_some lost))
            ])
  ]

  decide-keeps :
      (s : State kernel) (o : Option (ℕ × RuleMeta)) (a b proto dport now : ℕ)
      → (decide kernel s o a b proto dport now).1.flows ≡ s.flows
  unfolding decide
  decide-keeps s none a b proto dport now = ground arith
  decide-keeps s (some (i, m)) a b proto dport now = ground arith

  scan_generation-flows :
      (s : State kernel) (fwd : FlowKey) (now : ℕ)
      → (scan_generation kernel s fwd.src fwd.dst fwd.proto fwd.dport now).1.flows ≡ s.flows
  unfolding scan_generation
  scan_generation-flows s fwd now =
      decide-keeps s (deciding_rule lpm s.maps fwd.src fwd.dst fwd.proto fwd.dport) fwd.src fwd.dst
        fwd.proto fwd.dport now

  scan_generation-present :
      (s : State kernel) (fwd : FlowKey) (now : ℕ) (j : FlowKey)
      → present (scan_generation kernel s fwd.src fwd.dst fwd.proto fwd.dport now).1 j ≡ present s j
  scan_generation-present s fwd now j =
      ap (λ (m : LruMap.Map flow_map). is_some (flow_map.get m j)) (scan_generation-flows s fwd now)

  -- The rules record the packet's own flow, and only if one of them allows it.
  by_rules-Adds :
      (s : State kernel) (fwd : FlowKey) (now : ℕ)
      → Adds s (by_rules kernel s fwd now).1 (λ j. (fwd ≡ j) × (rules_allow kernel s j ≡ true))
  unfolding by_rules
  by_rules-Adds s fwd now j h =
      let t = (scan_generation kernel s fwd.src fwd.dst fwd.proto fwd.dport now).1 in
      let act = scan_generation-action kernel s fwd now in
      let same = scan_generation-present s fwd now j in
      elim (Bool-cases (rules_allow kernel s fwd)) [
        | inr deny' ↦ inl (sym same ∙ (rw (act, deny') at h))
        | inl allow' ↦ elim (insert_flow-Adds t fwd now j (rw (act, allow') at h)) [
          | inl old ↦ inl (sym same ∙ old)
          | inr new ↦ inr (new, ap (λ (k : FlowKey). rules_allow kernel s k) (sym new) ∙ allow')
        ]
      ]

  -- A later part of a step that starts from what an earlier part left.
  Adds-after :
      (s t u : State kernel) (fwd : FlowKey)
      → Within s t
      → Adds t u (λ j. (fwd ≡ j) × (rules_allow kernel t j ≡ true))
      → Adds s u (λ j. (fwd ≡ j) × (rules_allow kernel s j ≡ true))
  Adds-after s t u fwd w a j h = elim (a j h) [
    | inl old ↦ inl (w.flows j old)
    | inr (same, ok) ↦ inr (
      same,
      ap (λ (m : Maps lpm.Trie). allowing kernel (deciding_rule lpm m j.src j.dst j.proto j.dport))
            (sym w.maps)
          ∙ ok,
    )
  ]

  Adds-none :
      (s t u : State kernel) (New : FlowKey → Type 0)
      → Within s t
      → u.flows ≡ t.flows
      → Adds s u New
  Adds-none s t u New w e j h =
      inl (w.flows j (sym (ap (λ (m : LruMap.Map flow_map). is_some (flow_map.get m j)) e) ∙ h))

  bump-flows : (s : State kernel) (i : ℕ) → (bump kernel s i).flows ≡ s.flows
  unfolding bump
  bump-flows s i = ground arith

  -- what an ingress packet may add
  abbrev pub Admitted : State kernel → FlowKey → FlowKey → Type 0
  Admitted s fwd j = (fwd ≡ j) × (rules_allow kernel s j ≡ true)

  embedded-Adds :
      (s : State kernel) (o : Option (Option FlowKey)) (fwd : FlowKey) (now : ℕ)
      → Adds s (embedded kernel s o fwd now).1 (Admitted s fwd)
  unfolding embedded
  embedded-Adds s none fwd now j h = inl h
  embedded-Adds s (some none) fwd now j h = by_rules-Adds s fwd now j h
  embedded-Adds s (some (some key)) fwd now j h =
      let t = (flow_hit kernel s key key.proto now false).1 in
      let w = flow_hit-Within s key key.proto now false in
      elim (Bool-cases (flow_hit kernel s key key.proto now false).0) [
        | inl hit ↦
            Adds-none s t (bump kernel t 257) (Admitted s fwd) w (bump-flows t 257) j (rw hit at h)
        | inr miss ↦
            Adds-after s t (by_rules kernel t fwd now).1 fwd w (by_rules-Adds t fwd now) j
              (rw miss at h)
      ]

  icmp_or_rules-Adds :
      (s : State kernel) (bytes : List ℕ) (h : Ipv4) (now : ℕ)
      → Adds s (icmp_or_rules kernel s bytes h now).1 (Admitted s (forward_key bytes h))
  unfolding icmp_or_rules
  icmp_or_rules-Adds s bytes h now j e = elim (Bool-cases (h.proto == 1)) [
    | inl icmp ↦
        embedded-Adds s (embedded_key bytes h.ihl) (forward_key bytes h) now j (rw icmp at e)
    | inr other ↦ by_rules-Adds s (forward_key bytes h) now j (rw other at e)
  ]

  pub ingress_ipv4-Adds :
      (s : State kernel) (bytes : List ℕ) (h : Ipv4) (now : ℕ)
      → Adds s (ingress_ipv4 kernel s bytes h now).1 (Admitted s (forward_key bytes h))
  unfolding ingress_ipv4
  ingress_ipv4-Adds s bytes h now j e =
      let rev = reverse_key bytes h in
      let fwd = forward_key bytes h in
      let t = (flow_hit kernel s rev h.proto now true).1 in
      let u = (flow_hit kernel t fwd h.proto now true).1 in
      let wt = flow_hit-Within s rev h.proto now true in
      let wu = Within-trans s t u wt (flow_hit-Within t fwd h.proto now true) in
      elim (Bool-cases (flow_hit kernel s rev h.proto now true).0) [
        | inl hit ↦
            Adds-none s t (bump kernel t 257) (Admitted s fwd) wt (bump-flows t 257) j (rw hit at e)
        | inr miss ↦ elim (Bool-cases (flow_hit kernel t fwd h.proto now true).0) [
          | inl hit ↦
              Adds-none s u (bump kernel u 257) (Admitted s fwd) wu (bump-flows u 257) j
                (rw (miss, hit) at e)
          | inr gone ↦
              Adds-after s u (icmp_or_rules kernel u bytes h now).1 fwd wu
                (icmp_or_rules-Adds u bytes h now) j (rw (miss, gone) at e)
        ]
      ]

  rate_allows-flows :
      (s : State kernel) (src now : ℕ) → (rate_allows kernel s src now).1.flows ≡ s.flows
  unfolding rate_allows
  rate_allows-flows s src now = ground arith

  record_flow-Adds :
      (s : State kernel) (key : FlowKey) (now : ℕ)
      → Adds s (record_flow kernel s key now) (λ j. key ≡ j)
  unfolding record_flow
  record_flow-Adds s key now j h =
      let t = (rate_allows kernel s key.src now).1 in
      let same =
        ap (λ (m : LruMap.Map flow_map). is_some (flow_map.get m j))
          (rate_allows-flows s key.src now) in
      elim (Bool-cases (rate_allows kernel s key.src now).0) [
        | inr capped ↦ inl (sym same ∙ rw capped at h)
        | inl ok ↦ elim (insert_flow-Adds t key now j (rw ok at h)) [
          | inl old ↦ inl (sym same ∙ old)
          | inr new ↦ inr new
        ]
      ]

  -- What leaves the segment is recorded as it is.
  pub egress_found-Adds :
      (s : State kernel) (key : FlowKey) (o : Option FlowVal) (now : ℕ)
      → flow_map.get s.flows key ≡ o
      → Adds s (egress_found kernel s key o now) (λ j. key ≡ j)
  unfolding egress_found
  egress_found-Adds s key none now e j h = record_flow-Adds s key now j h
  egress_found-Adds s key (some v) now e j h =
      let dropped : State kernel = record s { flows = flow_map.remove key s.flows } in
      let there' : flow_map.get s.flows key ≢ none = λ gone. cc in
      elim (Bool-cases (ltb (timeout_ns s.config key.proto) (now - v.last_seen_ns))) [
        | inl stale ↦ elim (record_flow-Adds dropped key now j (rw stale at h)) [
          | inl old ↦ inl (ground (arith, flow_map.get-remove s.flows key j))
          | inr new ↦ inr new
        ]
        | inr live ↦
            let kept = flow_map.get-poke s.flows key j (record { last_seen_ns = now }) there' in
            let h' : is_some
                  (flow_map.get (flow_map.poke key (record { last_seen_ns = now }) s.flows) j)
                ≡ true =
              rw live at h in
            elim (Bool-cases (flow_key_eq key j)) [
              | inl same ↦ inr ((flow_key_eq_iff key j).0 same)
              | inr other ↦ inl (ground (arith, kept))
            ]
      ]
