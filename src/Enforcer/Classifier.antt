-- ===== src/Enforcer/Classifier.antt =====
-- crates/wiremesh-enforcer-ebpf/program/src/main.rs: the two classifiers, `aeth_ingress` and
-- `aeth_egress`, over all the maps of the program.
pub mod Branches
pub mod Provenance
pub mod RateCap
pub mod Traces
use wire_mesh.Common.{
  ℕ, ◌+◌, ◌-◌, ◌%◌, ◌^◌, Bool, true, false, ◌&&◌, Option, none, some, List, [], ◌∷◌, ◌++◌, leb, ltb,
  ◌==◌, if◌then◌else◌,
}
use wire_mesh.External.LpmTrie.{LpmTrie}
use wire_mesh.External.LruMap.{LruMap}
use wire_mesh.Enforcer.RuleBits.{RuleBits}
use wire_mesh.Enforcer.Maps.{
  RuleMeta, Maps, update, ctr_default_deny, ctr_flow_hit, counters_len, act_deny, act_allow,
}
use wire_mesh.Enforcer.Scan.{deciding_rule}
use wire_mesh.Enforcer.Flow.{
  FlowKey, FlowVal, RateVal, Config, Budgets, flow_key_eq, timeout_ns, rate_cap, rate_step,
  log_allows,
}
use wire_mesh.Enforcer.Packet.{Ipv4, ipv4_at, ports_at, embedded_key, forward_key, reverse_key}

-- TC_ACT_PIPE lets the packet go on, TC_ACT_SHOT drops it
pub data Act : Type 0 where
  pipe shot : Act

pub record DenyEventRaw : Type 0 where
  pub src : ℕ
  pub dst : ℕ
  pub proto : ℕ
  pub dport : ℕ
  pub rule_idx : ℕ

-- the kernel's code: the trie, and the two LRU maps
pub record Kernel : Type 1 where
  pub lpm : LpmTrie RuleBits
  pub flow_map : LruMap FlowKey FlowVal flow_key_eq
  pub rate_map : LruMap ℕ RateVal ◌==◌

module _ (kernel : Kernel) where
  open kernel use {lpm, flow_map, rate_map}

  -- `events` are the records handed to the ring buffer, which may drop them
  pub record State : Type 0 where
    pub maps : Maps (LpmTrie.Trie lpm)
    pub flows : LruMap.Map flow_map
    pub rates : LruMap.Map rate_map
    pub config : Config
    pub budgets : Budgets
    pub events : List DenyEventRaw

  unfoldable pub bump : State → ℕ → State
  unfolding update
  bump s idx =
      if ltb idx counters_len
      then record s {
        maps = record s.maps {
          counters = update s.maps.counters idx ((s.maps.counters idx + 1) % 2 ^ 64);
        };
      }
      else s

  -- the flow is in the table and was seen lately
  abbrev pub is_fresh : Option FlowVal → ℕ → ℕ → Bool
  is_fresh none timeout now = false
  is_fresh (some v) timeout now = leb (now - v.last_seen_ns) timeout

  flow_found : State → FlowKey → Option FlowVal → ℕ → ℕ → Bool → Bool × State
  flow_found s key none timeout now refresh = (false, s)
  flow_found s key (some v) timeout now refresh =
      if ltb timeout (now - v.last_seen_ns)
      then (false, record s { flows = flow_map.remove key s.flows })
      else if refresh
      then (true, record s { flows = flow_map.poke key (record { last_seen_ns = now }) s.flows })
      else (true, s)

  unfoldable pub flow_hit : State → FlowKey → ℕ → ℕ → Bool → Bool × State
  unfolding flow_found
  flow_hit s key proto now refresh =
      flow_found s key (flow_map.get s.flows key) (timeout_ns s.config proto) now refresh

  -- a cell that is there is written through its pointer, a new one is inserted
  abbrev put_rate : Option RateVal → ℕ → RateVal → LruMap.Map rate_map → LruMap.Map rate_map
  put_rate none src v m = rate_map.insert src v m
  put_rate (some _) src v m = rate_map.poke src v m

  unfoldable pub rate_allows : State → ℕ → ℕ → Bool × State
  rate_allows s src now =
      let cell = rate_map.get s.rates src in
      let (ok, v) = rate_step (rate_cap s.config) cell now in
      (ok, if ok then record s { rates = put_rate cell src v s.rates } else s)

  unfoldable pub maybe_emit_deny : State → DenyEventRaw → ℕ → State
  maybe_emit_deny s ev now =
      let (ok, b) = log_allows s.config s.budgets ev.rule_idx now in
      if ok
      then record s { budgets = b; events = s.events ++ ev ∷ [] }
      else record s { budgets = b }

  -- the counter, the event and the action of the rule that decides, or of the default deny
  decide : State → Option (ℕ × RuleMeta) → ℕ → ℕ → ℕ → ℕ → ℕ → ℕ × State
  unfolding bump maybe_emit_deny
  decide s (some (i, m)) src dst proto dport now =
      let counted = bump s i in
      let ev : DenyEventRaw = record {
        src = src;
        dst = dst;
        proto = proto;
        dport = dport;
        rule_idx = i;
      } in
      (m.action, if m.action == act_deny then maybe_emit_deny counted ev now else counted)
  decide s none src dst proto dport now =
      let counted = bump s ctr_default_deny in
      let ev : DenyEventRaw = record {
        src = src;
        dst = dst;
        proto = proto;
        dport = dport;
        rule_idx = ctr_default_deny;
      } in
      (act_deny, maybe_emit_deny counted ev now)

  unfoldable pub scan_generation : State → ℕ → ℕ → ℕ → ℕ → ℕ → ℕ × State
  unfolding decide
  scan_generation s src dst proto dport now =
      decide s (deciding_rule lpm s.maps src dst proto dport) src dst proto dport now

  abbrev insert_flow : State → FlowKey → ℕ → State
  insert_flow s key now = record s {
    flows = flow_map.insert key (record { last_seen_ns = now }) s.flows;
  }

  -- step 4 of `try_ingress`: the rules
  unfoldable pub by_rules : State → FlowKey → ℕ → Act × State
  by_rules s fwd now =
      let (action, t) = scan_generation s fwd.src fwd.dst fwd.proto fwd.dport now in
      if action == act_allow then (pipe, insert_flow t fwd now) else (shot, t)

  -- step 3: an error about a recorded flow; `none` is the `Err` of a load
  embedded : State → Option (Option FlowKey) → FlowKey → ℕ → Option Act × State
  embedded s none fwd now = (none, s)
  embedded s (some none) fwd now = let (act, t) = by_rules s fwd now in (some act, t)
  embedded s (some (some key)) fwd now =
      let (hit, t) = flow_hit s key key.proto now false in
      let (act, u) = by_rules t fwd now in
      if hit then (some pipe, bump t ctr_flow_hit) else (some act, u)

  unfoldable pub icmp_or_rules : State → List ℕ → Ipv4 → ℕ → Option Act × State
  unfolding embedded
  icmp_or_rules s bytes h now =
      let fwd = forward_key bytes h in
      if h.proto == 1
      then embedded s (embedded_key bytes h.ihl) fwd now
      else (let (act, t) = by_rules s fwd now in (some act, t))

  -- steps 1 and 2: a reply of a recorded flow, or a continuation of one
  unfoldable pub ingress_ipv4 : State → List ℕ → Ipv4 → ℕ → Option Act × State
  ingress_ipv4 s bytes h now =
      let (replies, t) = flow_hit s (reverse_key bytes h) h.proto now true in
      let (continues, u) = flow_hit t (forward_key bytes h) h.proto now true in
      if replies
      then (some pipe, bump t ctr_flow_hit)
      else if continues
      then (some pipe, bump u ctr_flow_hit)
      else icmp_or_rules u bytes h now

  try_ingress_at : State → List ℕ → Option Ipv4 → ℕ → Option Act × State
  try_ingress_at s bytes none now = (none, s)
  try_ingress_at s bytes (some h) now = ingress_ipv4 s bytes h now

  unfoldable pub try_ingress : State → List ℕ → ℕ → Option Act × State
  unfolding try_ingress_at
  try_ingress s bytes now = try_ingress_at s bytes (ipv4_at bytes) now

  -- what cannot be parsed is dropped
  abbrev pub or_shot : Option Act → Act
  or_shot none = shot
  or_shot (some a) = a

  unfoldable pub aeth_ingress : State → List ℕ → ℕ → Act × State
  aeth_ingress s bytes now = let (act, t) = try_ingress s bytes now in (or_shot act, t)

  -- a new flow, if the source may record one more
  unfoldable pub record_flow : State → FlowKey → ℕ → State
  record_flow s key now =
      let (ok, t) = rate_allows s key.src now in if ok then insert_flow t key now else t

  unfoldable pub egress_found : State → FlowKey → Option FlowVal → ℕ → State
  egress_found s key none now = record_flow s key now
  egress_found s key (some v) now =
      if ltb (timeout_ns s.config key.proto) (now - v.last_seen_ns)
      then record_flow (record s { flows = flow_map.remove key s.flows }) key now
      else record s { flows = flow_map.poke key (record { last_seen_ns = now }) s.flows }

  unfoldable pub try_egress_at : State → List ℕ → Option Ipv4 → ℕ → State
  unfolding egress_found
  try_egress_at s bytes none now = s
  try_egress_at s bytes (some h) now =
      let key = forward_key bytes h in egress_found s key (flow_map.get s.flows key) now

  -- egress never blocks a packet
  unfoldable pub aeth_egress : State → List ℕ → ℕ → Act × State
  unfolding try_egress_at
  aeth_egress s bytes now = (pipe, try_egress_at s bytes (ipv4_at bytes) now)
