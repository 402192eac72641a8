-- ===== src/Gateway/Path/Edges.antt =====
-- The edges that `tick` takes, and the state diagram of the engineering design.
use wire_mesh.Common.{
  ap, ◌≢◌, ◌<◌, ℕ, ◌-◌, ◌≤◌, Bool, true, false, Option, none, some, ◌≡◌, refl, leb, leb→le,
  Bool-cases, ◌⊎◌, inl, inr, arith,
}
use wire_mesh.Gateway.Path.{
  settled, transition_crosses_settled_boundary, PeerPath, PathState, connecting, direct, degraded,
  relayed, disconnected, PathAction, start_punch, mark_relay_needed, relay_died, retry,
  probe_direct, tick, tick_in, tick_direct, tick_relayed, tick_disconnected, give_up,
  connect_timeout, degraded_after, degraded_dead_after, probe_direct_interval, unwrap_or, or,
  probe_due,
}

-- no timer of the state has run out
abbrev pub Rests : PeerPath → ℕ → Bool → PathState → Type 0
Rests p now r connecting = now - p.connecting_since < connect_timeout
Rests p now r direct =
    (last : ℕ) → or p.last_inbound p.last_handshake ≡ some last → now - last < degraded_after
Rests p now r degraded = ⊥
Rests p now r relayed =
    (r ≡ true)
    × ((last : ℕ) → p.relayed_probe_last ≡ some last → now - last < probe_direct_interval)
Rests p now r disconnected = now - unwrap_or p.disconnected_since now < p.backoff

-- The edges of path.rs: the state before, the state after, and the action; with what each edge waits
-- for.
pub data Edge (p : PeerPath) (now : ℕ) (r : Bool)
    : PathState → PathState → Option PathAction → Type 0 where
  stay : {s t : PathState} → s ≡ t → Rests p now r s → Edge p now r s t none
  connect_relayed :
      r ≡ true
      → connect_timeout ≤ now - p.connecting_since
      → Edge p now r connecting relayed (some mark_relay_needed)
  connect_failed :
      r ≡ false
      → connect_timeout ≤ now - p.connecting_since
      → Edge p now r connecting disconnected (some mark_relay_needed)
  quiet :
      (last : ℕ)
      → or p.last_inbound p.last_handshake ≡ some last
      → degraded_after ≤ now - last
      → Edge p now r direct degraded (some retry)
  waiting :
      {t : PathState}
      → degraded ≡ t
      → now - unwrap_or p.degraded_since now < degraded_dead_after
      → Edge p now r degraded t (some retry)
  dead_relayed :
      r ≡ true
      → degraded_dead_after ≤ now - unwrap_or p.degraded_since now
      → Edge p now r degraded relayed (some mark_relay_needed)
  dead :
      r ≡ false
      → degraded_dead_after ≤ now - unwrap_or p.degraded_since now
      → Edge p now r degraded disconnected (some mark_relay_needed)
  probe :
      {t : PathState}
      → relayed ≡ t
      → r ≡ true
      → ((last : ℕ) → p.relayed_probe_last ≡ some last → probe_direct_interval ≤ now - last)
      → Edge p now r relayed t (some probe_direct)
  relay_lost : r ≡ false → Edge p now r relayed disconnected (some relay_died)
  back_off :
      p.backoff ≤ now - unwrap_or p.disconnected_since now
      → Edge p now r disconnected connecting (some start_punch)

abbrev Taken : PeerPath → ℕ → Bool → PathState → PeerPath × Option PathAction → Type 0
Taken p now r s out = Edge p now r s out.0.state out.1

module _ (p : PeerPath) (now : ℕ) where
  tick_connecting-Taken :
      (r : Bool) → connecting ≡ p.state → Taken p now r connecting (tick_in connecting p now r)
  unfolding tick_in
  tick_connecting-Taken r e = elim (Bool-cases (leb connect_timeout (now - p.connecting_since))) [
    | inr early ↦ rw early (stay e (ground arith))
    | inl late ↦ rw late (failed r (leb→le _ _ late))
  ]
    where
      failed :
          (b : Bool)
          → connect_timeout ≤ now - p.connecting_since
          → Taken p now b connecting (give_up p now b)
      failed true h = connect_relayed refl h
      failed false h = connect_failed refl h

  tick_degraded-Taken :
      (r : Bool) → degraded ≡ p.state → Taken p now r degraded (tick_in degraded p now r)
  unfolding tick_in
  tick_degraded-Taken r e =
      elim (Bool-cases (leb degraded_dead_after (now - unwrap_or p.degraded_since now))) [
        | inr early ↦ rw early (waiting e (ground arith))
        | inl late ↦ rw late (failed r (leb→le _ _ late))
      ]
    where
      failed :
          (b : Bool)
          → degraded_dead_after ≤ now - unwrap_or p.degraded_since now
          → Taken p now b degraded (give_up p now b)
      failed true h = dead_relayed refl h
      failed false h = dead refl h

  tick_direct-Taken :
      (r : Bool) (last : Option ℕ)
      → direct ≡ p.state
      → or p.last_inbound p.last_handshake ≡ last
      → Taken p now r direct (tick_direct p last now)
  unfolding tick_direct
  tick_direct-Taken r none e h = stay e (λ (last : ℕ) l. cc)
  tick_direct-Taken r (some last) e h = elim (Bool-cases (leb degraded_after (now - last))) [
    | inr early ↦ rw early (stay e (λ (l : ℕ) k. ground arith))
    | inl late ↦ rw late (quiet last h (leb→le _ _ late))
  ]

  tick_relayed-Taken : (r : Bool) → relayed ≡ p.state → Taken p now r relayed (tick_relayed p now r)
  unfolding tick_relayed
  tick_relayed-Taken false e = relay_lost refl
  tick_relayed-Taken true e = elim (Bool-cases (probe_due p.relayed_probe_last now)) [
    | inr early ↦ rw early (stay e (refl, λ (l : ℕ) k. ground arith))
    | inl late ↦ rw late (probe e refl (λ (l : ℕ) k. ground arith))
  ]

  tick_disconnected-Taken :
      (r : Bool) → disconnected ≡ p.state → Taken p now r disconnected (tick_disconnected p now)
  unfolding tick_disconnected
  tick_disconnected-Taken r e =
      elim (Bool-cases (leb p.backoff (now - unwrap_or p.disconnected_since now))) [
        | inr early ↦ rw early (stay e (ground arith))
        | inl late ↦ rw late (back_off (leb→le _ _ late))
      ]

  tick_in-Taken : (r : Bool) (s : PathState) → s ≡ p.state → Taken p now r s (tick_in s p now r)
  unfolding tick_in
  tick_in-Taken r connecting e = tick_connecting-Taken r e
  tick_in-Taken r direct e = tick_direct-Taken r (or p.last_inbound p.last_handshake) e refl
  tick_in-Taken r degraded e = tick_degraded-Taken r e
  tick_in-Taken r relayed e = tick_relayed-Taken r e
  tick_in-Taken r disconnected e = tick_disconnected-Taken r e

-- The state diagram of docs/superpowers/specs/2026-07-15-wiremesh-engineering-design.md, 6.1.
pub data Drawn : PathState → PathState → Type 0 where
  handshake_over_udp : Drawn connecting direct
  no_handshake : Drawn connecting relayed
  no_relay : Drawn connecting disconnected
  no_inbound : Drawn direct degraded
  recovers : Drawn degraded direct
  relay_healthy : Drawn degraded relayed
  direct_dead : Drawn degraded disconnected
  probe_succeeds : Drawn relayed direct
  next_relay : Drawn relayed relayed
  retried : Drawn disconnected connecting

-- the edge that the diagram does not have: it has a path whose relay is lost stay relayed
pub record LosesRelay (r : Bool) (s t : PathState) (act : Option PathAction) : Type 0 where
  pub from_relayed : s ≡ relayed
  pub to_disconnected : t ≡ disconnected
  pub no_relay_left : r ≡ false
  pub told : act ≡ some relay_died

abbrev pub Departs : Bool → PathState → PathState → Option PathAction → Type 0
Departs r s t act = (s ≡ t) ⊎ Drawn s t ⊎ LosesRelay r s t act

Edge-Departs :
    {p : PeerPath} {now : ℕ} {r : Bool} {s t : PathState} {a : Option PathAction}
    → Edge p now r s t a
    → Departs r s t a
Edge-Departs (stay e h) = inl e
Edge-Departs (connect_relayed e h) = inr (inl no_handshake)
Edge-Departs (connect_failed e h) = inr (inl no_relay)
Edge-Departs (quiet l e h) = inr (inl no_inbound)
Edge-Departs (waiting e h) = inl e
Edge-Departs (dead_relayed e h) = inr (inl relay_healthy)
Edge-Departs (dead e h) = inr (inl direct_dead)
Edge-Departs (probe e f h) = inl e
Edge-Departs (relay_lost e) =
    inr
      (inr (record { from_relayed = refl; to_disconnected = refl; no_relay_left = e; told = refl }))
Edge-Departs (back_off h) = inr (inl retried)

path_tick-Edge :
    (p : PeerPath) (now : ℕ) (r : Bool)
    → Edge p now r p.state (tick p now r).0.state (tick p now r).1
unfolding tick
path_tick-Edge p now r = tick_in-Taken p now r p.state refl

-- Every tick takes an edge of path.rs, at the time that the edge waits for, and with its action;
-- the path rests only while no timer of its state has run out. A tick that changes the state
-- follows the state diagram of the engineering design, save that a relayed path whose relay is lost
-- goes to disconnected, with the action RelayDied.
pub tick-Edge :
    (p : PeerPath) (now : ℕ) (r : Bool)
    → Edge p now r p.state (tick p now r).0.state (tick p now r).1
      × Departs r p.state (tick p now r).0.state (tick p now r).1
tick-Edge p now r = (path_tick-Edge p now r, Edge-Departs (path_tick-Edge p now r))

crosses_self : (s t : PathState) → s ≡ t → transition_crosses_settled_boundary s t ≢ true
unfolding transition_crosses_settled_boundary
crosses_self s t e h = ground (arith, ap settled e)

Edge-crosses :
    {p : PeerPath} {now : ℕ} {r : Bool} {s t : PathState} {a : Option PathAction}
    → Edge p now r s t a
    → transition_crosses_settled_boundary s t ≡ true
    → a ≢ none
unfolding transition_crosses_settled_boundary settled
Edge-crosses (stay e h) x q = absurd (crosses_self _ _ e x)
Edge-crosses (connect_relayed e h) x q = cc
Edge-crosses (connect_failed e h) x q = cc
Edge-crosses (quiet l e h) x q = cc
Edge-crosses (waiting e h) x q = cc
Edge-crosses (dead_relayed e h) x q = cc
Edge-crosses (dead e h) x q = cc
Edge-crosses (probe e f h) x q = cc
Edge-crosses (relay_lost e) x q = cc
Edge-crosses (back_off h) x q = cc

-- A tick that crosses the settled boundary always hands the driver an action.
pub tick-crosses :
    (p : PeerPath) (now : ℕ) (r : Bool)
    → transition_crosses_settled_boundary p.state (tick p now r).0.state ≡ true
    → (tick p now r).1 ≢ none
tick-crosses p now r h = Edge-crosses (path_tick-Edge p now r) h
