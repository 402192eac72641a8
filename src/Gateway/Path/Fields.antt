-- ===== src/Gateway/Path/Fields.antt =====
-- What the fields of a path hold in each state, and the two rates that they bound.
use wire_mesh.Common.{
  Ordered, last_of, inr, inl, Bool-cases, ◌∷◌, leb, List, ℕ, ◌+◌, ◌-◌, ◌*◌, ◌≤◌, Bool, true, false,
  Option, none, some, ◌≡◌, ◌≢◌, refl, arith, sym, subst, [],
}
use wire_mesh.Gateway.Path.{
  PeerPath, PathState, connecting, direct, degraded, relayed, disconnected, PathAction, start_punch,
  probe_direct, PathEvent, handshake, inbound, ticked, new, on_event, on_handshake,
  on_authenticated_inbound, tick, tick_in, tick_relayed, backoff_initial, backoff_max,
  probe_direct_interval, unwrap_or,
}

-- Each spell has its beginning. That of a disconnection or of a relayed spell is gone outside it; that
-- of a degraded spell may stay behind, but not in `direct`. The backoff stays in its range.
pub record IsWellFormed (p : PeerPath) : Type 0 where
  pub direct_heard : p.state ≡ direct → p.last_inbound ≢ none
  pub degraded_begun : p.state ≡ degraded → p.degraded_since ≢ none
  pub degraded_cleared : p.state ≡ direct → p.degraded_since ≡ none
  pub disconnected_begun : p.state ≡ disconnected → p.disconnected_since ≢ none
  pub disconnected_only : p.state ≢ disconnected → p.disconnected_since ≡ none
  pub relayed_begun : p.state ≡ relayed → p.relayed_probe_last ≢ none
  pub relayed_only : p.state ≢ relayed → p.relayed_probe_last ≡ none
  pub backoff_low : backoff_initial ≤ p.backoff
  pub backoff_high : p.backoff ≤ backoff_max

pub new-IsWellFormed : (now : ℕ) → IsWellFormed (new now)
unfolding new
new-IsWellFormed now = ground arith

tick_in-IsWellFormed :
    (s : PathState) (p : PeerPath) (now : ℕ) (r : Bool)
    → p.state ≡ s
    → IsWellFormed p
    → IsWellFormed (tick_in s p now r).0
unfolding tick_in
tick_in-IsWellFormed connecting p now r e h = ground arith
tick_in-IsWellFormed direct p now r e h = ground arith
tick_in-IsWellFormed degraded p now r e h = ground arith
tick_in-IsWellFormed relayed p now r e h = ground arith
tick_in-IsWellFormed disconnected p now r e h = ground arith

on_event-IsWellFormed :
    (p : PeerPath) (e : PathEvent) → IsWellFormed p → IsWellFormed (on_event p e)
unfolding on_event on_handshake on_authenticated_inbound tick
on_event-IsWellFormed p (handshake now true) h = ground arith
on_event-IsWellFormed p (handshake now false) h = h
on_event-IsWellFormed p (inbound now) h = ground arith
on_event-IsWellFormed p (ticked now r) h = tick_in-IsWellFormed p.state p now r refl h

unfoldable pub run : PeerPath → List PathEvent → PeerPath
run p [] = p
run p (e ∷ es) = run (on_event p e) es

run-IsWellFormed_from :
    (p : PeerPath) (es : List PathEvent) → IsWellFormed p → IsWellFormed (run p es)
unfolding run
run-IsWellFormed_from p [] h = h
run-IsWellFormed_from p (e ∷ es) h =
    run-IsWellFormed_from (on_event p e) es (on_event-IsWellFormed p e h)

-- In every run of a new path: a direct path has heard its peer, and a degraded, a disconnected and a
-- relayed one each hold the time that their spell counts from. The times of a disconnection and of a
-- relayed spell are cleared in every other state, and that of a degraded spell at least in direct.
-- The backoff stays between two and thirty seconds.
pub run-IsWellFormed : (start : ℕ) (es : List PathEvent) → IsWellFormed (run (new start) es)
run-IsWellFormed start es = run-IsWellFormed_from (new start) es (new-IsWellFormed start)

-- In every run, a tick thirty seconds after a disconnection, or later, punches again.
pub run-punches :
    (start : ℕ) (es : List PathEvent) (since now : ℕ) (r : Bool)
    → (run (new start) es).state ≡ disconnected
    → (run (new start) es).disconnected_since ≡ some since
    → since + backoff_max ≤ now
    → ((tick (run (new start) es) now r).1 ≡ some start_punch)
      × ((tick (run (new start) es) now r).0.state ≡ connecting)
unfolding tick tick_in
run-punches start es since now r d e h =
    let w = run-IsWellFormed start es in
    let due : leb (run (new start) es).backoff
          (now - unwrap_or (run (new start) es).disconnected_since now)
        ≡ true =
      rw e (ground (arith, w.backoff_high)) in
    rw (d, due) (refl, refl)

abbrev is_probe : Option PathAction → ℕ
is_probe (some probe_direct) = 1
is_probe other = 0

-- how many background probes the ticks at the given times ask for while the relay lives
pub probes : PeerPath → List ℕ → ℕ
probes p [] = 0
probes p (now ∷ later) = let (q, act) = tick p now true in is_probe act + probes q later

-- still relayed, and the last probe stands an interval later if there was one
abbrev Probed : ℕ → ℕ → PeerPath × Option PathAction → Type 0
Probed last now out =
    (next : ℕ) × (out.0.state ≡ relayed)
    × (out.0.relayed_probe_last ≡ some next)
    × (last + is_probe out.1 * probe_direct_interval ≤ next)
    × (next ≤ now)

tick_relayed-Probed :
    (p : PeerPath) (last now : ℕ)
    → p.state ≡ relayed
    → p.relayed_probe_last ≡ some last
    → last ≤ now
    → Probed last now (tick_relayed p now true)
unfolding tick_relayed
tick_relayed-Probed p last now s l le = elim (Bool-cases (leb probe_direct_interval (now - last))) [
  | inl due ↦ (now, ground arith, ground arith, ground arith, omega arith)
  | inr early ↦ (last, ground arith, ground arith, ground arith, le)
]

tick-Probed :
    (p : PeerPath) (last now : ℕ)
    → p.state ≡ relayed
    → p.relayed_probe_last ≡ some last
    → last ≤ now
    → Probed last now (tick p now true)
unfolding tick tick_in
tick-Probed p last now s l le =
    subst (λ (x : PathState). Probed last now (tick_in x p now true)) (sym s)
      (tick_relayed-Probed p last now s l le)

probes-bound :
    (p : PeerPath) (last t : ℕ) (times : List ℕ)
    → p.state ≡ relayed
    → p.relayed_probe_last ≡ some last
    → last ≤ t
    → Ordered t times
    → last + probes p times * probe_direct_interval ≤ last_of t times
unfolding probes
probes-bound p last t [] s l le h = omega arith
probes-bound p last t (now ∷ later) s l le h =
    let (next, s', l', gap, le') = tick-Probed p last now s l (omega arith) in
    omega (arith, probes-bound (tick p now true).0 next now later s' l' le' h.1)

-- Over ticks of a relayed path, at times that do not go back, at most one background probe is
-- asked for every twenty seconds since the spell began or the last probe.
pub probes_lem :
    (p : PeerPath) (began : ℕ) (times : List ℕ)
    → p.state ≡ relayed
    → p.relayed_probe_last ≡ some began
    → Ordered began times
    → began + probes p times * probe_direct_interval ≤ last_of began times
probes_lem p began times s l h = probes-bound p began began times s l (omega arith) h
