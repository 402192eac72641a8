-- ===== src/Gateway/Path/Silence.antt =====
-- A peer that falls silent.
use wire_mesh.Common.{
  leb, Bool-cases, false, ◌⊎◌, inl, some, ◌∷◌, arith, inr, ◌≢◌, Bool, ◌≡◌, List, ℕ, ◌+◌, ◌-◌, ◌≤◌,
  refl, sym, subst, [],
}
use wire_mesh.Gateway.Path.{
  on_handshake, on_event, connecting, relayed, disconnected, degraded_after, PeerPath, ticked,
  degraded_dead_after, inbound, handshake, direct, degraded, PathState, PathEvent, tick_in, tick,
}
use wire_mesh.Gateway.Path.Fields.{run}

-- ticks, and handshakes that no received byte corroborates
abbrev pub IsSilent : List PathEvent → Type 0
IsSilent [] = Unit
IsSilent (handshake now rx ∷ es) = (rx ≡ false) × IsSilent es
IsSilent (inbound now ∷ es) = ⊥
IsSilent (ticked now r ∷ es) = IsSilent es

-- every event stands at `t` or before
abbrev pub NoLater : ℕ → List PathEvent → Type 0
NoLater t [] = Unit
NoLater t (handshake now rx ∷ es) = (now ≤ t) × NoLater t es
NoLater t (inbound now ∷ es) = (now ≤ t) × NoLater t es
NoLater t (ticked now r ∷ es) = (now ≤ t) × NoLater t es

-- neither direct nor degraded
abbrev pub IsGone : PeerPath → Type 0
IsGone p = (p.state ≢ direct) × (p.state ≢ degraded)

-- degraded since `t` or before, or gone
abbrev Fading : ℕ → PeerPath → Type 0
Fading t p =
    ((since : ℕ) × (p.state ≡ degraded) × (p.degraded_since ≡ some since) × (since ≤ t)) ⊎ IsGone p

-- still direct, last heard at `heard`; or fading
abbrev Quieting : ℕ → ℕ → PeerPath → Type 0
Quieting heard t p = ((p.state ≡ direct) × (p.last_inbound ≡ some heard)) ⊎ Fading t p

tick_in-IsGone :
    (s : PathState) (p : PeerPath) (now : ℕ) (r : Bool)
    → p.state ≡ s
    → IsGone p
    → IsGone (tick_in s p now r).0
unfolding tick_in
tick_in-IsGone connecting p now r e h = ground arith
tick_in-IsGone direct p now r e h = absurd (h.0 e)
tick_in-IsGone degraded p now r e h = absurd (h.1 e)
tick_in-IsGone relayed p now r e h = ground arith
tick_in-IsGone disconnected p now r e h = ground arith

tick-IsGone : (p : PeerPath) (now : ℕ) (r : Bool) → IsGone p → IsGone (tick p now r).0
unfolding tick
tick-IsGone p now r h = tick_in-IsGone p.state p now r refl h

tick_degraded-Fading :
    (t : ℕ) (p : PeerPath) (now : ℕ) (r : Bool)
    → p.state ≡ degraded
    → (since : ℕ) → p.degraded_since ≡ some since
    → since ≤ t
    → Fading t (tick_in degraded p now r).0
unfolding tick_in
tick_degraded-Fading t p now r s since e le =
    elim (Bool-cases (leb degraded_dead_after (now - since))) [
      | inl dead' ↦ inr (ground arith)
      | inr early ↦ inl (since, ground arith, ground arith, le)
    ]

tick-Fading : (t : ℕ) (p : PeerPath) (now : ℕ) (r : Bool) → Fading t p → Fading t (tick p now r).0
unfolding tick
tick-Fading t p now r (inr gone) = inr (tick-IsGone p now r gone)
tick-Fading t p now r (inl (since, s, e, le)) =
    subst (λ (x : PathState). Fading t (tick_in x p now r).0) (sym s)
      (tick_degraded-Fading t p now r s since e le)

tick_direct-Quieting :
    (heard t : ℕ) (p : PeerPath) (now : ℕ) (r : Bool)
    → now ≤ t
    → p.state ≡ direct
    → p.last_inbound ≡ some heard
    → Quieting heard t (tick_in direct p now r).0
unfolding tick_in
tick_direct-Quieting heard t p now r le s l = elim (Bool-cases (leb degraded_after (now - heard))) [
  | inl late ↦ inr (inl (now, ground arith, ground arith, le))
  | inr early ↦ inl (ground arith, ground arith)
]

tick-Quieting :
    (heard t : ℕ) (p : PeerPath) (now : ℕ) (r : Bool)
    → now ≤ t
    → Quieting heard t p
    → Quieting heard t (tick p now r).0
tick-Quieting heard t p now r le (inr f) = inr (tick-Fading t p now r f)
tick-Quieting heard t p now r le (inl (s, l)) =
    unfold tick in
    subst (λ (x : PathState). Quieting heard t (tick_in x p now r).0) (sym s)
      (tick_direct-Quieting heard t p now r le s l)

-- a tick 45 seconds after the last sign of life, or later, ends `direct`
tick_direct-late :
    (heard : ℕ) (p : PeerPath) (now : ℕ) (r : Bool)
    → heard + degraded_after ≤ now
    → p.state ≡ direct
    → p.last_inbound ≡ some heard
    → Fading now (tick_in direct p now r).0
unfolding tick_in
tick_direct-late heard p now r late s l = inl (now, ground arith, ground arith, omega arith)

tick-late :
    (heard : ℕ) (p : PeerPath) (now : ℕ) (r : Bool)
    → heard + degraded_after ≤ now
    → Quieting heard now p
    → Fading now (tick p now r).0
unfolding tick
tick-late heard p now r late (inr f) = unfold tick in tick-Fading now p now r f
tick-late heard p now r late (inl (s, l)) =
    subst (λ (x : PathState). Fading now (tick_in x p now r).0) (sym s)
      (tick_direct-late heard p now r late s l)

tick_degraded-dead :
    (t : ℕ) (p : PeerPath) (now : ℕ) (r : Bool) (since : ℕ)
    → p.degraded_since ≡ some since
    → since ≤ t
    → t + degraded_dead_after ≤ now
    → IsGone (tick_in degraded p now r).0
unfolding tick_in
tick_degraded-dead t p now r since e le late = ground arith

tick-dead :
    (t : ℕ) (p : PeerPath) (now : ℕ) (r : Bool)
    → t + degraded_dead_after ≤ now
    → Fading t p
    → IsGone (tick p now r).0
unfolding tick
tick-dead t p now r late (inr gone) = unfold tick in tick-IsGone p now r gone
tick-dead t p now r late (inl (since, s, e, le)) =
    subst (λ (x : PathState). IsGone (tick_in x p now r).0) (sym s)
      (tick_degraded-dead t p now r since e le late)

on_handshake-phantom : (p : PeerPath) (now : ℕ) (rx : Bool) → rx ≡ false → on_handshake p now rx ≡ p
unfolding on_handshake
on_handshake-phantom p now rx e = rw e

run-Quieting :
    (heard t : ℕ) (p : PeerPath) (es : List PathEvent)
    → IsSilent es
    → NoLater t es
    → Quieting heard t p
    → Quieting heard t (run p es)
unfolding run on_event
run-Quieting heard t p [] s n q = q
run-Quieting heard t p (handshake now rx ∷ es) s n q =
    run-Quieting heard t (on_handshake p now rx) es s.1 n.1
      (subst (Quieting heard t) (sym (on_handshake-phantom p now rx s.0)) q)
run-Quieting heard t p (inbound now ∷ es) s n q = absurd s
run-Quieting heard t p (ticked now r ∷ es) s n q =
    run-Quieting heard t (tick p now r).0 es s n.1 (tick-Quieting heard t p now r n.0 q)

run-Fading :
    (t : ℕ) (p : PeerPath) (es : List PathEvent) → IsSilent es → Fading t p → Fading t (run p es)
unfolding run on_event
run-Fading t p [] s f = f
run-Fading t p (handshake now rx ∷ es) s f =
    run-Fading t (on_handshake p now rx) es s.1
      (subst (Fading t) (sym (on_handshake-phantom p now rx s.0)) f)
run-Fading t p (inbound now ∷ es) s f = absurd s
run-Fading t p (ticked now r ∷ es) s f =
    run-Fading t (tick p now r).0 es s (tick-Fading t p now r f)

-- A direct path whose peer falls silent is given up, whatever handshakes without received bytes
-- are reported: after a tick 45 seconds past the last sign of life or later, with no event before
-- it that is later, and a tick ten seconds past that one or later, it is neither direct nor
-- degraded.
pub silence_lem :
    (p : PeerPath) (heard t u : ℕ) (r q : Bool) (before between : List PathEvent)
    → p.state ≡ direct
    → p.last_inbound ≡ some heard
    → IsSilent before
    → NoLater t before
    → heard + degraded_after ≤ t
    → IsSilent between
    → t + degraded_dead_after ≤ u
    → IsGone (tick (run (tick (run p before) t r).0 between) u q).0
silence_lem p heard t u r q before between s l sb nb late sm dead' =
    tick-dead t (run (tick (run p before) t r).0 between) u q dead' (
      run-Fading t (tick (run p before) t r).0 between sm (
        tick-late heard (run p before) t r late (run-Quieting heard t p before sb nb (inl (s, l)))))

-- A path that is neither direct nor degraded becomes neither without a corroborated handshake.
pub run-IsGone : (p : PeerPath) (es : List PathEvent) → IsSilent es → IsGone p → IsGone (run p es)
unfolding run on_event
run-IsGone p [] s g = g
run-IsGone p (handshake now rx ∷ es) s g =
    run-IsGone (on_handshake p now rx) es s.1
      (subst IsGone (sym (on_handshake-phantom p now rx s.0)) g)
run-IsGone p (inbound now ∷ es) s g = absurd s
run-IsGone p (ticked now r ∷ es) s g = run-IsGone (tick p now r).0 es s (tick-IsGone p now r g)
