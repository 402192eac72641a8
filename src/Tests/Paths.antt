-- ===== src/Tests/Paths.antt =====
-- Concrete runs of a path.
use wire_mesh.Common.{
  last_of, ◌+◌, ◌*◌, ◌≤◌, ◌≡◌, refl, ◌≢◌, true, false, none, some, List, [], ◌∷◌, arith,
}
use wire_mesh.Gateway.Path.Silence.{IsSilent, run-IsGone, silence_lem, IsGone}
use wire_mesh.Gateway.Path.Edges.{tick-Edge, tick-crosses, Edge, Departs}
use wire_mesh.Gateway.Path.Fields.{
  probes_lem, run-punches, run-IsWellFormed, probes, IsWellFormed, run,
}
use wire_mesh.Gateway.Path.{
  tick_in, on_event, transition_crosses_settled_boundary, PeerPath, connecting, direct, relayed,
  disconnected, secs, new, tick, handshake, ticked, PathEvent, probe_direct_interval, start_punch,
}

abbrev healthy : PeerPath
healthy = record (new 0) {
  state = direct;
  last_handshake = some (secs 100);
  last_inbound = some (secs 100);
}

abbrev phantom : List PathEvent
phantom = ticked (secs 120) true ∷ handshake (secs 130) false ∷ []

phantom-IsSilent : IsSilent phantom
phantom-IsSilent = (refl, tt)

silence_example :
    IsGone (tick (run (tick (run healthy phantom) (secs 145) false).0 phantom) (secs 155) false).0
silence_example =
    silence_lem healthy (secs 100) (secs 145) (secs 155) false false phantom phantom refl refl
      phantom-IsSilent (omega arith) (omega arith) phantom-IsSilent (omega arith)

tick-Edge_example :
    Edge healthy
      (secs 145)
      true
      healthy.state
      (tick healthy (secs 145) true).0.state
      (tick healthy (secs 145) true).1
    × Departs true healthy.state
        (tick healthy (secs 145) true).0.state
        (tick healthy (secs 145) true).1
tick-Edge_example = tick-Edge healthy (secs 145) true

abbrev failing : List PathEvent
failing = ticked (secs 5) false ∷ ticked (secs 10) false ∷ []

run-IsWellFormed_example : IsWellFormed (run (new 0) failing)
run-IsWellFormed_example = run-IsWellFormed 0 failing

failing-disconnected : (run (new 0) failing).state ≡ disconnected
unfolding run new on_event tick tick_in
failing-disconnected = refl

failing-since : (run (new 0) failing).disconnected_since ≡ some (secs 10)
unfolding run new on_event tick tick_in
failing-since = refl

run-punches_example :
    ((tick (run (new 0) failing) (secs 40) false).1 ≡ some start_punch)
    × ((tick (run (new 0) failing) (secs 40) false).0.state ≡ connecting)
run-punches_example =
    run-punches 0 failing (secs 10) (secs 40) false failing-disconnected failing-since (omega arith)

abbrev on_relay : PeerPath
on_relay = record (new 0) { state = relayed; relayed_probe_last = some (secs 10) }

probes_example :
    secs 10 + probes on_relay (secs 20 ∷ secs 30 ∷ secs 40 ∷ secs 50 ∷ []) * probe_direct_interval
    ≤ last_of (secs 10) (secs 20 ∷ secs 30 ∷ secs 40 ∷ secs 50 ∷ [])
probes_example =
    probes_lem on_relay (secs 10) (secs 20 ∷ secs 30 ∷ secs 40 ∷ secs 50 ∷ []) refl refl
      (omega arith)

crossing :
    transition_crosses_settled_boundary healthy.state (tick healthy (secs 145) true).0.state ≡ true
unfolding transition_crosses_settled_boundary tick new
crossing = refl

tick-crosses_example : (tick healthy (secs 145) true).1 ≢ none
tick-crosses_example = tick-crosses healthy (secs 145) true crossing

new-IsGone : IsGone (new 0)
unfolding new
new-IsGone = (λ e. cc, λ e. cc)

run-IsGone_example : IsGone (run (new 0) phantom)
run-IsGone_example = run-IsGone (new 0) phantom phantom-IsSilent new-IsGone
