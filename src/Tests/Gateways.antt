-- ===== src/Tests/Gateways.antt =====
-- Concrete runs of the back-offs and of the rotations.
use wire_mesh.Common.{
  last_of, ℕ, ◌+◌, ◌*◌, ◌/◌, ◌≤◌, String, ◌≡◌, refl, ◌≢◌, true, false, none, some, List, [], ◌∷◌,
  arith, eq_iff, In, here, there, inr,
}
use wire_mesh.Gateway.Path.{secs}
use wire_mesh.Gateway.Backoff.{Jitter, backoff_base, failure_threshold}
use wire_mesh.Gateway.Backoff.Punch
use wire_mesh.Gateway.Backoff.Punch.Fresh
use wire_mesh.Gateway.Backoff.Relay
use wire_mesh.Gateway.Rotation
use wire_mesh.Controller.Rotation as Controller

quarter-ge : (raw bits : ℕ) → raw ≤ raw + raw / 4
quarter-ge raw bits = omega arith

-- a quarter more, whatever is drawn
abbrev jitter : Jitter
jitter = record { stretch = λ raw bits. raw + raw / 4; stretch-ge = quarter-ge }

abbrev candidates : List String
candidates = "192.0.2.1:51820" ∷ "198.51.100.7:51820" ∷ []

abbrev directives : List ℕ
directives = secs 1 ∷ secs 2 ∷ secs 3 ∷ secs 4 ∷ secs 50 ∷ []

punch_storm_example :
    secs 1 + Punch.attempts jitter (Punch.new 7) candidates directives * backoff_base
    ≤ last_of (secs 1) directives + failure_threshold * backoff_base
punch_storm_example = Punch.punch_storm jitter 7 (secs 1) candidates directives (omega arith)

abbrev tries : List (ℕ × Relay.RelayConnectFailure)
tries = (secs 1, Relay.alpn_mismatch) ∷ (secs 2, Relay.unreachable) ∷ (secs 60, Relay.other) ∷ []

relay_storm_example :
    secs 1 + Relay.attempts jitter (Relay.new 9) tries * backoff_base
    ≤ last_of (secs 1) (Relay.times_of tries) + failure_threshold * backoff_base
relay_storm_example = Relay.relay_storm jitter 9 (secs 1) tries (omega arith)

abbrev closed : Punch.PunchBackoff
closed = record {
  rng_state = 5;
  consecutive_failures = 4;
  last_candidates = some candidates;
  window_until = some (secs 100);
}

abbrev observed : List String
observed = "203.0.113.9:4000" ∷ candidates

new_address : ¬ In "203.0.113.9:4000" candidates
new_address (here e) = let t : false ≡ true = (eq_iff _ _).1 e in cc
new_address (there (here e)) = let t : false ≡ true = (eq_iff _ _).1 e in cc
new_address (there (there m)) = elim m [ ]

attempts-fresh_example : 3 ≤ Punch.attempts jitter closed observed directives
attempts-fresh_example =
    Fresh.attempts-fresh jitter closed candidates observed "203.0.113.9:4000" directives refl
      (inr (new_address, here refl))

mismatch : Relay.is_permanent Relay.alpn_mismatch ≡ true
unfolding Relay.is_permanent
mismatch = refl

record_failure-permanent_example :
    ((Relay.record_failure jitter (Relay.new 9) (secs 1) Relay.alpn_mismatch).0 ≡ Relay.log)
    × ((Relay.decide
          (Relay.record_failure jitter (Relay.new 9) (secs 1) Relay.alpn_mismatch).1
          (secs 20)).0
        ≢ Relay.allow)
record_failure-permanent_example =
    Relay.record_failure-permanent jitter (Relay.new 9) (secs 1) (secs 20) Relay.alpn_mismatch
      mismatch (omega arith)

abbrev rotation_run : List Rotation.RotationEvent
rotation_run =
    Rotation.directive 2 ∷ Rotation.session true ∷ Rotation.failed ∷ Rotation.retired 1 ∷ []

run-Lifecycle_example :
    Rotation.Lifecycle
      (Rotation.run Rotation.new [] rotation_run).1.phase
      rotation_run
      (Rotation.run Rotation.new [] rotation_run).0
run-Lifecycle_example = Rotation.run-Lifecycle rotation_run

abbrev pending : Controller.RotationState
pending = record {
  pending_epoch = 2;
  pending_has_real_key = false;
  prior_active_epoch = some 1;
  started_at = 0;
  promoted_at = none;
  expected_peers = 4 ∷ 5 ∷ [];
  live_acks = 4 ∷ [];
}

unpromoted : (at : ℕ) → pending.promoted_at ≡ some at → at + Controller.retire_grace ≤ secs 300
unpromoted at e = cc

decide-deadline_example : Controller.decide pending (secs 300) ≢ Controller.wait
decide-deadline_example = Controller.decide-deadline pending (secs 300) (omega arith) unpromoted
