-- ===== src/Gateway/Backoff/Relay.antt =====
-- crates/wiremesh-gateway/src/relay_connect_backoff.rs: how often a peer's relay is tried.
use wire_mesh.Common.{
  Ordered, last_of, ℕ, zero, suc, ◌+◌, ◌-◌, ◌*◌, ◌≤◌, ◌<◌, ◌≡◌, refl, ap, ◌≢◌, ◌⊎◌, inl, inr, Bool,
  true, false, not, ◌||◌, Option, none, some, List, [], ◌∷◌, arith, ltb, leb, ◌==◌, if◌then◌else◌,
  Bool-cases, Option-cases,
}
use wire_mesh.Gateway.Backoff.{
  Jitter, failure_threshold, backoff_base, next_state, saturating_suc, delay_of, delay_of-bounds,
}

abbrev pub permanent_failure_threshold : ℕ
permanent_failure_threshold = 1

-- crates/wiremesh-relay/src/lib.rs: the classified causes, with the TLS alert
pub data RelayConnectFailure : Type 0 where
  alpn_mismatch : RelayConnectFailure
  peer_rejected_credentials : ℕ → RelayConnectFailure
  unreachable other : RelayConnectFailure

unfoldable pub is_permanent : RelayConnectFailure → Bool
is_permanent alpn_mismatch = true
is_permanent (peer_rejected_credentials alert) = true
is_permanent unreachable = false
is_permanent other = false

unfoldable pub same_cause : RelayConnectFailure → RelayConnectFailure → Bool
same_cause alpn_mismatch alpn_mismatch = true
same_cause (peer_rejected_credentials a) (peer_rejected_credentials b) = a == b
same_cause unreachable unreachable = true
same_cause other other = true
same_cause a b = false

pub data RelayConnectDecision : Type 0 where
  allow : RelayConnectDecision
  skip : ℕ → RelayConnectDecision

pub data LogDecision : Type 0 where
  log suppress : LogDecision

pub record RelayConnectBackoff : Type 0 where
  pub rng_state : ℕ
  pub consecutive_failures : ℕ
  pub last_cause : Option RelayConnectFailure
  pub window_until : Option ℕ

-- `RelayConnectBackoff::new`
unfoldable pub new : ℕ → RelayConnectBackoff
new jitter_seed = record {
  rng_state = jitter_seed;
  consecutive_failures = 0;
  last_cause = none;
  window_until = none;
}

unfoldable pub decide_window :
    RelayConnectBackoff → Option ℕ → ℕ → RelayConnectDecision × RelayConnectBackoff
decide_window p none now = (allow, p)
decide_window p (some until) now =
    if ltb now until then (skip until, p) else (allow, record p { window_until = none })

unfoldable pub decide : RelayConnectBackoff → ℕ → RelayConnectDecision × RelayConnectBackoff
unfolding decide_window
decide p now = decide_window p p.window_until now

unfoldable pub record_success : RelayConnectBackoff → RelayConnectBackoff
record_success p = record p { consecutive_failures = 0; last_cause = none; window_until = none }

abbrev pub threshold_of : RelayConnectFailure → ℕ
threshold_of cause = if is_permanent cause then permanent_failure_threshold else failure_threshold

-- `self.last_cause != Some(cause)`
unfoldable pub cause_changed : Option RelayConnectFailure → RelayConnectFailure → Bool
unfolding same_cause
cause_changed none cause = true
cause_changed (some last) cause = not (same_cause last cause)

module _ (jitter : Jitter) where
  unfoldable pub record_failure :
      RelayConnectBackoff → ℕ → RelayConnectFailure → LogDecision × RelayConnectBackoff
  record_failure p now cause =
      let count = saturating_suc p.consecutive_failures in
      let counted = record p { consecutive_failures = count; last_cause = some cause } in
      let opened = leb (threshold_of cause) count in
      (
        if p.consecutive_failures == 0 || cause_changed p.last_cause cause || opened
            then log
            else suppress,
        if opened
            then record counted {
              rng_state = next_state p.rng_state;
              window_until =
                  some (now + delay_of jitter (threshold_of cause) count (next_state p.rng_state));
            }
            else counted,
      )

  -- an attempt that is allowed runs and fails by the cause
  abbrev pub tried :
      (RelayConnectBackoff → ℕ)
      → ℕ
      → RelayConnectFailure
      → RelayConnectDecision × RelayConnectBackoff
      → ℕ
  tried rest now cause (allow, q) = suc (rest (record_failure q now cause).1)
  tried rest now cause (skip until, q) = rest q

  -- how many of the attempts at the given times run, where each that runs fails by its cause
  pub attempts : RelayConnectBackoff → List (ℕ × RelayConnectFailure) → ℕ
  attempts p [] = 0
  attempts p ((now, cause) ∷ later) = tried (λ q. attempts q later) now cause (decide p now)

abbrev pub times_of : List (ℕ × RelayConnectFailure) → List ℕ
times_of [] = []
times_of ((now, cause) ∷ later) = now ∷ times_of later

-- `k` more failures of any cause open a window; or one is open that ends thirty seconds past `v` or
-- later
abbrev Ready : ℕ → ℕ → RelayConnectBackoff → Type 0
Ready k v p =
    ((p.consecutive_failures + k ≡ failure_threshold) × (0 < k))
    ⊎ ((k ≡ 0)
        × (failure_threshold ≤ p.consecutive_failures)
        × ((until : ℕ) × (p.window_until ≡ some until) × (v + backoff_base ≤ until)))

module _ (jitter : Jitter) where
  record_failure-warm :
      (q : RelayConnectBackoff) (now k : ℕ) (cause : RelayConnectFailure)
      → q.consecutive_failures + suc k ≡ failure_threshold
      → Ready k now (record_failure jitter q now cause).1
  unfolding record_failure
  record_failure-warm q now zero cause e = inr (
    ground (arith),
    ground arith,
    (
      now
          + delay_of jitter (threshold_of cause) (saturating_suc q.consecutive_failures)
              (next_state q.rng_state),
      ground arith,
      omega (
        arith,
        delay_of-bounds jitter (threshold_of cause) (saturating_suc q.consecutive_failures)
            (next_state q.rng_state),
      ),
    ),
  )
  record_failure-warm q now (suc k) cause e = inl (ground arith, omega arith)

  record_failure-open :
      (q : RelayConnectBackoff) (now : ℕ) (cause : RelayConnectFailure)
      → failure_threshold ≤ q.consecutive_failures
      → Ready 0 now (record_failure jitter q now cause).1
  unfolding record_failure
  record_failure-open q now cause e = inr (
    refl,
    ground arith,
    (
      now
          + delay_of jitter (threshold_of cause) (saturating_suc q.consecutive_failures)
              (next_state q.rng_state),
      ground arith,
      omega (
        arith,
        delay_of-bounds jitter (threshold_of cause) (saturating_suc q.consecutive_failures)
            (next_state q.rng_state),
      ),
    ),
  )

  attempts-allow :
      (p q : RelayConnectBackoff) (now : ℕ) (cause : RelayConnectFailure)
      (later : List (ℕ × RelayConnectFailure))
      → decide p now ≡ (allow, q)
      → attempts jitter p ((now, cause) ∷ later)
        ≡ suc (attempts jitter (record_failure jitter q now cause).1 later)
  unfolding attempts
  attempts-allow p q now cause later e =
      ap (tried jitter (λ r. attempts jitter r later) now cause) e

  attempts-skip :
      (p q : RelayConnectBackoff) (now until : ℕ) (cause : RelayConnectFailure)
      (later : List (ℕ × RelayConnectFailure))
      → decide p now ≡ (skip until, q)
      → attempts jitter p ((now, cause) ∷ later) ≡ attempts jitter q later
  unfolding attempts
  attempts-skip p q now until cause later e =
      ap (tried jitter (λ r. attempts jitter r later) now cause) e

  -- A window that is over, or was never open, allows; the counter stays.
  decide-cases :
      (p : RelayConnectBackoff) (now : ℕ)
      → ((q : RelayConnectBackoff) × (decide p now ≡ (allow, q))
          × (q.consecutive_failures ≡ p.consecutive_failures)
          × ((until : ℕ) → p.window_until ≡ some until → until ≤ now))
        ⊎ ((until : ℕ) × (decide p now ≡ (skip until, p)))
  unfolding decide
  decide-cases p now = elim (Option-cases p.window_until) [
    | inl e ↦ inl (p, rw e refl, refl, λ (u : ℕ) h. cc)
    | inr (until, e) ↦ elim (Bool-cases (ltb now until)) [
      | inl early ↦ inr (until, rw (e, early) refl)
      | inr late ↦
          inl (record p { window_until = none }, rw (e, late) refl, refl, λ (u : ℕ) h. ground arith)
    ]
  ]

  attempts-bound :
      (p : RelayConnectBackoff) (k v t : ℕ) (tries : List (ℕ × RelayConnectFailure))
      → Ready k v p
      → v ≤ t
      → Ordered t (times_of tries)
      → v + attempts jitter p tries * backoff_base ≤ last_of t (times_of tries) + k * backoff_base
  attempts-bound p k v t [] r le o = unfold attempts in omega arith
  attempts-bound p k v t ((now, cause) ∷ later) r le o = elim (decide-cases p now) [
    | inr (until, run) ↦ omega (
      arith,
      ap (λ (n : ℕ). n * backoff_base) (attempts-skip p p now until cause later run),
      attempts-bound p k v now later r (omega arith) o.1,
    )
    | inl (q, run, same, past) ↦ elim r [
      | inl (e, pos) ↦
          let more : q.consecutive_failures + suc (k - 1) ≡ failure_threshold = omega arith in
          omega (
            arith,
            ap (λ (n : ℕ). n * backoff_base) (attempts-allow p q now cause later run),
            attempts-bound (record_failure jitter q now cause).1 (k - 1) now now later
                (record_failure-warm q now (k - 1) cause more) (omega arith) o.1,
          )
      | inr (z, high, (until, w, far)) ↦ omega (
        arith,
        past until w,
        ap (λ (n : ℕ). n * backoff_base) (attempts-allow p q now cause later run),
        attempts-bound (record_failure jitter q now cause).1 0 now now later
            (record_failure-open q now cause (omega arith)) (omega arith) o.1,
      )
    ]
  ]

  -- A relay that refuses every attempt, by whatever causes, is tried at most three times and once
  -- more for every thirty seconds, at whatever times, that do not go back, it is asked for.
  pub relay_storm :
      (seed start : ℕ) (tries : List (ℕ × RelayConnectFailure))
      → Ordered start (times_of tries)
      → start + attempts jitter (new seed) tries * backoff_base
        ≤ last_of start (times_of tries) + failure_threshold * backoff_base
  relay_storm seed start tries o =
      attempts-bound (new seed) failure_threshold start start tries
        (inl (unfold new in (refl, omega arith))) (omega arith) o

  -- A permanent cause closes the relay for thirty seconds, whatever came before, and is logged.
  pub record_failure-permanent :
      (p : RelayConnectBackoff) (now later : ℕ) (cause : RelayConnectFailure)
      → is_permanent cause ≡ true
      → later < now + backoff_base
      → ((record_failure jitter p now cause).0 ≡ log)
        × ((decide (record_failure jitter p now cause).1 later).0 ≢ allow)
  unfolding record_failure decide
  record_failure-permanent p now later cause e soon =
      let d =
        delay_of-bounds jitter 1 (saturating_suc p.consecutive_failures) (next_state p.rng_state) in
      let opened : leb (threshold_of cause) (saturating_suc p.consecutive_failures) ≡ true =
        ground arith in
      (ground arith, ground arith)
