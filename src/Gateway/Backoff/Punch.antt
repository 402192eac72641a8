-- ===== src/Gateway/Backoff/Punch.antt =====
-- crates/wiremesh-gateway/src/punch_backoff.rs: how often a pair may punch.
pub mod Fresh
use wire_mesh.Common.{
  Ordered, last_of, any_of-In, eq_iff, str_eq, ℕ, zero, suc, ◌+◌, ◌*◌, ◌≤◌, ◌<◌, String, ◌≡◌, refl,
  sym, ap, ◌∙◌, subst, ◌⊎◌, inl, inr, Bool, true, false, not, ◌&&◌, Option, none, some, List, [],
  ◌∷◌, arith, ltb, leb, if◌then◌else◌, Bool-cases, any_of, all_of, In, here, there,
}
use wire_mesh.Gateway.Backoff.{
  Jitter, failure_threshold, backoff_base, next_state, saturating_suc, delay_of, delay_of-bounds,
}

pub data PunchDecision : Type 0 where
  allow : PunchDecision
  skip : ℕ → PunchDecision

pub record PunchBackoff : Type 0 where
  pub rng_state : ℕ
  pub consecutive_failures : ℕ
  pub last_candidates : Option (List String)
  pub window_until : Option ℕ

-- `PunchBackoff::new`
unfoldable pub new : ℕ → PunchBackoff
new jitter_seed = record {
  rng_state = jitter_seed;
  consecutive_failures = 0;
  last_candidates = none;
  window_until = none;
}

-- equality of the two lists as sets
unfoldable pub same_set : List String → List String → Bool
same_set a b = all_of (λ x. any_of (str_eq x) b) a && all_of (λ x. any_of (str_eq x) a) b

-- the window of `decide`
unfoldable pub by_window : PunchBackoff → Option ℕ → ℕ → PunchDecision × PunchBackoff
by_window p none now = (allow, p)
by_window p (some until) now =
    if ltb now until then (skip until, p) else (allow, record p { window_until = none })

unfoldable pub decide_last :
    PunchBackoff → Option (List String) → ℕ → List String → PunchDecision × PunchBackoff
unfolding by_window
decide_last p none now candidates =
    by_window (record p { last_candidates = some candidates }) p.window_until now
decide_last p (some prev) now candidates =
    if not (same_set prev candidates)
    then (
      allow,
      record p { last_candidates = some candidates; consecutive_failures = 0; window_until = none },
    )
    else by_window p p.window_until now

unfoldable pub decide : PunchBackoff → ℕ → List String → PunchDecision × PunchBackoff
unfolding decide_last
decide p now candidates = decide_last p p.last_candidates now candidates

unfoldable pub record_success : PunchBackoff → PunchBackoff
record_success p = record p { consecutive_failures = 0; window_until = none }

module _ (jitter : Jitter) where
  unfoldable pub record_failure : PunchBackoff → ℕ → PunchBackoff
  record_failure p now =
      let count = saturating_suc p.consecutive_failures in
      if leb failure_threshold count
      then record p {
        consecutive_failures = count;
        rng_state = next_state p.rng_state;
        window_until =
            some (now + delay_of jitter failure_threshold count (next_state p.rng_state));
      }
      else record p { consecutive_failures = count }

  -- an attempt that is allowed runs and fails
  abbrev pub tried : (PunchBackoff → ℕ) → ℕ → PunchDecision × PunchBackoff → ℕ
  tried rest now (allow, q) = suc (rest (record_failure q now))
  tried rest now (skip until, q) = rest q

  -- how many of the attempts at the given times run, where each that runs fails
  pub attempts : PunchBackoff → List String → List ℕ → ℕ
  attempts p cs [] = 0
  attempts p cs (now ∷ later) = tried (λ q. attempts q cs later) now (decide p now cs)

all_of-any_of_self :
    (xs ys : List String)
    → ((x : String) → In x xs → In x ys)
    → all_of (λ x. any_of (str_eq x) ys) xs ≡ true
all_of-any_of_self [] ys h = refl
all_of-any_of_self (x ∷ xs) ys h = ground (
  arith,
  any_of-In (str_eq x) (h x (here refl)) ((eq_iff x x).1 refl),
  all_of-any_of_self xs ys (λ y m. h y (there m)),
)

-- Lists with the same members are one candidate set, whatever their order and repetitions.
pub same_set-In :
    (xs ys : List String)
    → ((x : String) → In x xs → In x ys)
    → ((x : String) → In x ys → In x xs)
    → same_set xs ys ≡ true
unfolding same_set
same_set-In xs ys h k = ground (arith, all_of-any_of_self xs ys h, all_of-any_of_self ys xs k)

-- no candidates yet, or these
abbrev pub Known : PunchBackoff → List String → Type 0
Known p cs = (p.last_candidates ≡ none) ⊎ (p.last_candidates ≡ some cs)

abbrev pub with_candidates : PunchBackoff → List String → PunchBackoff
with_candidates p cs = record p { last_candidates = some cs }

pub decide-Known :
    (p : PunchBackoff) (now : ℕ) (cs : List String)
    → Known p cs
    → decide p now cs ≡ by_window (with_candidates p cs) p.window_until now
unfolding decide
decide-Known p now cs (inl e) = rw e refl
decide-Known p now cs (inr e) =
    let same : same_set cs cs ≡ true = same_set-In cs cs (λ x m. m) (λ x m. m) in
    let kept : with_candidates p cs ≡ p =
      ap (λ (o : Option (List String)). record p { last_candidates = o }) (sym e) in
    subst
      (λ (o : Option (List String)).
        decide_last p o now cs ≡ by_window (with_candidates p cs) p.window_until now)
      (sym e) (rw (same, kept) refl)

-- `k` more failures open a window; or one is open that ends thirty seconds past `v` or later
abbrev Ready : ℕ → ℕ → PunchBackoff → Type 0
Ready k v p =
    ((p.consecutive_failures + k ≡ failure_threshold) × (0 < k) × (p.window_until ≡ none))
    ⊎ ((k ≡ 0)
        × (failure_threshold ≤ p.consecutive_failures)
        × ((until : ℕ) × (p.window_until ≡ some until) × (v + backoff_base ≤ until)))

module _ (jitter : Jitter) where
  record_failure-warm :
      (q : PunchBackoff) (now k : ℕ)
      → q.consecutive_failures + suc k ≡ failure_threshold
      → q.window_until ≡ none
      → Ready k now (record_failure jitter q now)
  unfolding record_failure
  record_failure-warm q now zero e w = inr (
    ground (arith),
    ground arith,
    (
      now
          + delay_of jitter failure_threshold (saturating_suc q.consecutive_failures)
              (next_state q.rng_state),
      ground arith,
      omega (
        arith,
        delay_of-bounds jitter failure_threshold (saturating_suc q.consecutive_failures)
            (next_state q.rng_state),
      ),
    ),
  )
  record_failure-warm q now (suc k) e w = inl (ground arith, omega arith, ground arith)

  record_failure-open :
      (q : PunchBackoff) (now : ℕ)
      → failure_threshold ≤ q.consecutive_failures
      → Ready 0 now (record_failure jitter q now)
  unfolding record_failure
  record_failure-open q now e = inr (
    refl,
    ground arith,
    (
      now
          + delay_of jitter failure_threshold (saturating_suc q.consecutive_failures)
              (next_state q.rng_state),
      ground arith,
      omega (
        arith,
        delay_of-bounds jitter failure_threshold (saturating_suc q.consecutive_failures)
            (next_state q.rng_state),
      ),
    ),
  )

  pub record_failure-Known :
      (q : PunchBackoff) (now : ℕ) (cs : List String)
      → q.last_candidates ≡ some cs
      → Known (record_failure jitter q now) cs
  unfolding record_failure
  record_failure-Known q now cs e = inr (ground arith)

  pub attempts-allow :
      (p q : PunchBackoff) (cs : List String) (now : ℕ) (later : List ℕ)
      → decide p now cs ≡ (allow, q)
      → attempts jitter p cs (now ∷ later)
        ≡ suc (attempts jitter (record_failure jitter q now) cs later)
  unfolding attempts
  attempts-allow p q cs now later e = ap (tried jitter (λ r. attempts jitter r cs later) now) e

  attempts-skip :
      (p q : PunchBackoff) (cs : List String) (now until : ℕ) (later : List ℕ)
      → decide p now cs ≡ (skip until, q)
      → attempts jitter p cs (now ∷ later) ≡ attempts jitter q cs later
  unfolding attempts
  attempts-skip p q cs now until later e = ap (tried jitter (λ r. attempts jitter r cs later) now) e

  attempts-bound :
      (p : PunchBackoff) (cs : List String) (k v t : ℕ) (times : List ℕ)
      → Known p cs
      → Ready k v p
      → v ≤ t
      → Ordered t times
      → v + attempts jitter p cs times * backoff_base ≤ last_of t times + k * backoff_base
  attempts-bound p cs k v t [] c r le o = unfold attempts in omega arith
  attempts-bound p cs zero v t (now ∷ later) c (inl (e, pos, w)) le o = absurd (omega arith)
  attempts-bound p cs (suc k) v t (now ∷ later) c (inl (e, pos, w)) le o =
      let q = with_candidates p cs in
      let run : decide p now cs ≡ (allow, q) =
        decide-Known p now cs c ∙ unfold by_window in rw w refl in
      omega (
        arith,
        ap (λ (n : ℕ). n * backoff_base) (attempts-allow p q cs now later run),
        attempts-bound (record_failure jitter q now) cs k now now later
            (record_failure-Known q now cs refl) (record_failure-warm q now k e w) (omega arith)
            o.1,
      )
  attempts-bound p cs k v t (now ∷ later) c (inr (z, high, (until, w, far))) le o =
      let q = with_candidates p cs in
      let r = record q { window_until = none } in
      elim (Bool-cases (ltb now until)) [
        | inl early ↦
            let run : decide p now cs ≡ (skip until, q) =
              decide-Known p now cs c ∙ unfold by_window in rw (w, early) refl in
            omega (
              arith,
              ap (λ (n : ℕ). n * backoff_base) (attempts-skip p q cs now until later run),
              attempts-bound q cs k v now later (inr refl) (inr (z, high, (until, w, far)))
                  (omega arith) o.1,
            )
        | inr late ↦
            let run : decide p now cs ≡ (allow, r) =
              decide-Known p now cs c ∙ unfold by_window in rw (w, late) refl in
            let past : until ≤ now = ground arith in
            omega (
              arith,
              ap (λ (n : ℕ). n * backoff_base) (attempts-allow p r cs now later run),
              attempts-bound (record_failure jitter r now) cs 0 now now later
                  (record_failure-Known r now cs refl) (record_failure-open r now high)
                  (omega arith) o.1,
            )
      ]

  -- A pair whose every punch fails, and whose candidates stay the same, punches at most three
  -- times and once more for every thirty seconds, at whatever times, that do not go back, it is
  -- asked to.
  pub punch_storm :
      (seed start : ℕ) (cs : List String) (times : List ℕ)
      → Ordered start times
      → start + attempts jitter (new seed) cs times * backoff_base
        ≤ last_of start times + failure_threshold * backoff_base
  punch_storm seed start cs times o =
      attempts-bound (new seed) cs failure_threshold start start times (inl (unfold new in refl))
        (inl (unfold new in (refl, omega arith, refl))) (omega arith) o
