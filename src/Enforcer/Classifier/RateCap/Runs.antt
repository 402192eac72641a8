-- ===== src/Enforcer/Classifier/RateCap/Runs.antt =====
-- crates/wiremesh-enforcer-ebpf/program/src/main.rs: the attempts of all sources against the cap on
-- new flows.
use wire_mesh.Common.{
  ℕ, ◌+◌, ◌*◌, ◌≤◌, ◌<◌, min, Bool, true, false, not, ◌&&◌, none, List, [], ◌∷◌, ◌==◌, ◌≡◌, refl,
  ◌⊎◌, inl, inr, is_some, arith,
}
use wire_mesh.External.LruMap.{LruMap}
use wire_mesh.Enforcer.Flow.{rate_window_ns, rate_cap}
use wire_mesh.Enforcer.Classifier.{Kernel, State, rate_allows}
use wire_mesh.Enforcer.Classifier.RateCap.{
  cell_of, one, Begun, room, kept_room, config-rate_allows, attempt-Spends,
}

-- a source and a time at which it opens a flow
abbrev pub Attempt : Type 0
Attempt = ℕ × ℕ

-- all times stand within one window from `start`
abbrev pub WithinWindow : ℕ → List Attempt → Type 0
WithinWindow start [] = Unit
WithinWindow start ((src, now) ∷ later) =
    (start ≤ now) × (now ≤ start + rate_window_ns) × WithinWindow start later

low_step :
    (before after admits attempts later n : ℕ)
    → before ≤ admits + after
    → (attempts ≤ admits) ⊎ (before ≡ 0)
    → min after n ≤ later
    → min before (attempts + n) ≤ admits + later
low_step before after admits attempts later n h (inl k) l = omega arith
low_step before after admits attempts later n h (inr k) l = omega arith

high_step :
    (before after admits missed later m cap : ℕ)
    → admits + after ≤ before + missed * cap
    → later ≤ after + m * cap
    → admits + later ≤ before + (missed + m) * cap
high_step before after admits missed later m cap h k = omega arith

one-and : (x y : Bool) → one (x && y) ≤ one x
one-and true true = omega arith
one-and true false = omega arith
one-and false y = omega arith

-- the attempts of the source
abbrev pub tries : ℕ → List Attempt → ℕ
tries src [] = 0
tries src ((a, now) ∷ later) = one (a == src) + tries src later

module _ (kernel : Kernel) (src : ℕ) where
  open kernel use {rate_map}

  -- How many attempts of the source are admitted, where all attempts share the map.
  unfoldable pub admitted : State kernel → List Attempt → ℕ
  admitted s [] = 0
  admitted s ((a, now) ∷ later) =
      let (ok, t) = rate_allows kernel s a now in one (a == src && ok) + admitted t later

  -- How many attempts of the source find no cell of theirs.
  unfoldable pub misses : State kernel → List Attempt → ℕ
  misses s [] = 0
  misses s ((a, now) ∷ later) =
      one (a == src && not (is_some (cell_of kernel src s)))
      + misses (rate_allows kernel s a now).1 later

  admitted-room :
      (start : ℕ) (s : State kernel) (attempts : List Attempt)
      → 0 < rate_cap s.config
      → WithinWindow start attempts
      → Begun start (cell_of kernel src s)
      → (min (room (rate_cap s.config) (cell_of kernel src s)) (tries src attempts)
          ≤ admitted s attempts)
        × (admitted s attempts
            ≤ kept_room (rate_cap s.config) (cell_of kernel src s)
              + misses s attempts * rate_cap s.config)
  unfolding admitted misses
  admitted-room start s [] pos w b = (omega arith, omega arith)
  admitted-room start s ((a, now) ∷ later) pos w b =
      let t = (rate_allows kernel s a now).1 in
      let limit : rate_cap t.config ≡ rate_cap s.config =
        rw (config-rate_allows kernel src s a now) refl in
      let one' = attempt-Spends kernel src start s a now pos w.0 w.1 b in
      let rest = admitted-room start t later (rw limit pos) w.2 one'.begun in
      let (low, high) = rw limit at rest in
      (
        low_step _ _ _ _ _ _ one'.spent one'.served low,
        high_step _ _ _ _ _ _ (rate_cap s.config) one'.earned high,
      )

  admitted-tries :
      (s : State kernel) (attempts : List Attempt) → admitted s attempts ≤ tries src attempts
  unfolding admitted
  admitted-tries s [] = omega arith
  admitted-tries s ((a, now) ∷ later) =
      let (ok, t) = rate_allows kernel s a now in
      let own : one (a == src && ok) ≤ one (a == src) = one-and (a == src) ok in
      omega (arith, own, admitted-tries t later)

  -- Over the attempts of all sources within one window, from a state without a cell of the source's,
  -- with a positive cap, whatever cells the LRU map evicts or refuses: of the attempts of the source
  -- as many as the cap are admitted at least, or all where there are fewer; and at most as many as
  -- the cap for every attempt that found no cell of the source's, and no more than there are. Where
  -- only the first finds none, the lower bound and the upper one are the same.
  pub admitted_lem :
      (start : ℕ) (s : State kernel) (attempts : List Attempt)
      → 0 < rate_cap s.config
      → WithinWindow start attempts
      → LruMap.get rate_map s.rates src ≡ none
      → (min (rate_cap s.config) (tries src attempts) ≤ admitted s attempts)
        × (admitted s attempts ≤ min (misses s attempts * rate_cap s.config) (tries src attempts))
  admitted_lem start s attempts pos w e =
      let begun : Begun start (cell_of kernel src s) = rw e tt in
      let (low, high) = rw e at (admitted-room start s attempts pos w begun) in
      (low, omega (arith, high, admitted-tries s attempts))
