-- ===== src/Enforcer/Classifier/RateCap.antt =====
-- crates/wiremesh-enforcer-ebpf/program/src/main.rs: the cap on new flows of a source, over an LRU
-- map of cells that may drop a cell or refuse one.
pub mod Runs
use wire_mesh.Common.{
  ℕ, suc, ◌+◌, ◌-◌, ◌*◌, ◌≤◌, ◌<◌, min, subst, Bool, true, false, not, ◌&&◌, Option, none, some,
  List, [], ◌∷◌, ltb, ◌==◌, if◌then◌else◌, ◌≡◌, refl, sym, ◌∙◌, ◌≢◌, ◌⊎◌, inl, inr, Bool-cases,
  is_some, ==_iff, arith,
}
use wire_mesh.External.LruMap.{LruMap}
use wire_mesh.Enforcer.Flow.{RateVal, rate_window_ns, rate_step, rate_cap, saturating_suc}
use wire_mesh.Enforcer.Classifier.{Kernel, State, rate_allows, put_rate}

abbrev pub one : Bool → ℕ
one true = 1
one false = 0

-- the attempts that the cell still admits, where a missing one admits all of a window's
abbrev pub room : ℕ → Option RateVal → ℕ
room limit none = limit
room limit (some v) = limit - v.count

-- the same, where a miss is counted for itself
abbrev pub kept_room : ℕ → Option RateVal → ℕ
kept_room limit none = 0
kept_room limit (some v) = limit - v.count

abbrev pub Begun : ℕ → Option RateVal → Type 0
Begun start none = Unit
Begun start (some v) = start ≤ v.window_start_ns

-- what one attempt does to the source's cell
pub record Spends (start limit admits attempts missed : ℕ) (before after : Option RateVal)
    : Type 0 where
  pub begun : Begun start after
  pub spent : room limit before ≤ admits + room limit after
  pub served : (attempts ≤ admits) ⊎ (room limit before ≡ 0)
  pub earned : admits + kept_room limit after ≤ kept_room limit before + missed * limit

module _ (kernel : Kernel) (src : ℕ) where
  open kernel use {rate_map}

  abbrev pub cell_of : State kernel → Option RateVal
  cell_of s = LruMap.get rate_map s.rates src

  -- the map after an attempt that found the cell `c`
  abbrev after : ℕ → Option RateVal → LruMap.Map rate_map → ℕ → ℕ → LruMap.Map rate_map
  after limit c m a now =
      if (rate_step limit c now).0 then put_rate kernel c a (rate_step limit c now).1 m else m

  rates-after :
      (s : State kernel) (a now : ℕ)
      → (rate_allows kernel s a now).1.rates
        ≡ after (rate_cap s.config) (LruMap.get rate_map s.rates a) s.rates a now
  unfolding rate_allows
  rates-after s a now =
      elim (Bool-cases (rate_step (rate_cap s.config) (LruMap.get rate_map s.rates a) now).0) [
        | inl yes' ↦ rw yes' refl
        | inr no' ↦ rw no' refl
      ]

  -- An attempt of another source keeps the cell, or evicts it.
  get-after_other :
      (limit : ℕ) (m : LruMap.Map rate_map) (a now : ℕ) (c : Option RateVal)
      → LruMap.get rate_map m a ≡ c
      → a == src ≡ false
      → (LruMap.get rate_map (after limit c m a now) src ≡ LruMap.get rate_map m src)
        ⊎ (LruMap.get rate_map (after limit c m a now) src ≡ none)
  unfolding rate_step
  get-after_other limit m a now none e ne =
      LruMap.get-insert_other rate_map m a src (record { window_start_ns = now; count = 1 })
        (λ x. cc)
  get-after_other limit m a now (some v) e ne = elim (Bool-cases (rate_step limit (some v) now).0) [
    | inr no' ↦ rw no' (inl refl)
    | inl yes' ↦
        let poked = LruMap.get-poke rate_map m a src (rate_step limit (some v) now).1 (λ x. cc) in
        rw yes' (inl (poked ∙ rw ne refl))
  ]

  module _ (start limit : ℕ) where
    kept-Spends :
        (c d : Option RateVal) → (d ≡ c) ⊎ (d ≡ none) → Begun start c → Spends start limit 0 0 0 c d
    kept-Spends none d (inl e) b = rw e (ground (arith, b))
    kept-Spends none d (inr e) b = rw e (ground (arith, b))
    kept-Spends (some v) d (inl e) b = rw e (ground (arith, b))
    kept-Spends (some v) d (inr e) b = rw e (ground (arith, b))

    module _ (now : ℕ) (m : LruMap.Map rate_map) where
      self-Spends :
          (c : Option RateVal)
          → 0 < limit
          → limit < 4294967296
          → start ≤ now
          → now ≤ start + rate_window_ns
          → LruMap.get rate_map m src ≡ c
          → Begun start c
          → Spends start limit
              (one (rate_step limit c now).0)
              1
              (one (not (is_some c)))
              c
              (LruMap.get rate_map (after limit c m src now) src)
      unfolding rate_step
      self-Spends none pos lt lo hi e b =
          elim (LruMap.get-insert_self rate_map m src
            (record { window_start_ns = now; count = 1 })) [
              | inl put ↦ rw put (ground arith)
              | inr refused ↦ rw (refused, e) (ground arith)
            ]
      self-Spends (some v) pos lt lo hi e b =
          let young : ltb rate_window_ns (now - v.window_start_ns) ≡ false = ground (arith, b) in
          elim (Bool-cases (ltb v.count limit)) [
            | inl more ↦
                let w : RateVal = record v { count = saturating_suc v.count } in
                let poked : LruMap.get rate_map (LruMap.poke rate_map src w m) src ≡ some w =
                  LruMap.get-poke rate_map m src src w (λ x. cc)
                  ∙ rw ((==_iff src src).1 refl) refl in
                rw (young, more, poked) (ground (arith, b, more))
            | inr full ↦ rw (young, full, e) (ground (arith, b, full))
          ]

  cap_bound : (s : State kernel) → rate_cap s.config < 4294967296
  unfolding rate_cap
  cap_bound s = omega arith

  module _ (start : ℕ) (s : State kernel) (now : ℕ) where
    step_other :
        (a : ℕ)
        → a == src ≡ false
        → Begun start (cell_of s)
        → Spends start
            (rate_cap s.config)
            0
            0
            0
            (cell_of s)
            (cell_of (rate_allows kernel s a now).1)
    step_other a ne b = rw (rates-after s a now) (
        kept-Spends start (rate_cap s.config) (cell_of s)
          (LruMap.get rate_map
            (after (rate_cap s.config) (LruMap.get rate_map s.rates a) s.rates a now) src)
          (get-after_other (rate_cap s.config) s.rates a now (LruMap.get rate_map s.rates a) refl
            ne)
          b)

    step_self :
        0 < rate_cap s.config
        → start ≤ now
        → now ≤ start + rate_window_ns
        → Begun start (cell_of s)
        → Spends start
            (rate_cap s.config)
            (one (rate_allows kernel s src now).0)
            1
            (one (not (is_some (cell_of s))))
            (cell_of s)
            (cell_of (rate_allows kernel s src now).1)
    unfolding rate_allows
    step_self pos lo hi b = rw (rates-after s src now) (
        self-Spends start (rate_cap s.config) now s.rates (cell_of s) pos (cap_bound s) lo hi refl
          b)

  pub config-rate_allows :
      (s : State kernel) (a now : ℕ) → (rate_allows kernel s a now).1.config ≡ s.config
  unfolding rate_allows
  config-rate_allows s a now = ground arith

  -- one attempt of any source
  pub attempt-Spends :
      (start : ℕ) (s : State kernel) (a now : ℕ)
      → 0 < rate_cap s.config
      → start ≤ now
      → now ≤ start + rate_window_ns
      → Begun start (cell_of s)
      → Spends start
          (rate_cap s.config)
          (one (a == src && (rate_allows kernel s a now).0))
          (one (a == src))
          (one (a == src && not (is_some (cell_of s))))
          (cell_of s)
          (cell_of (rate_allows kernel s a now).1)
  attempt-Spends start s a now pos lo hi b = elim (Bool-cases (a == src)) [
    | inr ne ↦ rw ne (step_other start s now a ne b)
    | inl same ↦
        subst
          (λ (x : ℕ).
            Spends start (rate_cap s.config) (one (x == src && (rate_allows kernel s x now).0))
              (one (x == src)) (one (x == src && not (is_some (cell_of s)))) (cell_of s)
              (cell_of (rate_allows kernel s x now).1))
          (sym ((==_iff a src).0 same))
          (rw ((==_iff src src).1 refl) (step_self start s now pos lo hi b))
  ]
