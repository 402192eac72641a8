-- ===== src/Gateway/Backoff.antt =====
-- What crates/wiremesh-gateway/src/punch_backoff.rs and relay_connect_backoff.rs share: the
-- thresholds, the jitter, and the window that a failure opens. Instants and durations are
-- nanoseconds.
pub mod Punch
pub mod Relay
use wire_mesh.Common.{
  ℕ, zero, suc, ◌+◌, ◌-◌, ◌*◌, ◌/◌, ◌%◌, ◌^◌, ◌≤◌, ◌<◌, min, max, String, ◌≡◌, refl, sym, ap, ◌∙◌,
  subst, ◌≢◌, ◌↔◌, ◌⊎◌, inl, inr, Bool, true, false, not, ◌&&◌, ◌||◌, Option, none, some, List, [],
  ◌∷◌, ◌++◌, map, arith, ltb, leb, ◌==◌, if◌then◌else◌, is_some, leb→le, ==_iff, Bool-cases,
  Option-cases, length, is_empty, get_elem?, any_of, all_of, sum_of, In, here, there,
}
use Prim.Native.Nat.{bit_xor}
use native.Mathlib.Nat.{pow-suc}
use wire_mesh.Gateway.Path.{secs}

abbrev pub failure_threshold : ℕ
failure_threshold = 3

abbrev pub backoff_base : ℕ
backoff_base = secs 30

abbrev pub backoff_cap : ℕ
backoff_cap = secs 300

-- `wrapping_add` and `wrapping_mul` on a u64
abbrev pub as_u64 : ℕ → ℕ
as_u64 n = n % 2 ^ 64

-- the state of the generator after one draw
unfoldable pub next_state : ℕ → ℕ
next_state s = as_u64 (s + 0x9E3779B97F4A7C15)

-- the 53 bits that a state gives
unfoldable pub jitter_bits : ℕ → ℕ
jitter_bits s =
    let a = as_u64 (bit_xor s (s / 2 ^ 30) * 0xBF58476D1CE4E5B9) in
    let b = as_u64 (bit_xor a (a / 2 ^ 27) * 0x94D049BB133111EB) in
    let c = bit_xor b (b / 2 ^ 31) in c / 2 ^ 11

-- `raw.mul_f64(1.0 + j)`, where `j` is the 53 bits over 2^54: floating point, with what the code
-- relies on
pub record Jitter : Type 0 where
  pub stretch : ℕ → ℕ → ℕ
  -- a factor of at least 1
  pub stretch-ge : (raw bits : ℕ) → raw ≤ stretch raw bits

-- `saturating_add(1)` on a u32
abbrev pub saturating_suc : ℕ → ℕ
saturating_suc n = min (n + 1) 4294967295

module _ (jitter : Jitter) where
  open jitter use {stretch, stretch-ge}

  -- the delay of the window that the failure number `count` opens, above the threshold
  unfoldable pub delay_of : ℕ → ℕ → ℕ → ℕ
  delay_of threshold count rng =
      min (stretch (backoff_base * 2 ^ min (count - threshold) 31) (jitter_bits rng)) backoff_cap

  pow-pos : (n : ℕ) → 0 < 2 ^ n
  pow-pos zero = omega arith
  pow-pos (suc n) = omega (arith, pow-pos n, pow-suc 2 n)

  pow-double : (n : ℕ) → 2 ^ suc n ≡ 2 * 2 ^ n
  pow-double n = omega (arith, pow-suc 2 n)

  -- Every window is between thirty seconds and five minutes long.
  pub delay_of-bounds :
      (threshold count rng : ℕ)
      → (backoff_base ≤ delay_of threshold count rng) × (delay_of threshold count rng ≤ backoff_cap)
  unfolding delay_of
  delay_of-bounds threshold count rng =
      let e = min (count - threshold) 31 in
      let long = stretch-ge (backoff_base * 2 ^ e) (jitter_bits rng) in
      let grown : backoff_base ≤ backoff_base * 2 ^ e = omega (arith, pow-pos e) in
      (omega arith, omega arith)
