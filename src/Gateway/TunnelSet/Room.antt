-- ===== src/Gateway/TunnelSet/Room.antt =====
-- The quarantine never takes the ports away: while few tunnels are up, an overlap finds a port.
use wire_mesh.Common.{
  length-append, length-map, ℕ, zero, suc, ◌+◌, ◌-◌, ◌^◌, ◌≤◌, ◌<◌, ◌≡◌, refl, ◌≢◌, inl, inr, Bool,
  true, not, ◌||◌, none, List, [], ◌∷◌, ◌++◌, arith, ltb, ◌==◌, Bool-cases, Option-cases, length,
  any_of,
}
use wire_mesh.Gateway.Tunnels.{
  TunnelId, TunnelPlan, overlap, holds_port, port_free, first_port, plan_port,
}
use wire_mesh.Gateway.TunnelSet.{
  TunnelSet, new_set, holds_id, collide, keep_quarantined, bring_up, drop_oldest, is_fresh,
  prune_quarantine, max_quarantine, get, tear_down, moved, set_listen_port, insert_plan, sort_plans,
  quarantined, plans,
}
use wire_mesh.Gateway.TunnelSet.Disjoint.{tally}
use wire_mesh.Gateway.TunnelSet.Runs.{
  SetOp, op_up, op_down, op_move, kept_set, apply_set_op, run_set_ops,
}

-- how many of the `left` ports from `port` on are taken
count_taken : ℕ → ℕ → List TunnelPlan → ℕ
count_taken zero port live = 0
count_taken (suc left) port live =
    tally (any_of (holds_port port) live) + count_taken left (suc port) live

-- how many of them the plan holds
count_held : ℕ → ℕ → TunnelPlan → ℕ
count_held zero port x = 0
count_held (suc left) port x = tally (holds_port port x) + count_held left (suc port) x

count_held-below :
    (left port : ℕ) (x : TunnelPlan) → x.listen_port < port → count_held left port x ≡ 0
unfolding count_held holds_port
count_held-below zero port x h = refl
count_held-below (suc left) port x h =
    let rest = count_held-below left (suc port) x (omega (arith, h)) in ground (arith, rest, h)

count_held-le : (left port : ℕ) (x : TunnelPlan) → count_held left port x ≤ 1
unfolding count_held holds_port
count_held-le zero port x = omega arith
count_held-le (suc left) port x = elim (Bool-cases (x.listen_port == port)) [
  | inl here' ↦
      let rest = count_held-below left (suc port) x (ground (arith, here')) in
      ground (arith, rest, here')
  | inr elsewhere ↦ let rest = count_held-le left (suc port) x in ground (arith, rest, elsewhere)
]

count_taken-nil : (left port : ℕ) → count_taken left port [] ≡ 0
unfolding count_taken
count_taken-nil zero port = refl
count_taken-nil (suc left) port = let rest = count_taken-nil left (suc port) in omega (arith, rest)

count_taken-cons :
    (left port : ℕ) (x : TunnelPlan) (xs : List TunnelPlan)
    → count_taken left port (x ∷ xs) ≤ count_held left port x + count_taken left port xs
unfolding count_taken count_held
count_taken-cons zero port x xs = omega arith
count_taken-cons (suc left) port x xs =
    let rest = count_taken-cons left (suc port) x xs in ground (arith, rest)

-- No plan takes two ports.
count_taken-le : (left port : ℕ) (live : List TunnelPlan) → count_taken left port live ≤ length live
count_taken-le left port [] = omega (arith, count_taken-nil left port)
count_taken-le left port (x ∷ xs) =
    omega (
      arith,
      count_taken-cons left port x xs,
      count_held-le left port x,
      count_taken-le left port xs,
    )

first_port-none :
    (left port : ℕ) (live : List TunnelPlan)
    → port + left ≤ 2 ^ 16
    → first_port left port live ≡ none
    → count_taken left port live ≡ left
unfolding first_port port_free count_taken
first_port-none zero port live h e = refl
first_port-none (suc left) port live h e =
    let low : ltb port (2 ^ 16) ≡ true = ground (arith, h) in
    elim (Bool-cases (any_of (holds_port port) live)) [
      | inr free ↦ absurd (ground (arith, rw (low, free) at e))
      | inl taken ↦
          let rest =
            first_port-none left (suc port) live (omega (arith, h)) (rw (low, taken) at e) in
          rw taken (omega (arith, rest))
    ]

-- The reports are as many as the tunnels and what is in quarantine.
length-insert_plan :
    (x : TunnelPlan) (xs : List TunnelPlan) → length (insert_plan x xs) ≡ suc (length xs)
unfolding insert_plan
length-insert_plan x [] = refl
length-insert_plan x (y ∷ ys) = let rest = length-insert_plan x ys in ground (arith, rest)

length-sort_plans : (xs : List TunnelPlan) → length (sort_plans xs) ≡ length xs
unfolding sort_plans
length-sort_plans [] = refl
length-sort_plans (x ∷ xs) =
    omega (arith, length-insert_plan x (sort_plans xs), length-sort_plans xs)

length-keep_quarantined :
    (p : TunnelPlan × ℕ → Bool) (xs : List (TunnelPlan × ℕ))
    → length (keep_quarantined p xs) ≤ length xs
unfolding keep_quarantined
length-keep_quarantined p [] = omega arith
length-keep_quarantined p (x ∷ xs) = let rest = length-keep_quarantined p xs in ground (arith, rest)

length-plans :
    (now : ℕ) (s : TunnelSet) → length (plans now s) ≤ length s.tunnels + length s.quarantine
unfolding plans
length-plans now s =
    let back = keep_quarantined (is_fresh now) s.quarantine in
    omega (
      arith,
      length-sort_plans (s.tunnels ++ quarantined back),
      length-append s.tunnels (quarantined back),
      length-map {B = TunnelPlan} (λ (x : TunnelPlan × ℕ). x.0) back,
      length-keep_quarantined (is_fresh now) s.quarantine,
    )

-- The quarantine is bounded in every run.
length-drop_oldest :
    (n : ℕ) (xs : List (TunnelPlan × ℕ)) → length (drop_oldest n xs) ≡ length xs - n
length-drop_oldest zero xs = omega arith
length-drop_oldest (suc n) [] = omega arith
length-drop_oldest (suc n) (x ∷ xs) = omega (arith, length-drop_oldest n xs)

length-prune_quarantine :
    (now : ℕ) (xs : List (TunnelPlan × ℕ)) → length (prune_quarantine now xs) ≤ 32
unfolding prune_quarantine
length-prune_quarantine now xs =
    let fresh = keep_quarantined (is_fresh now) xs in
    omega (arith, length-drop_oldest (length fresh - max_quarantine) fresh)

abbrev IsBounded : TunnelSet → Type 0
IsBounded s = length s.quarantine ≤ 32

bring_up-IsBounded :
    (p : TunnelPlan) (up_ok apply_ok : Bool) (s : TunnelSet)
    → IsBounded s
    → IsBounded (kept_set s (bring_up p up_ok apply_ok s))
unfolding bring_up
bring_up-IsBounded p up_ok apply_ok s h =
    let kept =
      length-keep_quarantined (λ x. not (holds_id p.id x.0 || collide p x.0)) s.quarantine in
    ground (arith, h, kept)

tear_down-IsBounded :
    (now : ℕ) (id : TunnelId) (s : TunnelSet) → IsBounded s → IsBounded (tear_down now id s)
unfolding tear_down
tear_down-IsBounded now id s h = elim (Option-cases (get id s.tunnels)) [
  | inl none' ↦ rw none' h
  | inr (p, found) ↦ rw found (length-prune_quarantine now (s.quarantine ++ (p, now) ∷ []))
]

set_listen_port-IsBounded :
    (id : TunnelId) (port : ℕ) (device_ok : Bool) (s : TunnelSet)
    → IsBounded s
    → IsBounded (kept_set s (set_listen_port id port device_ok s))
unfolding set_listen_port moved
set_listen_port-IsBounded id port device_ok s h =
    let kept = length-keep_quarantined (λ x. not (holds_port port x.0)) s.quarantine in
    elim (Option-cases (get id s.tunnels)) [
      | inl none' ↦ rw none' h
      | inr (p, found) ↦ rw found (ground (arith, h, kept))
    ]

run_set_ops-IsBounded :
    (os : List SetOp) (s : TunnelSet) → IsBounded s → IsBounded (run_set_ops os s)
unfolding run_set_ops apply_set_op
run_set_ops-IsBounded [] s h = h
run_set_ops-IsBounded (op_up p up_ok apply_ok ∷ os) s h =
    run_set_ops-IsBounded os (kept_set s (bring_up p up_ok apply_ok s))
      (bring_up-IsBounded p up_ok apply_ok s h)
run_set_ops-IsBounded (op_down now id ∷ os) s h =
    run_set_ops-IsBounded os (tear_down now id s) (tear_down-IsBounded now id s h)
run_set_ops-IsBounded (op_move id port device_ok ∷ os) s h =
    run_set_ops-IsBounded os (kept_set s (set_listen_port id port device_ok s))
      (set_listen_port-IsBounded id port device_ok s h)

-- In every run of a new set, while at most thirty tunnels are up and the window above the base port
-- has 16 bits, an overlap's port can be planned, whatever was torn down and when.
pub plan_port-run :
    (os : List SetOp) (now gateway epoch base : ℕ)
    → length (run_set_ops os new_set).tunnels ≤ 30
    → base + 64 < 2 ^ 16
    → plan_port (overlap gateway epoch) base (plans now (run_set_ops os new_set)) ≢ none
unfolding plan_port
plan_port-run os now gateway epoch base few low e =
    let s = run_set_ops os new_set in
    omega (
      arith,
      few,
      run_set_ops-IsBounded os new_set (omega arith),
      length-plans now s,
      count_taken-le 63 (base + 1 + 1) (plans now s),
      first_port-none 63 (base + 1 + 1) (plans now s) (omega (arith, low)) e,
    )
