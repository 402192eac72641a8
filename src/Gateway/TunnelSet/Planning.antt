-- ===== src/Gateway/TunnelSet/Planning.antt =====
-- A plan that is made from what the set reports can be brought up, and takes nothing that is still in
-- quarantine.
use wire_mesh.Enforcer.Iface.{validate_iface}
use wire_mesh.Common.{
  any_of-append, ℕ, zero, suc, ◌+◌, ◌-◌, ◌^◌, ◌≤◌, ◌<◌, String, ◌≡◌, refl, sym, ap, ◌∙◌, subst, inl,
  inr, Bool, true, false, not, ◌&&◌, ◌||◌, Option, none, some, List, [], ◌∷◌, ◌++◌, arith, ltb,
  Bool-cases, any_of, In, here, there,
}
use wire_mesh.Gateway.Tunnels.{
  TunnelId, TunnelPlan, own, overlap, bad_name, name_taken, holds_name, holds_port, own_name,
  overlap_name, first_name, plan_ifname, port_free, first_port, plan_port, port_or, plan_tunnel,
}
use wire_mesh.Gateway.TunnelSet.{
  TunnelSet, quarantine_ns, holds_id, keep_quarantined, collide, bring_up, is_fresh, insert_plan,
  sort_plans, quarantined, plans,
}
use wire_mesh.Gateway.TunnelSet.Disjoint.{guard-ok}
use wire_mesh.Common.Result.{ok, guard, >>=-eq-ok, ok-injective}

module _ (p : TunnelPlan → Bool) where
  any_of-insert_plan :
      (x : TunnelPlan) (xs : List TunnelPlan) → any_of p (insert_plan x xs) ≡ (p x || any_of p xs)
  unfolding insert_plan
  any_of-insert_plan x [] = refl
  any_of-insert_plan x (y ∷ ys) = let rest = any_of-insert_plan x ys in ground (arith, rest)

  any_of-sort_plans : (xs : List TunnelPlan) → any_of p (sort_plans xs) ≡ any_of p xs
  unfolding sort_plans
  any_of-sort_plans [] = refl
  any_of-sort_plans (x ∷ xs) =
      let rest = any_of-sort_plans xs in
      let inserted = any_of-insert_plan x (sort_plans xs) in ground (arith, rest, inserted)

  absent :
      (now : ℕ) (xs : List (TunnelPlan × ℕ))
      → any_of p (quarantined (keep_quarantined (is_fresh now) xs)) ≡ false
      → (x : TunnelPlan × ℕ) → In x xs
      → is_fresh now x ≡ true
      → p x.0 ≡ false
  unfolding keep_quarantined
  absent now [] k x m f = elim m [ ]
  absent now (y ∷ ys) k x (here e) f =
      let fresh : is_fresh now y ≡ true = ap (is_fresh now) e ∙ f in
      let out : p y.0 ≡ false = ground (arith, rw fresh at k) in
      ap (λ (z : TunnelPlan × ℕ). p z.0) (sym e) ∙ out
  absent now (y ∷ ys) k x (there m) f = elim (Bool-cases (is_fresh now y)) [
    | inl fresh ↦ absent now ys (ground (arith, rw fresh at k)) x m f
    | inr stale ↦ absent now ys (rw stale at k) x m f
  ]

  -- What no report shows is not up, and not freshly torn down.
  any_of-plans :
      (now : ℕ) (s : TunnelSet)
      → any_of p (plans now s) ≡ false
      → (any_of p s.tunnels ≡ false)
        × ((x : TunnelPlan × ℕ) → In x s.quarantine → is_fresh now x ≡ true → p x.0 ≡ false)
  unfolding plans
  any_of-plans now s h =
      let back = quarantined (keep_quarantined (is_fresh now) s.quarantine) in
      let sorted = any_of-sort_plans (s.tunnels ++ back) in
      let split = any_of-append p s.tunnels back in
      (
        ground (arith, h, sorted, split),
        λ x m f. absent now s.quarantine (ground (arith, h, sorted, split)) x m f,
      )

first_name-ok :
    (left slot : ℕ) (base : String) (live : List TunnelPlan) {n : String}
    → first_name left slot base live ≡ ok n
    → any_of (holds_name n) live ≡ false
unfolding first_name
first_name-ok zero slot base live h = cc
first_name-ok (suc left) slot base live {n} h =
    elim (Bool-cases (validate_iface (overlap_name base slot))) [
      | inr bad ↦ absurd (ground (arith, rw bad at h))
      | inl good ↦ elim (Bool-cases (any_of (holds_name (overlap_name base slot)) live)) [
        | inl taken ↦ first_name-ok left (suc slot) base live (rw (good, taken) at h)
        | inr free ↦
            subst (λ (m : String). any_of (holds_name m) live ≡ false)
              (ok-injective (rw (good, free) at h)) free
      ]
    ]

plan_ifname-ok :
    (id : TunnelId) (base : String) (live : List TunnelPlan) {n : String}
    → plan_ifname id base live ≡ ok n
    → any_of (holds_name n) live ≡ false
unfolding plan_ifname
plan_ifname-ok (overlap g e) base live h = first_name-ok 64 0 base live h
plan_ifname-ok (own e) base live h =
    let (_, _, r1) = >>=-eq-ok (guard (validate_iface (own_name base e)) bad_name) _ h in
    let (_, g2, r2) =
      >>=-eq-ok (guard (not (any_of (holds_name (own_name base e)) live)) name_taken) _ r1 in
    let free = guard-ok (not (any_of (holds_name (own_name base e)) live)) name_taken g2 in
    subst (λ (m : String). any_of (holds_name m) live ≡ false) (ok-injective r2)
      (ground (arith, free))

first_port-some :
    (left port : ℕ) (live : List TunnelPlan) {q : ℕ}
    → first_port left port live ≡ some q
    → (port ≤ q) × (q < port + left) × (port_free q live ≡ true)
unfolding first_port
first_port-some zero port live h = cc
first_port-some (suc left) port live {q} h = elim (Bool-cases (port_free port live)) [
  | inr taken ↦
      let (a, b, f) = first_port-some left (suc port) live (rw taken at h) in
      (omega (arith, a), omega (arith, b), f)
  | inl free ↦
      let same : port ≡ q = ground (arith, rw free at h) in
      (omega (arith, same), omega (arith, same), rw (← same) free)
]

-- where the port of a plan may lie
abbrev pub InRange : TunnelId → ℕ → ℕ → Type 0
InRange (own epoch) base port = port ≡ base + 1
InRange (overlap gateway epoch) base port = (base + 2 ≤ port) × (port ≤ base + 64)

-- The reserved port is taken by an own tunnel only, and by each of them; an overlap has one of the 63
-- ports above it; and every planned port has 16 bits and is not in the list.
pub plan_port-InRange :
    (id : TunnelId) (base : ℕ) (live : List TunnelPlan) {port : ℕ}
    → plan_port id base live ≡ some port
    → InRange id base port × (port < 2 ^ 16) × (any_of (holds_port port) live ≡ false)
unfolding plan_port port_free
plan_port-InRange (own e) base live {port} h =
    let same : base + 1 ≡ port = ground (arith, h) in
    let free : (ltb (base + 1) (2 ^ 16) && not (any_of (holds_port (base + 1)) live)) ≡ true =
      ground (arith, h) in
    (sym same, ground (arith, free, same), rw (← same) (ground (arith, free)))
plan_port-InRange (overlap g e) base live {port} h =
    let (a, b, f) = first_port-some 63 (base + 1 + 1) live h in
    ((omega (arith, a), omega (arith, b)), ground (arith, f), ground (arith, f))

any_of-collide :
    (p : TunnelPlan) (live : List TunnelPlan)
    → any_of (holds_name p.ifname) live ≡ false
    → any_of (holds_port p.listen_port) live ≡ false
    → any_of (collide p) live ≡ false
unfolding collide
any_of-collide p [] h k = refl
any_of-collide p (x ∷ xs) h k =
    let rest = any_of-collide p xs (ground (arith, h)) (ground (arith, k)) in
    ground (arith, h, k, rest)

port_or-ok : (o : Option ℕ) {port : ℕ} → port_or o ≡ ok port → o ≡ some port
port_or-ok none h = cc
port_or-ok (some q) h = ap some (ok-injective h)

plan_tunnel-free :
    (id : TunnelId) (base_tun : String) (base_port : ℕ) (live : List TunnelPlan) {p : TunnelPlan}
    → plan_tunnel id base_tun base_port live ≡ ok p
    → (p.id ≡ id) × (any_of (collide p) live ≡ false)
unfolding plan_tunnel
plan_tunnel-free id base_tun base_port live {p} h =
    let (n, en, r1) = >>=-eq-ok (plan_ifname id base_tun live) _ h in
    let (port, ep, r2) = >>=-eq-ok (port_or (plan_port id base_port live)) _ r1 in
    let found : plan_port id base_port live ≡ some port =
      port_or-ok (plan_port id base_port live) ep in
    let made : record { id = id; ifname = n; listen_port = port } ≡ p = ok-injective r2 in
    subst (λ (q : TunnelPlan). (q.id ≡ id) × (any_of (collide q) live ≡ false)) made
      (
        refl,
        any_of-collide _ live (plan_ifname-ok id base_tun live en)
            (plan_port-InRange id base_port live found).2,
      )

-- A plan that is made from what the set reports at a time, for an id that is not up, is brought up
-- where the device's calls succeed, and shares neither its name nor its port with a tunnel that was
-- torn down less than five seconds before and is in quarantine.
pub bring_up-plan_tunnel :
    (id : TunnelId) (base_tun : String) (base_port now : ℕ) (s : TunnelSet) {p : TunnelPlan}
    → plan_tunnel id base_tun base_port (plans now s) ≡ ok p
    → any_of (holds_id id) s.tunnels ≡ false
    → ((t : TunnelSet) × (bring_up p true true s ≡ ok t) × In p t.tunnels)
      × ((x : TunnelPlan × ℕ)
          → In x s.quarantine
          → now - x.1 < quarantine_ns
          → collide p x.0 ≡ false)
unfolding bring_up
bring_up-plan_tunnel id base_tun base_port now s {p} h new =
    let (same, free) = plan_tunnel-free id base_tun base_port (plans now s) h in
    let (up, back) = any_of-plans (collide p) now s free in
    let new' : any_of (holds_id p.id) s.tunnels ≡ false = rw same new in
    (
      (
        record {
          tunnels = p ∷ s.tunnels;
          quarantine =
              keep_quarantined (λ x. not (holds_id p.id x.0 || collide p x.0)) s.quarantine;
        },
        rw (new', up) refl,
        here refl,
      ),
      λ x m f. back x m (unfold is_fresh in ground (arith, f)),
    )
