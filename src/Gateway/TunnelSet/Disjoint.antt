-- ===== src/Gateway/TunnelSet/Disjoint.antt =====
-- What is reserved is reserved once: no two tunnels that are up or in quarantine share an id, a name
-- or a port.
use wire_mesh.Common.{
  eq_iff, sum_of-append, ℕ, zero, suc, ◌+◌, ◌-◌, ◌≤◌, String, ◌≡◌, refl, subst, inl, inr, Bool,
  true, false, not, ◌||◌, Option, some, List, [], ◌∷◌, ◌++◌, arith, Bool-cases, Option-cases,
  length, any_of, sum_of,
}
use wire_mesh.Gateway.Tunnels.{TunnelId, TunnelPlan, own, overlap, id_eq, holds_name, holds_port}
use wire_mesh.Gateway.TunnelSet.{
  TunnelSet, already_up, collides, device_failed, holds_id, keep_plans, keep_quarantined, collide,
  bring_up, is_fresh, drop_oldest, prune_quarantine, max_quarantine, get, torn_down, tear_down,
}
use wire_mesh.Common.Result.{ok, guard, >>=-eq-ok, ok-injective}

-- what a reservation takes
pub data Claim : Type 0 where
  the_id : TunnelId → Claim
  the_name : String → Claim
  the_port : ℕ → Claim

unfoldable pub holds : Claim → TunnelPlan → Bool
holds (the_id id) p = holds_id id p
holds (the_name n) p = holds_name n p
holds (the_port n) p = holds_port n p

abbrev pub tally : Bool → ℕ
tally true = 1
tally false = 0

unfoldable pub count_plans : (TunnelPlan → Bool) → List TunnelPlan → ℕ
count_plans t ps = sum_of (λ p. tally (t p)) ps

unfoldable pub count_quarantined : (TunnelPlan → Bool) → List (TunnelPlan × ℕ) → ℕ
count_quarantined t xs = sum_of (λ (x : TunnelPlan × ℕ). tally (t x.0)) xs

unfoldable pub reserved : Claim → TunnelSet → ℕ
reserved c s = count_plans (holds c) s.tunnels + count_quarantined (holds c) s.quarantine

abbrev pub IsDisjoint : TunnelSet → Type 0
IsDisjoint s = (c : Claim) → reserved c s ≤ 1

pub count_quarantined-keep :
    (t : TunnelPlan → Bool) (p : TunnelPlan × ℕ → Bool) (xs : List (TunnelPlan × ℕ))
    → count_quarantined t (keep_quarantined p xs) ≤ count_quarantined t xs
unfolding count_quarantined keep_quarantined
count_quarantined-keep t p [] = omega arith
count_quarantined-keep t p (x ∷ xs) =
    let rest = count_quarantined-keep t p xs in ground (arith, rest)

-- What is not kept is not counted.
pub count_quarantined-out :
    (t : TunnelPlan → Bool) (p : TunnelPlan × ℕ → Bool) (xs : List (TunnelPlan × ℕ))
    → ((x : TunnelPlan × ℕ) → t x.0 ≡ true → p x ≡ false)
    → count_quarantined t (keep_quarantined p xs) ≡ 0
unfolding count_quarantined keep_quarantined
count_quarantined-out t p [] h = refl
count_quarantined-out t p (x ∷ xs) h =
    let rest = count_quarantined-out t p xs h in
    elim (Bool-cases (p x)) [
      | inr no' ↦ rw no' rest
      | inl yes' ↦ elim (Bool-cases (t x.0)) [
        | inl hit ↦ absurd (ground (arith, yes', h x hit))
        | inr miss ↦ rw (yes', miss) (omega (arith, rest))
      ]
    ]

count_quarantined-drop_oldest :
    (t : TunnelPlan → Bool) (n : ℕ) (xs : List (TunnelPlan × ℕ))
    → count_quarantined t (drop_oldest n xs) ≤ count_quarantined t xs
unfolding count_quarantined
count_quarantined-drop_oldest t zero xs = omega arith
count_quarantined-drop_oldest t (suc n) [] = omega arith
count_quarantined-drop_oldest t (suc n) (x ∷ xs) =
    omega (arith, count_quarantined-drop_oldest t n xs)

count_quarantined-prune :
    (t : TunnelPlan → Bool) (now : ℕ) (xs : List (TunnelPlan × ℕ))
    → count_quarantined t (prune_quarantine now xs) ≤ count_quarantined t xs
unfolding prune_quarantine
count_quarantined-prune t now xs =
    let fresh = keep_quarantined (is_fresh now) xs in
    omega (
      arith,
      count_quarantined-drop_oldest t (length fresh - max_quarantine) fresh,
      count_quarantined-keep t (is_fresh now) xs,
    )

count_quarantined-append :
    (t : TunnelPlan → Bool) (xs ys : List (TunnelPlan × ℕ))
    → count_quarantined t (xs ++ ys) ≡ count_quarantined t xs + count_quarantined t ys
unfolding count_quarantined
count_quarantined-append t xs ys = sum_of-append (λ (x : TunnelPlan × ℕ). tally (t x.0)) xs ys

count_plans-keep :
    (t p : TunnelPlan → Bool) (xs : List TunnelPlan)
    → count_plans t (keep_plans p xs) ≤ count_plans t xs
unfolding count_plans keep_plans
count_plans-keep t p [] = omega arith
count_plans-keep t p (x ∷ xs) = let rest = count_plans-keep t p xs in ground (arith, rest)

-- Removing an id removes the tunnel that was found under it.
count_plans-removed :
    (t : TunnelPlan → Bool) (id : TunnelId) (xs : List TunnelPlan) {p : TunnelPlan}
    → get id xs ≡ some p
    → count_plans t (keep_plans (λ x. not (holds_id id x)) xs) + tally (t p) ≤ count_plans t xs
unfolding count_plans keep_plans get
count_plans-removed t id [] h = cc
count_plans-removed t id (x ∷ xs) {p} h = elim (Bool-cases (holds_id id x)) [
  | inl hit ↦
      let same : ◌≡◌ {A = Option TunnelPlan} (some x) (some p) = rw hit at h in
      let eq : x ≡ p = cc in
      rw hit (
        subst
          (λ (y : TunnelPlan).
            sum_of (λ z. tally (t z)) (keep_plans (λ z. not (holds_id id z)) xs) + tally (t y)
            ≤ tally (t x) + sum_of (λ z. tally (t z)) xs)
          eq (let rest = count_plans-keep t (λ z. not (holds_id id z)) xs in omega (arith, rest)))
  | inr miss ↦
      let rest = count_plans-removed t id xs (rw miss at h) in rw miss (omega (arith, rest))
]

pub count_plans-none :
    (t q : TunnelPlan → Bool) (xs : List TunnelPlan)
    → any_of q xs ≡ false
    → ((x : TunnelPlan) → t x ≡ true → q x ≡ true)
    → count_plans t xs ≡ 0
unfolding count_plans
count_plans-none t q [] h imp = refl
count_plans-none t q (x ∷ xs) h imp = elim (Bool-cases (t x)) [
  | inl hit ↦ absurd (ground (arith, h, imp x hit))
  | inr miss ↦
      rw miss (let rest = count_plans-none t q xs (ground (arith, h)) imp in omega (arith, rest))
]

torn_down-reserved :
    (now : ℕ) (id : TunnelId) (s : TunnelSet) (c : Claim) (p : TunnelPlan)
    → IsDisjoint s
    → get id s.tunnels ≡ some p
    → reserved c (torn_down now id s (some p)) ≤ 1
unfolding reserved
torn_down-reserved now id s c p h found =
    let one : count_quarantined (holds c) ((p, now) ∷ []) ≡ tally (holds c p) =
      unfold count_quarantined in omega arith in
    omega (
      arith,
      h c,
      count_plans-removed (holds c) id s.tunnels found,
      count_quarantined-prune (holds c) now (s.quarantine ++ (p, now) ∷ []),
      count_quarantined-append (holds c) s.quarantine ((p, now) ∷ []),
      one,
    )

pub tear_down-IsDisjoint :
    (now : ℕ) (id : TunnelId) (s : TunnelSet) → IsDisjoint s → IsDisjoint (tear_down now id s)
unfolding tear_down
tear_down-IsDisjoint now id s h c = elim (Option-cases (get id s.tunnels)) [
  | inl none' ↦ rw none' (h c)
  | inr (p, found) ↦ rw found (torn_down-reserved now id s c p h found)
]

pub guard-ok : {E : Type 0} (b : Bool) (e : E) {u : Unit {0}} → guard b e ≡ ok u → b ≡ true
guard-ok true e h = refl
guard-ok false e h = cc

id_eq_trans : (a b c : TunnelId) → id_eq a c ≡ true → id_eq b c ≡ true → id_eq b a ≡ true
id_eq_trans (own x) (own y) (own z) h k = ground (arith, h, k)
id_eq_trans (own x) (own y) (overlap g z) h k = cc
id_eq_trans (own x) (overlap g y) (own z) h k = cc
id_eq_trans (own x) (overlap g y) (overlap i z) h k = cc
id_eq_trans (overlap f x) (own y) (own z) h k = cc
id_eq_trans (overlap f x) (own y) (overlap i z) h k = cc
id_eq_trans (overlap f x) (overlap g y) (own z) h k = cc
id_eq_trans (overlap f x) (overlap g y) (overlap i z) h k = ground (arith, h, k)

-- Two reservations with a claim in common are told apart by the guards of `bring_up`.
shared_claim :
    (c : Claim) (p x : TunnelPlan)
    → holds c p ≡ true
    → holds c x ≡ true
    → (holds_id p.id x || collide p x) ≡ true
unfolding holds collide holds_id holds_name holds_port
shared_claim (the_id id) p x h k = ground (arith, id_eq_trans p.id x.id id h k)
shared_claim (the_name n) p x h k =
    ground (arith, eq_iff p.ifname n, eq_iff x.ifname n, eq_iff x.ifname p.ifname, h, k)
shared_claim (the_port n) p x h k = ground (arith, h, k)

any_of-or :
    (p q : TunnelPlan → Bool) (xs : List TunnelPlan)
    → any_of p xs ≡ false
    → any_of q xs ≡ false
    → any_of (λ x. p x || q x) xs ≡ false
any_of-or p q [] h k = refl
any_of-or p q (x ∷ xs) h k =
    let rest = any_of-or p q xs (ground (arith, h)) (ground (arith, k)) in
    ground (arith, h, k, rest)

-- The new tunnel beside what is left.
brought :
    (c : Claim) (p : TunnelPlan) (s : TunnelSet)
    → IsDisjoint s
    → any_of (λ x. holds_id p.id x || collide p x) s.tunnels ≡ false
    → reserved c (record {
      tunnels = p ∷ s.tunnels;
      quarantine = keep_quarantined (λ x. not (holds_id p.id x.0 || collide p x.0)) s.quarantine;
    })
      ≤ 1
unfolding reserved
brought c p s h clear =
    let others = λ (x : TunnelPlan × ℕ). not (holds_id p.id x.0 || collide p x.0) in
    let first : count_plans (holds c) (p ∷ s.tunnels)
        ≡ tally (holds c p) + count_plans (holds c) s.tunnels =
      unfold count_plans in refl in
    elim (Bool-cases (holds c p)) [
      | inl hit ↦
          let none_up =
            count_plans-none (holds c) (λ x. holds_id p.id x || collide p x) s.tunnels clear
              (λ x k. shared_claim c p x hit k) in
          let none_back =
            count_quarantined-out (holds c) others s.quarantine
              (λ x k. let m = shared_claim c p x.0 hit k in ground (arith, m)) in
          let one : tally (holds c p) ≡ 1 = rw hit refl in
          omega (arith, first, none_up, none_back, one)
      | inr miss ↦
          let zero' : tally (holds c p) ≡ 0 = rw miss refl in
          omega (arith, first, h c, zero', count_quarantined-keep (holds c) others s.quarantine)
    ]

pub bring_up-IsDisjoint :
    (p : TunnelPlan) (up_ok apply_ok : Bool) (s : TunnelSet) {t : TunnelSet}
    → IsDisjoint s
    → bring_up p up_ok apply_ok s ≡ ok t
    → IsDisjoint t
unfolding bring_up
bring_up-IsDisjoint p up_ok apply_ok s {t} h r =
    let (_, g1, r1) = >>=-eq-ok (guard (not (any_of (holds_id p.id) s.tunnels)) already_up) _ r in
    let (_, g2, r2) = >>=-eq-ok (guard (not (any_of (collide p) s.tunnels)) collides) _ r1 in
    let (_, _, r3) = >>=-eq-ok (guard up_ok device_failed) _ r2 in
    let (_, _, r4) = >>=-eq-ok (guard apply_ok device_failed) _ r3 in
    let n1 = guard-ok (not (any_of (holds_id p.id) s.tunnels)) already_up g1 in
    let n2 = guard-ok (not (any_of (collide p) s.tunnels)) collides g2 in
    let clear : any_of (λ x. holds_id p.id x || collide p x) s.tunnels ≡ false =
      any_of-or (holds_id p.id) (collide p) s.tunnels (ground (arith, n1)) (ground (arith, n2)) in
    subst IsDisjoint (ok-injective r4) (λ c. brought c p s h clear)
