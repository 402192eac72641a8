-- ===== src/Gateway/TunnelSet/Runs.antt =====
-- Every run of the set's operations keeps its reservations apart.
use wire_mesh.Common.{
  ℕ, ◌≤◌, ◌≡◌, refl, subst, inl, inr, Bool, true, false, not, ◌&&◌, List, [], ◌∷◌, arith, ◌==◌,
  ==_iff, Bool-cases, Option-cases, any_of,
}
use wire_mesh.Gateway.Tunnels.{TunnelId, TunnelPlan, holds_name, holds_port}
use wire_mesh.Gateway.TunnelSet.{
  TunnelSet, SetError, port_held, device_failed, new_set, holds_id, keep_quarantined, bring_up, get,
  tear_down, move_port, moved, set_listen_port,
}
use wire_mesh.Gateway.TunnelSet.Disjoint.{
  Claim, the_id, the_name, the_port, holds, count_plans, count_quarantined, reserved, IsDisjoint,
  guard-ok, count_quarantined-keep, count_quarantined-out, tear_down-IsDisjoint,
  bring_up-IsDisjoint,
}
use wire_mesh.Common.Result.{Result, ok, err, guard, ◌>>◌, >>=-eq-ok, ok-injective}

-- A claim that is not on the port is not moved.
count_plans-move_same :
    (c : Claim) (id : TunnelId) (port : ℕ) (xs : List TunnelPlan)
    → ((x : TunnelPlan) → holds c (record x { listen_port = port }) ≡ holds c x)
    → count_plans (holds c) (move_port id port xs) ≡ count_plans (holds c) xs
unfolding count_plans move_port
count_plans-move_same c id port [] h = refl
count_plans-move_same c id port (x ∷ xs) h =
    let rest = count_plans-move_same c id port xs h in
    elim (Bool-cases (holds_id id x)) [
      | inl hit ↦ rw (hit, h x) (omega (arith, rest))
      | inr miss ↦ rw miss (omega (arith, rest))
    ]

count_plans-move_other :
    (n : ℕ) (id : TunnelId) (port : ℕ) (xs : List TunnelPlan)
    → (port == n) ≡ false
    → count_plans (holds (the_port n)) (move_port id port xs) ≤ count_plans (holds (the_port n)) xs
unfolding count_plans move_port holds holds_port
count_plans-move_other n id port [] h = omega arith
count_plans-move_other n id port (x ∷ xs) h =
    let rest = count_plans-move_other n id port xs h in ground (arith, rest, h)

count_plans-move_to :
    (id : TunnelId) (port : ℕ) (xs : List TunnelPlan)
    → any_of (λ x. not (holds_id id x) && holds_port port x) xs ≡ false
    → count_plans (holds (the_port port)) (move_port id port xs)
      ≤ count_plans (holds (the_id id)) xs
unfolding count_plans move_port holds holds_port
count_plans-move_to id port [] h = omega arith
count_plans-move_to id port (x ∷ xs) h =
    let rest = count_plans-move_to id port xs (ground (arith, h)) in ground (arith, rest, h)

abbrev after_move : TunnelId → ℕ → TunnelSet → TunnelSet
after_move id port s = record {
  tunnels = move_port id port s.tunnels;
  quarantine = keep_quarantined (λ x. not (holds_port port x.0)) s.quarantine;
}

port_held_out :
    (n : ℕ) (x : TunnelPlan) → holds (the_port n) x ≡ true → not (holds_port n x) ≡ false
unfolding holds
port_held_out n x h = ground (arith, h)

move-reserved :
    (id : TunnelId) (port : ℕ) (s : TunnelSet) (c : Claim)
    → IsDisjoint s
    → any_of (λ x. not (holds_id id x) && holds_port port x) s.tunnels ≡ false
    → reserved c (after_move id port s) ≤ 1
unfolding reserved
move-reserved id port s (the_id i) h clear =
    let p = λ (x : TunnelPlan × ℕ). not (holds_port port x.0) in
    omega (
      arith,
      h (the_id i),
      count_plans-move_same (the_id i) id port s.tunnels (λ x. unfold holds holds_id in refl),
      count_quarantined-keep (holds (the_id i)) p s.quarantine,
    )
move-reserved id port s (the_name n) h clear =
    let p = λ (x : TunnelPlan × ℕ). not (holds_port port x.0) in
    omega (
      arith,
      h (the_name n),
      count_plans-move_same (the_name n) id port s.tunnels (λ x. unfold holds holds_name in refl),
      count_quarantined-keep (holds (the_name n)) p s.quarantine,
    )
move-reserved id port s (the_port n) h clear =
    let p = λ (x : TunnelPlan × ℕ). not (holds_port port x.0) in
    elim (Bool-cases (port == n)) [
      | inr other ↦ omega (
        arith,
        h (the_port n),
        count_plans-move_other n id port s.tunnels other,
        count_quarantined-keep (holds (the_port n)) p s.quarantine,
      )
      | inl same ↦
          subst (λ (m : ℕ). reserved (the_port m) (after_move id port s) ≤ 1)
            ((==_iff port n).0 same)
            (omega (
              arith,
              h (the_id id),
              count_plans-move_to id port s.tunnels clear,
              count_quarantined-out (holds (the_port port)) p s.quarantine
                  (λ x k. port_held_out port x.0 k),
            ))
    ]

moved-IsDisjoint :
    (id : TunnelId) (port : ℕ) (device_ok : Bool) (s : TunnelSet) (p : TunnelPlan) {t : TunnelSet}
    → IsDisjoint s
    → moved id port device_ok s p ≡ ok t
    → IsDisjoint t
unfolding moved
moved-IsDisjoint id port device_ok s p {t} h r = elim (Bool-cases (p.listen_port == port)) [
  | inl there' ↦ subst IsDisjoint (ok-injective (rw there' at r)) h
  | inr elsewhere ↦
      let held = any_of (λ x. not (holds_id id x) && holds_port port x) s.tunnels in
      let r0 : (guard (not held) port_held
            >> (guard device_ok device_failed >> ok (after_move id port s)))
          ≡ ok t =
        rw elsewhere at r in
      let (_, g1, r1) = >>=-eq-ok (guard (not held) port_held) _ r0 in
      let (_, _, r2) = >>=-eq-ok (guard device_ok device_failed) _ r1 in
      let clear = guard-ok (not held) port_held g1 in
      subst IsDisjoint (ok-injective r2) (λ c. move-reserved id port s c h (ground (arith, clear)))
]

set_listen_port-IsDisjoint :
    (id : TunnelId) (port : ℕ) (device_ok : Bool) (s : TunnelSet) {t : TunnelSet}
    → IsDisjoint s
    → set_listen_port id port device_ok s ≡ ok t
    → IsDisjoint t
unfolding set_listen_port
set_listen_port-IsDisjoint id port device_ok s h r = elim (Option-cases (get id s.tunnels)) [
  | inl none' ↦ absurd (ground (arith, rw none' at r))
  | inr (p, found) ↦ moved-IsDisjoint id port device_ok s p h (rw found at r)
]

-- what the driver asks of the set, with what the device answers
pub data SetOp : Type 0 where
  op_up : TunnelPlan → Bool → Bool → SetOp
  op_down : ℕ → TunnelId → SetOp
  op_move : TunnelId → ℕ → Bool → SetOp

-- the set after a call, which an error leaves as it was
abbrev pub kept_set : TunnelSet → Result SetError TunnelSet → TunnelSet
kept_set s (ok t) = t
kept_set s (err e) = s

unfoldable pub apply_set_op : SetOp → TunnelSet → TunnelSet
unfolding bring_up tear_down set_listen_port
apply_set_op (op_up p up_ok apply_ok) s = kept_set s (bring_up p up_ok apply_ok s)
apply_set_op (op_down now id) s = tear_down now id s
apply_set_op (op_move id port device_ok) s = kept_set s (set_listen_port id port device_ok s)

unfoldable pub run_set_ops : List SetOp → TunnelSet → TunnelSet
unfolding apply_set_op
run_set_ops [] s = s
run_set_ops (o ∷ os) s = run_set_ops os (apply_set_op o s)

kept_set-IsDisjoint :
    (s : TunnelSet) (r : Result SetError TunnelSet)
    → IsDisjoint s
    → ((t : TunnelSet) → r ≡ ok t → IsDisjoint t)
    → IsDisjoint (kept_set s r)
kept_set-IsDisjoint s (ok t) h f = f t refl
kept_set-IsDisjoint s (err e) h f = h

apply_set_op-IsDisjoint : (o : SetOp) (s : TunnelSet) → IsDisjoint s → IsDisjoint (apply_set_op o s)
unfolding apply_set_op
apply_set_op-IsDisjoint (op_up p up_ok apply_ok) s h =
    kept_set-IsDisjoint s (bring_up p up_ok apply_ok s) h
      (λ t e. bring_up-IsDisjoint p up_ok apply_ok s h e)
apply_set_op-IsDisjoint (op_down now id) s h = tear_down-IsDisjoint now id s h
apply_set_op-IsDisjoint (op_move id port device_ok) s h =
    kept_set-IsDisjoint s (set_listen_port id port device_ok s) h
      (λ t e. set_listen_port-IsDisjoint id port device_ok s h e)

run_set_ops-IsDisjoint :
    (os : List SetOp) (s : TunnelSet) → IsDisjoint s → IsDisjoint (run_set_ops os s)
unfolding run_set_ops
run_set_ops-IsDisjoint [] s h = h
run_set_ops-IsDisjoint (o ∷ os) s h =
    run_set_ops-IsDisjoint os (apply_set_op o s) (apply_set_op-IsDisjoint o s h)

-- Over every run of a new set, whatever fails in it and whatever the clock says, no id, no name and
-- no port is reserved twice, by tunnels that are up and those in quarantine together.
pub run-IsDisjoint : (os : List SetOp) → IsDisjoint (run_set_ops os new_set)
run-IsDisjoint os =
    run_set_ops-IsDisjoint os new_set
      (λ c. unfold reserved count_plans count_quarantined in omega arith)
