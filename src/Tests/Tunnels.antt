-- ===== src/Tests/Tunnels.antt =====
-- Tunnels brought up, moved and torn down.
use wire_mesh.Gateway.TunnelSet.Room.{plan_port-run}
use wire_mesh.Gateway.TunnelSet.Disjoint.{IsDisjoint}
use wire_mesh.Common.{
  ℕ, ◌-◌, ◌^◌, ◌≤◌, ◌<◌, ◌≡◌, refl, ◌≢◌, true, false, none, some, List, [], ◌∷◌, arith, length,
  any_of, In,
}
use wire_mesh.Gateway.Tunnels.{TunnelPlan, own, overlap, plan_port, plan_tunnel, holds_port}
use wire_mesh.Gateway.TunnelSet.{TunnelSet, new_set, holds_id, collide, bring_up, plans}
use wire_mesh.Gateway.TunnelSet.Runs.{run-IsDisjoint, SetOp, op_up, op_down, run_set_ops}
use wire_mesh.Gateway.TunnelSet.Planning.{plan_port-InRange, bring_up-plan_tunnel, InRange}
use wire_mesh.Common.Result.{ok}

abbrev boot_tun : TunnelPlan
boot_tun = record { id = own 0; ifname = "wg0"; listen_port = 51820 }

abbrev first_overlap : TunnelPlan
first_overlap = record { id = overlap 7 1; ifname = "wg0o0"; listen_port = 51822 }

abbrev second_overlap : TunnelPlan
second_overlap = record { id = overlap 7 2; ifname = "wg0o1"; listen_port = 51823 }

-- an overlap comes and goes
abbrev some_ops : List SetOp
some_ops =
    op_up boot_tun true true
    ∷ op_up first_overlap true true
    ∷ op_up first_overlap true true
    ∷ op_down 1000 (overlap 7 1)
    ∷ []

abbrev torn_set : TunnelSet
torn_set = record { tunnels = boot_tun ∷ []; quarantine = (first_overlap, 1000) ∷ [] }

some_ops-run : run_set_ops some_ops new_set ≡ torn_set
unfolding run_set_ops
some_ops-run = refl

planned_again : plan_tunnel (overlap 7 2) "wg0" 51820 (plans 2000 torn_set) ≡ ok second_overlap
unfolding plan_tunnel plans
planned_again = refl

planned_own :
    plan_tunnel (own 1) "wg0" 51820 (plans 2000 torn_set)
    ≡ ok (record { id = own 1; ifname = "wg0e1"; listen_port = 51821 })
unfolding plan_tunnel plans
planned_own = refl

not_up_yet : any_of (holds_id (overlap 7 2)) torn_set.tunnels ≡ false
unfolding holds_id
not_up_yet = refl

run-IsDisjoint_example : IsDisjoint (run_set_ops some_ops new_set)
run-IsDisjoint_example = run-IsDisjoint some_ops

bring_up-plan_tunnel_example :
    ((t : TunnelSet) × (bring_up second_overlap true true torn_set ≡ ok t)
      × In second_overlap t.tunnels)
    × ((x : TunnelPlan × ℕ)
        → In x torn_set.quarantine
        → 2000 - x.1 < 5000000000
        → collide second_overlap x.0 ≡ false)
bring_up-plan_tunnel_example =
    bring_up-plan_tunnel (overlap 7 2) "wg0" 51820 2000 torn_set planned_again not_up_yet

port_planned : plan_port (overlap 7 2) 51820 (boot_tun ∷ first_overlap ∷ []) ≡ some 51823
unfolding plan_port
port_planned = refl

plan_port-InRange_example :
    InRange (overlap 7 2) 51820 51823
    × (51823 < 2 ^ 16)
    × (any_of (holds_port 51823) (boot_tun ∷ first_overlap ∷ []) ≡ false)
plan_port-InRange_example =
    plan_port-InRange (overlap 7 2) 51820 (boot_tun ∷ first_overlap ∷ []) port_planned

few_up : length (run_set_ops some_ops new_set).tunnels ≤ 30
unfolding run_set_ops
few_up = omega arith

plan_port-run_example :
    plan_port (overlap 9 1) 51820 (plans 2000 (run_set_ops some_ops new_set)) ≢ none
plan_port-run_example = plan_port-run some_ops 2000 9 1 51820 few_up (omega arith)
