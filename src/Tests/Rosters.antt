-- ===== src/Tests/Rosters.antt =====
-- A roster, a delta, and a peer that rotates.
use wire_mesh.Gateway.Reconcile.Routes.{route_diff-advertised, is_advertised}
use wire_mesh.Gateway.Reconcile.{route_diff, device_config, has_cidr}
use wire_mesh.Common.{
  str_eq, str_eq, ℕ, ◌≡◌, refl, false, ◌||◌, none, some, List, [], ◌∷◌, ◌==◌, if◌then◌else◌, any_of,
  here, not, ◌&&◌,
}
use wire_mesh.Gateway.Desired.{PeerKeyInfo, PeerState, DesiredState, DeltaMsg, apply_delta, peer_at}
use wire_mesh.Gateway.Desired.Delta.{last_upsert, apply_delta-peers}
use wire_mesh.Gateway.RoleB.{restart, skip, decide_role_b, role_b_decisions}
use wire_mesh.Gateway.RoleB.Settled.{asks, carried_out, decide_role_b-settled}

abbrev peer_with : ℕ → List PeerKeyInfo → PeerState
peer_with id keys = record {
  gateway_id = id;
  segment_name = "lab";
  active_pubkey_b64 = none;
  keys = keys;
  candidates = [];
  allowed_ips = [];
}

abbrev rotating : PeerState
rotating = peer_with 7 (
    record { epoch = 1; pubkey_b64 = "a"; state = "active" }
    ∷ record {
      epoch = 2;
      pubkey_b64 = "CQkJCQkJCQkJCQkJCQkJCQkJCQkJCQkJCQkJCQkJCQk=";
      state = "pending";
    }
    ∷ [])

abbrev resting : PeerState
resting = peer_with 8 []

abbrev roster : List PeerState
roster = rotating ∷ resting ∷ []

round_decisions :
    role_b_decisions roster (λ g. if g == 7 then some 1 else none)
    ≡ (7, restart 1 2) ∷ (8, skip) ∷ []
unfolding role_b_decisions
round_decisions = refl

decide_role_b-settled_example :
    asks (
      decide_role_b rotating (
        carried_out
          (role_b_decisions roster (λ g. if g == 7 then some 1 else none))
          (λ g. if g == 7 then some 1 else none)
          7))
    ≡ false
decide_role_b-settled_example =
    decide_role_b-settled roster (λ g. if g == 7 then some 1 else none) ((refl, tt), (tt, tt))
      (here refl)

abbrev known : DesiredState
known = record {
  revision = 4;
  peers = resting ∷ [];
  policy_ir = [];
  policy_version = 2;
  relays = [];
  revoked_serials = "a1" ∷ [];
}

abbrev change : DeltaMsg
change = record {
  revision = 5;
  upserted_peers = rotating ∷ [];
  removed_peer_ids = 8 ∷ [];
  relays_updated = false;
  relay_infos = [];
  policy_ir = [];
  policy_version = 0;
  revoked_serials = "b2" ∷ "a1" ∷ [];
}

apply_delta-peers_example :
    (peer_at 7 (apply_delta change known).peers ≡ (
      if any_of (λ n. n == 7) (8 ∷ [])
      then none
      else last_upsert 7 (rotating ∷ []) (peer_at 7 known.peers)))
    × (any_of (λ r. str_eq r "b2") (apply_delta change known).revoked_serials ≡ (
        any_of (λ r. str_eq r "b2") known.revoked_serials
        || any_of (λ r. str_eq r "b2") change.revoked_serials))
apply_delta-peers_example = apply_delta-peers change known 7 "b2"

abbrev moved_state : DesiredState
moved_state = record known {
  peers = record resting { allowed_ips = "10.2.0.0/16" ∷ "10.1.0.0/16" ∷ [] } ∷ [];
}

abbrev served_state : DesiredState
served_state = record known {
  peers = record resting { allowed_ips = "10.1.0.0/16" ∷ "10.3.0.0/16" ∷ [] } ∷ [];
}

changed_routes :
    route_diff served_state moved_state
    ≡ record { to_add = "10.2.0.0/16" ∷ []; to_del = "10.3.0.0/16" ∷ [] }
unfolding route_diff
changed_routes = refl

served_config : (device_config moved_state "k" 51820).peers ≡ []
unfolding device_config
served_config = refl

route_diff-advertised_example :
    (has_cidr "10.2.0.0/16" (route_diff served_state moved_state).to_add ≡ (
      is_advertised "10.2.0.0/16" moved_state.peers
      && not (is_advertised "10.2.0.0/16" served_state.peers)))
    × (has_cidr "10.2.0.0/16" (route_diff served_state moved_state).to_del ≡ (
        is_advertised "10.2.0.0/16" served_state.peers
        && not (is_advertised "10.2.0.0/16" moved_state.peers)))
    × ((is_advertised "10.2.0.0/16" served_state.peers
            && not (has_cidr "10.2.0.0/16" (route_diff served_state moved_state).to_del)
          || has_cidr "10.2.0.0/16" (route_diff served_state moved_state).to_add)
        ≡ is_advertised "10.2.0.0/16" moved_state.peers)
route_diff-advertised_example = route_diff-advertised served_state moved_state "10.2.0.0/16"
