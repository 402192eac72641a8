-- ===== src/Gateway/Desired.antt =====
-- crates/wiremesh-gateway/src/state.rs: the desired state and the deltas that change it. The peers of
-- a delta are taken as `PeerState::from_proto` makes them.
pub mod Delta
use wire_mesh.Common.{
  str_eq, eq_iff, any_of-append, ℕ, zero, suc, ◌+◌, ◌-◌, ◌*◌, ◌/◌, ◌%◌, ◌^◌, ◌≤◌, ◌<◌, min, max,
  String, ◌≡◌, refl, sym, ap, ◌∙◌, subst, ◌≢◌, ◌↔◌, ◌⊎◌, inl, inr, Bool, true, false, not, ◌&&◌,
  ◌||◌, Option, none, some, List, [], ◌∷◌, ◌++◌, map, arith, ltb, leb, ◌==◌, if◌then◌else◌, is_some,
  leb→le, ==_iff, Bool-cases, Option-cases, length, is_empty, get_elem?, any_of, all_of, sum_of, In,
  here, there,
}

pub record PeerKeyInfo : Type 0 where
  pub epoch : ℕ
  pub pubkey_b64 : String
  pub state : String

pub record PeerState : Type 0 where
  pub gateway_id : ℕ
  pub segment_name : String
  pub active_pubkey_b64 : Option String
  pub keys : List PeerKeyInfo
  pub candidates : List String
  pub allowed_ips : List String

pub record RelayInfo : Type 0 where
  pub relay_id : ℕ
  pub endpoint : String

pub record DesiredState : Type 0 where
  pub revision : ℕ
  pub peers : List PeerState
  pub policy_ir : List ℕ
  pub policy_version : ℕ
  pub relays : List RelayInfo
  pub revoked_serials : List String

pub record DeltaMsg : Type 0 where
  pub revision : ℕ
  pub upserted_peers : List PeerState
  pub removed_peer_ids : List ℕ
  pub relays_updated : Bool
  pub relay_infos : List RelayInfo
  pub policy_ir : List ℕ
  pub policy_version : ℕ
  pub revoked_serials : List String

unfoldable pub upsert : PeerState → List PeerState → List PeerState
upsert p [] = p ∷ []
upsert p (x ∷ xs) =
    let rest = upsert p xs in if x.gateway_id == p.gateway_id then p ∷ xs else x ∷ rest

unfoldable pub upsert_all : List PeerState → List PeerState → List PeerState
unfolding upsert
upsert_all [] xs = xs
upsert_all (p ∷ ps) xs = upsert_all ps (upsert p xs)

-- `removed_peer_ids.contains(&p.gateway_id)`
unfoldable pub remove_peers : List ℕ → List PeerState → List PeerState
remove_peers ids [] = []
remove_peers ids (x ∷ xs) =
    let rest = remove_peers ids xs in if any_of (λ n. n == x.gateway_id) ids then rest else x ∷ rest

unfoldable pub revoke_all : List String → List String → List String
revoke_all [] known = known
revoke_all (s ∷ ss) known =
    revoke_all ss (if any_of (λ r. str_eq r s) known then known else known ++ s ∷ [])

unfoldable pub apply_delta : DeltaMsg → DesiredState → DesiredState
unfolding upsert_all remove_peers revoke_all
apply_delta d s = record {
  revision = d.revision;
  peers = remove_peers d.removed_peer_ids (upsert_all d.upserted_peers s.peers);
  policy_ir = if not (d.policy_version == 0) then d.policy_ir else s.policy_ir;
  policy_version = if not (d.policy_version == 0) then d.policy_version else s.policy_version;
  relays = if d.relays_updated then d.relay_infos else s.relays;
  revoked_serials = revoke_all d.revoked_serials s.revoked_serials;
}

-- the first peer under an id
unfoldable pub peer_at : ℕ → List PeerState → Option PeerState
peer_at id [] = none
peer_at id (x ∷ xs) = let rest = peer_at id xs in if x.gateway_id == id then some x else rest
