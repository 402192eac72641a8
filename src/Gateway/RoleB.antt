-- ===== src/Gateway/RoleB.antt =====
-- crates/wiremesh-gateway/src/rotation.rs: what a gateway does about the peers that rotate their keys,
-- and the device that a peer's routes belong on.
pub mod Settled
use wire_mesh.Common.{
  str_eq, eq_iff, any_of-append, ℕ, zero, suc, ◌+◌, ◌-◌, ◌*◌, ◌/◌, ◌%◌, ◌^◌, ◌≤◌, ◌<◌, min, max,
  String, ◌≡◌, refl, sym, ap, ◌∙◌, subst, ◌≢◌, ◌↔◌, ◌⊎◌, inl, inr, Bool, true, false, not, ◌&&◌,
  ◌||◌, Option, none, some, List, [], ◌∷◌, ◌++◌, map, arith, ltb, leb, ◌==◌, if◌then◌else◌, is_some,
  leb→le, ==_iff, Bool-cases, Option-cases, length, is_empty, get_elem?, any_of, all_of, sum_of, In,
  here, there,
}
use wire_mesh.Policy.Numbers.{codes}
use wire_mesh.Gateway.Base64.{base64_decode}
use wire_mesh.Gateway.Desired.{PeerKeyInfo, PeerState}

pub data RoleBDecision : Type 0 where
  skip : RoleBDecision
  start : ℕ → RoleBDecision
  restart : ℕ → ℕ → RoleBDecision
  unusable : ℕ → RoleBDecision

unfoldable pub find_info : (PeerKeyInfo → Bool) → List PeerKeyInfo → Option PeerKeyInfo
find_info p [] = none
find_info p (k ∷ ks) = let rest = find_info p ks in if p k then some k else rest

unfoldable pub active_key : PeerState → Option PeerKeyInfo
unfolding find_info
active_key peer = find_info (λ k. str_eq k.state "active") peer.keys

-- a real key, not the one that stands for a key to come
unfoldable pub pending_key : PeerState → Option PeerKeyInfo
unfolding find_info
pending_key peer =
    find_info (λ k. str_eq k.state "pending" && not (str_eq k.pubkey_b64 "awaiting-submission"))
      peer.keys

-- whether `pubkey_b64_to_hex` answers
abbrev pub is_key : Option (List ℕ) → Bool
is_key none = false
is_key (some raw) = length raw == 32

unfoldable pub is_usable : String → Bool
unfolding base64_decode
is_usable pubkey = is_key (base64_decode (codes pubkey))

unfoldable pub against : ℕ → Option ℕ → RoleBDecision
against pending none = start pending
against pending (some held) = if held == pending then skip else restart held pending

unfoldable pub decide_keys : Option PeerKeyInfo → Option PeerKeyInfo → Option ℕ → RoleBDecision
unfolding is_usable against
decide_keys none pending overlapped = skip
decide_keys (some act) none overlapped = skip
decide_keys (some act) (some pending) overlapped =
    if not (is_usable pending.pubkey_b64)
    then unusable pending.epoch
    else against pending.epoch overlapped

unfoldable pub decide_role_b : PeerState → Option ℕ → RoleBDecision
unfolding active_key pending_key decide_keys
decide_role_b peer overlapped = decide_keys (active_key peer) (pending_key peer) overlapped

unfoldable pub role_b_decisions : List PeerState → (ℕ → Option ℕ) → List (ℕ × RoleBDecision)
unfolding decide_role_b
role_b_decisions [] overlapped = []
role_b_decisions (peer ∷ peers) overlapped =
    (peer.gateway_id, decide_role_b peer (overlapped peer.gateway_id))
    ∷ role_b_decisions peers overlapped

pub data RouteOwner : Type 0 where
  active_tun overlap_tun : RouteOwner

pub record OverlapClaim : Type 0 where
  pub built_at_own_epoch : ℕ
  pub cut_over : Bool

unfoldable pub route_owner : ℕ → Option OverlapClaim → RouteOwner
route_owner own none = active_tun
route_owner own (some o) =
    if o.cut_over && o.built_at_own_epoch == own then overlap_tun else active_tun
