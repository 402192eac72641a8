-- ===== src/Gateway/Reconcile.antt =====
-- crates/wiremesh-gateway/src/reconcile.rs: the configuration of a device, and the routes to add and
-- to delete.
pub mod Routes
use wire_mesh.Common.{
  str_eq, eq_iff, ℕ, zero, suc, ◌+◌, ◌-◌, ◌*◌, ◌/◌, ◌%◌, ◌^◌, ◌≤◌, ◌<◌, min, max, String, ◌≡◌, refl,
  sym, ap, ◌∙◌, subst, ◌≢◌, ◌↔◌, ◌⊎◌, inl, inr, Bool, true, false, not, ◌&&◌, ◌||◌, Option, none,
  some, List, [], ◌∷◌, ◌++◌, map, arith, ltb, leb, ◌==◌, if◌then◌else◌, is_some, leb→le, ==_iff,
  Bool-cases, Option-cases, length, is_empty, get_elem?, any_of, all_of, sum_of, In, here, there,
}
use wire_mesh.Gateway.Desired.{PeerState, DesiredState}
use Prim.Native.String.{compare}
use Prim.Native.Nat.{Ordering}

abbrev pub persistent_keepalive_secs : ℕ
persistent_keepalive_secs = 25

pub record PeerConfig : Type 0 where
  pub public_key_b64 : String
  pub endpoint : Option String
  pub allowed_ips : List String
  pub keepalive_secs : ℕ

pub record DeviceConfig : Type 0 where
  pub private_key_b64 : String
  pub listen_port : ℕ
  pub peers : List PeerConfig

abbrev pub first_of : List String → Option String
first_of [] = none
first_of (s ∷ ss) = some s

unfoldable pub primary_endpoint : PeerState → Option String
primary_endpoint p = first_of p.candidates

-- `filter_map`
unfoldable pub configs_by : (PeerState → Option PeerConfig) → List PeerState → List PeerConfig
configs_by f [] = []
configs_by f (p ∷ ps) = elim (f p) [ none ↦ configs_by f ps | some c ↦ c ∷ configs_by f ps ]

abbrev pub config_for : Option String → Option String → List String → ℕ → Option PeerConfig
config_for none endpoint allowed keepalive = none
config_for (some key) endpoint allowed keepalive = some (record {
  public_key_b64 = key;
  endpoint = endpoint;
  allowed_ips = allowed;
  keepalive_secs = keepalive;
})

unfoldable pub peer_configs : DesiredState → List PeerConfig
unfolding configs_by primary_endpoint
peer_configs ds =
    configs_by
      (λ p.
        config_for p.active_pubkey_b64 (primary_endpoint p) p.allowed_ips persistent_keepalive_secs)
      ds.peers

unfoldable pub device_config : DesiredState → String → ℕ → DeviceConfig
unfolding peer_configs
device_config ds key port = record {
  private_key_b64 = key;
  listen_port = port;
  peers = peer_configs ds;
}

abbrev pub or_other : Option String → Option String → Option String
or_other none other = other
or_other (some s) other = some s

unfoldable pub device_config_pinned :
    DesiredState → String → ℕ → (ℕ → Option String) → (ℕ → Option String) → DeviceConfig
unfolding configs_by primary_endpoint
device_config_pinned ds key port pinned live = record {
  private_key_b64 = key;
  listen_port = port;
  peers =
      configs_by
        (λ p.
          config_for (or_other (pinned p.gateway_id) p.active_pubkey_b64)
            (or_other (live p.gateway_id) (primary_endpoint p)) p.allowed_ips
            persistent_keepalive_secs)
        ds.peers;
}

unfoldable pub device_config_at_port : DesiredState → String → ℕ → ℕ → DeviceConfig
unfolding configs_by
device_config_at_port ds key port keepalive = record {
  private_key_b64 = key;
  listen_port = port;
  peers = configs_by (λ p. config_for p.active_pubkey_b64 none p.allowed_ips keepalive) ds.peers;
}

-- the `BTreeSet`, in its order and without duplicates
unfoldable pub insert_cidr : String → List String → List String
insert_cidr s [] = s ∷ []
insert_cidr s (t ∷ ts) =
    let rest = insert_cidr s ts in
    elim (compare s t) [ Ordering.lt ↦ s ∷ t ∷ ts | Ordering.eq ↦ t ∷ ts | Ordering.gt ↦ t ∷ rest ]

unfoldable pub insert_cidrs : List String → List String → List String
unfolding insert_cidr
insert_cidrs [] set = set
insert_cidrs (s ∷ ss) set = insert_cidr s (insert_cidrs ss set)

unfoldable pub all_cidrs : List PeerState → List String
unfolding insert_cidrs
all_cidrs [] = []
all_cidrs (p ∷ ps) = insert_cidrs p.allowed_ips (all_cidrs ps)

-- `contains`
unfoldable pub has_cidr : String → List String → Bool
has_cidr s set = any_of (λ t. str_eq t s) set

-- `difference`
unfoldable pub difference : List String → List String → List String
unfolding has_cidr
difference [] other = []
difference (s ∷ ss) other =
    let rest = difference ss other in if has_cidr s other then rest else s ∷ rest

pub record RouteDiff : Type 0 where
  pub to_add : List String
  pub to_del : List String

unfoldable pub route_diff : DesiredState → DesiredState → RouteDiff
unfolding all_cidrs difference
route_diff old new = record {
  to_add = difference (all_cidrs new.peers) (all_cidrs old.peers);
  to_del = difference (all_cidrs old.peers) (all_cidrs new.peers);
}

unfoldable pub policy_changed : DesiredState → DesiredState → Bool
policy_changed old new = not (old.policy_version == new.policy_version)
