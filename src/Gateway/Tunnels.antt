-- ===== src/Gateway/Tunnels.antt =====
-- crates/wiremesh-gateway/src/tunnelset.rs: the plan of a tunnel, its name and its port together.
use wire_mesh.Common.{
  str_eq, ℕ, zero, suc, ◌+◌, ◌-◌, ◌^◌, String, Bool, false, not, ◌&&◌, Option, none, some, List,
  ltb, ◌==◌, if◌then◌else◌, any_of,
}
use wire_mesh.Common.Result.{Result, ok, err, guard, ◌>>=◌, ◌>>◌}
use wire_mesh.Policy.RuleId.{decimal}
use wire_mesh.Enforcer.Iface.{validate_iface}
use Prim.Native.String.{◌++◌ as push_str}

pub data TunnelId : Type 0 where
  own : ℕ → TunnelId
  overlap : ℕ → ℕ → TunnelId

pub record TunnelPlan : Type 0 where
  pub id : TunnelId
  pub ifname : String
  pub listen_port : ℕ

pub data PlanError : Type 0 where
  bad_name name_taken names_exhausted no_port : PlanError

abbrev pub max_rotation_tuns : ℕ
max_rotation_tuns = 64

abbrev pub own_tun_port_offset : ℕ
own_tun_port_offset = 1

abbrev pub id_eq : TunnelId → TunnelId → Bool
id_eq (own e) (own f) = e == f
id_eq (own e) (overlap g f) = false
id_eq (overlap g e) (own f) = false
id_eq (overlap g e) (overlap h f) = g == h && e == f

unfoldable pub holds_name : String → TunnelPlan → Bool
holds_name n p = str_eq p.ifname n

unfoldable pub holds_port : ℕ → TunnelPlan → Bool
holds_port n p = p.listen_port == n

-- `format!("{base_tun}{OWN_MARK}{epoch}")`, for an epoch of 32 bits
unfoldable pub own_name : String → ℕ → String
unfolding decimal
own_name base epoch = push_str base (push_str "e" (decimal 10 epoch))

unfoldable pub overlap_name : String → ℕ → String
unfolding decimal
overlap_name base slot = push_str base (push_str "o" (decimal 10 slot))

-- the slots from `slot` on, `left` of them
unfoldable pub first_name : ℕ → ℕ → String → List TunnelPlan → Result PlanError String
unfolding validate_iface holds_name overlap_name
first_name zero slot base live = err names_exhausted
first_name (suc left) slot base live =
    let later = first_name left (suc slot) base live in
    if not (validate_iface (overlap_name base slot))
    then err bad_name
    else if not (any_of (holds_name (overlap_name base slot)) live)
    then ok (overlap_name base slot)
    else later

unfoldable pub plan_ifname : TunnelId → String → List TunnelPlan → Result PlanError String
unfolding own_name holds_name validate_iface first_name
plan_ifname (own epoch) base live = do
  guard (validate_iface (own_name base epoch)) bad_name
  guard (not (any_of (holds_name (own_name base epoch)) live)) name_taken
  ok (own_name base epoch)
plan_ifname (overlap gateway epoch) base live = first_name max_rotation_tuns 0 base live

-- `checked_add` on 16 bits, and not taken
unfoldable pub port_free : ℕ → List TunnelPlan → Bool
unfolding holds_port
port_free port live = ltb port (2 ^ 16) && not (any_of (holds_port port) live)

-- the ports from `port` on, `left` of them
unfoldable pub first_port : ℕ → ℕ → List TunnelPlan → Option ℕ
unfolding port_free
first_port zero port live = none
first_port (suc left) port live =
    let later = first_port left (suc port) live in if port_free port live then some port else later

unfoldable pub plan_port : TunnelId → ℕ → List TunnelPlan → Option ℕ
unfolding port_free first_port
plan_port (own epoch) base live =
    if port_free (base + own_tun_port_offset) live then some (base + own_tun_port_offset) else none
plan_port (overlap gateway epoch) base live =
    first_port (max_rotation_tuns - own_tun_port_offset) (base + own_tun_port_offset + 1) live

abbrev pub port_or : Option ℕ → Result PlanError ℕ
port_or none = err no_port
port_or (some port) = ok port

unfoldable pub plan_tunnel : TunnelId → String → ℕ → List TunnelPlan → Result PlanError TunnelPlan
unfolding plan_ifname plan_port
plan_tunnel id base_tun base_port live = do
  ifname ← plan_ifname id base_tun live
  listen_port ← port_or (plan_port id base_port live)
  ok (record { id = id; ifname = ifname; listen_port = listen_port })
