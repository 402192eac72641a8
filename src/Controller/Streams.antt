-- ===== src/Controller/Streams.antt =====
-- crates/wiremesh-controller/src/broker.rs: the streams that are open, the triggers that punch every
-- peer of a gateway, and the directive to rotate a key.
pub mod Directive
use wire_mesh.Common.{
  str_eq, ℕ, zero, suc, ◌+◌, ◌-◌, ◌*◌, ◌/◌, ◌%◌, ◌^◌, ◌≤◌, ◌<◌, min, max, String, ◌≡◌, refl, sym,
  ap, ◌∙◌, subst, ◌≢◌, ◌↔◌, ◌⊎◌, inl, inr, Bool, true, false, not, ◌&&◌, ◌||◌, Option, none, some,
  List, [], ◌∷◌, ◌++◌, map, arith, ltb, leb, ◌==◌, if◌then◌else◌, is_some, leb→le, ==_iff,
  Bool-cases, Option-cases, length, is_empty, get_elem?, any_of, all_of, sum_of, In, here, there,
}
use wire_mesh.Common.Assoc.{find_at, put_at, drop_at, keys_of}
use wire_mesh.Controller.Broker.{
  Broker, Answers, Registry, PunchDirective, reset_pair, emit_pair, emit_pair_periodic,
}

-- `register`, whose guard remembers the gateway and the channel
unfoldable pub register : ℕ → ℕ → Broker → Broker
unfolding put_at
register gateway channel s = record s { registry = put_at gateway channel s.registry }

-- `same_channel`
abbrev pub is_channel : ℕ → Option ℕ → Bool
is_channel channel none = false
is_channel channel (some c) = c == channel

-- `RegistrationGuard::drop`
unfoldable pub drop_guard : ℕ → ℕ → Broker → Broker
unfolding find_at drop_at
drop_guard gateway channel s =
    if is_channel channel (find_at gateway s.registry)
    then record s { registry = drop_at gateway s.registry }
    else s

unfoldable pub connected_gateway_ids : Broker → List ℕ
connected_gateway_ids s = keys_of s.registry

unfoldable pub clear_reported_states : ℕ → Broker → Broker
unfolding drop_at
clear_reported_states gateway s = record s { peer_path_states = drop_at gateway s.peer_path_states }

-- the gateways of other segments: `(id, segment)` of the others, and the segment of this one
unfoldable pub peer_ids_of : Option ℕ → List (ℕ × ℕ) → List ℕ
peer_ids_of none others = []
peer_ids_of (some segment) [] = []
peer_ids_of (some segment) ((id, other) ∷ others) =
    let rest = peer_ids_of (some segment) others in if other == segment then rest else id ∷ rest

unfoldable pub punch_peers_of :
    (ℕ → Answers) → ℕ → List ℕ → Bool → Broker → Broker × List PunchDirective
unfolding reset_pair emit_pair
punch_peers_of w gateway [] reset s = (s, [])
punch_peers_of w gateway (peer ∷ peers) reset s =
    let t = if reset then reset_pair gateway peer s else s in
    let rest = punch_peers_of w gateway peers reset t in
    (rest.0, (emit_pair (w peer) gateway peer t).1 ++ rest.1)

unfoldable pub on_gateway_connected :
    (ℕ → Answers) → ℕ → List ℕ → Broker → Broker × List PunchDirective
unfolding clear_reported_states punch_peers_of
on_gateway_connected w gateway peers s =
    punch_peers_of w gateway peers true (clear_reported_states gateway s)

-- the pairs of one gateway in a sweep
unfoldable pub sweep_peers :
    (ℕ → Answers) → List ℕ → ℕ → List ℕ → Broker → Broker × List PunchDirective
unfolding emit_pair_periodic
sweep_peers w connected gateway [] s = (s, [])
sweep_peers w connected gateway (peer ∷ peers) s =
    let skip = leb peer gateway || not (any_of (λ c. c == peer) connected) in
    let t = emit_pair_periodic (w peer) gateway peer s in
    let rest = sweep_peers w connected gateway peers (if skip then s else t.0) in
    (rest.0, (if skip then [] else t.1) ++ rest.1)

unfoldable pub sweep_all :
    (ℕ → Answers) → (ℕ → List ℕ) → List ℕ → List ℕ → Broker → Broker × List PunchDirective
unfolding sweep_peers
sweep_all w peers_of connected [] s = (s, [])
sweep_all w peers_of connected (gateway ∷ gateways) s =
    let t = sweep_peers w connected gateway (peers_of gateway) s in
    let rest = sweep_all w peers_of connected gateways t.0 in (rest.0, t.1 ++ rest.1)

unfoldable pub periodic_sweep : (ℕ → Answers) → (ℕ → List ℕ) → Broker → Broker × List PunchDirective
unfolding sweep_all connected_gateway_ids
periodic_sweep w peers_of s =
    sweep_all w peers_of (connected_gateway_ids s) (connected_gateway_ids s) s

-- a key row: epoch, public key, state
pub record KeyRow : Type 0 where
  pub epoch : ℕ
  pub pubkey : String
  pub state : String

abbrev pub awaiting_submission_sentinel : String
awaiting_submission_sentinel = "awaiting-submission"

-- `max_by_key`, which takes the last of those that are equal
abbrev pub later_max : KeyRow → Option KeyRow → Option KeyRow
later_max k none = some k
later_max k (some m) = if ltb m.epoch k.epoch then some k else some m

unfoldable pub newest : List KeyRow → Option KeyRow
newest [] = none
newest (k ∷ ks) = later_max k (newest ks)

unfoldable pub is_sentinel : KeyRow → Bool
is_sentinel k = str_eq k.state "pending" && str_eq k.pubkey awaiting_submission_sentinel

abbrev pub sentinel_epoch : Option KeyRow → Option ℕ
sentinel_epoch none = none
sentinel_epoch (some k) = if is_sentinel k then some k.epoch else none

-- the epoch of the directive
unfoldable pub directed_epoch : List KeyRow → Option ℕ
unfolding newest is_sentinel
directed_epoch keys = sentinel_epoch (newest keys)

-- the channel the directive went to, if it went to any, and its epoch as 32 bits
abbrev pub rotate_sent : Answers → Option ℕ → Option ℕ → Option (ℕ × ℕ)
rotate_sent w none channel = none
rotate_sent w (some epoch) none = none
rotate_sent w (some epoch) (some channel) =
    if w.accepts channel then some (channel, epoch % 2 ^ 32) else none

unfoldable pub send_rotate_if_pending : Answers → ℕ → List KeyRow → Broker → Option (ℕ × ℕ)
unfolding directed_epoch find_at
send_rotate_if_pending w gateway keys s =
    rotate_sent w (directed_epoch keys) (find_at gateway s.registry)
