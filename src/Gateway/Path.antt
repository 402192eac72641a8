-- ===== src/Gateway/Path.antt =====
-- crates/wiremesh-gateway/src/path.rs: the path to one peer. An instant and a duration are
-- nanoseconds.
pub mod Edges
pub mod Fields
pub mod Silence
use wire_mesh.Common.{
  ℕ, ◌-◌, ◌*◌, min, Bool, true, false, not, ◌&&◌, Option, none, some, leb, ltb, if◌then◌else◌,
}

abbrev pub secs : ℕ → ℕ
secs n = n * 1000000000

abbrev pub connect_timeout : ℕ
connect_timeout = secs 10

abbrev pub degraded_after : ℕ
degraded_after = secs 45

abbrev pub degraded_dead_after : ℕ
degraded_dead_after = connect_timeout

abbrev pub backoff_initial : ℕ
backoff_initial = secs 2

abbrev pub backoff_max : ℕ
backoff_max = secs 30

abbrev pub probe_direct_interval : ℕ
probe_direct_interval = secs 20

pub data PathState : Type 0 where
  connecting direct degraded relayed disconnected : PathState

unfoldable pub directive_should_punch : Option PathState → Bool → Bool
directive_should_punch none relay_pointed = not relay_pointed
directive_should_punch (some connecting) relay_pointed = not relay_pointed
directive_should_punch (some direct) relay_pointed = false
directive_should_punch (some degraded) relay_pointed = false
directive_should_punch (some relayed) relay_pointed = false
directive_should_punch (some disconnected) relay_pointed = false

unfoldable pub settled : PathState → Bool
settled connecting = false
settled direct = true
settled degraded = false
settled relayed = true
settled disconnected = false

-- `settled(before) != settled(after)`
unfoldable pub transition_crosses_settled_boundary : PathState → PathState → Bool
unfolding settled
transition_crosses_settled_boundary before after =
    if settled before then not (settled after) else settled after

pub data PathAction : Type 0 where
  start_punch mark_relay_needed relay_died retry probe_direct : PathAction

pub record PeerPath : Type 0 where
  pub state : PathState
  pub last_handshake : Option ℕ
  pub last_inbound : Option ℕ
  pub connecting_since : ℕ
  pub backoff : ℕ
  pub degraded_since : Option ℕ
  pub disconnected_since : Option ℕ
  pub relayed_probe_last : Option ℕ

-- `Path::new`
unfoldable pub new : ℕ → PeerPath
new now = record {
  state = connecting;
  last_handshake = none;
  last_inbound = none;
  connecting_since = now;
  backoff = backoff_initial;
  degraded_since = none;
  disconnected_since = none;
  relayed_probe_last = none;
}

unfoldable pub on_handshake : PeerPath → ℕ → Bool → PeerPath
on_handshake p now rx_corroborated = if not rx_corroborated then p else record p {
  last_handshake = some now;
  last_inbound = some now;
  state = direct;
  degraded_since = none;
  disconnected_since = none;
  relayed_probe_last = none;
  backoff = backoff_initial;
}

unfoldable pub on_authenticated_inbound : PeerPath → ℕ → PeerPath
on_authenticated_inbound p now = record p { last_inbound = some now }

abbrev pub or : Option ℕ → Option ℕ → Option ℕ
or none b = b
or (some a) b = some a

abbrev pub unwrap_or : Option ℕ → ℕ → ℕ
unwrap_or none d = d
unwrap_or (some a) d = a

-- the exit of `Connecting` and of `Degraded`
unfoldable pub give_up : PeerPath → ℕ → Bool → PeerPath × Option PathAction
give_up p now relay_available = (
  if relay_available
      then record p { state = relayed; relayed_probe_last = some now }
      else record p { state = disconnected; disconnected_since = some now },
  some mark_relay_needed,
)

unfoldable pub tick_direct : PeerPath → Option ℕ → ℕ → PeerPath × Option PathAction
tick_direct p none now = (p, none)
tick_direct p (some last) now =
    if leb degraded_after (now - last)
    then (record p { state = degraded; degraded_since = some now }, some retry)
    else (p, none)

-- `is_none_or`
abbrev pub probe_due : Option ℕ → ℕ → Bool
probe_due none now = true
probe_due (some last) now = leb probe_direct_interval (now - last)

unfoldable pub tick_relayed : PeerPath → ℕ → Bool → PeerPath × Option PathAction
tick_relayed p now relay_available =
    if relay_available
    then if probe_due p.relayed_probe_last now
      then (record p { relayed_probe_last = some now }, some probe_direct)
      else (p, none)
    else (
      record p { state = disconnected; disconnected_since = some now; relayed_probe_last = none },
      some relay_died,
    )

unfoldable pub tick_disconnected : PeerPath → ℕ → PeerPath × Option PathAction
tick_disconnected p now =
    if leb p.backoff (now - unwrap_or p.disconnected_since now)
    then (
      record p {
        state = connecting;
        connecting_since = now;
        disconnected_since = none;
        backoff = min (p.backoff * 2) backoff_max;
      },
      some start_punch,
    )
    else (p, none)

-- `match self.state` of `tick`
unfoldable pub tick_in : PathState → PeerPath → ℕ → Bool → PeerPath × Option PathAction
unfolding give_up tick_direct tick_relayed tick_disconnected
tick_in connecting p now relay_available =
    if leb connect_timeout (now - p.connecting_since)
    then give_up p now relay_available
    else (p, none)
tick_in direct p now relay_available = tick_direct p (or p.last_inbound p.last_handshake) now
tick_in degraded p now relay_available =
    if leb degraded_dead_after (now - unwrap_or p.degraded_since now)
    then give_up p now relay_available
    else (p, some retry)
tick_in relayed p now relay_available = tick_relayed p now relay_available
tick_in disconnected p now relay_available = tick_disconnected p now

unfoldable pub tick : PeerPath → ℕ → Bool → PeerPath × Option PathAction
unfolding tick_in
tick p now relay_available = tick_in p.state p now relay_available

-- what the driver calls
pub data PathEvent : Type 0 where
  handshake : ℕ → Bool → PathEvent
  inbound : ℕ → PathEvent
  ticked : ℕ → Bool → PathEvent

unfoldable pub on_event : PeerPath → PathEvent → PeerPath
unfolding on_handshake on_authenticated_inbound tick
on_event p (handshake now rx) = on_handshake p now rx
on_event p (inbound now) = on_authenticated_inbound p now
on_event p (ticked now relay_available) = (tick p now relay_available).0
