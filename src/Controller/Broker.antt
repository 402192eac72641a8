-- ===== src/Controller/Broker.antt =====
-- crates/wiremesh-controller/src/broker.rs: who is connected, what the gateways report of their paths,
-- and the pairs that are told to punch. What the database, the clock and the channels answer is a
-- record of its own; the mutexes are never poisoned.
pub mod Affected
pub mod Edges
pub mod Budget
use wire_mesh.Common.{
  any_of-witness, In-append_right, str_eq, ℕ, zero, suc, ◌+◌, ◌-◌, ◌*◌, ◌/◌, ◌%◌, ◌^◌, ◌≤◌, ◌<◌,
  min, max, String, ◌≡◌, refl, sym, ap, ◌∙◌, subst, ◌≢◌, ◌↔◌, ◌⊎◌, inl, inr, Bool, true, false, not,
  ◌&&◌, ◌||◌, Option, none, some, List, [], ◌∷◌, ◌++◌, map, arith, ltb, leb, ◌==◌, if◌then◌else◌,
  is_some, leb→le, ==_iff, Bool-cases, Option-cases, length, is_empty, get_elem?, any_of, all_of,
  sum_of, In, here, there,
}
use wire_mesh.Common.Assoc.{find_at, put_at, drop_at, keys_of}

abbrev pub punch_lead_ms : ℕ
punch_lead_ms = 300

abbrev pub max_periodic_attempts : ℕ
max_periodic_attempts = 5

abbrev pub max_peer_paths_per_reporter : ℕ
max_peer_paths_per_reporter = 4096

-- a reporter's peers and their states
abbrev pub PathStates : Type 0
PathStates = List (ℕ × List (ℕ × String))

-- a gateway and the channel of its stream
abbrev pub Registry : Type 0
Registry = List (ℕ × ℕ)

pub record Broker : Type 0 where
  pub registry : Registry
  pub periodic_attempts : ℕ × ℕ → ℕ
  pub peer_path_states : PathStates

pub record PeerPathReport : Type 0 where
  pub peer_gateway_id : ℕ
  pub state : String

pub record PunchDirective : Type 0 where
  pub channel : ℕ
  pub peer_gateway_id : ℕ
  pub candidates : List String
  pub go_unix_ms : ℕ

-- the answers during one call
pub record Answers : Type 0 where
  pub candidates_for : ℕ → Option (List String)
  pub now_unix_ms : ℕ
  -- the registry once the candidates were read, which other tasks may have changed
  pub registry_after : Registry → Registry
  -- whether a channel has room
  pub accepts : ℕ → Bool

abbrev pub is_settled : Option String → Bool
is_settled none = false
is_settled (some s) = str_eq s "direct" || str_eq s "relayed"

abbrev pub peers_at : Option (List (ℕ × String)) → List (ℕ × String)
peers_at none = []
peers_at (some m) = m

unfoldable pub settled_dir : PathStates → ℕ → ℕ → Bool
unfolding find_at
settled_dir states reporter peer = is_settled (find_at peer (peers_at (find_at reporter states)))

unfoldable pub settled_in : PathStates → ℕ → ℕ → Bool
unfolding settled_dir
settled_in states a b = settled_dir states a b && settled_dir states b a

abbrev pub pair_key : ℕ → ℕ → ℕ × ℕ
pair_key a b = if leb a b then (a, b) else (b, a)

abbrev pub pair_eq : ℕ × ℕ → ℕ × ℕ → Bool
pair_eq (a, b) (c, d) = a == c && b == d

-- one report
-- At the cap only peers that are tracked are updated.
unfoldable pub store_path : List (ℕ × String) → PeerPathReport → List (ℕ × String)
unfolding find_at put_at
store_path entry pp =
    if leb max_peer_paths_per_reporter (length entry)
      && not (is_some (find_at pp.peer_gateway_id entry))
    then entry
    else put_at pp.peer_gateway_id pp.state entry

unfoldable pub store_paths : List (ℕ × String) → List PeerPathReport → List (ℕ × String)
unfolding store_path
store_paths entry [] = entry
store_paths entry (pp ∷ pps) = store_paths (store_path entry pp) pps

unfoldable pub store_report : ℕ → List PeerPathReport → Bool → PathStates → PathStates
unfolding find_at put_at drop_at store_paths
store_report reporter paths snapshot states =
    if snapshot && is_empty paths
    then drop_at reporter states
    else put_at reporter
        (store_paths (if snapshot then [] else peers_at (find_at reporter states)) paths) states

abbrev pub peer_ids : List PeerPathReport → List ℕ
peer_ids paths = map (λ (pp : PeerPathReport). pp.peer_gateway_id) paths

-- the peers whose pairs with the reporter a report can affect
unfoldable pub affected : ℕ → List PeerPathReport → Bool → PathStates → List ℕ
unfolding find_at
affected reporter paths snapshot states =
    if snapshot
    then peer_ids paths ++ keys_of (peers_at (find_at reporter states))
    else peer_ids paths

-- `sort_unstable` and `dedup`
unfoldable pub insert_id : ℕ → List ℕ → List ℕ
insert_id n [] = n ∷ []
insert_id n (m ∷ ms) =
    let rest = insert_id n ms in if n == m then m ∷ ms else if ltb n m then n ∷ m ∷ ms else m ∷ rest

unfoldable pub sorted_ids : List ℕ → List ℕ
unfolding insert_id
sorted_ids [] = []
sorted_ids (n ∷ ns) = insert_id n (sorted_ids ns)

unfoldable pub keep_ids : (ℕ → Bool) → List ℕ → List ℕ
keep_ids p [] = []
keep_ids p (n ∷ ns) = let rest = keep_ids p ns in if p n then n ∷ rest else rest

unfoldable pub unsettled_edges : ℕ → List PeerPathReport → Bool → PathStates → List ℕ
unfolding store_report affected sorted_ids keep_ids settled_in
unsettled_edges reporter paths snapshot states =
    keep_ids
      (λ peer.
        settled_in states reporter peer
        && not (settled_in (store_report reporter paths snapshot states) reporter peer))
      (sorted_ids (affected reporter paths snapshot states))

-- emitting
unfoldable pub reset_pair : ℕ → ℕ → Broker → Broker
reset_pair a b s = record s {
  periodic_attempts = λ k. if pair_eq (pair_key a b) k then 0 else s.periodic_attempts k;
}

abbrev pub directive : ℕ → ℕ → List String → ℕ → PunchDirective
directive channel peer candidates go = record {
  channel = channel;
  peer_gateway_id = peer;
  candidates = candidates;
  go_unix_ms = go;
}

-- the directives that a channel took
abbrev pub try_send : Answers → PunchDirective → List PunchDirective
try_send w d = if w.accepts d.channel then d ∷ [] else []

-- the critical section
abbrev pub send_both :
    Answers → ℕ → ℕ → List String → List String → Option ℕ → Option ℕ → Bool × List PunchDirective
send_both w a b ca cb none tx_b = (false, [])
send_both w a b ca cb (some tx_a) none = (false, [])
send_both w a b ca cb (some tx_a) (some tx_b) =
    let go = w.now_unix_ms + punch_lead_ms in
    (
      w.accepts tx_a && w.accepts tx_b,
      try_send w (directive tx_a b cb go) ++ try_send w (directive tx_b a ca go),
    )

abbrev pub with_candidates :
    Answers
    → Registry
    → ℕ
    → ℕ
    → Option (List String)
    → Option (List String)
    → Bool × List PunchDirective
with_candidates w reg a b none cb = (false, [])
with_candidates w reg a b (some ca) none = (false, [])
with_candidates w reg a b (some ca) (some cb) =
    if is_empty ca || is_empty cb
    then (false, [])
    else send_both w a b ca cb (find_at a (w.registry_after reg)) (find_at b (w.registry_after reg))

-- whether both were told, and what was sent
unfoldable pub emit_pair : Answers → ℕ → ℕ → Broker → Bool × List PunchDirective
unfolding find_at settled_in
emit_pair w a b s =
    if not (is_some (find_at a s.registry)) || not (is_some (find_at b s.registry))
    then (false, [])
    else if settled_in s.peer_path_states a b
    then (false, [])
    else with_candidates w s.registry a b (w.candidates_for a) (w.candidates_for b)

unfoldable pub count_attempt : ℕ × ℕ → Broker → Broker
count_attempt key s = record s {
  periodic_attempts =
      λ k. if pair_eq key k then suc (s.periodic_attempts k) else s.periodic_attempts k;
}

unfoldable pub emit_pair_periodic : Answers → ℕ → ℕ → Broker → Broker × List PunchDirective
unfolding emit_pair count_attempt
emit_pair_periodic w a b s =
    if leb max_periodic_attempts (s.periodic_attempts (pair_key a b)) then (s, []) else (
      (if (emit_pair w a b s).0 then count_attempt (pair_key a b) s else s),
      (emit_pair w a b s).1,
    )

-- the edges of a report, each reset and emitted; `w` has the answers while a peer is served
unfoldable pub emit_edges : (ℕ → Answers) → ℕ → List ℕ → Broker → Broker × List PunchDirective
unfolding reset_pair emit_pair
emit_edges w reporter [] s = (s, [])
emit_edges w reporter (peer ∷ peers) s =
    let t = reset_pair reporter peer s in
    let rest = emit_edges w reporter peers t in
    (rest.0, (emit_pair (w peer) reporter peer t).1 ++ rest.1)

abbrev pub with_states : PathStates → Broker → Broker
with_states states s = record s { peer_path_states = states }

unfoldable pub on_report :
    (ℕ → Answers) → ℕ → List PeerPathReport → Bool → Broker → Broker × List PunchDirective
unfolding store_report unsettled_edges emit_edges
on_report w reporter paths snapshot s =
    if not snapshot && is_empty paths
    then (s, [])
    else emit_edges w reporter (unsettled_edges reporter paths snapshot s.peer_path_states)
        (with_states (store_report reporter paths snapshot s.peer_path_states) s)
