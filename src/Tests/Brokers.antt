-- ===== src/Tests/Brokers.antt =====
-- A broker with two gateways.
use wire_mesh.Common.{
  ◌+◌, ◌≤◌, ◌≡◌, refl, true, false, leb, is_empty, not, ◌&&◌, some, List, [], ◌∷◌, arith,
  if◌then◌else◌, In,
}
use wire_mesh.Controller.Broker.{
  Broker, Answers, PeerPathReport, settled_in, pair_key, on_report, emit_pair_periodic,
}
use wire_mesh.Controller.Broker.Budget.{
  Turn, concerns, sent, sweep, told, count_told, periodic_budget,
}
use wire_mesh.Controller.Broker.Edges.{on_report-budget}
use wire_mesh.Controller.Streams.{KeyRow, is_sentinel, directed_epoch, register, drop_guard}
use wire_mesh.Controller.Streams.Directive.{directed_epoch-newest}

abbrev answers : Answers
answers = record {
  candidates_for = λ g. some ("192.0.2.1:51820" ∷ []);
  now_unix_ms = 1000;
  registry_after = λ r. r;
  accepts = λ c. true;
}

-- both settled, and the budget spent
abbrev settled_pair : Broker
settled_pair = record {
  registry = (3, 30) ∷ (5, 50) ∷ [];
  periodic_attempts = λ k. 5;
  peer_path_states = (3, (5, "direct") ∷ []) ∷ (5, (3, "relayed") ∷ []) ∷ [];
}

abbrev lost_path : List PeerPathReport
lost_path = record { peer_gateway_id = 3; state = "disconnected" } ∷ []

-- The report of one gateway tells both, at one time.
unsettled_sent :
    (on_report (λ p. answers) 5 lost_path true settled_pair).1
    ≡ record {
      channel = 50;
      peer_gateway_id = 3;
      candidates = "192.0.2.1:51820" ∷ [];
      go_unix_ms = 1300;
    }
      ∷ record {
        channel = 30;
        peer_gateway_id = 5;
        candidates = "192.0.2.1:51820" ∷ [];
        go_unix_ms = 1300;
      }
      ∷ []
unfolding on_report
unsettled_sent = refl

on_report-budget_example :
    (on_report (λ p. answers) 5 lost_path true settled_pair).0.periodic_attempts (pair_key 3 5) ≡ (
      if settled_in settled_pair.peer_path_states 3 5
        && not (
            settled_in
              (on_report (λ p. answers) 5 lost_path true settled_pair).0.peer_path_states
              3
              5)
      then 0
      else settled_pair.periodic_attempts (pair_key 3 5))
on_report-budget_example = on_report-budget (λ p. answers) 5 lost_path true settled_pair 3 5

abbrev fresh_pair : Broker
fresh_pair = record {
  registry = (3, 30) ∷ (5, 50) ∷ [];
  periodic_attempts = λ k. 0;
  peer_path_states = [];
}

abbrev turn : Turn
turn = record { answers = answers; low = 3; high = 5 }

abbrev seven_turns : List Turn
seven_turns = turn ∷ turn ∷ turn ∷ turn ∷ turn ∷ turn ∷ turn ∷ []

told_five : count_told (3, 5) seven_turns fresh_pair ≡ 5
unfolding count_told told emit_pair_periodic
told_five = refl

periodic_budget_example :
    (0 + count_told (3, 5) seven_turns fresh_pair ≤ 5)
    × ((sweep seven_turns fresh_pair).periodic_attempts (3, 5)
        ≡ 0 + count_told (3, 5) seven_turns fresh_pair)
    × ((concerns (3, 5) turn
          && leb 5 (0 + count_told (3, 5) seven_turns fresh_pair)
          && not (is_empty (sent turn (sweep seven_turns fresh_pair))))
        ≡ false)
periodic_budget_example = periodic_budget (3, 5) seven_turns turn fresh_pair (omega arith)

-- a newer rotation above an orphan
abbrev key_rows : List KeyRow
key_rows =
    record { epoch = 0; pubkey = "k0"; state = "active" }
    ∷ record { epoch = 1; pubkey = "awaiting-submission"; state = "pending" }
    ∷ record { epoch = 2; pubkey = "awaiting-submission"; state = "pending" }
    ∷ []

key_rows-directed : directed_epoch key_rows ≡ some 2
unfolding directed_epoch
key_rows-directed = refl

directed_epoch-newest_example :
    (m : KeyRow) × In m key_rows
    × (m.epoch ≡ 2)
    × (is_sentinel m ≡ true)
    × ((k : KeyRow) → In k key_rows → k.epoch ≤ 2)
directed_epoch-newest_example = directed_epoch-newest key_rows key_rows-directed

-- the guard of an older stream leaves the newer one
reconnected :
    (drop_guard 3 30 (register 3 31 (register 3 30 fresh_pair))).registry ≡ (3, 31) ∷ (5, 50) ∷ []
unfolding drop_guard register
reconnected = refl
