-- ===== src/Controller/Broker/Edges.antt =====
-- A report gives a pair its budget back exactly where it takes the pair off settled.
use wire_mesh.Common.{
  Bool-eq_of_iff, any_of-In, any_of-witness, ℕ, ◌≡◌, refl, sym, ◌∙◌, subst, ◌⊎◌, inl, inr, Bool,
  true, false, not, ◌&&◌, List, [], ◌∷◌, arith, ◌==◌, if◌then◌else◌, ==_iff, Bool-cases, is_empty,
  any_of, In,
}
use wire_mesh.Controller.Broker.{
  Broker, Answers, PathStates, PeerPathReport, settled_dir, settled_in, pair_key, pair_eq,
  store_report, affected, sorted_ids, unsettled_edges, reset_pair, emit_edges, with_states,
  on_report,
}
use wire_mesh.Controller.Broker.Affected.{
  settled_in-sym, settled_dir-other, flipped-affected, In-sorted_ids, In-keep_ids, keep_ids-In,
}

-- what a report does to a pair
abbrev unsettles : ℕ → List PeerPathReport → Bool → PathStates → ℕ → ℕ → Bool
unsettles reporter paths snapshot states x y =
    settled_in states x y && not (settled_in (store_report reporter paths snapshot states) x y)

edge-flipped :
    (reporter : ℕ) (paths : List PeerPathReport) (snapshot : Bool) (states : PathStates) (peer : ℕ)
    → unsettles reporter paths snapshot states reporter peer ≡ true
    → settled_dir states reporter peer ≡ true
    → settled_dir (store_report reporter paths snapshot states) reporter peer ≡ false
    → In peer (unsettled_edges reporter paths snapshot states)
unfolding unsettled_edges
edge-flipped reporter paths snapshot states peer h before after =
    let ids = affected reporter paths snapshot states in
    In-keep_ids (unsettles reporter paths snapshot states reporter) peer (sorted_ids ids)
      (In-sorted_ids peer ids (flipped-affected reporter paths snapshot states peer before after)) h

-- The pair of every edge is unsettled, and every unsettled pair is that of an edge.
edge-unsettles :
    (reporter : ℕ) (paths : List PeerPathReport) (snapshot : Bool) (states : PathStates) (peer : ℕ)
    → In peer (unsettled_edges reporter paths snapshot states)
    → unsettles reporter paths snapshot states reporter peer ≡ true
unfolding unsettled_edges
edge-unsettles reporter paths snapshot states peer m =
    keep_ids-In (unsettles reporter paths snapshot states reporter) peer
      (sorted_ids (affected reporter paths snapshot states)) m

abbrev of_pair : ℕ → ℕ → ℕ → ℕ → Bool
of_pair reporter x y peer = pair_eq (pair_key reporter peer) (pair_key x y)

flip-edge :
    (reporter : ℕ) (paths : List PeerPathReport) (snapshot : Bool) (states : PathStates) (x y : ℕ)
    → unsettles reporter paths snapshot states x y ≡ true
    → settled_dir states x y ≡ true
    → settled_dir (store_report reporter paths snapshot states) x y ≡ false
    → (reporter ≡ x) × In y (unsettled_edges reporter paths snapshot states)
flip-edge reporter paths snapshot states x y h before after = elim (Bool-cases (reporter == x)) [
  | inr other ↦
      let same = settled_dir-other reporter paths snapshot states x y other in
      absurd (ground (arith, before, after, same))
  | inl is_x ↦
      let eq : reporter ≡ x = (==_iff reporter x).0 is_x in
      (
        eq,
        edge-flipped reporter paths snapshot states y
            (subst (λ (z : ℕ). unsettles reporter paths snapshot states z y ≡ true) (sym eq) h)
            (subst (λ (z : ℕ). settled_dir states z y ≡ true) (sym eq) before)
            (subst
              (λ (z : ℕ). settled_dir (store_report reporter paths snapshot states) z y ≡ false)
              (sym eq) after),
      )
]

pair_key_self : (x y : ℕ) → pair_eq (pair_key x y) (pair_key x y) ≡ true
pair_key_self x y = ground arith

pair_key_swap : (x y : ℕ) → pair_eq (pair_key y x) (pair_key x y) ≡ true
pair_key_swap x y = ground arith

pair_key_cases :
    (r p x y : ℕ)
    → pair_eq (pair_key r p) (pair_key x y) ≡ true
    → ((r ≡ x) × (p ≡ y)) ⊎ ((r ≡ y) × (p ≡ x))
pair_key_cases r p x y h = ground arith

unsettles-dir :
    (before after : PathStates) (x y : ℕ)
    → settled_in before x y ≡ true
    → settled_in after x y ≡ false
    → ((settled_dir before x y ≡ true) × (settled_dir after x y ≡ false))
      ⊎ ((settled_dir before y x ≡ true) × (settled_dir after y x ≡ false))
unfolding settled_in
unsettles-dir before after x y h k = elim (Bool-cases (settled_dir after x y)) [
  | inr off ↦ inl (ground (arith, h), off)
  | inl on ↦ inr (ground (arith, h), ground (arith, k, on))
]

unsettles-sym :
    (reporter : ℕ) (paths : List PeerPathReport) (snapshot : Bool) (states : PathStates) (x y : ℕ)
    → unsettles reporter paths snapshot states x y ≡ unsettles reporter paths snapshot states y x
unsettles-sym reporter paths snapshot states x y =
    let a = settled_in-sym states x y in
    let b = settled_in-sym (store_report reporter paths snapshot states) x y in ground (arith, a, b)

-- The pairs of the edges are the pairs that the report unsettles.
any_of-edges :
    (reporter : ℕ) (paths : List PeerPathReport) (snapshot : Bool) (states : PathStates) (x y : ℕ)
    → any_of (of_pair reporter x y) (unsettled_edges reporter paths snapshot states)
      ≡ unsettles reporter paths snapshot states x y
any_of-edges reporter paths snapshot states x y =
    Bool-eq_of_iff _ _
      (λ h.
        let (p, m, e) = any_of-witness (of_pair reporter x y) edges h in
        let u = edge-unsettles reporter paths snapshot states p m in
        elim (pair_key_cases reporter p x y e) [
          | inl (rx, py) ↦ moved reporter p x y rx py u
          | inr (ry, px) ↦
              unsettles-sym reporter paths snapshot states x y ∙ moved reporter p y x ry px u
        ])
      (λ h. elim (unsettles-dir states after x y (ground (arith, h)) (ground (arith, h))) [
        | inl (on, off) ↦
            let (r, m) = flip-edge reporter paths snapshot states x y h on off in
            any_of-In (of_pair reporter x y) m (
              subst (λ (z : ℕ). pair_eq (pair_key z y) (pair_key x y) ≡ true) (sym r)
                (pair_key_self x y))
        | inr (on, off) ↦
            let (r, m) =
              flip-edge reporter paths snapshot states y x
                (sym (unsettles-sym reporter paths snapshot states x y) ∙ h) on off in
            any_of-In (of_pair reporter x y) m (
              subst (λ (z : ℕ). pair_eq (pair_key z x) (pair_key x y) ≡ true) (sym r)
                (pair_key_swap x y))
      ])
  where
    edges : List ℕ
    edges = unsettled_edges reporter paths snapshot states

    after : PathStates
    after = store_report reporter paths snapshot states

    moved :
        (r p a b : ℕ)
        → r ≡ a
        → p ≡ b
        → unsettles reporter paths snapshot states r p ≡ true
        → unsettles reporter paths snapshot states a b ≡ true
    moved r p a b e f u =
        subst (λ (z : ℕ). unsettles reporter paths snapshot states z b ≡ true) e
          (subst (λ (z : ℕ). unsettles reporter paths snapshot states r z ≡ true) f u)

emit_edges-budget :
    (w : ℕ → Answers) (reporter : ℕ) (peers : List ℕ) (s : Broker) (x y : ℕ)
    → (emit_edges w reporter peers s).0.periodic_attempts (pair_key x y)
      ≡ (if any_of (of_pair reporter x y) peers then 0 else s.periodic_attempts (pair_key x y))
unfolding emit_edges reset_pair
emit_edges-budget w reporter [] s x y = refl
emit_edges-budget w reporter (peer ∷ peers) s x y =
    let rest = emit_edges-budget w reporter peers (reset_pair reporter peer s) x y in
    rest ∙ ground arith

emit_edges-states :
    (w : ℕ → Answers) (reporter : ℕ) (peers : List ℕ) (s : Broker)
    → (emit_edges w reporter peers s).0.peer_path_states ≡ s.peer_path_states
unfolding emit_edges reset_pair
emit_edges-states w reporter [] s = refl
emit_edges-states w reporter (peer ∷ peers) s =
    emit_edges-states w reporter peers (reset_pair reporter peer s)

-- Of every report and every pair: the pair has its budget back where it was settled before the report
-- and is not after, and keeps what it had spent otherwise.
pub on_report-budget :
    (w : ℕ → Answers) (reporter : ℕ) (paths : List PeerPathReport) (snapshot : Bool) (s : Broker)
    (x y : ℕ)
    → (on_report w reporter paths snapshot s).0.periodic_attempts (pair_key x y) ≡ (
        if settled_in s.peer_path_states x y
          && not (settled_in (on_report w reporter paths snapshot s).0.peer_path_states x y)
        then 0
        else s.periodic_attempts (pair_key x y))
unfolding on_report
on_report-budget w reporter paths snapshot s x y =
    elim (Bool-cases (not snapshot && is_empty paths)) [
      | inl idle ↦ rw idle (ground arith)
      | inr busy ↦
          let states = store_report reporter paths snapshot s.peer_path_states in
          let edges = unsettled_edges reporter paths snapshot s.peer_path_states in
          rw
            (
              busy,
              emit_edges-states w reporter edges (with_states states s),
              emit_edges-budget w reporter edges (with_states states s) x y,
              any_of-edges reporter paths snapshot s.peer_path_states x y,
            )
            refl
    ]
