-- ===== src/Gateway/RoleB/Settled.antt =====
-- One round of overlaps settles role B.
use wire_mesh.Common.{
  ℕ, ◌≡◌, refl, ap, ◌∙◌, subst, inl, inr, Bool, true, false, Option, none, some, List, [], ◌∷◌,
  arith, ◌==◌, if◌then◌else◌, ==_iff, Bool-cases, In, here, there,
}
use wire_mesh.Gateway.Desired.{PeerKeyInfo, PeerState}
use wire_mesh.Gateway.RoleB.{
  RoleBDecision, skip, start, restart, unusable, active_key, pending_key, is_usable, against,
  decide_keys, decide_role_b, role_b_decisions,
}

-- the overlap towards a peer once its decision was carried out
abbrev pub held_after : RoleBDecision → Option ℕ → Option ℕ
held_after skip held = held
held_after (start e) held = some e
held_after (restart stale e) held = some e
held_after (unusable e) held = held

pub carried_out : List (ℕ × RoleBDecision) → (ℕ → Option ℕ) → ℕ → Option ℕ
carried_out [] m = m
carried_out ((g, d) ∷ ds) m = carried_out ds (λ k. if g == k then held_after d (m k) else m k)

abbrev pub asks : RoleBDecision → Bool
asks skip = false
asks (start e) = true
asks (restart stale e) = true
asks (unusable e) = false

against-settled :
    (e : ℕ) (held : Option ℕ) → asks (against e (held_after (against e held) held)) ≡ false
unfolding against
against-settled e none = ground arith
against-settled e (some h) = elim (Bool-cases (h == e)) [
  | inl same ↦ rw (same, same) refl
  | inr other ↦ rw other (ground arith)
]

settled_keys :
    (a p : Option PeerKeyInfo) (held : Option ℕ)
    → asks (decide_keys a p (held_after (decide_keys a p held) held)) ≡ false
unfolding decide_keys
settled_keys none p held = refl
settled_keys (some act) none held = refl
settled_keys (some act) (some pending) held = elim (Bool-cases (is_usable pending.pubkey_b64)) [
  | inl good ↦ rw good (against-settled pending.epoch held)
  | inr bad ↦ rw bad refl
]

-- no other peer has the id
abbrev pub Absent : ℕ → List PeerState → Type 0
Absent id [] = Unit
Absent id (p ∷ ps) = ((p.gateway_id == id) ≡ false) × Absent id ps

abbrev pub AllDistinct : List PeerState → Type 0
AllDistinct [] = Unit
AllDistinct (p ∷ ps) = Absent p.gateway_id ps × AllDistinct ps

carried_out-Absent :
    (id : ℕ) (ps : List PeerState) (m n : ℕ → Option ℕ)
    → Absent id ps
    → carried_out (role_b_decisions ps m) n id ≡ n id
unfolding carried_out role_b_decisions
carried_out-Absent id [] m n h = refl
carried_out-Absent id (p ∷ ps) m n (other, h) =
    carried_out-Absent id ps m
      (λ k. if p.gateway_id == k then held_after (decide_role_b p (m p.gateway_id)) (n k) else n k)
      h
    ∙ rw other refl

Absent-ne :
    (id : ℕ) (ps : List PeerState) {p : PeerState}
    → Absent id ps
    → In p ps
    → (id == p.gateway_id) ≡ false
Absent-ne id [] h m = elim m [ ]
Absent-ne id (q ∷ qs) {p} (other, h) (here e) =
    let at_p = ap (λ (x : PeerState). x.gateway_id) e in ground (arith, other, at_p)
Absent-ne id (q ∷ qs) (other, h) (there m) = Absent-ne id qs h m

carried_out-peer :
    (ps : List PeerState) (m n : ℕ → Option ℕ) {p : PeerState}
    → AllDistinct ps
    → In p ps
    → carried_out (role_b_decisions ps m) n p.gateway_id
      ≡ held_after (decide_role_b p (m p.gateway_id)) (n p.gateway_id)
unfolding carried_out role_b_decisions
carried_out-peer [] m n h k = elim k [ ]
carried_out-peer (q ∷ qs) m n {p} (h, hs) (here e) =
    let self : (q.gateway_id == q.gateway_id) ≡ true = (==_iff q.gateway_id q.gateway_id).1 refl in
    subst
      (λ (x : PeerState).
        carried_out (role_b_decisions (q ∷ qs) m) n x.gateway_id
        ≡ held_after (decide_role_b x (m x.gateway_id)) (n x.gateway_id))
      e
      (carried_out-Absent q.gateway_id qs m
          (λ k.
            if q.gateway_id == k then held_after (decide_role_b q (m q.gateway_id)) (n k) else n k)
          h
        ∙ rw self refl)
carried_out-peer (q ∷ qs) m n {p} (h, hs) (there k) =
    let other = Absent-ne q.gateway_id qs h k in
    carried_out-peer qs m
      (λ j. if q.gateway_id == j then held_after (decide_role_b q (m q.gateway_id)) (n j) else n j)
      hs k
    ∙ rw other refl

-- Where the peers have distinct ids, once the overlaps that one round asks for are up, the next round
-- on the same peers asks for none.
pub decide_role_b-settled :
    (ps : List PeerState) (m : ℕ → Option ℕ) {p : PeerState}
    → AllDistinct ps
    → In p ps
    → asks (decide_role_b p (carried_out (role_b_decisions ps m) m p.gateway_id)) ≡ false
unfolding decide_role_b
decide_role_b-settled ps m {p} h k =
    rw (carried_out-peer ps m m h k) (settled_keys (active_key p) (pending_key p) (m p.gateway_id))
