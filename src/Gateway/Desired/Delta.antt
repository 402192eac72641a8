-- ===== src/Gateway/Desired/Delta.antt =====
-- What a delta makes of every peer and of every revoked serial.
use wire_mesh.Common.{
  str_eq, eq_iff, any_of-append, ℕ, String, ◌≡◌, refl, sym, ap, ◌∙◌, inl, inr, true, ◌||◌, Option,
  none, some, List, [], ◌∷◌, ◌++◌, arith, ◌==◌, if◌then◌else◌, ==_iff, Bool-cases, any_of,
}
use wire_mesh.Gateway.Desired.{
  PeerState, DesiredState, DeltaMsg, upsert, upsert_all, remove_peers, revoke_all, apply_delta,
  peer_at,
}

-- the last peer of the list under an id, or the one before
pub last_upsert : ℕ → List PeerState → Option PeerState → Option PeerState
last_upsert id [] before = before
last_upsert id (p ∷ ps) before = last_upsert id ps (if p.gateway_id == id then some p else before)

peer_at-upsert :
    (id : ℕ) (p : PeerState) (xs : List PeerState)
    → peer_at id (upsert p xs) ≡ (if p.gateway_id == id then some p else peer_at id xs)
unfolding peer_at upsert
peer_at-upsert id p [] = refl
peer_at-upsert id p (x ∷ xs) = let rest = peer_at-upsert id p xs in ground (arith, rest)

peer_at-upsert_all :
    (id : ℕ) (ps xs : List PeerState)
    → peer_at id (upsert_all ps xs) ≡ last_upsert id ps (peer_at id xs)
unfolding upsert_all last_upsert
peer_at-upsert_all id [] xs = refl
peer_at-upsert_all id (p ∷ ps) xs =
    peer_at-upsert_all id ps (upsert p xs) ∙ ap (last_upsert id ps) (peer_at-upsert id p xs)

peer_at-remove_peers :
    (id : ℕ) (ids : List ℕ) (xs : List PeerState)
    → peer_at id (remove_peers ids xs) ≡ (if any_of (λ n. n == id) ids then none else peer_at id xs)
unfolding peer_at remove_peers
peer_at-remove_peers id ids [] = ground arith
peer_at-remove_peers id ids (x ∷ xs) =
    let rest = peer_at-remove_peers id ids xs in
    elim (Bool-cases (x.gateway_id == id)) [
      | inl same ↦
          let at_id : any_of (λ n. n == x.gateway_id) ids ≡ any_of (λ n. n == id) ids =
            ap (λ (z : ℕ). any_of (λ n. n == z) ids) ((==_iff x.gateway_id id).0 same) in
          ground (arith, rest, at_id, same)
      | inr other ↦ ground (arith, rest, other)
    ]

any_of-revoke_all :
    (x : String) (ss known : List String)
    → any_of (λ r. str_eq r x) (revoke_all ss known)
      ≡ (any_of (λ r. str_eq r x) known || any_of (λ r. str_eq r x) ss)
unfolding revoke_all
any_of-revoke_all x [] known = ground arith
any_of-revoke_all x (s ∷ ss) known = elim (Bool-cases (any_of (λ r. str_eq r s) known)) [
  | inl old ↦ elim (Bool-cases (str_eq s x)) [
    | inl same ↦
        let at_x : any_of (λ r. str_eq r x) known ≡ true =
          ap (λ (z : String). any_of (λ r. str_eq r z) known) (sym ((eq_iff s x).0 same)) ∙ old in
        rw old (any_of-revoke_all x ss known ∙ ground (arith, at_x))
    | inr other ↦ rw old (any_of-revoke_all x ss known ∙ ground (arith, other))
  ]
  | inr new ↦
      let split = any_of-append (λ r. str_eq r x) known (s ∷ []) in
      rw new (any_of-revoke_all x ss (known ++ s ∷ []) ∙ ground (arith, split))
]

-- After a delta, each id has the last peer that the delta upserts under it, or the one it had, and
-- none where the delta removes it; and the revoked serials are those of before and of the delta.
pub apply_delta-peers :
    (d : DeltaMsg) (s : DesiredState) (id : ℕ) (serial : String)
    → (peer_at id (apply_delta d s).peers ≡ (
        if any_of (λ n. n == id) d.removed_peer_ids
        then none
        else last_upsert id d.upserted_peers (peer_at id s.peers)))
      × (any_of (λ r. str_eq r serial) (apply_delta d s).revoked_serials ≡ (
          any_of (λ r. str_eq r serial) s.revoked_serials
          || any_of (λ r. str_eq r serial) d.revoked_serials))
unfolding apply_delta
apply_delta-peers d s id serial = (
  rw
      (
        peer_at-remove_peers id d.removed_peer_ids (upsert_all d.upserted_peers s.peers),
        peer_at-upsert_all id d.upserted_peers s.peers,
      )
      refl,
  any_of-revoke_all serial d.revoked_serials s.revoked_serials,
)
