-- ===== src/Controller/Broker/Affected.antt =====
-- Which peers a report can affect, and what it leaves as it was.
use wire_mesh.Common.{
  any_of-witness, In-append_right, ℕ, String, ◌≡◌, refl, sym, ap, ◌∙◌, subst, inl, inr, Bool, true,
  false, ◌&&◌, Option, none, some, List, [], ◌∷◌, arith, ltb, ◌==◌, if◌then◌else◌, ==_iff,
  Bool-cases, is_empty, any_of, In, here, there,
}
use wire_mesh.Common.Assoc.{
  find_at, find_at-put_at_self, find_at-put_at_other, find_at-drop_at_other, In-keys_of,
}
use wire_mesh.Controller.Broker.{
  PathStates, PeerPathReport, is_settled, peers_at, settled_dir, settled_in, store_path,
  store_paths, store_report, peer_ids, affected, insert_id, sorted_ids, keep_ids,
}

pub settled_in-sym : (states : PathStates) (a b : ℕ) → settled_in states a b ≡ settled_in states b a
unfolding settled_in
settled_in-sym states a b = ground arith

-- Only the reporter's entry changes.
pub settled_dir-other :
    (reporter : ℕ) (paths : List PeerPathReport) (snapshot : Bool) (states : PathStates)
    (q peer : ℕ)
    → (reporter == q) ≡ false
    → settled_dir (store_report reporter paths snapshot states) q peer ≡ settled_dir states q peer
unfolding settled_dir store_report
settled_dir-other reporter paths snapshot states q peer h =
    elim (Bool-cases (snapshot && is_empty paths)) [
      | inl gone ↦ rw (gone, find_at-drop_at_other reporter q states h) refl
      | inr kept ↦
          rw
            (
              kept,
              find_at-put_at_other reporter q
                  (store_paths (if snapshot then [] else peers_at (find_at reporter states)) paths)
                  states h,
            )
            refl
    ]

store_path-other :
    (entry : List (ℕ × String)) (pp : PeerPathReport) (peer : ℕ)
    → (pp.peer_gateway_id == peer) ≡ false
    → find_at peer (store_path entry pp) ≡ find_at peer entry
unfolding store_path
store_path-other entry pp peer h =
    let put = find_at-put_at_other pp.peer_gateway_id peer pp.state entry h in ground (arith, put)

store_paths-other :
    (entry : List (ℕ × String)) (paths : List PeerPathReport) (peer : ℕ)
    → any_of (λ n. n == peer) (peer_ids paths) ≡ false
    → find_at peer (store_paths entry paths) ≡ find_at peer entry
unfolding store_paths
store_paths-other entry [] peer h = refl
store_paths-other entry (pp ∷ pps) peer h =
    store_paths-other (store_path entry pp) pps peer (ground (arith, h))
    ∙ store_path-other entry pp peer (ground (arith, h))

In-peer_ids : (ns : List ℕ) (peer : ℕ) → any_of (λ n. n == peer) ns ≡ true → In peer ns
In-peer_ids ns peer h =
    let (n, m, e) = any_of-witness (λ n. n == peer) ns h in
    subst (λ x. In x ns) ((==_iff n peer).0 e) m

is_settled-some : (o : Option String) → is_settled o ≡ true → (s : String) × (o ≡ some s)
is_settled-some none h = cc
is_settled-some (some s) h = (s, refl)

-- A direction that a report unsettles is towards a peer that it can affect.
pub flipped-affected :
    (reporter : ℕ) (paths : List PeerPathReport) (snapshot : Bool) (states : PathStates) (peer : ℕ)
    → settled_dir states reporter peer ≡ true
    → settled_dir (store_report reporter paths snapshot states) reporter peer ≡ false
    → In peer (affected reporter paths snapshot states)
unfolding settled_dir affected store_report
flipped-affected reporter paths true states peer before after =
    let (s, found) = is_settled-some (find_at peer (peers_at (find_at reporter states))) before in
    In-append_right (peer_ids paths) (In-keys_of peer (peers_at (find_at reporter states)) found)
flipped-affected reporter paths false states peer before after =
    let entry = peers_at (find_at reporter states) in
    elim (Bool-cases (any_of (λ n. n == peer) (peer_ids paths))) [
      | inl listed ↦ In-peer_ids (peer_ids paths) peer listed
      | inr unlisted ↦
          let now = rw (find_at-put_at_self reporter (store_paths entry paths) states) at after in
          let same = store_paths-other entry paths peer unlisted in
          absurd (ground (arith, rw same at now, before))
    ]

In-insert_id_self : (n : ℕ) (ns : List ℕ) → In n (insert_id n ns)
unfolding insert_id
In-insert_id_self n [] = here refl
In-insert_id_self n (m ∷ ms) = elim (Bool-cases (n == m)) [
  | inl same ↦ rw same (here (sym ((==_iff n m).0 same)))
  | inr other ↦ elim (Bool-cases (ltb n m)) [
    | inl low ↦ rw (other, low) (here refl)
    | inr high ↦ rw (other, high) (there (In-insert_id_self n ms))
  ]
]

In-tail : (x y : ℕ) (xs ys : List ℕ) → (In x xs → In x ys) → In x (y ∷ xs) → In x (y ∷ ys)
In-tail x y xs ys f (here e) = here e
In-tail x y xs ys f (there m) = there (f m)

In-insert_id_old : (n x : ℕ) (ns : List ℕ) → In x ns → In x (insert_id n ns)
unfolding insert_id
In-insert_id_old n x [] m = elim m [ ]
In-insert_id_old n x (y ∷ ys) m = elim (Bool-cases (n == y)) [
  | inl same ↦ rw same m
  | inr other ↦ elim (Bool-cases (ltb n y)) [
    | inl low ↦ rw (other, low) (there m)
    | inr high ↦ rw (other, high) (In-tail x y ys (insert_id n ys) (In-insert_id_old n x ys) m)
  ]
]

pub In-sorted_ids : (x : ℕ) (ns : List ℕ) → In x ns → In x (sorted_ids ns)
unfolding sorted_ids
In-sorted_ids x [] m = elim m [ ]
In-sorted_ids x (n ∷ ns) (here e) =
    subst (λ y. In y (insert_id n (sorted_ids ns))) e (In-insert_id_self n (sorted_ids ns))
In-sorted_ids x (n ∷ ns) (there m) = In-insert_id_old n x (sorted_ids ns) (In-sorted_ids x ns m)

pub In-keep_ids : (p : ℕ → Bool) (x : ℕ) (ns : List ℕ) → In x ns → p x ≡ true → In x (keep_ids p ns)
unfolding keep_ids
In-keep_ids p x [] m h = elim m [ ]
In-keep_ids p x (n ∷ ns) (here e) h = let hit : p n ≡ true = ap p e ∙ h in rw hit (here e)
In-keep_ids p x (n ∷ ns) (there m) h = elim (Bool-cases (p n)) [
  | inl yes' ↦ rw yes' (there (In-keep_ids p x ns m h))
  | inr no' ↦ rw no' (In-keep_ids p x ns m h)
]

In-holds :
    (p : ℕ → Bool) (x n : ℕ) (ns : List ℕ)
    → p n ≡ true
    → (In x ns → p x ≡ true)
    → In x (n ∷ ns)
    → p x ≡ true
In-holds p x n ns h f (here e) = ap p (sym e) ∙ h
In-holds p x n ns h f (there m) = f m

pub keep_ids-In : (p : ℕ → Bool) (x : ℕ) (ns : List ℕ) → In x (keep_ids p ns) → p x ≡ true
unfolding keep_ids
keep_ids-In p x [] m = elim m [ ]
keep_ids-In p x (n ∷ ns) m = elim (Bool-cases (p n)) [
  | inl yes' ↦ In-holds p x n (keep_ids p ns) yes' (keep_ids-In p x ns) (rw yes' at m)
  | inr no' ↦ keep_ids-In p x ns (rw no' at m)
]
