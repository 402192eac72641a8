-- ===== src/Gateway/Reconcile/Routes.antt =====
-- The routes after a reconciliation are those that the peers advertise.
use wire_mesh.Common.{
  str_eq, eq_iff, String, ◌≡◌, refl, ap, inl, inr, Bool, not, ◌&&◌, ◌||◌, List, [], ◌∷◌, arith,
  Bool-cases, any_of,
}
use Prim.Native.String.{compare}
use Prim.Native.Nat.{Ordering}
use text.Mathlib.TextEquality.{path_by_compare}
use wire_mesh.Gateway.Desired.{PeerState, DesiredState}
use wire_mesh.Gateway.Reconcile.{
  insert_cidr, insert_cidrs, all_cidrs, has_cidr, difference, route_diff,
}

has_cidr-difference :
    (s : String) (xs ys : List String)
    → has_cidr s (difference xs ys) ≡ (has_cidr s xs && not (has_cidr s ys))
unfolding difference has_cidr
has_cidr-difference s [] ys = refl
has_cidr-difference s (x ∷ xs) ys =
    let rest = has_cidr-difference s xs ys in
    elim (Bool-cases (str_eq x s)) [
      | inl same ↦
          let at_s : has_cidr x ys ≡ has_cidr s ys =
            ap (λ (z : String). has_cidr z ys) ((eq_iff x s).0 same) in
          ground (arith, rest, at_s, same)
      | inr other ↦ ground (arith, rest, other)
    ]

-- what a peer advertises
abbrev pub is_advertised : String → List PeerState → Bool
is_advertised s ps = any_of (λ (p : PeerState). has_cidr s p.allowed_ips) ps

cidr_by_order :
    (s x t : String) (ts : List String) (o : Ordering)
    → compare x t ≡ o
    → has_cidr s (insert_cidr x ts) ≡ (str_eq x s || has_cidr s ts)
    → has_cidr s (elim o [
      | Ordering.lt ↦ x ∷ t ∷ ts
      | Ordering.eq ↦ t ∷ ts
      | Ordering.gt ↦ t ∷ insert_cidr x ts
    ])
      ≡ (str_eq x s || has_cidr s (t ∷ ts))
unfolding has_cidr
cidr_by_order s x t ts Ordering.lt e rest = refl
cidr_by_order s x t ts Ordering.eq e rest =
    let same : str_eq x s ≡ str_eq t s = ap (λ (z : String). str_eq z s) (path_by_compare x t e) in
    ground (arith, same)
cidr_by_order s x t ts Ordering.gt e rest = ground (arith, rest)

has_cidr-insert_cidr :
    (s x : String) (set : List String)
    → has_cidr s (insert_cidr x set) ≡ (str_eq x s || has_cidr s set)
unfolding insert_cidr
has_cidr-insert_cidr s x [] = unfold has_cidr in refl
has_cidr-insert_cidr s x (t ∷ ts) =
    cidr_by_order s x t ts (compare x t) refl (has_cidr-insert_cidr s x ts)

has_cidr-insert_cidrs :
    (s : String) (xs set : List String)
    → has_cidr s (insert_cidrs xs set) ≡ (has_cidr s xs || has_cidr s set)
unfolding insert_cidrs
has_cidr-insert_cidrs s [] set = unfold has_cidr in refl
has_cidr-insert_cidrs s (x ∷ xs) set =
    let rest = has_cidr-insert_cidrs s xs set in
    let one = has_cidr-insert_cidr s x (insert_cidrs xs set) in
    let first : has_cidr s (x ∷ xs) ≡ (str_eq x s || has_cidr s xs) = unfold has_cidr in refl in
    ground (arith, rest, one, first)

has_cidr-all_cidrs :
    (s : String) (ps : List PeerState) → has_cidr s (all_cidrs ps) ≡ is_advertised s ps
unfolding all_cidrs
has_cidr-all_cidrs s [] = unfold has_cidr in refl
has_cidr-all_cidrs s (p ∷ ps) =
    let rest = has_cidr-all_cidrs s ps in
    let one = has_cidr-insert_cidrs s p.allowed_ips (all_cidrs ps) in ground (arith, rest, one)

-- A route is deleted exactly where a peer of the old state has it and none of the new one, and added
-- exactly where it is the other way round, so the old routes become the new ones.
pub route_diff-advertised :
    (old new : DesiredState) (s : String)
    → (has_cidr s (route_diff old new).to_add
        ≡ (is_advertised s new.peers && not (is_advertised s old.peers)))
      × (has_cidr s (route_diff old new).to_del
          ≡ (is_advertised s old.peers && not (is_advertised s new.peers)))
      × ((is_advertised s old.peers && not (has_cidr s (route_diff old new).to_del)
            || has_cidr s (route_diff old new).to_add)
          ≡ is_advertised s new.peers)
unfolding route_diff
route_diff-advertised old new s =
    let o = has_cidr-all_cidrs s old.peers in
    let n = has_cidr-all_cidrs s new.peers in
    let add = has_cidr-difference s (all_cidrs new.peers) (all_cidrs old.peers) in
    let del = has_cidr-difference s (all_cidrs old.peers) (all_cidrs new.peers) in
    (ground (arith, o, n, add), ground (arith, o, n, del), ground (arith, o, n, add, del))
