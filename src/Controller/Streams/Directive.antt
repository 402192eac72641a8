-- ===== src/Controller/Streams/Directive.antt =====
-- Which key row a gateway is told to rotate.
use wire_mesh.Common.{
  ℕ, ◌≤◌, ◌≡◌, refl, ap, subst, inl, inr, true, Option, none, some, List, [], ◌∷◌, arith, ltb,
  Bool-cases, Option-cases, In, here, there,
}
use wire_mesh.Controller.Streams.{KeyRow, newest, is_sentinel, directed_epoch}

newest-max :
    (ks : List KeyRow) {m : KeyRow}
    → newest ks ≡ some m
    → In m ks × ((k : KeyRow) → In k ks → k.epoch ≤ m.epoch)
unfolding newest
newest-max [] h = cc
newest-max (k ∷ ks) {m} h = elim (Option-cases (newest ks)) [
  | inl none' ↦
      let same : ◌≡◌ {A = Option KeyRow} (some k) (some m) = rw none' at h in
      let eq : k ≡ m = cc in (here eq, λ j n. only ks none' j k m eq n)
  | inr (l, e) ↦
      let (n, bound) = newest-max ks e in
      elim (Bool-cases (ltb l.epoch k.epoch)) [
        | inl newer ↦
            let same : ◌≡◌ {A = Option KeyRow} (some k) (some m) = rw (e, newer) at h in
            let eq : k ≡ m = cc in
            (
              here eq,
              λ j i. above_all j k m ks eq (λ o. let b = bound j o in ground (arith, b, newer)) i,
            )
        | inr older ↦
            let same : ◌≡◌ {A = Option KeyRow} (some l) (some m) = rw (e, older) at h in
            let eq : l ≡ m = cc in
            let at_l = ap (λ (x : KeyRow). x.epoch) eq in
            (
              there (subst (λ (x : KeyRow). In x ks) eq n),
              λ j i.
                  tail_or j k ks m (ground (arith, older, at_l))
                    (λ o. omega (arith, bound j o, at_l)) i,
            )
      ]
]
  where
    none-empty : (xs : List KeyRow) → newest xs ≡ none → xs ≡ []
    none-empty [] e = refl
    none-empty (x ∷ xs) e = elim (Option-cases (newest xs)) [
      | inl n ↦ absurd (ground (arith, rw n at e))
      | inr (y, f) ↦ absurd (ground (arith, rw f at e))
    ]

    tail_or :
        (j x : KeyRow) (xs : List KeyRow) (b : KeyRow)
        → x.epoch ≤ b.epoch
        → (In j xs → j.epoch ≤ b.epoch)
        → In j (x ∷ xs)
        → j.epoch ≤ b.epoch
    tail_or j x xs b h f (here e) = omega (arith, h, ap (λ (y : KeyRow). y.epoch) e)
    tail_or j x xs b h f (there n) = f n

    above_all :
        (j x b : KeyRow) (xs : List KeyRow)
        → x ≡ b
        → (In j xs → j.epoch ≤ x.epoch)
        → In j (x ∷ xs)
        → j.epoch ≤ b.epoch
    above_all j x b xs e f n =
        let at_x = ap (λ (y : KeyRow). y.epoch) e in
        tail_or j x xs b (omega (arith, at_x)) (λ o. omega (arith, at_x, f o)) n

    only :
        (xs : List KeyRow)
        → newest xs ≡ none
        → (j x b : KeyRow) → x ≡ b
        → In j (x ∷ xs)
        → j.epoch ≤ b.epoch
    only xs e j x b eq n =
        above_all j x b xs eq
          (λ o. absurd (elim (subst (λ (ys : List KeyRow). In j ys) (none-empty xs e) o) [ ])) n

-- The epoch that a gateway is told to rotate to is that of a row that awaits its key, and no row has a
-- later one.
pub directed_epoch-newest :
    (keys : List KeyRow) {e : ℕ}
    → directed_epoch keys ≡ some e
    → (m : KeyRow) × In m keys
      × (m.epoch ≡ e)
      × (is_sentinel m ≡ true)
      × ((k : KeyRow) → In k keys → k.epoch ≤ e)
unfolding directed_epoch
directed_epoch-newest keys {e} h = elim (Option-cases (newest keys)) [
  | inl none' ↦ absurd (ground (arith, rw none' at h))
  | inr (m, found) ↦ elim (Bool-cases (is_sentinel m)) [
    | inr real ↦ absurd (ground (arith, rw (found, real) at h))
    | inl waits ↦
        let same : m.epoch ≡ e = ground (arith, rw (found, waits) at h) in
        let (i, bound) = newest-max keys found in
        (m, i, same, waits, λ k n. omega (arith, bound k n, same))
  ]
]
