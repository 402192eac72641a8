-- ===== src/Enforcer/Flatten/Observe.antt =====
-- What `DistinctSideCidrs` holds after CIDRs were observed.
use wire_mesh.Common.{
  ◌≡◌, ◌↔◌, refl, sym, subst, ◌∙◌, Bool, true, List, [], ◌∷◌, arith, any_of, In, here, there,
  Bool-cases, inl, inr, any_of-append, any_of-witness, In-append_left, In-append_right,
}
use wire_mesh.Enforcer.Flatten.Distinct.{DistinctSideCidrs, default, member, observe_one, observe}

module _ {Net : Type 0} (eq : Net → Net → Bool)
    (eq_iff : (a b : Net) → (eq a b ≡ true) ↔ (a ≡ b)) where
  -- the set and the vector have the same members
  abbrev pub Synced : DistinctSideCidrs Net → Type 0
  Synced d = (c : Net) → member eq c d.seen ≡ member eq c d.order

  Synced-observe_one :
      (d : DistinctSideCidrs Net) (c : Net) → Synced d → Synced (observe_one eq d c)
  unfolding observe_one
  Synced-observe_one d c h e = ground (arith, h e, any_of-append (eq e) d.order (c ∷ []), h c)

  pub Synced-observe :
      (d : DistinctSideCidrs Net) (cs : List Net) → Synced d → Synced (observe eq d cs)
  unfolding observe
  Synced-observe d [] h = h
  Synced-observe d (c ∷ cs) h = Synced-observe (observe_one eq d c) cs (Synced-observe_one d c h)

  pub Synced-default : Synced default
  unfolding member
  Synced-default c = refl

  In-of_member : (c : Net) (cs : List Net) → member eq c cs ≡ true → In c cs
  unfolding member
  In-of_member c cs h =
      let (a, m, e) = any_of-witness (eq c) cs h in
      let same : a ≡ c = sym ((eq_iff c a).0 e) in rw same at m

  In-observe_one_old :
      (d : DistinctSideCidrs Net) (c e : Net) → In e d.order → In e (observe_one eq d c).order
  unfolding observe_one
  In-observe_one_old d c e m = elim (Bool-cases (any_of (eq c) d.seen)) [
    | inl old ↦ rw old m
    | inr new ↦ rw new (In-append_left (c ∷ []) m)
  ]

  In-observe_one :
      (d : DistinctSideCidrs Net) (c : Net) → Synced d → In c (observe_one eq d c).order
  unfolding observe_one member
  In-observe_one d c h = elim (Bool-cases (any_of (eq c) d.seen)) [
    | inl old ↦ rw old (In-of_member c d.order (sym (h c) ∙ old))
    | inr new ↦ rw new (In-append_right d.order (here refl))
  ]

  pub In-observe_old :
      (d : DistinctSideCidrs Net) (cs : List Net) {e : Net}
      → In e d.order
      → In e (observe eq d cs).order
  unfolding observe
  In-observe_old d [] m = m
  In-observe_old d (c ∷ cs) {e} m =
      In-observe_old (observe_one eq d c) cs (In-observe_one_old d c e m)

  -- Every CIDR that was observed is in the vector.
  pub In-observe :
      (d : DistinctSideCidrs Net) (cs : List Net) {e : Net}
      → Synced d
      → In e cs
      → In e (observe eq d cs).order
  unfolding observe
  In-observe d [] h m = elim m [ ]
  In-observe d (c ∷ cs) {e} h (here p) =
      subst (λ x. In x (observe eq d (c ∷ cs)).order) p
        (In-observe_old (observe_one eq d c) cs (In-observe_one d c h))
  In-observe d (c ∷ cs) h (there m) =
      In-observe (observe_one eq d c) cs (Synced-observe_one d c h) m
