-- ===== src/Gateway/EpochKeys/Boot.antt =====
-- Every operation on the gateway's keys keeps the store sound, and only a promotion changes the key
-- that a boot selects.
use wire_mesh.Common.{
  str_eq, ℕ, ◌≤◌, String, ◌≡◌, refl, sym, ap, ◌∙◌, subst, ◌⊎◌, inl, inr, Bool, true, false, Option,
  some, List, [], ◌∷◌, ◌++◌, arith, ◌==◌, ==_iff, Bool-cases,
}
use wire_mesh.Common.Result.{Result, ok, err, guard, >>=-eq-ok, ok-injective}
use wire_mesh.Gateway.EpochKeys.{
  not_retiring, not_pending, base64_encode, op_discard, base64_pub_from_priv, op_retire, derived,
  kept_store, demote, minted, op_mint, op_promote, activate, occupied, KeyError, drop_epoch, KeyOp,
  check_occupant, active, apply_op, any_at, by_epoch, EpochKey, EpochStore, is_state, is_epoch,
}
use wire_mesh.Gateway.EpochKeys.Sound.{
  any_at-count, count_epoch-dropped, count_active-demote, activated, count_active-append,
  count_epoch-drop_epoch, count_epoch-demote, tally, drop_epoch-none, count_epoch-append,
  find_key-drop_epoch, count_epoch-activate, count_active, count_epoch, IsSound,
}

guard-ok : {E : Type 0} (b : Bool) (e : E) {u : Unit {0}} → guard b e ≡ ok u → b ≡ true
guard-ok true e h = refl
guard-ok false e h = cc

-- A removal of the epoch's only key, which is not active.
removed :
    (e : ℕ) (s : String) (ks : EpochStore)
    → str_eq s "active" ≡ false
    → IsSound ks
    → any_at e s ks ≡ true
    → IsSound (drop_epoch e ks) × (active (drop_epoch e ks) ≡ active ks)
removed e s ks ne h at_s =
    let (ea, ec) = find_key-drop_epoch e s ks ne (h.distinct e) at_s in
    (
      record {
        distinct = λ d. omega (arith, count_epoch-drop_epoch e d ks, h.distinct d);
        one_active = ec ∙ h.one_active;
      },
      ea,
    )

-- What a mint found at its epoch: nothing, or one key that is pending.
pub occupant :
    (e : ℕ) (ks : EpochStore) {u : Unit {0}}
    → check_occupant (by_epoch e ks) ≡ ok u
    → (count_epoch e ks ≡ 0) ⊎ (any_at e "pending" ks ≡ true)
unfolding by_epoch count_epoch any_at
occupant e [] h = inl refl
occupant e (k ∷ ks) h = elim (Bool-cases (is_epoch e k)) [
  | inl here' ↦
      let pending = guard-ok (str_eq k.state "pending") (occupied k.state) (rw here' at h) in
      inr (unfold is_state in rw (here', pending) refl)
  | inr other ↦ elim (occupant e ks (rw other at h)) [
    | inl none' ↦ inl (rw other (omega (arith, none')))
    | inr some' ↦ inr (rw (other, some') refl)
  ]
]

mint_room :
    (e : ℕ) (ks : EpochStore) {u : Unit {0}}
    → IsSound ks
    → check_occupant (by_epoch e ks) ≡ ok u
    → IsSound (drop_epoch e ks) × (active (drop_epoch e ks) ≡ active ks)
mint_room e ks h c = elim (occupant e ks c) [
  | inl none' ↦
      let same = drop_epoch-none e ks none' in (subst IsSound (sym same) h, ap active same)
  | inr pending ↦ removed e "pending" ks refl h pending
]

minted-counts :
    (e d : ℕ) (priv pubkey : List ℕ)
    → (count_epoch d (minted e priv pubkey ∷ []) ≡ tally (e == d))
      × (count_active (minted e priv pubkey ∷ []) ≡ 0)
unfolding count_epoch count_active minted is_epoch is_state
minted-counts e d priv pubkey = (omega arith, refl)

active-append : (xs ys : EpochStore) → 1 ≤ count_active xs → active (xs ++ ys) ≡ active xs
unfolding active count_active
active-append [] ys h = absurd (omega (arith, h))
active-append (k ∷ xs) ys h = elim (Bool-cases (is_state "active" k)) [
  | inl yes' ↦ rw yes' refl
  | inr no' ↦ rw no' (active-append xs ys (ground (arith, h, no')))
]

pushed :
    (e : ℕ) (priv pubkey : List ℕ) (ks : EpochStore)
    → IsSound ks
    → count_epoch e ks ≡ 0
    → IsSound (ks ++ minted e priv pubkey ∷ [])
      × (active (ks ++ minted e priv pubkey ∷ []) ≡ active ks)
pushed e priv pubkey ks h none' = (
  record {
    distinct = λ d.
        let c = minted-counts e d priv pubkey in
        let all = count_epoch-append d ks (minted e priv pubkey ∷ []) in
        let few = h.distinct d in
        elim (Bool-cases (e == d)) [
          | inl same ↦
              let at_e : count_epoch d ks ≡ 0 =
                subst (λ (x : ℕ). count_epoch x ks ≡ 0) ((==_iff e d).0 same) none' in
              ground (arith, all, c.0, same, at_e)
          | inr other ↦ ground (arith, all, c.0, other, few)
        ];
    one_active =
        let c = minted-counts e e priv pubkey in
        omega (arith, count_active-append ks (minted e priv pubkey ∷ []), c.1, h.one_active);
  },
  active-append ks (minted e priv pubkey ∷ []) (omega (arith, h.one_active)),
)

by_epoch-demote :
    (e : ℕ) (ks : EpochStore) {j : EpochKey}
    → by_epoch e (demote ks) ≡ some j
    → (k : EpochKey) × (by_epoch e ks ≡ some k)
      × (record j { state = "active" } ≡ record k { state = "active" })
unfolding by_epoch demote is_epoch
by_epoch-demote e [] h = cc
by_epoch-demote e (k ∷ ks) {j} h = elim (Bool-cases (k.epoch == e)) [
  | inl here' ↦ elim (Bool-cases (is_state "active" k)) [
    | inl was ↦
        let same : ◌≡◌ {A = Option EpochKey} (some (record k { state = "retiring" })) (some j) =
          rw (was, here') at h in
        (k, rw here' refl, sym (ap activated_key (some-eq same)))
    | inr idle ↦
        let same : ◌≡◌ {A = Option EpochKey} (some k) (some j) = rw (idle, here') at h in
        (k, rw here' refl, sym (ap activated_key (some-eq same)))
  ]
  | inr other ↦ elim (Bool-cases (is_state "active" k)) [
    | inl was ↦ let (l, f, a) = by_epoch-demote e ks (rw (was, other) at h) in (l, rw other f, a)
    | inr idle ↦ let (l, f, a) = by_epoch-demote e ks (rw (idle, other) at h) in (l, rw other f, a)
  ]
]
  where
    activated_key : EpochKey → EpochKey
    activated_key k = record k { state = "active" }

    some-eq : {a b : EpochKey} → ◌≡◌ {A = Option EpochKey} (some a) (some b) → a ≡ b
    some-eq e = cc

promoted :
    (e : ℕ) (ks : EpochStore)
    → IsSound ks
    → any_at e "pending" ks ≡ true
    → IsSound (activate e (demote ks))
      × (k : EpochKey) × (by_epoch e ks ≡ some k)
      × (active (activate e (demote ks)) ≡ some (record k { state = "active" }))
promoted e ks h pending =
    let same = λ (d : ℕ). count_epoch-activate e d (demote ks) ∙ count_epoch-demote d ks in
    let (c, j, f, a) =
      activated e (demote ks) (count_active-demote ks)
        (omega (arith, any_at-count e "pending" ks pending, count_epoch-demote e ks)) in
    let (k, g, s) = by_epoch-demote e ks f in
    (
      record { distinct = λ d. omega (arith, same d, h.distinct d); one_active = c },
      k,
      g,
      a ∙ ap some s,
    )

module _ (x25519 : List ℕ → List ℕ) where
  -- What an operation makes of the active key.
  abbrev pub Keeps : KeyOp x25519 → EpochStore → EpochStore → Type 0
  Keeps (op_promote e) ks ms =
      (active ms ≡ active ks)
      ⊎ ((k : EpochKey) × (by_epoch e ks ≡ some k)
          × (active ms ≡ some (record k { state = "active" })))
  Keeps (op_mint e raw) ks ms = active ms ≡ active ks
  Keeps (op_retire e) ks ms = active ms ≡ active ks
  Keeps (op_discard e) ks ms = active ms ≡ active ks

  failed : (o : KeyOp x25519) (ks : EpochStore) → Keeps o ks ks
  failed (op_promote e) ks = inl refl
  failed (op_mint e raw) ks = refl
  failed (op_retire e) ks = refl
  failed (op_discard e) ks = refl

  succeeded :
      (o : KeyOp x25519) (ks : EpochStore) {ms : EpochStore}
      → IsSound ks
      → apply_op x25519 o ks ≡ ok ms
      → IsSound ms × Keeps o ks ms
  unfolding apply_op
  succeeded (op_mint e raw) ks {ms} h r =
      let (u, c, r1) = >>=-eq-ok (check_occupant (by_epoch e ks)) _ r in
      let (pubkey, _, r2) =
        >>=-eq-ok (derived (base64_pub_from_priv x25519 (base64_encode raw))) _ r1 in
      let (s, a) = mint_room e ks h c in
      let (s', a') =
        pushed e (base64_encode raw) pubkey (drop_epoch e ks) s (count_epoch-dropped e ks) in
      subst (λ (m : EpochStore). IsSound m × (active m ≡ active ks)) (ok-injective r2) (s', a' ∙ a)
  succeeded (op_promote e) ks {ms} h r =
      let (u, g, r1) = >>=-eq-ok (guard (any_at e "pending" ks) (not_pending e)) _ r in
      let (s, k, f, a) = promoted e ks h (guard-ok (any_at e "pending" ks) (not_pending e) g) in
      subst (λ (m : EpochStore). IsSound m × Keeps (op_promote e) ks m) (ok-injective r1)
        (s, inr (k, f, a))
  succeeded (op_retire e) ks {ms} h r =
      let (u, g, r1) = >>=-eq-ok (guard (any_at e "retiring" ks) (not_retiring e)) _ r in
      subst (λ (m : EpochStore). IsSound m × (active m ≡ active ks)) (ok-injective r1)
        (removed e "retiring" ks refl h (guard-ok (any_at e "retiring" ks) (not_retiring e) g))
  succeeded (op_discard e) ks {ms} h r =
      let (u, g, r1) = >>=-eq-ok (guard (any_at e "pending" ks) (not_pending e)) _ r in
      subst (λ (m : EpochStore). IsSound m × (active m ≡ active ks)) (ok-injective r1)
        (removed e "pending" ks refl h (guard-ok (any_at e "pending" ks) (not_pending e) g))

  pub op-IsSound :
      (o : KeyOp x25519) (ks : EpochStore) (out : Result KeyError EpochStore)
      → IsSound ks
      → apply_op x25519 o ks ≡ out
      → IsSound (kept_store x25519 ks out) × Keeps o ks (kept_store x25519 ks out)
  op-IsSound o ks (ok ms) h r = succeeded o ks h r
  op-IsSound o ks (err e) h r = (h, failed o ks)
