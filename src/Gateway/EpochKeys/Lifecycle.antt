-- ===== src/Gateway/EpochKeys/Lifecycle.antt =====
-- The keys over every run of operations from a legacy key.
use wire_mesh.Common.{
  ℕ, ◌≤◌, ◌≡◌, refl, ◌∙◌, subst, ◌⊎◌, inl, inr, some, List, [], ◌∷◌, arith, Bool-cases,
}
use wire_mesh.Common.Result.{ok, >>=-eq-ok, ok-injective}
use wire_mesh.Gateway.EpochKeys.{
  op_discard, is_epoch, op_retire, base64_pub_from_priv, apply_op, by_epoch, op_mint, op_promote,
  kept_store, derived, is_state, from_legacy, select_boot_key, KeyOp, active, run_ops, EpochKey,
  EpochStore,
}
use wire_mesh.Gateway.EpochKeys.Sound.{IsSound, count_active, count_epoch}
use wire_mesh.Gateway.EpochKeys.Boot.{op-IsSound, Keeps}

module _ (x25519 : List ℕ → List ℕ) where
  legacy-IsSound : (priv : List ℕ) {ks : EpochStore} → from_legacy x25519 priv ≡ ok ks → IsSound ks
  unfolding from_legacy
  legacy-IsSound priv {ks} h =
      let (pubkey, _, r) = >>=-eq-ok (derived (base64_pub_from_priv x25519 priv)) _ h in
      subst IsSound (ok-injective r) (record {
        distinct = λ e. unfold count_epoch is_epoch in ground arith;
        one_active = unfold count_active is_state in refl;
      })

  run_ops-IsSound :
      (os : List (KeyOp x25519)) (ks : EpochStore) → IsSound ks → IsSound (run_ops x25519 os ks)
  unfolding run_ops
  run_ops-IsSound [] ks h = h
  run_ops-IsSound (o ∷ os) ks h =
      run_ops-IsSound os (kept_store x25519 ks (apply_op x25519 o ks))
        (op-IsSound x25519 o ks (apply_op x25519 o ks) h refl).0

  -- Over every run of mints, promotions, retirements and discards on the store of a legacy key, those
  -- that fail among them, the store has one active key and at most one key for each epoch.
  pub run-IsSound :
      (priv : List ℕ) (os : List (KeyOp x25519)) {ks : EpochStore}
      → from_legacy x25519 priv ≡ ok ks
      → IsSound (run_ops x25519 os ks)
  run-IsSound priv os {ks} h = run_ops-IsSound os ks (legacy-IsSound priv h)

  active-some : (ks : EpochStore) → 1 ≤ count_active ks → (k : EpochKey) × (active ks ≡ some k)
  unfolding active count_active
  active-some [] h = absurd (omega (arith, h))
  active-some (k ∷ ks) h = elim (Bool-cases (is_state "active" k)) [
    | inl yes' ↦ (k, rw yes' refl)
    | inr no' ↦ let (j, e) = active-some ks (ground (arith, h, no')) in (j, rw no' e)
  ]

  select-active :
      (ks : EpochStore) (priv : List ℕ) {k : EpochKey}
      → active ks ≡ some k
      → select_boot_key x25519 (some ks) priv ≡ ok k
  unfolding select_boot_key
  select-active ks priv h = rw h refl

  -- the key that a boot selects before and after an operation
  abbrev pub Selects : KeyOp x25519 → EpochStore → EpochStore → List ℕ → Type 0
  Selects o ks ms priv =
      (k : EpochKey) × (select_boot_key x25519 (some ms) priv ≡ ok k)
      × ((select_boot_key x25519 (some ks) priv ≡ ok k)
          ⊎ ((e : ℕ) × (o ≡ op_promote e)
              × (j : EpochKey) × (by_epoch e ks ≡ some j)
              × (k ≡ record j { state = "active" })))

  same-Selects :
      (o : KeyOp x25519) (ks ms : EpochStore) (priv : List ℕ)
      → IsSound ks
      → active ms ≡ active ks
      → Selects o ks ms priv
  same-Selects o ks ms priv h e =
      let (k, f) = active-some ks (omega (arith, h.one_active)) in
      (k, select-active ms priv (e ∙ f), inl (select-active ks priv f))

  Keeps-Selects :
      (o : KeyOp x25519) (ks ms : EpochStore) (priv : List ℕ)
      → IsSound ks
      → Keeps x25519 o ks ms
      → Selects o ks ms priv
  Keeps-Selects (op_promote e) ks ms priv h (inl same) =
      same-Selects (op_promote e) ks ms priv h same
  Keeps-Selects (op_promote e) ks ms priv h (inr (k, f, a)) =
      (record k { state = "active" }, select-active ms priv a, inr (e, refl, k, f, refl))
  Keeps-Selects (op_mint e raw) ks ms priv h same = same-Selects (op_mint e raw) ks ms priv h same
  Keeps-Selects (op_retire e) ks ms priv h same = same-Selects (op_retire e) ks ms priv h same
  Keeps-Selects (op_discard e) ks ms priv h same = same-Selects (op_discard e) ks ms priv h same

  -- After every run on the store of a legacy key and one more operation, a boot selects the key that
  -- it would have selected before the operation, or, where the operation is a promotion, the key at
  -- the promoted epoch, now active.
  pub select_boot_key-run :
      (first priv : List ℕ) (os : List (KeyOp x25519)) (o : KeyOp x25519) {ks : EpochStore}
      → from_legacy x25519 first ≡ ok ks
      → Selects o
          (run_ops x25519 os ks)
          (kept_store x25519 (run_ops x25519 os ks) (apply_op x25519 o (run_ops x25519 os ks)))
          priv
  select_boot_key-run first priv os o {ks} h =
      let ms = run_ops x25519 os ks in
      let s = run-IsSound first os h in
      Keeps-Selects o ms (kept_store x25519 ms (apply_op x25519 o ms)) priv s
        (op-IsSound x25519 o ms (apply_op x25519 o ms) s refl).1
