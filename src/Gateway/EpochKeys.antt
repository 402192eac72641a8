-- ===== src/Gateway/EpochKeys.antt =====
-- crates/wiremesh-gateway/src/epochkeys.rs: the gateway's own keys. An operation that fails leaves the
-- store as it was; the 32 random bytes of a mint are an argument, and so is x25519.
pub mod Sound
pub mod Boot
pub mod Lifecycle
use wire_mesh.Common.{
  str_eq, eq_iff, ℕ, zero, suc, ◌+◌, ◌-◌, ◌*◌, ◌/◌, ◌%◌, ◌^◌, ◌≤◌, ◌<◌, min, max, String, ◌≡◌, refl,
  sym, ap, ◌∙◌, subst, ◌≢◌, ◌↔◌, ◌⊎◌, inl, inr, Bool, true, false, not, ◌&&◌, ◌||◌, Option, none,
  some, List, [], ◌∷◌, ◌++◌, map, arith, ltb, leb, ◌==◌, if◌then◌else◌, is_some, leb→le, ==_iff,
  Bool-cases, Option-cases, length, is_empty, get_elem?, any_of, all_of, sum_of, In, here, there,
}
use wire_mesh.Common.Result.{Result, ok, err, guard, ◌>>=◌, ◌>>◌}
use wire_mesh.Gateway.Base64.{base64_encode, base64_pub_from_priv}

-- the keys are texts, as bytes
pub record EpochKey : Type 0 where
  pub epoch : ℕ
  pub private_key_b64 : List ℕ
  pub pubkey_b64 : List ℕ
  pub state : String

pub data KeyError : Type 0 where
  bad_key : KeyError
  occupied : String → KeyError
  not_pending not_retiring : ℕ → KeyError

-- the `epochs` of the store
abbrev pub EpochStore : Type 0
EpochStore = List EpochKey

unfoldable pub is_state : String → EpochKey → Bool
is_state s k = str_eq k.state s

unfoldable pub is_epoch : ℕ → EpochKey → Bool
is_epoch e k = k.epoch == e

abbrev pub find_key : (EpochKey → Bool) → EpochStore → Option EpochKey
find_key p [] = none
find_key p (k ∷ ks) = if p k then some k else find_key p ks

unfoldable pub active : EpochStore → Option EpochKey
unfolding is_state
active ks = find_key (is_state "active") ks

unfoldable pub by_epoch : ℕ → EpochStore → Option EpochKey
unfolding is_epoch
by_epoch e ks = find_key (is_epoch e) ks

-- `any(|k| k.epoch == epoch && k.state == s)`
unfoldable pub any_at : ℕ → String → EpochStore → Bool
unfolding is_epoch is_state
any_at e s ks = any_of (λ k. is_epoch e k && is_state s k) ks

-- `retain(|k| k.epoch != epoch)`
unfoldable pub drop_epoch : ℕ → EpochStore → EpochStore
unfolding is_epoch
drop_epoch e [] = []
drop_epoch e (k ∷ ks) = let rest = drop_epoch e ks in if is_epoch e k then rest else k ∷ rest

unfoldable pub demote : EpochStore → EpochStore
unfolding is_state
demote [] = []
demote (k ∷ ks) = (if is_state "active" k then record k { state = "retiring" } else k) ∷ demote ks

-- the first entry at the epoch becomes active
unfoldable pub activate : ℕ → EpochStore → EpochStore
unfolding is_epoch
activate e [] = []
activate e (k ∷ ks) =
    let rest = activate e ks in
    if is_epoch e k then record k { state = "active" } ∷ ks else k ∷ rest

abbrev pub check_occupant : Option EpochKey → Result KeyError (Unit {0})
check_occupant none = ok tt
check_occupant (some k) = guard (str_eq k.state "pending") (occupied k.state)

abbrev pub derived : Option (List ℕ) → Result KeyError (List ℕ)
derived none = err bad_key
derived (some pubkey) = ok pubkey

unfoldable pub minted : ℕ → List ℕ → List ℕ → EpochKey
minted e priv pubkey = record {
  epoch = e;
  private_key_b64 = priv;
  pubkey_b64 = pubkey;
  state = "pending";
}

unfoldable pub promote : ℕ → EpochStore → Result KeyError EpochStore
unfolding any_at demote activate
promote e ks = do guard (any_at e "pending" ks) (not_pending e); ok (activate e (demote ks))

unfoldable pub retire : ℕ → EpochStore → Result KeyError EpochStore
unfolding any_at drop_epoch
retire e ks = do guard (any_at e "retiring" ks) (not_retiring e); ok (drop_epoch e ks)

unfoldable pub discard_pending : ℕ → EpochStore → Result KeyError EpochStore
unfolding any_at drop_epoch
discard_pending e ks = do guard (any_at e "pending" ks) (not_pending e); ok (drop_epoch e ks)

module _ (x25519 : List ℕ → List ℕ) where
  unfoldable pub generate_next_at : ℕ → List ℕ → EpochStore → Result KeyError EpochStore
  unfolding by_epoch base64_encode base64_pub_from_priv drop_epoch minted
  generate_next_at e raw ks = do
    check_occupant (by_epoch e ks)
    pubkey ← derived (base64_pub_from_priv x25519 (base64_encode raw))
    ok (drop_epoch e ks ++ minted e (base64_encode raw) pubkey ∷ [])

  -- epoch 0, active, from a key of its own
  abbrev pub legacy_key : List ℕ → List ℕ → EpochKey
  legacy_key priv pubkey = record {
    epoch = 0;
    private_key_b64 = priv;
    pubkey_b64 = pubkey;
    state = "active";
  }

  unfoldable pub from_legacy : List ℕ → Result KeyError EpochStore
  unfolding base64_pub_from_priv
  from_legacy priv = do
    pubkey ← derived (base64_pub_from_priv x25519 priv)
    ok (legacy_key priv pubkey ∷ [])

  abbrev pub boot_or_legacy : List ℕ → Option EpochKey → Result KeyError EpochKey
  boot_or_legacy priv (some k) = ok k
  boot_or_legacy priv none = do
    pubkey ← derived (base64_pub_from_priv x25519 priv)
    ok (legacy_key priv pubkey)

  unfoldable pub select_boot_key : Option EpochStore → List ℕ → Result KeyError EpochKey
  unfolding active base64_pub_from_priv
  select_boot_key none priv = boot_or_legacy priv none
  select_boot_key (some ks) priv = boot_or_legacy priv (active ks)

  -- what the driver asks of the store
  pub data KeyOp : Type 0 where
    op_mint : ℕ → List ℕ → KeyOp
    op_promote op_retire op_discard : ℕ → KeyOp

  unfoldable pub apply_op : KeyOp → EpochStore → Result KeyError EpochStore
  unfolding generate_next_at promote retire discard_pending
  apply_op (op_mint e raw) ks = generate_next_at e raw ks
  apply_op (op_promote e) ks = promote e ks
  apply_op (op_retire e) ks = retire e ks
  apply_op (op_discard e) ks = discard_pending e ks

  -- the store after an operation, which a failure leaves as it was
  abbrev pub kept_store : EpochStore → Result KeyError EpochStore → EpochStore
  kept_store ks (ok ms) = ms
  kept_store ks (err e) = ks

  unfoldable pub run_ops : List KeyOp → EpochStore → EpochStore
  unfolding apply_op
  run_ops [] ks = ks
  run_ops (o ∷ os) ks = run_ops os (kept_store ks (apply_op o ks))
