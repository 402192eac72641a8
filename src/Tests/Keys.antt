-- ===== src/Tests/Keys.antt =====
-- The gateway's keys through a rotation.
use wire_mesh.Gateway.Base64.RoundTrip.{base64_decode-base64_encode}
use wire_mesh.Gateway.Base64.{digit_of}
use wire_mesh.Policy.Numbers.{codes}
use wire_mesh.Gateway.EpochKeys.{
  op_discard, apply_op, kept_store, EpochKey, op_mint, from_legacy, run_ops, op_promote, KeyOp,
  EpochStore,
}
use wire_mesh.Gateway.Base64.{base64_encode, base64_decode}
use wire_mesh.Common.{ℕ, zero, suc, String, ◌≡◌, refl, some, List, [], ◌∷◌, ◌++◌, map, arith}
use wire_mesh.Common.Result.{ok}
use wire_mesh.Gateway.EpochKeys.Sound.{IsSound}
use wire_mesh.Gateway.EpochKeys.Lifecycle.{select_boot_key-run, run-IsSound, Selects}

abbrev repeat : ℕ → ℕ → List ℕ
repeat zero b = []
repeat (suc n) b = b ∷ repeat n b

-- any function on 32 bytes
abbrev fake_x25519 : List ℕ → List ℕ
fake_x25519 raw = repeat 32 9

abbrev identity_key : List ℕ
identity_key = repeat 43 b'A' ++ b'=' ∷ []

abbrev first_store : EpochStore
first_store =
    record {
      epoch = 0;
      private_key_b64 = identity_key;
      pubkey_b64 = codes "CQkJCQkJCQkJCQkJCQkJCQkJCQkJCQkJCQkJCQkJCQk=";
      state = "active";
    }
    ∷ []

first_store-made : from_legacy fake_x25519 identity_key ≡ ok first_store
unfolding from_legacy digit_of
first_store-made = refl

-- a rotation, with a mint that the active key refuses and a discard that finds nothing
abbrev rotation_ops : List (KeyOp fake_x25519)
rotation_ops = op_mint 1 (repeat 32 7) ∷ op_mint 0 (repeat 32 8) ∷ op_discard 5 ∷ []

promoted_states :
    map {B = ℕ × String}
      (λ (k : EpochKey). (k.epoch, k.state))
      (run_ops fake_x25519 (op_mint 1 (repeat 32 7) ∷ op_promote 1 ∷ []) first_store)
    ≡ (0, "retiring") ∷ (1, "active") ∷ []
unfolding run_ops digit_of
promoted_states = refl

run-IsSound_example : IsSound (run_ops fake_x25519 rotation_ops first_store)
run-IsSound_example = run-IsSound fake_x25519 identity_key rotation_ops first_store-made

select_boot_key-run_example :
    Selects fake_x25519
      (op_promote 1)
      (run_ops fake_x25519 rotation_ops first_store)
      (kept_store fake_x25519
        (run_ops fake_x25519 rotation_ops first_store)
        (apply_op fake_x25519 (op_promote 1) (run_ops fake_x25519 rotation_ops first_store)))
      (codes "other")
select_boot_key-run_example =
    select_boot_key-run fake_x25519 identity_key (codes "other") rotation_ops (op_promote 1)
      first_store-made

key_bytes :
    base64_decode (base64_encode (1 ∷ 2 ∷ 250 ∷ 4 ∷ 255 ∷ [])) ≡ some (1 ∷ 2 ∷ 250 ∷ 4 ∷ 255 ∷ [])
unfolding base64_decode base64_encode digit_of
key_bytes = refl

base64_decode-base64_encode_example :
    base64_decode (base64_encode (1 ∷ 2 ∷ 250 ∷ 4 ∷ [])) ≡ some (1 ∷ 2 ∷ 250 ∷ 4 ∷ [])
base64_decode-base64_encode_example =
    base64_decode-base64_encode (1 ∷ 2 ∷ 250 ∷ 4 ∷ [])
      (omega arith, (omega arith, (omega arith, (omega arith, tt))))
