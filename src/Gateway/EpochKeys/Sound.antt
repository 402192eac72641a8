-- ===== src/Gateway/EpochKeys/Sound.antt =====
-- The store always holds one active key, and at most one key for each epoch.
use wire_mesh.Common.{
  sum_of-append, str_eq, eq_iff, ℕ, ◌+◌, ◌≤◌, String, ◌≡◌, refl, inl, inr, Bool, true, false, some,
  [], ◌∷◌, ◌++◌, arith, Bool-cases, sum_of,
}
use wire_mesh.Gateway.EpochKeys.{
  by_epoch, activate, demote, active, any_at, drop_epoch, EpochKey, EpochStore, is_state, is_epoch,
}

abbrev pub tally : Bool → ℕ
tally true = 1
tally false = 0

unfoldable pub count_epoch : ℕ → EpochStore → ℕ
count_epoch e ks = sum_of (λ k. tally (is_epoch e k)) ks

unfoldable pub count_active : EpochStore → ℕ
count_active ks = sum_of (λ k. tally (is_state "active" k)) ks

pub record IsSound (ks : EpochStore) : Type 0 where
  pub distinct : (e : ℕ) → count_epoch e ks ≤ 1
  pub one_active : count_active ks ≡ 1

-- a state is not another
state-ne :
    (s : String) (k : EpochKey)
    → str_eq s "active" ≡ false
    → is_state s k ≡ true
    → is_state "active" k ≡ false
unfolding is_state
state-ne s k h e = let same : k.state ≡ s = (eq_iff k.state s).0 e in rw same h

pub drop_epoch-none : (e : ℕ) (ks : EpochStore) → count_epoch e ks ≡ 0 → drop_epoch e ks ≡ ks
unfolding count_epoch drop_epoch
drop_epoch-none e [] h = refl
drop_epoch-none e (k ∷ ks) h =
    let other : is_epoch e k ≡ false = ground (arith, h) in
    let rest = drop_epoch-none e ks (omega (arith, h)) in rw (other, rest) refl

pub any_at-count :
    (e : ℕ) (s : String) (ks : EpochStore) → any_at e s ks ≡ true → 1 ≤ count_epoch e ks
unfolding any_at count_epoch
any_at-count e s [] h = cc
any_at-count e s (k ∷ ks) h = elim (Bool-cases (is_epoch e k)) [
  | inl here' ↦ ground (arith, here')
  | inr other ↦
      let more = any_at-count e s ks (ground (arith, rw other at h)) in ground (arith, more)
]

-- Where the only key of the epoch is not active, its removal leaves the active keys.
pub find_key-drop_epoch :
    (e : ℕ) (s : String) (ks : EpochStore)
    → str_eq s "active" ≡ false
    → count_epoch e ks ≤ 1
    → any_at e s ks ≡ true
    → (active (drop_epoch e ks) ≡ active ks) × (count_active (drop_epoch e ks) ≡ count_active ks)
unfolding count_epoch count_active any_at active drop_epoch
find_key-drop_epoch e s [] ne few h = cc
find_key-drop_epoch e s (k ∷ ks) ne few h = elim (Bool-cases (is_epoch e k)) [
  | inl here' ↦ elim (Bool-cases (is_state s k)) [
    | inl at_s ↦
        let idle = state-ne s k ne at_s in
        let same : drop_epoch e ks ≡ ks = drop_epoch-none e ks (ground (arith, few, here')) in
        rw (here', same, idle) (refl, omega arith)
    | inr not_s ↦
        let more = any_at-count e s ks (ground (arith, rw (here', not_s) at h)) in
        absurd (ground (arith, few, here', more))
  ]
  | inr other ↦
      let (ea, ec) = find_key-drop_epoch e s ks ne (ground (arith, few, other)) (rw other at h) in
      (rw (other, ea) refl, rw (other, ec) refl)
]

pub count_epoch-drop_epoch :
    (e d : ℕ) (ks : EpochStore) → count_epoch d (drop_epoch e ks) ≤ count_epoch d ks
unfolding count_epoch drop_epoch
count_epoch-drop_epoch e d [] = omega arith
count_epoch-drop_epoch e d (k ∷ ks) =
    let rest = count_epoch-drop_epoch e d ks in ground (arith, rest)

pub count_epoch-dropped : (e : ℕ) (ks : EpochStore) → count_epoch e (drop_epoch e ks) ≡ 0
unfolding count_epoch drop_epoch
count_epoch-dropped e [] = refl
count_epoch-dropped e (k ∷ ks) =
    let rest = count_epoch-dropped e ks in
    elim (Bool-cases (is_epoch e k)) [
      | inl here' ↦ rw here' rest
      | inr other ↦ rw (other, other) (omega (arith, rest))
    ]

pub count_epoch-append :
    (d : ℕ) (xs ys : EpochStore) → count_epoch d (xs ++ ys) ≡ count_epoch d xs + count_epoch d ys
unfolding count_epoch
count_epoch-append d xs ys = sum_of-append (λ k. tally (is_epoch d k)) xs ys

pub count_active-append :
    (xs ys : EpochStore) → count_active (xs ++ ys) ≡ count_active xs + count_active ys
unfolding count_active
count_active-append xs ys = sum_of-append (λ k. tally (is_state "active" k)) xs ys

-- Promotion.
pub count_epoch-demote : (d : ℕ) (ks : EpochStore) → count_epoch d (demote ks) ≡ count_epoch d ks
unfolding count_epoch demote is_epoch
count_epoch-demote d [] = refl
count_epoch-demote d (k ∷ ks) = let rest = count_epoch-demote d ks in ground (arith, rest)

pub count_epoch-activate :
    (e d : ℕ) (ks : EpochStore) → count_epoch d (activate e ks) ≡ count_epoch d ks
unfolding count_epoch activate is_epoch
count_epoch-activate e d [] = refl
count_epoch-activate e d (k ∷ ks) = let rest = count_epoch-activate e d ks in ground (arith, rest)

pub count_active-demote : (ks : EpochStore) → count_active (demote ks) ≡ 0
unfolding count_active demote
count_active-demote [] = refl
count_active-demote (k ∷ ks) = elim (Bool-cases (is_state "active" k)) [
  | inl was ↦ rw was (omega (arith, count_active-demote ks))
  | inr idle ↦ rw (idle, idle) (omega (arith, count_active-demote ks))
]

-- The key at the epoch is the active one, with its key pair.
pub activated :
    (e : ℕ) (ks : EpochStore)
    → count_active ks ≡ 0
    → 1 ≤ count_epoch e ks
    → (count_active (activate e ks) ≡ 1)
      × (k : EpochKey) × (by_epoch e ks ≡ some k)
      × (active (activate e ks) ≡ some (record k { state = "active" }))
unfolding count_active count_epoch activate by_epoch active
activated e [] idle some' = absurd (omega (arith, some'))
activated e (k ∷ ks) idle some' = elim (Bool-cases (is_epoch e k)) [
  | inl here' ↦ rw here' (omega (arith, idle), k, refl, refl)
  | inr other ↦
      let resting : is_state "active" k ≡ false = ground (arith, idle) in
      let (c, j, f, a) = activated e ks (omega (arith, idle)) (ground (arith, some', other)) in
      rw (other, resting) (omega (arith, c), j, f, a)
]
