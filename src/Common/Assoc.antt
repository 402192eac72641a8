-- ===== src/Common/Assoc.antt =====
-- Maps from numbers, as association lists without order.
use wire_mesh.Common.{
  ℕ, ◌≡◌, refl, inl, inr, false, Option, none, some, List, [], ◌∷◌, arith, ◌==◌, if◌then◌else◌,
  ==_iff, Bool-cases, In, here, there,
}

module _ {ℓ} {V : Type ℓ} where
  unfoldable pub find_at : ℕ → List (ℕ × V) → Option V
  find_at k [] = none
  find_at k ((j, v) ∷ m) = let rest = find_at k m in if j == k then some v else rest

  unfoldable pub put_at : ℕ → V → List (ℕ × V) → List (ℕ × V)
  put_at k v [] = (k, v) ∷ []
  put_at k v ((j, w) ∷ m) = let rest = put_at k v m in if j == k then (k, v) ∷ m else (j, w) ∷ rest

  unfoldable pub drop_at : ℕ → List (ℕ × V) → List (ℕ × V)
  drop_at k [] = []
  drop_at k ((j, w) ∷ m) = let rest = drop_at k m in if j == k then rest else (j, w) ∷ rest

  abbrev pub keys_of : List (ℕ × V) → List ℕ
  keys_of [] = []
  keys_of ((j, v) ∷ m) = j ∷ keys_of m

  pub find_at-put_at_self : (k : ℕ) (v : V) (m : List (ℕ × V)) → find_at k (put_at k v m) ≡ some v
  unfolding find_at put_at
  find_at-put_at_self k v [] = ground arith
  find_at-put_at_self k v ((j, w) ∷ m) = ground (arith, find_at-put_at_self k v m)

  pub find_at-put_at_other :
      (k j : ℕ) (v : V) (m : List (ℕ × V))
      → (k == j) ≡ false
      → find_at j (put_at k v m) ≡ find_at j m
  unfolding find_at put_at
  find_at-put_at_other k j v [] h = ground (arith, h)
  find_at-put_at_other k j v ((i, w) ∷ m) h = ground (arith, h, find_at-put_at_other k j v m h)

  pub find_at-drop_at_self : (k : ℕ) (m : List (ℕ × V)) → find_at k (drop_at k m) ≡ none
  unfolding find_at drop_at
  find_at-drop_at_self k [] = refl
  find_at-drop_at_self k ((j, w) ∷ m) = ground (arith, find_at-drop_at_self k m)

  pub find_at-drop_at_other :
      (k j : ℕ) (m : List (ℕ × V)) → (k == j) ≡ false → find_at j (drop_at k m) ≡ find_at j m
  unfolding find_at drop_at
  find_at-drop_at_other k j [] h = refl
  find_at-drop_at_other k j ((i, w) ∷ m) h = ground (arith, h, find_at-drop_at_other k j m h)

  -- What is found stands under a key.
  pub In-keys_of : (k : ℕ) (m : List (ℕ × V)) {v : V} → find_at k m ≡ some v → In k (keys_of m)
  unfolding find_at
  In-keys_of k [] h = cc
  In-keys_of k ((j, w) ∷ m) h = elim (Bool-cases (j == k)) [
    | inl same ↦ here ((==_iff j k).0 same)
    | inr other ↦ there (In-keys_of k m (rw other at h))
  ]
