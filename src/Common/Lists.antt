-- ===== src/Common/Lists.antt =====
-- Lists measured, indexed and searched with native numbers and Boolean tests.
use Prim.Native.Nat.{ℕ, zero, suc, ◌+◌, ◌≤◌}
use mathlib.Core.Path.{◌≡◌, refl, ap}
use mathlib.Core.Logic.{◌⊎◌, inl, inr}
use mathlib.Core.Bool.{Bool, true, false, ◌&&◌, ◌||◌}
use mathlib.Core.List.{List, [], ◌∷◌, ◌++◌, map}
use mathlib.Core.Option.{Option, none, some}
use native.Mathlib.Omega.{arith}

module _ {ℓ} {A : Type ℓ} where
  abbrev pub length : List A → ℕ
  length [] = 0
  length (x ∷ xs) = suc (length xs)

  abbrev pub is_empty : List A → Bool
  is_empty [] = true
  is_empty (x ∷ xs) = false

  abbrev pub get_elem? : List A → ℕ → Option A
  get_elem? [] i = none
  get_elem? (x ∷ xs) zero = some x
  get_elem? (x ∷ xs) (suc i) = get_elem? xs i

  abbrev pub any_of : (A → Bool) → List A → Bool
  any_of p [] = false
  any_of p (x ∷ xs) = p x || any_of p xs

  abbrev pub all_of : (A → Bool) → List A → Bool
  all_of p [] = true
  all_of p (x ∷ xs) = p x && all_of p xs

  abbrev pub sum_of : (A → ℕ) → List A → ℕ
  sum_of f [] = 0
  sum_of f (x ∷ xs) = f x + sum_of f xs

  -- The element stands in the list; an inductive family, so that a proof can be matched.
  pub data In (a : A) : List A → Type ℓ where
    here : {x : A} {xs : List A} → x ≡ a → In a (x ∷ xs)
    there : {x : A} {xs : List A} → In a xs → In a (x ∷ xs)

  pub length-append : (xs ys : List A) → length (xs ++ ys) ≡ length xs + length ys
  length-append [] ys = omega arith
  length-append (x ∷ xs) ys = omega (arith, length-append xs ys)

  pub sum_of-append : (f : A → ℕ) (xs ys : List A) → sum_of f (xs ++ ys) ≡ sum_of f xs + sum_of f ys
  sum_of-append f [] ys = omega arith
  sum_of-append f (x ∷ xs) ys = omega (arith, sum_of-append f xs ys)

  pub any_of-append :
      (p : A → Bool) (xs ys : List A) → any_of p (xs ++ ys) ≡ (any_of p xs || any_of p ys)
  any_of-append p [] ys = refl
  any_of-append p (x ∷ xs) ys = ground (arith, any_of-append p xs ys)

  pub In-append_left : {a : A} {xs : List A} (ys : List A) → In a xs → In a (xs ++ ys)
  In-append_left ys (here e) = here e
  In-append_left ys (there m) = there (In-append_left ys m)

  pub In-append_right : {a : A} (xs : List A) {ys : List A} → In a ys → In a (xs ++ ys)
  In-append_right [] m = m
  In-append_right (x ∷ xs) m = there (In-append_right xs m)

  pub In-append : {a : A} (xs ys : List A) → In a (xs ++ ys) → In a xs ⊎ In a ys
  In-append [] ys m = inr m
  In-append (x ∷ xs) ys (here e) = inl (here e)
  In-append (x ∷ xs) ys (there m) = elim (In-append xs ys m) [
    | inl l ↦ inl (there l)
    | inr r ↦ inr r
  ]

  pub any_of-In : (p : A → Bool) {a : A} {xs : List A} → In a xs → p a ≡ true → any_of p xs ≡ true
  any_of-In p (here e) h = ground (arith, ap p e)
  any_of-In p (there m) h = ground (arith, any_of-In p m h)

  any_of-witness_cons :
      (p : A → Bool) (x : A) (xs : List A) (b : Bool)
      → p x ≡ b
      → (any_of p xs ≡ true → (a : A) × In a xs × (p a ≡ true))
      → any_of p (x ∷ xs) ≡ true
      → (a : A) × In a (x ∷ xs) × (p a ≡ true)
  any_of-witness_cons p x xs true e rest h = (x, here refl, e)
  any_of-witness_cons p x xs false e rest h = let (a, m, q) = rest (ground arith) in (a, there m, q)

  pub any_of-witness :
      (p : A → Bool) (xs : List A) → any_of p xs ≡ true → (a : A) × In a xs × (p a ≡ true)
  any_of-witness p [] h = absurd (ground arith)
  any_of-witness p (x ∷ xs) h = any_of-witness_cons p x xs (p x) refl (λ r. any_of-witness p xs r) h

  pub all_of-In : (p : A → Bool) {a : A} {xs : List A} → all_of p xs ≡ true → In a xs → p a ≡ true
  all_of-In p h (here e) = ground (arith, ap p e)
  all_of-In p h (there m) = all_of-In p (ground arith) m

module _ {ℓ κ} {A : Type ℓ} {B : Type κ} where
  pub In-map : (f : A → B) {b : B} (xs : List A) → In b (map f xs) → (a : A) × In a xs × (f a ≡ b)
  In-map f [] m = elim m [ ]
  In-map f (x ∷ xs) (here e) = (x, here refl, e)
  In-map f (x ∷ xs) (there m) = let (a, k, e) = In-map f xs m in (a, there k, e)

  pub In-map_of : (f : A → B) {a : A} {xs : List A} → In a xs → In (f a) (map f xs)
  In-map_of f (here e) = here (ap f e)
  In-map_of f (there m) = there (In-map_of f m)

module _ {ℓ κ} {A : Type ℓ} {B : Type κ} where
  pub length-map : (f : A → B) (xs : List A) → length (map f xs) ≡ length xs
  length-map f [] = refl
  length-map f (x ∷ xs) = ap suc (length-map f xs)

-- the times do not go back, from `t` on
abbrev pub Ordered : ℕ → List ℕ → Type 0
Ordered t [] = Unit
Ordered t (u ∷ us) = (t ≤ u) × Ordered u us

abbrev pub last_of : ℕ → List ℕ → ℕ
last_of t [] = t
last_of t (u ∷ us) = last_of u us
