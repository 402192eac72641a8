-- ===== src/Gateway/Backoff/Punch/Fresh.antt =====
-- crates/wiremesh-gateway/src/punch_backoff.rs: a pair whose candidate set changes.
use wire_mesh.Common.{
  any_of-witness, all_of-In, min, length, eq_iff, str_eq, ℕ, zero, suc, ◌+◌, ◌≤◌, String, ◌≡◌, refl,
  sym, ◌∙◌, subst, ◌⊎◌, inl, inr, false, none, some, List, [], ◌∷◌, arith, Bool-cases, any_of,
  all_of, In,
}
use wire_mesh.Gateway.Backoff.{Jitter, failure_threshold}
use wire_mesh.Gateway.Backoff.Punch.{
  PunchBackoff, allow, decide, decide_last, by_window, same_set, record_failure, attempts, Known,
  with_candidates, decide-Known, record_failure-Known, attempts-allow,
}

-- the address is in one of the two lists only
abbrev pub Tells : String → List String → List String → Type 0
Tells x xs ys = (In x xs × ¬ In x ys) ⊎ (¬ In x xs × In x ys)

any_of-absent : (x : String) (ys : List String) → ¬ In x ys → any_of (str_eq x) ys ≡ false
any_of-absent x ys h = elim (Bool-cases (any_of (str_eq x) ys)) [
  | inr off ↦ off
  | inl on ↦
      let (y, m, e) = any_of-witness (str_eq x) ys on in
      absurd (h (subst (λ z. In z ys) (sym ((eq_iff x y).0 e)) m))
]

missing-all_of :
    (x : String) (xs ys : List String)
    → In x xs
    → ¬ In x ys
    → all_of (λ y. any_of (str_eq y) ys) xs ≡ false
missing-all_of x xs ys m h = elim (Bool-cases (all_of (λ y. any_of (str_eq y) ys) xs)) [
  | inr off ↦ off
  | inl on ↦
      let found = all_of-In (λ y. any_of (str_eq y) ys) on m in
      absurd (ground (arith, found, any_of-absent x ys h))
]

same_set-Tells : (x : String) (xs ys : List String) → Tells x xs ys → same_set xs ys ≡ false
unfolding same_set
same_set-Tells x xs ys (inl (m, h)) = ground (arith, missing-all_of x xs ys m h)
same_set-Tells x xs ys (inr (h, m)) = ground (arith, missing-all_of x ys xs m h)

-- the back-off of a candidate set that nothing is known of
abbrev renewed : PunchBackoff → List String → PunchBackoff
renewed p cs = record p { last_candidates = some cs; consecutive_failures = 0; window_until = none }

decide-renewed :
    (p : PunchBackoff) (now : ℕ) (prev cs : List String) (x : String)
    → p.last_candidates ≡ some prev
    → Tells x prev cs
    → decide p now cs ≡ (allow, renewed p cs)
unfolding decide decide_last
decide-renewed p now prev cs x e d = rw (e, same_set-Tells x prev cs d) refl

module _ (jitter : Jitter) where
  record_failure-shut :
      (q : PunchBackoff) (now k : ℕ)
      → q.consecutive_failures + suc (suc k) ≡ failure_threshold
      → q.window_until ≡ none
      → ((record_failure jitter q now).consecutive_failures + suc k ≡ failure_threshold)
        × ((record_failure jitter q now).window_until ≡ none)
  unfolding record_failure
  record_failure-shut q now k e w = (ground arith, ground arith)

  -- A further failure counts, and opens no window before the third.
  attempts-closed :
      (p : PunchBackoff) (cs : List String) (k : ℕ) (times : List ℕ)
      → Known p cs
      → p.consecutive_failures + k ≡ failure_threshold
      → p.window_until ≡ none
      → min k (length times) ≤ attempts jitter p cs times
  attempts-closed p cs k [] c e w = omega arith
  attempts-closed p cs zero (now ∷ later) c e w = omega arith
  attempts-closed p cs (suc zero) (now ∷ later) c e w =
      let run : decide p now cs ≡ (allow, with_candidates p cs) =
        decide-Known p now cs c ∙ unfold by_window in rw w refl in
      omega (arith, attempts-allow jitter p (with_candidates p cs) cs now later run)
  attempts-closed p cs (suc (suc k)) (now ∷ later) c e w =
      let q = with_candidates p cs in
      let run : decide p now cs ≡ (allow, q) =
        decide-Known p now cs c ∙ unfold by_window in rw w refl in
      let (counted, shut) = record_failure-shut q now k e w in
      omega (
        arith,
        attempts-allow jitter p q cs now later run,
        attempts-closed (record_failure jitter q now) cs (suc k) later
            (record_failure-Known jitter q now cs refl) counted shut,
      )

  -- Where an address is in one of the last candidate set and the new one, and not in the other, the
  -- first three attempts with the new set run, at whatever times, whatever window is open and
  -- however many failures there were.
  pub attempts-fresh :
      (p : PunchBackoff) (prev cs : List String) (x : String) (times : List ℕ)
      → p.last_candidates ≡ some prev
      → Tells x prev cs
      → min 3 (length times) ≤ attempts jitter p cs times
  attempts-fresh p prev cs x [] e d = omega arith
  attempts-fresh p prev cs x (now ∷ later) e d =
      let q = renewed p cs in
      let run : decide p now cs ≡ (allow, q) = decide-renewed p now prev cs x e d in
      let (counted, shut) = record_failure-shut q now 1 refl refl in
      omega (
        arith,
        attempts-allow jitter p q cs now later run,
        attempts-closed (record_failure jitter q now) cs 2 later
            (record_failure-Known jitter q now cs refl) counted shut,
      )
