-- ===== src/Controller/Rotation.antt =====
-- crates/wiremesh-controller/src/rotation.rs: what to do next for a gateway's rotation. Instants are
-- nanoseconds; the reason of an abort, one fixed text, is left out.
use wire_mesh.Common.{
  any_of-witness, any_of-In, all_of-In, ℕ, ◌+◌, ◌-◌, ◌≤◌, ◌<◌, ◌≡◌, refl, sym, subst, ◌≢◌, ◌⊎◌, inl,
  inr, Bool, true, false, not, ◌&&◌, Option, none, some, List, [], ◌∷◌, arith, leb, ◌==◌,
  if◌then◌else◌, leb→le, ==_iff, Bool-cases, is_empty, any_of, all_of, In, here, there,
}
use wire_mesh.Gateway.Path.{secs}

abbrev pub grace_promote : ℕ
grace_promote = secs 90

abbrev pub retire_grace : ℕ
retire_grace = secs 30

abbrev pub abort_after : ℕ
abort_after = secs 300

pub data RotationDecision : Type 0 where
  wait finished : RotationDecision
  promote retire abort : ℕ → RotationDecision

-- `expected_peers` and `live_acks` are sets, here the lists of their members
pub record RotationState : Type 0 where
  pub pending_epoch : ℕ
  pub pending_has_real_key : Bool
  pub prior_active_epoch : Option ℕ
  pub started_at : ℕ
  pub promoted_at : Option ℕ
  pub expected_peers : List ℕ
  pub live_acks : List ℕ

unfoldable pub all_acked : RotationState → Bool
all_acked s =
    not (is_empty s.expected_peers)
    && all_of (λ p. any_of (λ q. p == q) s.live_acks) s.expected_peers

-- rule 1: promoted already
decide_promoted : Option ℕ → ℕ → ℕ → RotationDecision
decide_promoted none promoted_at now = finished
decide_promoted (some prior) promoted_at now =
    if leb retire_grace (now - promoted_at) then retire prior else wait

-- rules 2 to 5
decide_pending : RotationState → ℕ → RotationDecision
unfolding all_acked
decide_pending s now =
    if not s.pending_has_real_key
    then if leb abort_after (now - s.started_at) then abort s.pending_epoch else wait
    else if all_acked s
    then promote s.pending_epoch
    else if leb grace_promote (now - s.started_at)
    then promote s.pending_epoch
    else wait

decide_at : Option ℕ → RotationState → ℕ → RotationDecision
unfolding decide_promoted decide_pending
decide_at none s now = decide_pending s now
decide_at (some promoted_at) s now = decide_promoted s.prior_active_epoch promoted_at now

unfoldable pub decide : RotationState → ℕ → RotationDecision
unfolding decide_at
decide s now = decide_at s.promoted_at s now

-- some peer is expected, and each has acknowledged
abbrev pub AllAcked : RotationState → Type 0
AllAcked s = (s.expected_peers ≢ []) × ((p : ℕ) → In p s.expected_peers → In p s.live_acks)

any_of-eq-In : (p : ℕ) (xs : List ℕ) → any_of (λ q. p == q) xs ≡ true → In p xs
any_of-eq-In p xs h =
    let (q, m, e) = any_of-witness (λ q. p == q) xs h in
    subst (λ x. In x xs) (sym ((==_iff p q).0 e)) m

all_of-In_each :
    (xs ys : List ℕ)
    → ((p : ℕ) → In p xs → In p ys)
    → all_of (λ p. any_of (λ q. p == q) ys) xs ≡ true
all_of-In_each [] ys h = refl
all_of-In_each (x ∷ xs) ys h = ground (
  arith,
  any_of-In (λ q. x == q) (h x (here refl)) ((==_iff x x).1 refl),
  all_of-In_each xs ys (λ p m. h p (there m)),
)

is_empty-nil : (xs : List ℕ) → is_empty xs ≡ true → xs ≡ []
is_empty-nil [] h = refl
is_empty-nil (x ∷ xs) h = cc

nil-is_empty : (xs : List ℕ) → is_empty xs ≡ false → xs ≢ []
nil-is_empty [] h = cc
nil-is_empty (x ∷ xs) h = λ e. cc

all_acked-AllAcked : (s : RotationState) → all_acked s ≡ true → AllAcked s
unfolding all_acked
all_acked-AllAcked s h = (
  nil-is_empty s.expected_peers (ground arith),
  λ p m.
      any_of-eq-In p s.live_acks
        (all_of-In (λ x. any_of (λ q. x == q) s.live_acks) (ground arith) m),
)

AllAcked-all_acked : (s : RotationState) → AllAcked s → all_acked s ≢ false
unfolding all_acked
AllAcked-all_acked s (some', each) h = elim (Bool-cases (is_empty s.expected_peers)) [
  | inl bare ↦ some' (is_empty-nil s.expected_peers bare)
  | inr full ↦ ground (arith, all_of-In_each s.expected_peers s.live_acks each)
]

-- What each decision means, without the order of the rules.
pub data Justified (s : RotationState) (now : ℕ) : RotationDecision → Type 0 where
  promotes :
      s.promoted_at ≡ none
      → s.pending_has_real_key ≡ true
      → AllAcked s ⊎ (grace_promote ≤ now - s.started_at)
      → Justified s now (promote s.pending_epoch)
  aborts :
      s.promoted_at ≡ none
      → s.pending_has_real_key ≡ false
      → abort_after ≤ now - s.started_at
      → Justified s now (abort s.pending_epoch)
  retires :
      (at prior : ℕ)
      → s.promoted_at ≡ some at
      → s.prior_active_epoch ≡ some prior
      → retire_grace ≤ now - at
      → Justified s now (retire prior)
  finishes :
      (at : ℕ) → s.promoted_at ≡ some at → s.prior_active_epoch ≡ none → Justified s now finished
  waits_retire :
      (at prior : ℕ)
      → s.promoted_at ≡ some at
      → s.prior_active_epoch ≡ some prior
      → now - at < retire_grace
      → Justified s now wait
  waits_key :
      s.promoted_at ≡ none
      → s.pending_has_real_key ≡ false
      → now - s.started_at < abort_after
      → Justified s now wait
  waits_acks :
      s.promoted_at ≡ none
      → s.pending_has_real_key ≡ true
      → ¬ AllAcked s
      → now - s.started_at < grace_promote
      → Justified s now wait

promoted-Justified :
    (s : RotationState) (now at : ℕ) (o : Option ℕ)
    → s.promoted_at ≡ some at
    → s.prior_active_epoch ≡ o
    → Justified s now (decide_promoted o at now)
unfolding decide_promoted
promoted-Justified s now at none p e = finishes at p e
promoted-Justified s now at (some prior) p e = elim (Bool-cases (leb retire_grace (now - at))) [
  | inl late ↦ rw late (retires at prior p e (leb→le _ _ late))
  | inr early ↦ rw early (waits_retire at prior p e (ground arith))
]

pending-Justified :
    (s : RotationState) (now : ℕ) → s.promoted_at ≡ none → Justified s now (decide_pending s now)
unfolding decide_pending
pending-Justified s now p = elim (Bool-cases s.pending_has_real_key) [
  | inr sentinel ↦ elim (Bool-cases (leb abort_after (now - s.started_at))) [
    | inl late ↦ simp (sentinel, late) (aborts p sentinel (leb→le _ _ late))
    | inr early ↦ simp (sentinel, early) (waits_key p sentinel (ground arith))
  ]
  | inl real ↦ elim (Bool-cases (all_acked s)) [
    | inl acked ↦ simp (real, acked) (promotes p real (inl (all_acked-AllAcked s acked)))
    | inr missing ↦ elim (Bool-cases (leb grace_promote (now - s.started_at))) [
      | inl late ↦ simp (real, missing, late) (promotes p real (inr (leb→le _ _ late)))
      | inr early ↦
          simp (real, missing, early)
            (waits_acks p real (λ all. AllAcked-all_acked s all missing) (ground arith))
    ]
  ]
]

at-Justified :
    (o : Option ℕ) (s : RotationState) (now : ℕ)
    → s.promoted_at ≡ o
    → Justified s now (decide_at o s now)
unfolding decide_at
at-Justified none s now p = pending-Justified s now p
at-Justified (some at) s now p = promoted-Justified s now at s.prior_active_epoch p refl

pub decide-Justified : (s : RotationState) (now : ℕ) → Justified s now (decide s now)
unfolding decide
decide-Justified s now = at-Justified s.promoted_at s now refl

Justified-deadline :
    {s : RotationState} {now : ℕ} {d : RotationDecision}
    → Justified s now d
    → s.started_at + abort_after ≤ now
    → ((at : ℕ) → s.promoted_at ≡ some at → at + retire_grace ≤ now)
    → d ≢ wait
Justified-deadline (promotes p k a) old due w = cc
Justified-deadline (aborts p k a) old due w = cc
Justified-deadline (retires at prior p e l) old due w = cc
Justified-deadline (finishes at p e) old due w = cc
Justified-deadline (waits_retire at prior p e l) old due w = omega (arith, due at p)
Justified-deadline (waits_key p k l) old due w = omega arith
Justified-deadline (waits_acks p k a l) old due w = omega arith

-- A rotation never waits past its deadlines: five minutes from its start, and thirty seconds from
-- its promotion, the decision is another.
pub decide-deadline :
    (s : RotationState) (now : ℕ)
    → s.started_at + abort_after ≤ now
    → ((at : ℕ) → s.promoted_at ≡ some at → at + retire_grace ≤ now)
    → decide s now ≢ wait
decide-deadline s now old due = Justified-deadline (decide-Justified s now) old due
