-- ===== src/Controller/Broker/Budget.antt =====
-- How often the sweeps tell a pair to punch.
use wire_mesh.Common.{
  ℕ, suc, ◌+◌, ◌≤◌, ◌<◌, String, ◌≡◌, refl, sym, ap, ◌∙◌, inl, inr, Bool, true, false, not, ◌&&◌,
  ◌||◌, Option, none, some, List, [], ◌∷◌, arith, leb, leb→le, if◌then◌else◌, Bool-cases, length,
  is_empty, is_some,
}
use wire_mesh.Common.Assoc.{find_at}
use wire_mesh.Controller.Broker.{
  Broker, Answers, Registry, PunchDirective, pair_key, pair_eq, settled_in, send_both,
  with_candidates, emit_pair, count_attempt, emit_pair_periodic,
}

-- one pair's turn in a sweep
pub record Turn : Type 0 where
  pub answers : Answers
  pub low : ℕ
  pub high : ℕ

-- whether the turn is one of the pair `k`
abbrev pub concerns : ℕ × ℕ → Turn → Bool
concerns k t = pair_eq (pair_key t.low t.high) k

-- what the channels took in the turn
abbrev pub sent : Turn → Broker → List PunchDirective
sent t s = (emit_pair_periodic t.answers t.low t.high s).1

-- whether a turn of the pair `k` reached both gateways: two directives were taken
unfoldable pub told : ℕ × ℕ → Turn → Broker → Bool
told k t s = concerns k t && leb 2 (length (sent t s))

-- the turns that reached both
unfoldable pub count_told : ℕ × ℕ → List Turn → Broker → ℕ
count_told k [] s = 0
count_told k (t ∷ ts) s =
    let rest = count_told k ts (emit_pair_periodic t.answers t.low t.high s).0 in
    if told k t s then suc rest else rest

-- the broker after the turns
unfoldable pub sweep : List Turn → Broker → Broker
sweep [] s = s
sweep (t ∷ ts) s = sweep ts (emit_pair_periodic t.answers t.low t.high s).0

pair_eq-subst : (f : ℕ × ℕ → ℕ) (p q : ℕ × ℕ) → pair_eq p q ≡ true → f p ≡ f q
pair_eq-subst f (a, b) (c, d) h =
    let x : a ≡ c = ground (arith, h) in
    let y : b ≡ d = ground (arith, h) in ap (λ (z : ℕ). f (z, b)) x ∙ ap (λ (z : ℕ). f (c, z)) y

-- The critical section says that both were told exactly where both channels took their directive.
module _ (w : Answers) (a b : ℕ) where
  send_both-both :
      (ca cb : List String) (x y : Option ℕ)
      → (send_both w a b ca cb x y).0 ≡ leb 2 (length (send_both w a b ca cb x y).1)
  send_both-both ca cb none y = refl
  send_both-both ca cb (some x) none = refl
  send_both-both ca cb (some x) (some y) = elim (Bool-cases (w.accepts x)) [
    | inl h ↦ elim (Bool-cases (w.accepts y)) [ inl k ↦ rw (h, k) refl | inr k ↦ rw (h, k) refl ]
    | inr h ↦ elim (Bool-cases (w.accepts y)) [ inl k ↦ rw (h, k) refl | inr k ↦ rw (h, k) refl ]
  ]

  with_candidates-both :
      (reg : Registry) (x y : Option (List String))
      → (with_candidates w reg a b x y).0 ≡ leb 2 (length (with_candidates w reg a b x y).1)
  with_candidates-both reg none y = refl
  with_candidates-both reg (some ca) none = refl
  with_candidates-both reg (some ca) (some cb) = elim (Bool-cases (is_empty ca || is_empty cb)) [
    | inl h ↦ rw h refl
    | inr h ↦
        rw h (
          send_both-both ca cb (find_at a (w.registry_after reg))
            (find_at b (w.registry_after reg)))
  ]

  emit_pair-both : (s : Broker) → (emit_pair w a b s).0 ≡ leb 2 (length (emit_pair w a b s).1)
  unfolding emit_pair
  emit_pair-both s =
      elim (Bool-cases
        (not (is_some (find_at a s.registry)) || not (is_some (find_at b s.registry)))) [
          | inl h ↦ rw h refl
          | inr h ↦ elim (Bool-cases (settled_in s.peer_path_states a b)) [
            | inl k ↦ rw (h, k) refl
            | inr k ↦
                rw (h, k)
                  (with_candidates-both s.registry (w.candidates_for a) (w.candidates_for b))
          ]
        ]

abbrev attempts_of : Turn → Broker → ℕ
attempts_of t s = s.periodic_attempts (pair_key t.low t.high)

told-open :
    (k : ℕ × ℕ) (t : Turn) (s : Broker)
    → leb 5 (attempts_of t s) ≡ false
    → told k t s ≡ (concerns k t && (emit_pair t.answers t.low t.high s).0)
unfolding told emit_pair_periodic
told-open k t s left =
    let both = emit_pair-both t.answers t.low t.high s in rw (left, sent) (rw (sym both) refl)

told-spent :
    (k : ℕ × ℕ) (t : Turn) (s : Broker) → leb 5 (attempts_of t s) ≡ true → told k t s ≡ false
unfolding told emit_pair_periodic
told-spent k t s spent = rw (spent, sent) (ground arith)

-- A turn spends of the pair's budget what it tells.
turn-budget :
    (k : ℕ × ℕ) (t : Turn) (s : Broker)
    → (emit_pair_periodic t.answers t.low t.high s).0.periodic_attempts k
      ≡ (if told k t s then suc (s.periodic_attempts k) else s.periodic_attempts k)
unfolding emit_pair_periodic count_attempt
turn-budget k t s = elim (Bool-cases (leb 5 (attempts_of t s))) [
  | inl spent ↦ rw (told-spent k t s spent, spent) refl
  | inr left ↦ elim (Bool-cases (emit_pair t.answers t.low t.high s).0) [
    | inl yes' ↦ rw (told-open k t s left, left, yes') (ground arith)
    | inr no' ↦ rw (told-open k t s left, left, no') (ground arith)
  ]
]

-- A turn of a pair whose budget is spent sends nothing, to neither gateway.
spent-sent :
    (k : ℕ × ℕ) (t : Turn) (s : Broker)
    → concerns k t ≡ true
    → 5 ≤ s.periodic_attempts k
    → sent t s ≡ []
unfolding emit_pair_periodic
spent-sent k t s c h =
    let same = pair_eq-subst s.periodic_attempts (pair_key t.low t.high) k c in
    let spent : leb 5 (s.periodic_attempts (pair_key t.low t.high)) ≡ true =
      ground (arith, same, h) in
    rw (spent, sent) refl

told-left : (k : ℕ × ℕ) (t : Turn) (s : Broker) → told k t s ≡ true → s.periodic_attempts k < 5
unfolding told
told-left k t s h = elim (Bool-cases (leb 5 (s.periodic_attempts k))) [
  | inr left ↦ ground (arith, left)
  | inl spent ↦
      let c : concerns k t ≡ true = ground (arith, h) in
      let two : leb 2 (length (sent t s)) ≡ true = ground (arith, h) in
      let nothing = spent-sent k t s c (leb→le _ _ spent) in
      absurd (let z = rw nothing at two in cc)
]

-- what the turns spend of the budget
sweep-budget :
    (k : ℕ × ℕ) (ts : List Turn) (s : Broker)
    → (sweep ts s).periodic_attempts k ≡ s.periodic_attempts k + count_told k ts s
unfolding sweep count_told
sweep-budget k [] s = omega arith
sweep-budget k (t ∷ ts) s =
    let rest = sweep-budget k ts (emit_pair_periodic t.answers t.low t.high s).0 in
    elim (Bool-cases (told k t s)) [
      | inl yes' ↦ let one = rw yes' at (turn-budget k t s) in rw yes' (omega (arith, rest, one))
      | inr no' ↦ let one = rw no' at (turn-budget k t s) in rw no' (omega (arith, rest, one))
    ]

sweep-bound :
    (k : ℕ × ℕ) (ts : List Turn) (s : Broker)
    → s.periodic_attempts k ≤ 5
    → s.periodic_attempts k + count_told k ts s ≤ 5
unfolding count_told
sweep-bound k [] s h = omega (arith, h)
sweep-bound k (t ∷ ts) s h = elim (Bool-cases (told k t s)) [
  | inl yes' ↦
      let spent = rw yes' at (turn-budget k t s) in
      let rest =
        sweep-bound k ts (emit_pair_periodic t.answers t.low t.high s).0
          (omega (arith, spent, told-left k t s yes')) in
      rw yes' (omega (arith, spent, rest))
  | inr no' ↦
      let same = rw no' at (turn-budget k t s) in
      let rest =
        sweep-bound k ts (emit_pair_periodic t.answers t.low t.high s).0 (omega (arith, same, h)) in
      rw no' (omega (arith, same, rest))
]

-- Over the sweeps' turns of any pairs, whatever the channels and the database answer: the turns in
-- which both gateways of a pair are sent a directive are as many as its budget has left at most,
-- five from a reset on; just these turns spend the budget, so that one that reaches one gateway only
-- does not; and once the budget is spent a turn of the pair sends nothing at all.
pub periodic_budget :
    (k : ℕ × ℕ) (ts : List Turn) (last : Turn) (s : Broker)
    → s.periodic_attempts k ≤ 5
    → (s.periodic_attempts k + count_told k ts s ≤ 5)
      × ((sweep ts s).periodic_attempts k ≡ s.periodic_attempts k + count_told k ts s)
      × ((concerns k last
            && leb 5 (s.periodic_attempts k + count_told k ts s)
            && not (is_empty (sent last (sweep ts s))))
          ≡ false)
periodic_budget k ts last s h = (
  sweep-bound k ts s h,
  sweep-budget k ts s,
  elim (Bool-cases (concerns k last && leb 5 (s.periodic_attempts k + count_told k ts s))) [
    | inr no' ↦ ground (arith, no')
    | inl yes' ↦
        let c : concerns k last ≡ true = ground (arith, yes') in
        let spent : leb 5 (s.periodic_attempts k + count_told k ts s) ≡ true =
          ground (arith, yes') in
        let full = leb→le _ _ spent in
        let nothing = spent-sent k last (sweep ts s) c (omega (arith, full, sweep-budget k ts s)) in
        rw nothing (ground (arith, c, spent))
  ],
)
