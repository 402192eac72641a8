-- ===== src/Enforcer/Generation/Counts.antt =====
-- The counters survive a new generation.
use wire_mesh.Enforcer.Generation.Flip.{
  install-Fills, apply_generation-eq-some, fills_meta, fills_rules, fills_dst, fills_src, Fills,
}
use wire_mesh.Common.{
  str_eq, ℕ, zero, suc, ◌+◌, ◌%◌, ◌^◌, ◌≤◌, ◌<◌, min, max, String, ◌≡◌, refl, ap, ◌∙◌, subst, ◌⊎◌,
  inl, inr, false, Option, none, some, List, [], ◌∷◌, arith, ltb, ◌==◌, if◌then◌else◌, Bool-cases,
  length, any_of, In, here, there,
}
use wire_mesh.Enforcer.Maps.{Maps, Write, write, update, ctr_default_deny}
use wire_mesh.Enforcer.Tables.{build_rules}
use wire_mesh.Enforcer.Flatten.{FlatRule}
use wire_mesh.Enforcer.Generation.{
  RuleBits, LpmTrie, Ipnet, Counts, GenerationState, Folding, add_count, fold_slot, fold_slots,
  live_counts, by_rule, default_deny, fold_and_reset_counters, apply_writes, target_of, flip,
  apply_generation, prune_retired_counters,
}

-- A slot that the loop has passed does not count any more.
live_counts-update :
    (i idx : ℕ) (ids : List String) (live : ℕ → ℕ) (m : Counts)
    → i < idx
    → live_counts idx ids (update live i 0) m ≡ live_counts idx ids live m
unfolding live_counts update
live_counts-update i idx [] live m h = refl
live_counts-update i idx (id ∷ ids) live m h =
    let other : (i == idx) ≡ false = ground arith in
    rw other (
      live_counts-update i (suc idx) ids live
        (if ltb 0 (live idx) then add_count m id (live idx) else m) (omega arith))

live_counts-zero :
    (idx : ℕ) (ids : List String) (live : ℕ → ℕ) (m : Counts)
    → ((i : ℕ) → idx ≤ i → i < idx + length ids → live i ≡ 0)
    → live_counts idx ids live m ≡ m
unfolding live_counts
live_counts-zero idx [] live m h = refl
live_counts-zero idx (id ∷ ids) live m h =
    let none' : ltb 0 (live idx) ≡ false = ground (arith, h idx (omega arith) (omega arith)) in
    rw none' (live_counts-zero (suc idx) ids live m (λ i lo hi. h i (omega arith) (omega arith)))

fold_slots-nil : (k idx : ℕ) (f : Folding) → (fold_slots k idx [] f).accum ≡ f.accum
unfolding fold_slots fold_slot
fold_slots-nil zero idx f = refl
fold_slots-nil (suc k) idx f = fold_slots-nil k (suc idx) (fold_slot f idx none) ∙ ground arith

-- Folding the slots adds up what `counters` shows.
fold_slots-accum :
    (k idx : ℕ) (ids : List String) (f : Folding)
    → length ids ≤ k
    → (fold_slots k idx ids f).accum ≡ live_counts idx ids f.live f.accum
unfolding fold_slots live_counts
fold_slots-accum k idx [] f h = fold_slots-nil k idx f
fold_slots-accum zero idx (id ∷ ids) f h = absurd (omega arith)
fold_slots-accum (suc k) idx (id ∷ ids) f h =
    let ih = fold_slots-accum k (suc idx) ids (fold_slot f idx (some id)) (omega arith) in
    elim (Bool-cases (ltb 0 (f.live idx))) [
      | inl hot ↦
          ih
          ∙ unfold fold_slot in
            rw hot (
              live_counts-update idx (suc idx) ids f.live (add_count f.accum id (f.live idx))
                (omega arith))
      | inr cold ↦ ih ∙ unfold fold_slot in rw cold refl
    ]

fold_slot-live :
    (f : Folding) (idx : ℕ) (o : Option String) (j : ℕ)
    → (fold_slot f idx o).live j ≡ (if idx == j then 0 else f.live j)
unfolding fold_slot update
fold_slot-live f idx o j = ground arith

fold_slots-live_later :
    (k idx : ℕ) (ids : List String) (f : Folding) (j : ℕ)
    → (j < idx) ⊎ (idx + k ≤ j)
    → (fold_slots k idx ids f).live j ≡ f.live j
unfolding fold_slots
fold_slots-live_later zero idx ids f j h = refl
fold_slots-live_later (suc k) idx [] f j h =
    fold_slots-live_later k (suc idx) [] (fold_slot f idx none) j (omega arith)
    ∙ ground (arith, fold_slot-live f idx none j)
fold_slots-live_later (suc k) idx (id ∷ ids) f j h =
    fold_slots-live_later k (suc idx) ids (fold_slot f idx (some id)) j (omega arith)
    ∙ ground (arith, fold_slot-live f idx (some id) j)

fold_slots-live :
    (k idx : ℕ) (ids : List String) (f : Folding) (j : ℕ)
    → idx ≤ j
    → j < idx + k
    → (fold_slots k idx ids f).live j ≡ 0
unfolding fold_slots
fold_slots-live zero idx ids f j lo hi = absurd (omega arith)
fold_slots-live (suc k) idx [] f j lo hi = elim (Bool-cases (idx == j)) [
  | inl is ↦
      fold_slots-live_later k (suc idx) [] (fold_slot f idx none) j (ground arith)
      ∙ ground (arith, fold_slot-live f idx none j)
  | inr more ↦ fold_slots-live k (suc idx) [] (fold_slot f idx none) j (ground arith) (omega arith)
]
fold_slots-live (suc k) idx (id ∷ ids) f j lo hi = elim (Bool-cases (idx == j)) [
  | inl is ↦
      fold_slots-live_later k (suc idx) ids (fold_slot f idx (some id)) j (ground arith)
      ∙ ground (arith, fold_slot-live f idx (some id) j)
  | inr more ↦
      fold_slots-live k (suc idx) ids (fold_slot f idx (some id)) j (ground arith) (omega arith)
]

module _ {Trie : Type 0} (maps : Maps Trie) (gen : GenerationState) (new_len : ℕ) where
  abbrev reset_len : ℕ
  reset_len = min (max (length gen.idx_to_rule_id) new_len) 256

  abbrev slots : Folding
  slots =
      fold_slots reset_len 0 gen.idx_to_rule_id
        (record { live = maps.counters; accum = gen.counter_accum })

  fold_and_reset_counters-accum :
      length gen.idx_to_rule_id ≤ 256
      → (fold_and_reset_counters maps gen new_len).1.counter_accum ≡ by_rule maps gen
  unfolding fold_and_reset_counters by_rule
  fold_and_reset_counters-accum fits =
      let all' =
        fold_slots-accum reset_len 0 gen.idx_to_rule_id
          (record { live = maps.counters; accum = gen.counter_accum }) (omega arith) in
      elim (Bool-cases (ltb 0 (slots.live ctr_default_deny))) [
        | inl hot ↦ rw hot all'
        | inr cold ↦ rw cold all'
      ]

  fold_and_reset_counters-live :
      (j : ℕ) → j < reset_len → (fold_and_reset_counters maps gen new_len).0.counters j ≡ 0
  unfolding fold_and_reset_counters update
  fold_and_reset_counters-live j h =
      let zeroed =
        fold_slots-live reset_len 0 gen.idx_to_rule_id
          (record { live = maps.counters; accum = gen.counter_accum }) j (omega arith)
          (omega arith) in
      ground (arith, zeroed)

  fold_and_reset_counters-default_deny :
      gen.default_deny_accum < 2 ^ 64
      → ((fold_and_reset_counters maps gen new_len).1.default_deny_accum
            + (fold_and_reset_counters maps gen new_len).0.counters ctr_default_deny)
          % 2 ^ 64
        ≡ default_deny maps gen
  unfolding fold_and_reset_counters update default_deny
  fold_and_reset_counters-default_deny small =
      let same =
        fold_slots-live_later reset_len 0 gen.idx_to_rule_id
          (record { live = maps.counters; accum = gen.counter_accum }) ctr_default_deny
          (omega arith) in
      ground (arith, same)

module _ (ip : Ipnet) (lpm : LpmTrie RuleBits) where
  open ip use {Net}
  open lpm use {Trie}

  Fills-counters :
      (t : ℕ) (m : Maps Trie) (ws : List (Write Trie))
      → ((w : Write Trie) → In w ws → Fills t w)
      → (apply_writes m ws).counters ≡ m.counters
  unfolding apply_writes
  Fills-counters t m [] h = refl
  Fills-counters t m (w ∷ ws) h =
      Fills-counters t (write m w) ws (λ v n. h v (there n)) ∙ kept w (h w (here refl))
    where
      kept : (v : Write Trie) → Fills t v → (write m v).counters ≡ m.counters
      kept v (fills_src u) = unfold write in refl
      kept v (fills_dst u) = unfold write in refl
      kept v (fills_rules r) = unfold write in refl
      kept v (fills_meta n) = unfold write in refl

  length-build_rules_ids : (flat : List (FlatRule Net)) → length (build_rules flat).1 ≡ length flat
  unfolding build_rules
  length-build_rules_ids [] = refl
  length-build_rules_ids (f ∷ fs) = ap suc (length-build_rules_ids fs)

  -- what the accumulators keep of a rule
  abbrev pub kept_of : List String → Counts → Counts
  kept_of ids m j = if any_of (λ id. str_eq id j) ids then m j else none

  flip-by_rule :
      (maps : Maps Trie) (gen : GenerationState) (flat : List (FlatRule Net)) (now : ℕ)
      (ws : List (Write Trie))
      → length gen.idx_to_rule_id ≤ 256
      → length flat ≤ 256
      → by_rule (flip ip lpm maps gen flat now ws).0 (flip ip lpm maps gen flat now ws).1
        ≡ kept_of (build_rules flat).1 (by_rule (apply_writes maps ws) gen)
  unfolding flip prune_retired_counters
  flip-by_rule maps gen flat now ws old new' =
      let m = apply_writes maps ws in
      let out = fold_and_reset_counters m gen (length flat) in
      let ids = length-build_rules_ids flat in
      unfold by_rule in
      live_counts-zero 0 (build_rules flat).1 out.0.counters
        (kept_of (build_rules flat).1 out.1.counter_accum)
        (λ i lo hi. fold_and_reset_counters-live m gen (length flat) i (omega arith))
      ∙ ap (kept_of (build_rules flat).1) (fold_and_reset_counters-accum m gen (length flat) old)

  by_rule-counters :
      (m n : Maps Trie) (gen : GenerationState)
      → m.counters ≡ n.counters
      → by_rule m gen ≡ by_rule n gen
  unfolding by_rule
  by_rule-counters m n gen e =
      ap (λ (c : ℕ → ℕ). live_counts 0 gen.idx_to_rule_id c gen.counter_accum) e

  flip-default_deny :
      (maps : Maps Trie) (gen : GenerationState) (flat : List (FlatRule Net)) (now : ℕ)
      (ws : List (Write Trie))
      → gen.default_deny_accum < 2 ^ 64
      → default_deny (flip ip lpm maps gen flat now ws).0 (flip ip lpm maps gen flat now ws).1
        ≡ default_deny (apply_writes maps ws) gen
  unfolding flip prune_retired_counters
  flip-default_deny maps gen flat now ws small =
      let all' =
        fold_and_reset_counters-default_deny (apply_writes maps ws) gen (length flat) small in
      unfold default_deny in all'

  -- Where at most 256 rules were and are installed, and the accumulated denials fit in 64 bits, an
  -- apply that succeeds leaves the count of every rule of the new policy as it was, wherever the
  -- rule stands in it, drops the counts of the other rules, and keeps the count of denials by
  -- default.
  pub apply_generation-counts :
      (maps : Maps Trie) (gen : GenerationState) (flat : List (FlatRule Net)) (now : ℕ)
      {out : Maps Trie × GenerationState}
      → length gen.idx_to_rule_id ≤ 256
      → length flat ≤ 256
      → gen.default_deny_accum < 2 ^ 64
      → apply_generation ip lpm maps gen flat now ≡ some out
      → (by_rule out.0 out.1 ≡ kept_of (build_rules flat).1 (by_rule maps gen))
        × (default_deny out.0 out.1 ≡ default_deny maps gen)
  apply_generation-counts maps gen flat now {out} old new' small h =
      let (ws, e, is) = apply_generation-eq-some ip lpm maps gen flat now h in
      let same =
        Fills-counters (target_of ip lpm maps) maps ws (install-Fills ip lpm maps flat e) in
      subst
        (λ (o : Maps Trie × GenerationState).
          (by_rule o.0 o.1 ≡ kept_of (build_rules flat).1 (by_rule maps gen))
          × (default_deny o.0 o.1 ≡ default_deny maps gen))
        is
        (
          flip-by_rule maps gen flat now ws old new'
              ∙ ap (kept_of (build_rules flat).1)
                  (by_rule-counters (apply_writes maps ws) maps gen same),
          flip-default_deny maps gen flat now ws small
              ∙ unfold default_deny in
                ap (λ (c : ℕ → ℕ). (gen.default_deny_accum + c ctr_default_deny) % 2 ^ 64) same,
        )
