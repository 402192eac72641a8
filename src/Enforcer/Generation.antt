-- ===== src/Enforcer/Generation.antt =====
-- crates/wiremesh-enforcer/src/ebpf.rs: the life of a generation. The array map COUNTERS answers at
-- every index in range, so its reads and writes do not fail here.
pub mod Flip
pub mod Counts
use wire_mesh.Enforcer.RuleBits.{RuleBits}
use wire_mesh.External.LpmTrie.{LpmTrie}
use wire_mesh.External.Ipnet.{Ipnet}
use wire_mesh.Common.{
  str_eq, ℕ, zero, suc, ◌+◌, ◌-◌, ◌*◌, ◌/◌, ◌%◌, ◌^◌, ◌≤◌, ◌<◌, min, max, String, ◌≡◌, refl, sym,
  ap, ◌∙◌, subst, ◌≢◌, ◌↔◌, ◌⊎◌, inl, inr, Bool, true, false, not, ◌&&◌, ◌||◌, Option, none, some,
  List, [], ◌∷◌, ◌++◌, map, arith, ltb, leb, ◌==◌, if◌then◌else◌, is_some, leb→le, ==_iff,
  Bool-cases, Option-cases, length, is_empty, get_elem?, any_of, all_of, sum_of, In, here, there,
}
use wire_mesh.Enforcer.Maps.{Maps, Write, write, update, ctr_default_deny}
use wire_mesh.Enforcer.Tables.{build_rules, build_lpm_entries, install_generation}
use wire_mesh.Enforcer.Flatten.{FlatRule, src, dst}

-- `BTreeMap<String, u64>`
abbrev pub Counts : Type 0
Counts = String → Option ℕ

abbrev pub or_zero : Option ℕ → ℕ
or_zero none = 0
or_zero (some n) = n

-- `*map.entry(id).or_insert(0) += v`
unfoldable pub add_count : Counts → String → ℕ → Counts
add_count m id v j = if str_eq id j then some ((or_zero (m id) + v) % 2 ^ 64) else m j

pub record PendingReap : Type 0 where
  pub slot : ℕ
  pub flipped_at : ℕ

pub record GenerationState : Type 0 where
  pub idx_to_rule_id : List String
  pub pending_reap : Option PendingReap
  pub counter_accum : Counts
  pub default_deny_accum : ℕ

-- the counters and the accumulators that `fold_and_reset_counters` changes
pub record Folding : Type 0 where
  pub live : ℕ → ℕ
  pub accum : Counts

abbrev attributed : Counts → Option String → ℕ → Counts
attributed m none v = m
attributed m (some id) v = add_count m id v

unfoldable pub fold_slot : Folding → ℕ → Option String → Folding
unfolding add_count update
fold_slot f idx id =
    if ltb 0 (f.live idx)
    then record { live = update f.live idx 0; accum = attributed f.accum id (f.live idx) }
    else f

-- `for idx in idx..idx + k`, where `ids` are the rule ids from `idx` on
unfoldable pub fold_slots : ℕ → ℕ → List String → Folding → Folding
fold_slots zero idx ids f = f
fold_slots (suc k) idx [] f = fold_slots k (suc idx) [] (fold_slot f idx none)
fold_slots (suc k) idx (id ∷ ids) f = fold_slots k (suc idx) ids (fold_slot f idx (some id))

-- `counters`: the totals by rule
unfoldable pub live_counts : ℕ → List String → (ℕ → ℕ) → Counts → Counts
unfolding add_count
live_counts idx [] live m = m
live_counts idx (id ∷ ids) live m =
    live_counts (suc idx) ids live (if ltb 0 (live idx) then add_count m id (live idx) else m)

module _ {Trie : Type 0} where
  unfoldable pub by_rule : Maps Trie → GenerationState → Counts
  unfolding live_counts
  by_rule maps gen = live_counts 0 gen.idx_to_rule_id maps.counters gen.counter_accum

  unfoldable pub default_deny : Maps Trie → GenerationState → ℕ
  default_deny maps gen = (gen.default_deny_accum + maps.counters ctr_default_deny) % 2 ^ 64

  unfoldable pub fold_and_reset_counters :
      Maps Trie → GenerationState → ℕ → Maps Trie × GenerationState
  unfolding fold_slots update
  fold_and_reset_counters maps gen new_len =
      let reset_len = min (max (length gen.idx_to_rule_id) new_len) 256 in
      let f =
        fold_slots reset_len 0 gen.idx_to_rule_id
          (record { live = maps.counters; accum = gen.counter_accum }) in
      let dd = f.live ctr_default_deny in
      if ltb 0 dd
      then (
        record maps { counters = update f.live ctr_default_deny 0 },
        record gen {
          counter_accum = f.accum;
          default_deny_accum = (gen.default_deny_accum + dd) % 2 ^ 64;
        },
      )
      else (record maps { counters = f.live }, record gen { counter_accum = f.accum })

  unfoldable pub apply_writes : Maps Trie → List (Write Trie) → Maps Trie
  unfolding write
  apply_writes m [] = m
  apply_writes m (w ∷ ws) = apply_writes (write m w) ws

unfoldable pub prune_retired_counters : GenerationState → List String → GenerationState
prune_retired_counters gen ids = record gen {
  counter_accum = λ j. if any_of (λ id. str_eq id j) ids then gen.counter_accum j else none;
}

module _ (ip : Ipnet) (lpm : LpmTrie RuleBits) where
  open ip use {Net}
  open lpm use {Trie}

  -- the slot that the next generation is written to; `active` is 0 or 1, as the theorems on it ask
  abbrev pub target_of : Maps Trie → ℕ
  target_of maps = 1 - maps.active

  unfoldable pub install : Maps Trie → List (FlatRule Net) → Option (List (Write Trie))
  install maps flat =
      install_generation ip lpm (target_of maps) (build_lpm_entries ip flat src)
        (build_lpm_entries ip flat dst) (build_rules flat).0

  -- the flip, with the counters folded just before it
  unfoldable pub flip :
      Maps Trie
      → GenerationState
      → List (FlatRule Net)
      → ℕ
      → List (Write Trie)
      → Maps Trie × GenerationState
  unfolding apply_writes fold_and_reset_counters prune_retired_counters
  flip maps gen flat now writes =
      let (folded, g) = fold_and_reset_counters (apply_writes maps writes) gen (length flat) in
      let ids = (build_rules flat).1 in
      (
        record folded { active = target_of maps },
        record (prune_retired_counters g ids) {
          pending_reap = some (record { slot = maps.active; flipped_at = now });
          idx_to_rule_id = ids;
        },
      )

  unfoldable pub flip_after :
      Maps Trie
      → GenerationState
      → List (FlatRule Net)
      → ℕ
      → Option (List (Write Trie))
      → Option (Maps Trie × GenerationState)
  flip_after maps gen flat now none = none
  flip_after maps gen flat now (some writes) = some (flip maps gen flat now writes)

  unfoldable pub apply_generation :
      Maps Trie → GenerationState → List (FlatRule Net) → ℕ → Option (Maps Trie × GenerationState)
  unfolding install flip_after
  apply_generation maps gen flat now = flip_after maps gen flat now (install maps flat)
