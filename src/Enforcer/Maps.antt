-- ===== src/Enforcer/Maps.antt =====
-- crates/wiremesh-enforcer-ebpf/common/src/lib.rs and the maps of
-- crates/wiremesh-enforcer-ebpf/program/src/main.rs that hold the policy.
use wire_mesh.Common.{ℕ, Option, none, some, if◌then◌else◌, ◌==◌}

abbrev pub ctr_default_deny : ℕ
ctr_default_deny = 256

abbrev pub ctr_flow_hit : ℕ
ctr_flow_hit = 257

abbrev pub counters_len : ℕ
counters_len = 258

abbrev pub generations : ℕ
generations = 2

abbrev pub act_deny : ℕ
act_deny = 0

abbrev pub act_allow : ℕ
act_allow = 1

pub record RuleMeta : Type 0 where
  pub action : ℕ
  pub proto : ℕ
  pub port_lo : ℕ
  pub port_hi : ℕ

-- a fresh array is zeroed
abbrev pub zero_meta : RuleMeta
zero_meta = record { action = 0; proto = 0; port_lo = 0; port_hi = 0 }

-- a value at one key of a map
unfoldable pub update {ℓ} : {A : Type ℓ} → (ℕ → A) → ℕ → A → ℕ → A
update f k v j = if k == j then v else f j

-- A generation's slot of an outer array is empty before the first `apply`.
pub record Maps (Trie : Type 0) : Type 0 where
  pub active : ℕ
  pub gen_src : ℕ → Option Trie
  pub gen_dst : ℕ → Option Trie
  pub gen_rules : ℕ → Option (ℕ → RuleMeta)
  pub gen_meta : ℕ → Option ℕ
  pub counters : ℕ → ℕ

abbrev pub fresh_maps : {Trie : Type 0} → Maps Trie
fresh_maps = record {
  active = 0;
  gen_src = λ _. none;
  gen_dst = λ _. none;
  gen_rules = λ _. none;
  gen_meta = λ _. none;
  counters = λ _. 0;
}

-- One system call of the loader that changes a map.
pub data Write (Trie : Type 0) : Type 0 where
  set_src : ℕ → Trie → Write Trie
  set_dst : ℕ → Trie → Write Trie
  set_rules : ℕ → (ℕ → RuleMeta) → Write Trie
  set_meta : ℕ → ℕ → Write Trie
  set_counter : ℕ → ℕ → Write Trie
  set_active : ℕ → Write Trie

unfoldable pub write : {Trie : Type 0} → Maps Trie → Write Trie → Maps Trie
unfolding update
write m (set_src s t) = record m { gen_src = update m.gen_src s (some t) }
write m (set_dst s t) = record m { gen_dst = update m.gen_dst s (some t) }
write m (set_rules s r) = record m { gen_rules = update m.gen_rules s (some r) }
write m (set_meta s n) = record m { gen_meta = update m.gen_meta s (some n) }
write m (set_counter i v) = record m { counters = update m.counters i v }
write m (set_active s) = record m { active = s }
