-- ===== src/Enforcer/Flatten/Distinct.antt =====
-- crates/wiremesh-enforcer/src/flatten.rs: `DistinctSideCidrs`, the distinct CIDRs of a side.
use wire_mesh.Common.{ℕ, Bool, List, [], ◌∷◌, ◌++◌, ltb, if◌then◌else◌, length, any_of}

-- LPM_MAX_ENTRIES of crates/wiremesh-enforcer-ebpf/common/src/lib.rs
abbrev pub lpm_max_entries : ℕ
lpm_max_entries = 1024

-- the `HashSet` is a list without order, of which only membership is asked
pub record DistinctSideCidrs (Net : Type 0) : Type 0 where
  pub seen : List Net
  pub order : List Net

abbrev pub default : {Net : Type 0} → DistinctSideCidrs Net
default = record { seen = []; order = [] }

module _ {Net : Type 0} (eq : Net → Net → Bool) where
  -- `HashSet::contains`
  unfoldable pub member : Net → List Net → Bool
  member c seen = any_of (eq c) seen

  -- `if self.seen.insert(*c) { self.order.push(*c) }`
  unfoldable pub observe_one : DistinctSideCidrs Net → Net → DistinctSideCidrs Net
  unfolding member
  observe_one d c =
      if member c d.seen then d else record { seen = c ∷ d.seen; order = d.order ++ c ∷ [] }

  unfoldable pub observe : DistinctSideCidrs Net → List Net → DistinctSideCidrs Net
  unfolding observe_one
  observe d [] = d
  observe d (c ∷ cs) = observe (observe_one d c) cs

unfoldable pub over_capacity : {Net : Type 0} → DistinctSideCidrs Net → Bool
over_capacity d = ltb lpm_max_entries (length d.order)
