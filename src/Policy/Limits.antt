-- ===== src/Policy/Limits.antt =====
-- crates/wiremesh-policy/src/compile.rs: the two limits that are counted on the compiled blocks.
use wire_mesh.Common.{
  str_eq, ℕ, max, String, none, List, [], ◌∷◌, ◌++◌, ltb, if◌then◌else◌, length, is_empty, any_of,
  sum_of,
}
use wire_mesh.Policy.Ir.{IrRule, IrBlock}
use wire_mesh.Policy.Dsl.{CompileError, Field, on_src, on_dst, Fault, too_many_cidrs}

abbrev pub compiled_max_rules : ℕ
compiled_max_rules = 256

abbrev pub max_lpm_cidrs_per_side : ℕ
max_lpm_cidrs_per_side = 1024

-- `r.ports.len().max(1)`, summed over the rules of all blocks
unfoldable pub flattened_count : List IrBlock → ℕ
flattened_count bs = sum_of (λ b. sum_of (λ (r : IrRule). max (length r.ports) 1) b.rules) bs

-- a rule's own CIDRs on a side, or the block's
unfoldable pub effective_texts : Field → IrBlock → IrRule → List String
effective_texts on_src b r = if is_empty r.src then b.src_cidrs else r.src
effective_texts on_dst b r = if is_empty r.dst then b.dst_cidrs else r.dst

-- the `BTreeSet`, as a list without duplicates, of which only the length is asked
unfoldable pub set_insert : String → List String → List String
set_insert s set = if any_of (str_eq s) set then set else s ∷ set

unfoldable pub set_extend : List String → List String → List String
unfolding set_insert
set_extend set [] = set
set_extend set (s ∷ ss) = set_extend (set_insert s set) ss

unfoldable pub extend_rules : Field → IrBlock → List String → List IrRule → List String
unfolding effective_texts set_extend
extend_rules side b set [] = set
extend_rules side b set (r ∷ rs) =
    extend_rules side b (set_extend set (effective_texts side b r)) rs

unfoldable pub extend_blocks : Field → List String → List IrBlock → List String
unfolding extend_rules
extend_blocks side set [] = set
extend_blocks side set (b ∷ bs) = extend_blocks side (extend_rules side b set b.rules) bs

unfoldable pub distinct_count : Field → List IrBlock → ℕ
unfolding extend_blocks
distinct_count side bs = length (extend_blocks side [] bs)

abbrev pub of_policy : Fault → CompileError
of_policy f = record { block = none; rule = none; msg = f }

abbrev pub side_errors : Field → ℕ → List CompileError
side_errors side count =
    if ltb max_lpm_cidrs_per_side count then of_policy (too_many_cidrs side count) ∷ [] else []

abbrev pub rules_errors : ℕ → List CompileError
rules_errors count =
    if ltb compiled_max_rules count then of_policy (Fault.too_many_rules count) ∷ [] else []

unfoldable pub limit_errors : List IrBlock → List CompileError
unfolding flattened_count distinct_count
limit_errors bs =
    rules_errors (flattened_count bs)
    ++ (side_errors on_src (distinct_count on_src bs)
        ++ side_errors on_dst (distinct_count on_dst bs))
