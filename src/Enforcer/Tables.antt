-- ===== src/Enforcer/Tables.antt =====
-- crates/wiremesh-enforcer/src/ebpf.rs: the tables of a generation, built from the flat rules, and
-- their installation.
use wire_mesh.Common.{
  ℕ, suc, String, Option, none, some, List, [], ◌∷◌, map, ltb, if◌then◌else◌, length, any_of,
}
use wire_mesh.Common.Result.{Result, ◌>>◌}
use wire_mesh.External.Ipnet.{Ipnet}
use wire_mesh.External.LpmTrie.{LpmTrie, LpmKey, swap32}
use wire_mesh.Policy.Ir.{IrAction, allow, deny, IrProto, tcp, udp, icmp, any}
use wire_mesh.Enforcer.RuleBits.{RuleBits, no_bits, bit_set, max_rules}
use wire_mesh.Enforcer.Maps.{
  RuleMeta, zero_meta, act_allow, act_deny, update, Write, set_src, set_dst, set_rules, set_meta,
}
use wire_mesh.Enforcer.Flatten.{FlatRule, Side, src, dst, FlattenError, check_side}
use wire_mesh.Enforcer.Flatten.Distinct.{DistinctSideCidrs, default, observe, lpm_max_entries}

unfoldable pub proto_num : IrProto → ℕ
proto_num tcp = 6
proto_num udp = 17
proto_num icmp = 1
proto_num any = 0

unfoldable pub action_num : IrAction → ℕ
action_num allow = act_allow
action_num deny = act_deny

module _ {Net : Type 0} where
  unfoldable pub rule_meta : FlatRule Net → RuleMeta
  unfolding action_num proto_num
  rule_meta f = record {
    action = action_num f.action;
    proto = proto_num f.proto;
    port_lo = f.port_lo;
    port_hi = f.port_hi;
  }

  unfoldable pub build_rules : List (FlatRule Net) → List RuleMeta × List String
  unfolding rule_meta
  build_rules [] = ([], [])
  build_rules (f ∷ fs) = let (rules, ids) = build_rules fs in (rule_meta f ∷ rules, f.rule_id ∷ ids)

  unfoldable pub side_cidrs : FlatRule Net → Side → List Net
  side_cidrs f src = f.src_cidrs
  side_cidrs f dst = f.dst_cidrs

-- `for (i, r) in rules.iter().enumerate() { rules_arr.set(i, r)? }`
unfoldable pub fill_rules : ℕ → List RuleMeta → (ℕ → RuleMeta) → Option (ℕ → RuleMeta)
unfolding update
fill_rules i [] arr = some arr
fill_rules i (r ∷ rs) arr =
    let rest = fill_rules (suc i) rs (update arr i r) in if ltb i max_rules then rest else none

module _ (ip : Ipnet) where
  open ip use {Net, net_eq, prefix_len, network, contains}

  unfoldable pub accumulate_from :
      DistinctSideCidrs Net → List (FlatRule Net) → Side → DistinctSideCidrs Net
  accumulate_from acc [] side = acc
  accumulate_from acc (f ∷ fs) side =
      accumulate_from (observe net_eq acc (side_cidrs f side)) fs side

  unfoldable pub accumulate_side : List (FlatRule Net) → Side → DistinctSideCidrs Net
  unfolding accumulate_from
  accumulate_side flat side = accumulate_from default flat side

  unfoldable pub check_lpm_capacity : List (FlatRule Net) → Result FlattenError (Unit {0})
  unfolding accumulate_side check_side
  check_lpm_capacity flat = do
    check_side ip src (accumulate_side flat src)
    check_side ip dst (accumulate_side flat dst)

  -- the rules that cover the prefix `p` on the side
  unfoldable pub covering_bits : List (FlatRule Net) → Side → Net → RuleBits → RuleBits
  unfolding side_cidrs
  covering_bits [] side p bits = bits
  covering_bits (f ∷ fs) side p bits =
      covering_bits fs side p
        (if any_of (λ c. contains c p) (side_cidrs f side) then bit_set bits f.idx else bits)

  unfoldable pub build_lpm_entries : List (FlatRule Net) → Side → List (Net × RuleBits)
  unfolding accumulate_side covering_bits
  build_lpm_entries flat side =
      map (λ p. (p, covering_bits flat side p no_bits)) (accumulate_side flat side).order

  -- `LpmKey::new(net.prefix_len(), u32::from(net.network()).to_be() as u64)`
  unfoldable pub key_of : Net → LpmKey
  key_of n = record { prefix_len = prefix_len n; data_word = swap32 (network n) }

  module _ (lpm : LpmTrie RuleBits) where
    open lpm use {Trie, create, insert}

    unfoldable pub insert_all : Trie → List (Net × RuleBits) → Option Trie
    unfolding key_of
    insert_all t [] = some t
    insert_all t ((n, b) ∷ es) = elim (insert (key_of n) b t) [
      | none ↦ none
      | some u ↦ insert_all u es
    ]

    unfoldable pub build_trie : List (Net × RuleBits) → Option Trie
    unfolding insert_all
    build_trie es = insert_all (create lpm_max_entries) es

    -- the four system calls of `install_generation`, in their order
    unfoldable pub generation_writes :
        ℕ → ℕ → Option Trie → Option Trie → Option (ℕ → RuleMeta) → Option (List (Write Trie))
    generation_writes target len none d arr = none
    generation_writes target len (some s) none arr = none
    generation_writes target len (some s) (some d) none = none
    generation_writes target len (some s) (some d) (some arr) =
        some (set_src target s ∷ set_dst target d ∷ set_rules target arr ∷ set_meta target len ∷ [])

    -- the writes, or an error before the first
    unfoldable pub install_generation :
        ℕ
        → List (Net × RuleBits)
        → List (Net × RuleBits)
        → List RuleMeta
        → Option (List (Write Trie))
    unfolding build_trie fill_rules generation_writes
    install_generation target src_entries dst_entries rules =
        generation_writes target (length rules) (build_trie src_entries) (build_trie dst_entries)
          (fill_rules 0 rules (λ _. zero_meta))
