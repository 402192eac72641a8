-- ===== src/External/LpmTrie.antt =====
-- The kernel's BPF_MAP_TYPE_LPM_TRIE, with keys of a prefix length and eight bytes of data. The
-- model's machine is little-endian: the first four bytes of the data, in memory order, are the
-- bytes of `data % 2 ^ 32` from the lowest.
use wire_mesh.Common.{
  ℕ, ◌+◌, ◌*◌, ◌/◌, ◌%◌, ◌^◌, ◌≤◌, ◌<◌, ◌≡◌, ◌≢◌, Bool, true, Option, none, some, List, [], ◌∷◌,
  ◌==◌, arith, length, In,
}
use wire_mesh.External.Ipnet.{top_bits}

-- The four bytes of a 32-bit word in the other order: `to_be` and `from_be`.
abbrev pub swap32 : ℕ → ℕ
swap32 x = x % 256 * 16777216 + x / 256 % 256 * 65536 + x / 65536 % 256 * 256 + x / 16777216 % 256

pub swap32-swap32 : (x : ℕ) → x < 2 ^ 32 → swap32 (swap32 x) ≡ x
swap32-swap32 x h = omega arith

pub record LpmKey : Type 0 where
  pub prefix_len : ℕ
  pub data_word : ℕ

-- The key's prefix agrees with the first bytes of the address, read as a big-endian number.
abbrev pub lpm_matches : LpmKey → ℕ → Bool
lpm_matches k addr =
    top_bits k.prefix_len (swap32 k.data_word) == top_bits k.prefix_len (swap32 addr)

pub record LpmTrie (V : Type 0) : Type 1 where
  pub Trie : Type 0
  pub create : ℕ → Trie
  -- `none` is an error of the system call
  pub insert : LpmKey → V → Trie → Option Trie
  -- a lookup with a key of 32 bits
  pub get : Trie → ℕ → Option V
  -- what has been inserted, the latest first; an entry that was overwritten may stay in it
  pub entries : Trie → List (LpmKey × V)
  pub max_entries : Trie → ℕ
  pub entries-create : (n : ℕ) → entries (create n) ≡ []
  pub max_entries-create : (n : ℕ) → max_entries (create n) ≡ n
  pub entries-insert :
      (k : LpmKey) (v : V) (t : Trie) {u : Trie}
      → insert k v t ≡ some u
      → entries u ≡ (k, v) ∷ entries t
  pub max_entries-insert :
      (k : LpmKey) (v : V) (t : Trie) {u : Trie}
      → insert k v t ≡ some u
      → max_entries u ≡ max_entries t
  -- only a full trie refuses a key of at most 32 bits
  pub insert-ne-none :
      (k : LpmKey) (v : V) (t : Trie)
      → k.prefix_len ≤ 32
      → length (entries t) < max_entries t
      → insert k v t ≢ none
  pub get-none :
      (t : Trie) (a : ℕ)
      → get t a ≡ none
      → (k : LpmKey) (v : V) → In (k, v) (entries t)
      → lpm_matches k a ≢ true
  -- a lookup returns a value that was inserted under a longest matching key
  pub get-some :
      (t : Trie) (a : ℕ) {v : V}
      → get t a ≡ some v
      → (k : LpmKey) × In (k, v) (entries t)
        × (lpm_matches k a ≡ true)
        × ((j : LpmKey) (w : V)
            → In (j, w) (entries t)
            → lpm_matches j a ≡ true
            → j.prefix_len ≤ k.prefix_len)
