-- ===== src/Enforcer/RuleBits.antt =====
-- crates/wiremesh-enforcer-ebpf/common/src/lib.rs: the bitset of rules, four 64-bit words.
use wire_mesh.Common.Bits.{test_bit, test_bit-bit_and, test_bit-bit_or, test_bit-pow, test_bit-zero}
use wire_mesh.Common.{
  ℕ, zero, suc, ◌/◌, ◌%◌, ◌^◌, ◌<◌, bit_and, bit_or, ◌≡◌, refl, Bool, true, false, not, ◌&&◌, ◌||◌,
  arith, leb, ltb, ◌==◌, if◌then◌else◌, inl, inr, Bool-cases, ap, ==_iff,
}

abbrev pub max_rules : ℕ
max_rules = 256

abbrev pub bitset_words : ℕ
bitset_words = 4

-- `[u64; BITSET_WORDS]`
pub record RuleBits : Type 0 where
  pub w0 : ℕ
  pub w1 : ℕ
  pub w2 : ℕ
  pub w3 : ℕ

abbrev pub no_bits : RuleBits
no_bits = record { w0 = 0; w1 = 0; w2 = 0; w3 = 0 }

-- `bits[w]` for an index below `BITSET_WORDS`
abbrev pub word : RuleBits → ℕ → ℕ
word b zero = b.w0
word b (suc zero) = b.w1
word b (suc (suc zero)) = b.w2
word b (suc (suc (suc _))) = b.w3

-- `bits[w] = v` for an index below `BITSET_WORDS`
abbrev pub set_word : RuleBits → ℕ → ℕ → RuleBits
set_word b zero v = record b { w0 = v }
set_word b (suc zero) v = record b { w1 = v }
set_word b (suc (suc zero)) v = record b { w2 = v }
set_word b (suc (suc (suc _))) v = record b { w3 = v }

unfoldable pub bit_get : RuleBits → ℕ → Bool
bit_get bits idx =
    let w = idx / 64 in
    if leb bitset_words w then false else not (test_bit (word bits w) (idx % 64) == 0)

unfoldable pub bit_set : RuleBits → ℕ → RuleBits
bit_set bits idx =
    let w = idx / 64 in
    if ltb w bitset_words then set_word bits w (bit_or (word bits w) (2 ^ (idx % 64))) else bits

-- the loop of `scan_generation` that joins the two sides
unfoldable pub and_bits : RuleBits → RuleBits → RuleBits
and_bits a b = record {
  w0 = bit_and a.w0 b.w0;
  w1 = bit_and a.w1 b.w1;
  w2 = bit_and a.w2 b.w2;
  w3 = bit_and a.w3 b.w3;
}

word-set_word_self : (b : RuleBits) (w v : ℕ) → w < 4 → word (set_word b w v) w ≡ v
word-set_word_self b zero v h = refl
word-set_word_self b (suc zero) v h = refl
word-set_word_self b (suc (suc zero)) v h = refl
word-set_word_self b (suc (suc (suc n))) v h = refl

word-set_word_ne :
    (b : RuleBits) (w u v : ℕ)
    → w < 4
    → u < 4
    → (w == u) ≡ false
    → word (set_word b w v) u ≡ word b u
word-set_word_ne b zero zero v hw hu ne = absurd (ground arith)
word-set_word_ne b zero (suc zero) v hw hu ne = refl
word-set_word_ne b zero (suc (suc zero)) v hw hu ne = refl
word-set_word_ne b zero (suc (suc (suc u))) v hw hu ne = refl
word-set_word_ne b (suc zero) zero v hw hu ne = refl
word-set_word_ne b (suc zero) (suc zero) v hw hu ne = absurd (ground arith)
word-set_word_ne b (suc zero) (suc (suc zero)) v hw hu ne = refl
word-set_word_ne b (suc zero) (suc (suc (suc u))) v hw hu ne = refl
word-set_word_ne b (suc (suc zero)) zero v hw hu ne = refl
word-set_word_ne b (suc (suc zero)) (suc zero) v hw hu ne = refl
word-set_word_ne b (suc (suc zero)) (suc (suc zero)) v hw hu ne = absurd (ground arith)
word-set_word_ne b (suc (suc zero)) (suc (suc (suc u))) v hw hu ne = refl
word-set_word_ne b (suc (suc (suc w))) zero v hw hu ne = refl
word-set_word_ne b (suc (suc (suc w))) (suc zero) v hw hu ne = refl
word-set_word_ne b (suc (suc (suc w))) (suc (suc zero)) v hw hu ne = refl
word-set_word_ne b (suc (suc (suc w))) (suc (suc (suc u))) v hw hu ne = absurd (ground arith)

-- one word: `w |= 1 << i`, then `(w >> j) & 1 != 0`
or_one_bit :
    (w i j : ℕ) → not (test_bit (bit_or w (2 ^ i)) j == 0) ≡ (i == j || not (test_bit w j == 0))
or_one_bit w i j = ground (arith, test_bit-bit_or j w (2 ^ i), test_bit-pow i j)

abbrev get_at : RuleBits → ℕ → ℕ → Bool
get_at bits w k = if leb bitset_words w then false else not (test_bit (word bits w) k == 0)

get_at-set_word :
    (b : RuleBits) (w u r s : ℕ)
    → w < 4
    → get_at (set_word b w (bit_or (word b w) (2 ^ r))) u s ≡ (w == u && r == s || get_at b u s)
get_at-set_word b w u r s h = elim (Bool-cases (leb 4 u)) [
  | inl far ↦ ground arith
  | inr near ↦ elim (Bool-cases (w == u)) [
    | inl same ↦
        let near' : u < 4 = ground arith in
        rw
          (
            (==_iff w u).0 same,
            near,
            (==_iff u u).1 refl,
            word-set_word_self b u (bit_or (word b u) (2 ^ r)) near',
          )
          (or_one_bit (word b u) r s)
    | inr other ↦
        rw (near, other, word-set_word_ne b w u (bit_or (word b w) (2 ^ r)) h (ground arith) other)
  ]
]

same_index : (i j : ℕ) → (i == j) ≡ (i / 64 == j / 64 && i % 64 == j % 64)
same_index i j = ground arith

-- Setting a bit below 256 sets that bit and leaves every other one as it was.
pub bit_get-bit_set :
    (b : RuleBits) (i j : ℕ) → i < max_rules → bit_get (bit_set b i) j ≡ (i == j || bit_get b j)
unfolding bit_get bit_set
bit_get-bit_set b i j h =
    let low : ltb (i / 64) 4 ≡ true = ground arith in
    rw (same_index i j, low) (get_at-set_word b (i / 64) (j / 64) (i % 64) (j % 64) (omega arith))

word-and_bits : (a b : RuleBits) (w : ℕ) → word (and_bits a b) w ≡ bit_and (word a w) (word b w)
unfolding and_bits
word-and_bits a b zero = refl
word-and_bits a b (suc zero) = refl
word-and_bits a b (suc (suc zero)) = refl
word-and_bits a b (suc (suc (suc _))) = refl

-- A bit of the joined bitset is set exactly when it is set in both.
pub bit_get-and_bits :
    (a b : RuleBits) (j : ℕ) → bit_get (and_bits a b) j ≡ (bit_get a j && bit_get b j)
unfolding bit_get
bit_get-and_bits a b j =
    let w = j / 64 in
    ground (
      arith,
      word-and_bits a b w,
      ap (λ (x : ℕ). test_bit x (j % 64)) (word-and_bits a b w),
      test_bit-bit_and (j % 64) (word a w) (word b w),
    )

word-no_bits : (w : ℕ) → word no_bits w ≡ 0
word-no_bits zero = refl
word-no_bits (suc zero) = refl
word-no_bits (suc (suc zero)) = refl
word-no_bits (suc (suc (suc _))) = refl

pub bit_get-no_bits : (j : ℕ) → bit_get no_bits j ≡ false
unfolding bit_get
bit_get-no_bits j = rw (word-no_bits (j / 64), test_bit-zero (j % 64)) (ground arith)
