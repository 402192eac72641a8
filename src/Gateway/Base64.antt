-- ===== src/Gateway/Base64.antt =====
-- crates/wiremesh-gateway/src/uapi.rs: the base64 of the keys, on bytes.
pub mod RoundTrip
use wire_mesh.Common.{
  ℕ, zero, suc, ◌+◌, ◌-◌, ◌*◌, ◌/◌, ◌%◌, ◌^◌, ◌≤◌, ◌<◌, min, max, String, ◌≡◌, refl, sym, ap, ◌∙◌,
  subst, ◌≢◌, ◌↔◌, ◌⊎◌, inl, inr, Bool, true, false, not, ◌&&◌, ◌||◌, Option, none, some, List, [],
  ◌∷◌, ◌++◌, map, arith, ltb, leb, ◌==◌, if◌then◌else◌, is_some, leb→le, ==_iff, Bool-cases,
  Option-cases, length, is_empty, get_elem?, any_of, all_of, sum_of, In, here, there,
}
use wire_mesh.Policy.Numbers.{codes}

unfoldable pub alphabet : List ℕ
alphabet = codes "ABCDEFGHIJKLMNOPQRSTUVWXYZabcdefghijklmnopqrstuvwxyz0123456789+/"

abbrev pub or_zero : Option ℕ → ℕ
or_zero none = 0
or_zero (some c) = c

-- `B64[k]`, for `k` below 64
unfoldable pub digit_of : ℕ → ℕ
unfolding alphabet
digit_of k = or_zero (get_elem? alphabet k)

-- the characters of a chunk whose bytes are joined to `n`: `(n >> 18) & 63` and so on
abbrev pub digit_at : ℕ → ℕ → ℕ
digit_at n shift = digit_of (n / 2 ^ shift % 64)

-- the bytes of a chunk do not overlap in `n`, so `|` adds
unfoldable pub base64_encode : List ℕ → List ℕ
base64_encode [] = []
base64_encode (a ∷ []) = digit_at (a * 2 ^ 16) 18 ∷ digit_at (a * 2 ^ 16) 12 ∷ b'=' ∷ b'=' ∷ []
base64_encode (a ∷ b ∷ []) =
    digit_at (a * 2 ^ 16 + b * 2 ^ 8) 18
    ∷ digit_at (a * 2 ^ 16 + b * 2 ^ 8) 12
    ∷ digit_at (a * 2 ^ 16 + b * 2 ^ 8) 6
    ∷ b'='
    ∷ []
base64_encode (a ∷ b ∷ c ∷ rest) =
    digit_at (a * 2 ^ 16 + b * 2 ^ 8 + c) 18
    ∷ digit_at (a * 2 ^ 16 + b * 2 ^ 8 + c) 12
    ∷ digit_at (a * 2 ^ 16 + b * 2 ^ 8 + c) 6
    ∷ digit_at (a * 2 ^ 16 + b * 2 ^ 8 + c) 0
    ∷ base64_encode rest

unfoldable pub val : ℕ → Option ℕ
val c =
    if leb b'A' c && leb c b'Z'
    then some (c - b'A')
    else if leb b'a' c && leb c b'z'
    then some (c - b'a' + 26)
    else if leb b'0' c && leb c b'9'
    then some (c - b'0' + 52)
    else if c == b'+'
    then some 62
    else if c == b'/'
    then some 63
    else none

-- `c != b'=' && !c.is_ascii_whitespace()`
unfoldable pub is_kept : ℕ → Bool
is_kept c = not (c == b'=' || c == 9 || c == 10 || c == 12 || c == 13 || c == 32)

unfoldable pub kept : List ℕ → List ℕ
unfolding is_kept
kept [] = []
kept (c ∷ cs) = let rest = kept cs in if is_kept c then c ∷ rest else rest

-- `?` on the value of a character
abbrev pub with_val {ℓ} : {A : Type ℓ} → Option ℕ → (ℕ → Option A) → Option A
with_val none next = none
with_val (some v) next = next v

abbrev pub push_bytes : List ℕ → Option (List ℕ) → Option (List ℕ)
push_bytes bs none = none
push_bytes bs (some rest) = some (bs ++ rest)

-- `(n >> shift) as u8`
abbrev pub byte_at : ℕ → ℕ → ℕ
byte_at n shift = n / 2 ^ shift % 2 ^ 8

unfoldable pub decode_chunks : List ℕ → Option (List ℕ)
unfolding val
decode_chunks [] = some []
decode_chunks (c ∷ []) = with_val (val c) λ v. some (byte_at (v * 2 ^ 18) 16 ∷ [])
decode_chunks (c ∷ d ∷ []) =
    with_val (val c) λ v. with_val (val d) λ w. some (byte_at (v * 2 ^ 18 + w * 2 ^ 12) 16 ∷ [])
decode_chunks (c ∷ d ∷ e ∷ []) = with_val (val c) λ v. with_val (val d) λ w. with_val (val e) λ x.
    some (
      byte_at (v * 2 ^ 18 + w * 2 ^ 12 + x * 2 ^ 6) 16
      ∷ byte_at (v * 2 ^ 18 + w * 2 ^ 12 + x * 2 ^ 6) 8
      ∷ [])
decode_chunks (c ∷ d ∷ e ∷ f ∷ cs) =
    let rest = decode_chunks cs in
    with_val (val c) λ v. with_val (val d) λ w. with_val (val e) λ x. with_val (val f) λ y.
      push_bytes
        (byte_at (v * 2 ^ 18 + w * 2 ^ 12 + x * 2 ^ 6 + y) 16
          ∷ byte_at (v * 2 ^ 18 + w * 2 ^ 12 + x * 2 ^ 6 + y) 8
          ∷ byte_at (v * 2 ^ 18 + w * 2 ^ 12 + x * 2 ^ 6 + y) 0
          ∷ [])
        rest

unfoldable pub base64_decode : List ℕ → Option (List ℕ)
unfolding kept decode_chunks
base64_decode s = decode_chunks (kept s)

-- `base64_pub_from_priv`; the public half of an x25519 secret is an argument
unfoldable pub pub_of_raw : (List ℕ → List ℕ) → Option (List ℕ) → Option (List ℕ)
unfolding base64_encode
pub_of_raw x25519 none = none
pub_of_raw x25519 (some raw) = if length raw == 32 then some (base64_encode (x25519 raw)) else none

unfoldable pub base64_pub_from_priv : (List ℕ → List ℕ) → List ℕ → Option (List ℕ)
unfolding pub_of_raw base64_decode
base64_pub_from_priv x25519 priv = pub_of_raw x25519 (base64_decode priv)

-- The 64 characters, each checked.
abbrev is_good : ℕ → Bool
is_good k = is_kept (digit_of k) && elim (val (digit_of k)) [ none ↦ false | some v ↦ v == k ]

abbrev all_below : ℕ → (ℕ → Bool) → Bool
all_below zero p = true
all_below (suc n) p = p n && all_below n p

all_below-lt : (n k : ℕ) (p : ℕ → Bool) → k < n → all_below n p ≡ true → p k ≡ true
all_below-lt zero k p lt h = absurd (omega arith)
all_below-lt (suc n) k p lt h = elim (Bool-cases (n == k)) [
  | inl last ↦
      let same : n ≡ k = (==_iff n k).0 last in
      let at_n : p n ≡ true = ground (arith, h) in rw same at at_n
  | inr other ↦ all_below-lt n k p (ground arith) (ground (arith, h))
]

all_good : all_below 64 is_good ≡ true
unfolding is_kept digit_of val
all_good = refl

pub digit-kept : (k : ℕ) → k < 64 → is_kept (digit_of k) ≡ true
digit-kept k lt = let g = all_below-lt 64 k is_good lt all_good in ground (arith, g)

pub val-digit : (k : ℕ) → k < 64 → val (digit_of k) ≡ some k
val-digit k lt = let g = all_below-lt 64 k is_good lt all_good in ground (arith, g)
