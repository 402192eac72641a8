-- ===== src/Gateway/Base64/RoundTrip.antt =====
-- Encoding a key and decoding it again.
use wire_mesh.Gateway.Base64.{
  val-digit, digit-kept, digit_at, base64_encode, kept, byte_at, decode_chunks, val, base64_decode,
}
use wire_mesh.Common.{ℕ, ◌+◌, ◌*◌, ◌/◌, ◌%◌, ◌^◌, ◌<◌, ◌≡◌, refl, ◌∙◌, some, List, [], ◌∷◌, arith}

-- every entry is a byte
abbrev pub IsBytes : List ℕ → Type 0
IsBytes [] = Unit
IsBytes (b ∷ bs) = (b < 256) × IsBytes bs

abbrev sextet : ℕ → ℕ → ℕ
sextet n shift = n / 2 ^ shift % 64

kept-digit : (n shift : ℕ) (cs : List ℕ) → kept (digit_at n shift ∷ cs) ≡ digit_at n shift ∷ kept cs
unfolding kept
kept-digit n shift cs =
    let yes' = digit-kept (n / 2 ^ shift % 64) (omega arith) in ground (arith, yes')

kept-pad : (cs : List ℕ) → kept (b'=' ∷ cs) ≡ kept cs
unfolding kept
kept-pad cs = refl

val-digit_at : (n shift : ℕ) → val (digit_at n shift) ≡ some (sextet n shift)
val-digit_at n shift = val-digit (n / 2 ^ shift % 64) (omega arith)

-- what the sextets of three bytes are joined to
join-sextets :
    (n : ℕ)
    → n < 2 ^ 24
    → sextet n 18 * 2 ^ 18 + sextet n 12 * 2 ^ 12 + sextet n 6 * 2 ^ 6 + sextet n 0 ≡ n
join-sextets n h = omega (arith, h)

decode-four :
    (n : ℕ) (cs : List ℕ) {rest : List ℕ}
    → n < 2 ^ 24
    → decode_chunks cs ≡ some rest
    → decode_chunks (digit_at n 18 ∷ digit_at n 12 ∷ digit_at n 6 ∷ digit_at n 0 ∷ cs)
      ≡ some (byte_at n 16 ∷ byte_at n 8 ∷ byte_at n 0 ∷ rest)
unfolding decode_chunks
decode-four n cs {rest} h e =
    rw
      (
        val-digit_at n 18,
        val-digit_at n 12,
        val-digit_at n 6,
        val-digit_at n 0,
        e,
        join-sextets n h,
      )
      refl

decode-three :
    (n : ℕ)
    → n < 2 ^ 24
    → n % 2 ^ 8 ≡ 0
    → decode_chunks (digit_at n 18 ∷ digit_at n 12 ∷ digit_at n 6 ∷ [])
      ≡ some (byte_at n 16 ∷ byte_at n 8 ∷ [])
unfolding decode_chunks
decode-three n h z =
    let joined : sextet n 18 * 2 ^ 18 + sextet n 12 * 2 ^ 12 + sextet n 6 * 2 ^ 6 ≡ n =
      omega (arith, h, z) in
    rw (val-digit_at n 18, val-digit_at n 12, val-digit_at n 6, joined) refl

decode-two :
    (n : ℕ)
    → n < 2 ^ 24
    → n % 2 ^ 16 ≡ 0
    → decode_chunks (digit_at n 18 ∷ digit_at n 12 ∷ []) ≡ some (byte_at n 16 ∷ [])
unfolding decode_chunks
decode-two n h z =
    let joined : sextet n 18 * 2 ^ 18 + sextet n 12 * 2 ^ 12 ≡ n = omega (arith, h, z) in
    rw (val-digit_at n 18, val-digit_at n 12, joined) refl

-- The bytes that are encoded are the bytes that are decoded, whatever their number.
pub base64_decode-base64_encode :
    (bs : List ℕ) → IsBytes bs → base64_decode (base64_encode bs) ≡ some bs
unfolding base64_decode base64_encode
base64_decode-base64_encode [] h = refl
base64_decode-base64_encode (a ∷ []) (ha, _) =
    let n = a * 2 ^ 16 in
    let same : byte_at n 16 ≡ a = omega (arith, ha) in
    rw (kept-digit n 18, kept-digit n 12, kept-pad (b'=' ∷ []), kept-pad [])
      (decode-two n (omega (arith, ha)) (omega arith) ∙ rw same refl)
base64_decode-base64_encode (a ∷ b ∷ []) (ha, (hb, _)) =
    let n = a * 2 ^ 16 + b * 2 ^ 8 in
    let same : byte_at n 16 ≡ a = omega (arith, ha, hb) in
    let same' : byte_at n 8 ≡ b = omega (arith, ha, hb) in
    rw (kept-digit n 18, kept-digit n 12, kept-digit n 6, kept-pad [])
      (decode-three n (omega (arith, ha, hb)) (omega arith) ∙ rw (same, same') refl)
base64_decode-base64_encode (a ∷ b ∷ c ∷ bs) (ha, (hb, (hc, hs))) =
    let n = a * 2 ^ 16 + b * 2 ^ 8 + c in
    let same : byte_at n 16 ≡ a = omega (arith, ha, hb, hc) in
    let same' : byte_at n 8 ≡ b = omega (arith, ha, hb, hc) in
    let same'' : byte_at n 0 ≡ c = omega (arith, ha, hb, hc) in
    rw (kept-digit n 18, kept-digit n 12, kept-digit n 6, kept-digit n 0)
      (decode-four n (kept (base64_encode bs)) (omega (arith, ha, hb, hc))
          (base64_decode-base64_encode bs hs)
        ∙ rw (same, same', same'') refl)
