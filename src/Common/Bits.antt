-- ===== src/Common/Bits.antt =====
-- `&` and `|` on words, digit by digit, at every width.
use Prim.Native.Nat.{digits, bit_and-bitwise, bit_or-bitwise}
use native.Mathlib.Nat.{pow-suc, pow-succ', add-zero, add-suc, div-div-eq-div-mul}
use wire_mesh.Common.{
  ℕ, zero, suc, ◌+◌, ◌-◌, ◌*◌, ◌/◌, ◌%◌, ◌^◌, ◌≤◌, min, max, bit_and, bit_or, ◌≡◌, refl, ap, arith,
  if◌then◌else◌, ◌==◌,
}

-- an operation on words that works on each binary digit, by `join`; `base` is its row at 0
module _ (base : ℕ → ℕ) (join : ℕ → ℕ → ℕ) where
  digits-fuel : (x y k l : ℕ) → x ≤ k → x ≤ l → digits base join k x y ≡ digits base join l x y
  digits-fuel zero y zero zero hk hl = refl
  digits-fuel zero y zero (suc l) hk hl = refl
  digits-fuel zero y (suc k) zero hk hl = refl
  digits-fuel zero y (suc k) (suc l) hk hl = refl
  digits-fuel (suc x) y zero l hk hl = absurd (omega arith)
  digits-fuel (suc x) y (suc k) zero hk hl = absurd (omega arith)
  digits-fuel (suc x) y (suc k) (suc l) hk hl =
      let low : suc x / 2 ≤ k = omega arith in
      let high : suc x / 2 ≤ l = omega arith in
      ap (λ (t : ℕ). t * 2 + join (suc x % 2) (y % 2))
        (digits-fuel (suc x / 2) (y / 2) k l low high)

  -- Such an operation takes the lowest digits apart from the others.
  digit_step :
      (op : ℕ → ℕ → ℕ)
      → ((x y : ℕ) → op x y ≡ digits base join x x y)
      → ((y : ℕ) → base y ≡ base (y / 2) * 2 + join 0 (y % 2))
      → (x y : ℕ) → op x y ≡ op (x / 2) (y / 2) * 2 + join (x % 2) (y % 2)
  digit_step op is row zero y = omega (arith, is 0 y, is 0 (y / 2), row y)
  digit_step op is row (suc x) y =
      let half : suc x / 2 ≤ x = omega arith in
      omega (
        arith,
        is (suc x) y,
        is (suc x / 2) (y / 2),
        digits-fuel (suc x / 2) (y / 2) x (suc x / 2) half (omega arith),
      )

and_step : (x y : ℕ) → bit_and x y ≡ bit_and (x / 2) (y / 2) * 2 + min (x % 2) (y % 2)
and_step = digit_step (λ _. 0) min bit_and bit_and-bitwise (λ y. omega arith)

or_step : (x y : ℕ) → bit_or x y ≡ bit_or (x / 2) (y / 2) * 2 + max (x % 2) (y % 2)
or_step = digit_step (λ y. y) max bit_or bit_or-bitwise (λ y. omega arith)

-- (a >> k) & 1
abbrev pub test_bit : ℕ → ℕ → ℕ
test_bit a k = a / 2 ^ k % 2

test_bit-suc : (a k : ℕ) → test_bit a (suc k) ≡ test_bit (a / 2) k
test_bit-suc a k = rw (pow-succ', ← div-div-eq-div-mul)

pub test_bit-bit_and : (k a b : ℕ) → test_bit (bit_and a b) k ≡ min (test_bit a k) (test_bit b k)
test_bit-bit_and zero a b = omega (arith, and_step a b)
test_bit-bit_and (suc k) a b =
    let half : bit_and a b / 2 ≡ bit_and (a / 2) (b / 2) = omega (arith, and_step a b) in
    rw (test_bit-suc a k, test_bit-suc b k, test_bit-suc (bit_and a b) k, half)
      (test_bit-bit_and k (a / 2) (b / 2))

pub test_bit-bit_or : (k a b : ℕ) → test_bit (bit_or a b) k ≡ max (test_bit a k) (test_bit b k)
test_bit-bit_or zero a b = omega (arith, or_step a b)
test_bit-bit_or (suc k) a b =
    let half : bit_or a b / 2 ≡ bit_or (a / 2) (b / 2) = omega (arith, or_step a b) in
    rw (test_bit-suc a k, test_bit-suc b k, test_bit-suc (bit_or a b) k, half)
      (test_bit-bit_or k (a / 2) (b / 2))

half_pow : (i : ℕ) → 2 ^ suc i / 2 ≡ 2 ^ i
half_pow i = omega (arith, pow-suc 2 i)

zero_bits : (j : ℕ) → test_bit 0 j ≡ 0
zero_bits zero = refl
zero_bits (suc j) = rw (test_bit-suc 0 j) (zero_bits j)

-- The only bit of `1 << i` that is set is bit `i`.
pub test_bit-pow : (i j : ℕ) → test_bit (2 ^ i) j ≡ (if i == j then 1 else 0)
test_bit-pow zero zero = refl
test_bit-pow zero (suc j) = rw (test_bit-suc 1 j) (ground (arith, zero_bits j))
test_bit-pow (suc i) zero = ground (arith, pow-suc 2 i)
test_bit-pow (suc i) (suc j) =
    rw (test_bit-suc (2 ^ suc i) j, half_pow i) (ground (arith, test_bit-pow i j))

pub test_bit-zero : (j : ℕ) → test_bit 0 j ≡ 0
test_bit-zero = zero_bits

-- Words that agree above bit `m` agree above every higher bit.
pub top_eq_mono : (m d a b : ℕ) → a / 2 ^ m ≡ b / 2 ^ m → a / 2 ^ (m + d) ≡ b / 2 ^ (m + d)
top_eq_mono m zero a b h = rw add-zero h
top_eq_mono m (suc d) a b h =
    rw (add-suc m d, pow-suc, ← div-div-eq-div-mul, ← div-div-eq-div-mul)
      (ap (λ (t : ℕ). t / 2) (top_eq_mono m d a b h))

pub top_eq_le : (m n a b : ℕ) → m ≤ n → a / 2 ^ m ≡ b / 2 ^ m → a / 2 ^ n ≡ b / 2 ^ n
top_eq_le m n a b h e =
    let same : m + (n - m) ≡ n = omega arith in rw same at (top_eq_mono m (n - m) a b e)
