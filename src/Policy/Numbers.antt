-- ===== src/Policy/Numbers.antt =====
-- The parts of Rust's `str` that the policy's port ranges go through, on code points: `split_once`,
-- `trim`, and `parse` for `i64` and `u16`.
use wire_mesh.Common.{
  ℕ, zero, suc, ◌+◌, ◌-◌, ◌*◌, ◌^◌, ◌<◌, String, ◌≡◌, ◌≢◌, inl, inr, Bool, ◌&&◌, ◌||◌, Option, none,
  some, List, [], ◌∷◌, arith, ltb, leb, ◌==◌, if◌then◌else◌, Bool-cases,
}
use Prim.Native.Char.{code}
use wire_mesh.Policy.Dsl.{ℤ, pos, negsuc}

abbrev pub codes : String → List ℕ
codes String.[] = []
codes (String.◌∷◌ c s) = code c ∷ codes s

-- Unicode's White_Space
unfoldable pub is_whitespace : ℕ → Bool
is_whitespace c =
    (leb 9 c && leb c 13)
    || c == 32
    || c == 133
    || c == 160
    || c == 5760
    || (leb 8192 c && leb c 8202)
    || c == 8232
    || c == 8233
    || c == 8239
    || c == 8287
    || c == 12288

unfoldable pub trim_start : List ℕ → List ℕ
trim_start [] = []
trim_start (c ∷ cs) = if is_whitespace c then trim_start cs else c ∷ cs

-- a character stays where a later one does, or where it is no blank
keep_end : ℕ → List ℕ → List ℕ
keep_end c [] = if is_whitespace c then [] else c ∷ []
keep_end c (d ∷ ds) = c ∷ d ∷ ds

unfoldable pub trim_end : List ℕ → List ℕ
unfolding keep_end
trim_end [] = []
trim_end (c ∷ cs) = keep_end c (trim_end cs)

unfoldable pub trim : List ℕ → List ℕ
trim cs = trim_end (trim_start cs)

ahead : ℕ → Option (List ℕ × List ℕ) → Option (List ℕ × List ℕ)
ahead c none = none
ahead c (some (before, after)) = some (c ∷ before, after)

-- `split_once('-')`
unfoldable pub split_once : List ℕ → Option (List ℕ × List ℕ)
unfolding ahead
split_once [] = none
split_once (c ∷ cs) = if c == b'-' then some ([], cs) else ahead c (split_once cs)

unfoldable pub digits_from : ℕ → List ℕ → Option ℕ
digits_from acc [] = some acc
digits_from acc (c ∷ cs) =
    let rest = digits_from (acc * 10 + (c - b'0')) cs in
    if leb b'0' c && leb c b'9' then rest else none

-- one digit at least
unfoldable pub parse_digits : List ℕ → Option ℕ
unfolding digits_from
parse_digits [] = none
parse_digits (c ∷ cs) = digits_from 0 (c ∷ cs)

-- The code stops at the first overflow; a number that overflows on the way is out of bounds at the
-- end.
abbrev pub bounded : ℕ → Option ℕ → Option ℕ
bounded limit none = none
bounded limit (some v) = if ltb v limit then some v else none

abbrev pub positive : Option ℕ → Option ℤ
positive none = none
positive (some v) = some (pos v)

abbrev pub minus : ℕ → ℤ
minus zero = pos 0
minus (suc n) = negsuc n

abbrev pub negative : Option ℕ → Option ℤ
negative none = none
negative (some v) = some (minus v)

unfoldable pub parse_i64 : List ℕ → Option ℤ
unfolding parse_digits
parse_i64 [] = none
parse_i64 (c ∷ cs) =
    if c == b'+'
    then positive (bounded (2 ^ 63) (parse_digits cs))
    else if c == b'-'
    then negative (bounded (2 ^ 63 + 1) (parse_digits cs))
    else positive (bounded (2 ^ 63) (parse_digits (c ∷ cs)))

unfoldable pub parse_u16 : List ℕ → Option ℕ
unfolding parse_digits
parse_u16 [] = none
parse_u16 (c ∷ cs) =
    if c == b'+'
    then bounded (2 ^ 16) (parse_digits cs)
    else bounded (2 ^ 16) (parse_digits (c ∷ cs))

-- A text that reads as a positive number below 2 ^ 16 as an `i64` reads as the same `u16`.
bounded-le : (a b : ℕ) (o : Option ℕ) {v : ℕ} → v < b → bounded a o ≡ some v → bounded b o ≡ some v
bounded-le a b none lt h = cc
bounded-le a b (some w) lt h = ground arith

positive-eq : (o : Option ℕ) {v : ℕ} → positive o ≡ some (pos v) → o ≡ some v
positive-eq none h = cc
positive-eq (some w) h = cc

negative-ne : (o : Option ℕ) {v : ℕ} → 0 < v → negative o ≢ some (pos v)
negative-ne none p h = cc
negative-ne (some zero) p h = ground arith
negative-ne (some (suc n)) p h = cc

pub parse_u16-parse_i64 :
    (cs : List ℕ) {v : ℕ} → 0 < v → v < 2 ^ 16 → parse_i64 cs ≡ some (pos v) → parse_u16 cs ≡ some v
unfolding parse_i64 parse_u16
parse_u16-parse_i64 [] p lt h = cc
parse_u16-parse_i64 (c ∷ cs) p lt h = elim (Bool-cases (c == b'+')) [
  | inl plus ↦ rw plus (
      bounded-le (2 ^ 63) (2 ^ 16) (parse_digits cs) lt
        (positive-eq (bounded (2 ^ 63) (parse_digits cs)) (rw plus at h)))
  | inr unsigned ↦ elim (Bool-cases (c == b'-')) [
    | inl dash ↦
        absurd (negative-ne (bounded (2 ^ 63 + 1) (parse_digits cs)) p (rw (unsigned, dash) at h))
    | inr other ↦ rw unsigned (
        bounded-le (2 ^ 63) (2 ^ 16) (parse_digits (c ∷ cs)) lt
          (positive-eq (bounded (2 ^ 63) (parse_digits (c ∷ cs))) (rw (unsigned, other) at h)))
  ]
]
