-- ===== src/Prelude/Text.antt =====
-- Text as bytes: ASCII literals, numbers in decimal and in hexadecimal, and the UTF-8 check.
use Prim.Native.Nat.{ℕ, zero, suc, ◌+◌, ◌/◌, ◌%◌, ◌^◌, ◌≤◌, ◌<◌}
use Prim.Native.Char.{code}
use Prim.Native.String.{String}
use mathlib.Core.Bool.{Bool, true, ◌&&◌}
use mathlib.Core.List.{[], ◌∷◌, ◌++◌}
use repe_rs.Prelude.Tests.{Bool-cases, leb, ltb, ◌==◌, if◌then◌else◌}
use repe_rs.Prelude.Words.{Bytes}
use repe_rs.Prelude.Lists.{length, length-append}
use native.Mathlib.Omega.{arith}
use mathlib.Core.Logic.{inl, inr}
use mathlib.Core.Path.{◌≡◌}

-- The bytes of an ASCII literal.
abbrev pub ascii : String → Bytes
ascii String.[] = []
ascii (String.◌∷◌ c s) = code c ∷ ascii s

unfoldable pub digit : ℕ → ℕ
digit d = if ltb d 10 then 48 + d else 87 + d

-- At most `f` digits of `n` in `base`, without leading zeros.
digits_fuel : ℕ → ℕ → ℕ → Bytes
unfolding digit
digits_fuel base zero n = []
digits_fuel base (suc f) n =
    let rest = digits_fuel base f (n / base) in
    if ltb n base then digit n ∷ [] else rest ++ (digit (n % base) ∷ [])

-- `{}` of an unsigned integer: a number has at most as many digits as it has units, and one more.
unfoldable pub decimal : ℕ → Bytes
unfolding digits_fuel
decimal n = digits_fuel 10 (suc n) n

digits_fuel-le : (f k n : ℕ) → n < 10 ^ (suc k) → length (digits_fuel 10 f n) ≤ suc k
unfolding digits_fuel
digits_fuel-le zero k n h = omega arith
digits_fuel-le (suc f) zero n h =
    let one : ltb n 10 ≡ true = ground (arith, h) in rw one (omega arith)
digits_fuel-le (suc f) (suc k) n h = elim (Bool-cases (ltb n 10)) [
  | inl one ↦ rw one (omega arith)
  | inr more ↦
      let rest = digits_fuel-le f k (n / 10) (omega (arith, h)) in
      rw more (omega (arith, length-append (digits_fuel 10 f (n / 10)) (digit (n % 10) ∷ []), rest))
]

-- A number below a power of ten has no more digits than the exponent.
pub length-decimal-le : (k n : ℕ) → n < 10 ^ (suc k) → length (decimal n) ≤ suc k
unfolding decimal
length-decimal-le k n h = digits_fuel-le (suc n) k n h

-- `{:04x}`: four hexadecimal digits, which hold any `u16`.
unfoldable pub hex4 : ℕ → Bytes
unfolding digit
hex4 n = digit (n / 4096 % 16) ∷ digit (n / 256 % 16) ∷ digit (n / 16 % 16) ∷ digit (n % 16) ∷ []

-- `{:0w$x}` of a number with at most `w` hexadecimal digits.
unfoldable pub hex_padded : ℕ → ℕ → Bytes
unfolding digit
hex_padded zero n = []
hex_padded (suc w) n = hex_padded w (n / 16) ++ (digit (n % 16) ∷ [])

between : ℕ → ℕ → ℕ → Bool
between lo hi b = leb lo b && leb b hi

is_continuation : ℕ → Bool
unfolding between
is_continuation b = between 0x80 0xbf b

-- The second byte that may follow a given first byte of a sequence of three or four.
second_of_three : ℕ → ℕ → Bool
unfolding between is_continuation
second_of_three a b =
    if a == 0xe0
    then between 0xa0 0xbf b
    else if a == 0xed
    then between 0x80 0x9f b
    else is_continuation b

second_of_four : ℕ → ℕ → Bool
unfolding between is_continuation
second_of_four a b =
    if a == 0xf0
    then between 0x90 0xbf b
    else if a == 0xf4
    then between 0x80 0x8f b
    else is_continuation b

-- `std::str::from_utf8(bytes).is_ok()`: the well-formed byte sequences of the Unicode standard.
unfoldable pub is_utf8 : Bytes → Bool
unfolding between is_continuation second_of_three second_of_four
is_utf8 [] = true
is_utf8 (a ∷ []) = ltb a 0x80
is_utf8 (a ∷ b ∷ []) = if ltb a 0x80 then ltb b 0x80 else between 0xc2 0xdf a && is_continuation b
is_utf8 (a ∷ b ∷ c ∷ []) =
    let one = is_utf8 (b ∷ c ∷ []) in
    let two = is_utf8 (c ∷ []) in
    if ltb a 0x80
    then one
    else if between 0xc2 0xdf a
    then is_continuation b && two
    else between 0xe0 0xef a && (second_of_three a b && is_continuation c)
is_utf8 (a ∷ b ∷ c ∷ d ∷ rest) =
    let one = is_utf8 (b ∷ c ∷ d ∷ rest) in
    let two = is_utf8 (c ∷ d ∷ rest) in
    let three = is_utf8 (d ∷ rest) in
    let four = is_utf8 rest in
    if ltb a 0x80
    then one
    else if between 0xc2 0xdf a
    then is_continuation b && two
    else if between 0xe0 0xef a
    then second_of_three a b && (is_continuation c && three)
    else between 0xf0 0xf4 a
      && (second_of_four a b && (is_continuation c && (is_continuation d && four)))
