-- ===== src/Prelude/Words.antt =====
-- Bytes as numbers below 256, little-endian words, and checked slices.
use Prim.Native.Nat.{ℕ, zero, suc, ◌+◌, ◌-◌, ◌*◌, ◌/◌, ◌%◌, ◌^◌, ◌≤◌, ◌<◌}
use mathlib.Core.Path.{◌≡◌, refl, ap}
use mathlib.Core.Bool.{◌&&◌}
use mathlib.Core.List.{List, [], ◌∷◌}
use native.Mathlib.Nat.{pow-suc}
use native.Mathlib.Omega.{arith}
use repe_rs.Prelude.Tests.{leb, le→leb, if◌then◌else◌}
use repe_rs.Prelude.Lists.{length, take, drop, get_or, All}
use repe_rs.Prelude.Results.{Outcome, ok, panic}

abbrev pub Bytes : Type 0
Bytes = List ℕ

abbrev pub IsByte : ℕ → Type 0
IsByte b = b < 256

-- `to_le_bytes` of a word of `w` bytes, and `from_le_bytes`.
abbrev pub to_le_bytes : ℕ → ℕ → Bytes
to_le_bytes zero n = []
to_le_bytes (suc w) n = (n % 256) ∷ to_le_bytes w (n / 256)

abbrev pub from_le_bytes : Bytes → ℕ
from_le_bytes [] = 0
from_le_bytes (b ∷ bs) = b + 256 * from_le_bytes bs

length-to_le_bytes : (w n : ℕ) → length (to_le_bytes w n) ≡ w
length-to_le_bytes zero n = refl
length-to_le_bytes (suc w) n = ap suc (length-to_le_bytes w (n / 256))

to_le_bytes-IsByte : (w n : ℕ) → All IsByte (to_le_bytes w n)
to_le_bytes-IsByte zero n = tt
to_le_bytes-IsByte (suc w) n = (omega arith, to_le_bytes-IsByte w (n / 256))

pub from_le_bytes-to_le_bytes : (w n : ℕ) → n < 256 ^ w → from_le_bytes (to_le_bytes w n) ≡ n
from_le_bytes-to_le_bytes zero n h = omega arith
from_le_bytes-to_le_bytes (suc w) n h =
    omega (arith, from_le_bytes-to_le_bytes w (n / 256) (omega (arith, pow-suc 256 w)))

pub from_le_bytes-lt : (bs : Bytes) → All IsByte bs → from_le_bytes bs < 256 ^ length bs
from_le_bytes-lt [] h = omega arith
from_le_bytes-lt (b ∷ bs) (hb, hbs) =
    omega (arith, from_le_bytes-lt bs hbs, pow-suc 256 (length bs))

pub to_le_bytes-from_le_bytes :
    (bs : Bytes) → All IsByte bs → to_le_bytes (length bs) (from_le_bytes bs) ≡ bs
to_le_bytes-from_le_bytes [] h = refl
to_le_bytes-from_le_bytes (b ∷ bs) (hb, hbs) =
    ground (arith, split_low b (from_le_bytes bs) hb, to_le_bytes-from_le_bytes bs hbs)
  where
    split_low : (b n : ℕ) → b < 256 → ((b + 256 * n) % 256 ≡ b) × ((b + 256 * n) / 256 ≡ n)
    split_low b n h = (omega arith, omega arith)

-- `&buf[lo..hi]`
abbrev pub slice {ℓ κ} : {E : Type κ} {A : Type ℓ} → ℕ → ℕ → List A → Outcome E (List A)
slice lo hi xs = if leb lo hi && leb hi (length xs) then ok (take (hi - lo) (drop lo xs)) else panic

-- `buf[i]`
abbrev pub index {ℓ κ} : {E : Type κ} {A : Type ℓ} → List A → ℕ → Outcome E A
index [] i = panic
index (x ∷ xs) zero = ok x
index (x ∷ xs) (suc i) = index xs i

module _ {ℓ κ} {E : Type κ} {A : Type ℓ} where
  -- A slice whose bounds are in order and in range does not panic.
  pub slice-ok :
      (lo hi : ℕ) (xs : List A)
      → lo ≤ hi
      → hi ≤ length xs
      → slice {E = E} lo hi xs ≡ ok (take (hi - lo) (drop lo xs))
  slice-ok lo hi xs p q = rw (le→leb lo hi p, le→leb hi (length xs) q)

  pub index-ok :
      (xs : List A) (i : ℕ) (d : A) → i < length xs → index {E = E} xs i ≡ ok (get_or xs i d)
  index-ok [] i d h = absurd (omega arith)
  index-ok (x ∷ xs) zero d h = refl
  index-ok (x ∷ xs) (suc i) d h = index-ok xs i d (omega arith)
