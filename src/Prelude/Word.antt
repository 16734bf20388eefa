-- ===== src/Prelude/Word.antt =====
-- `uint32_t` arithmetic, and the bit tests and alignments that the kernel writes with masks.
use Prim.Native.Nat.{
  ℕ, zero, suc, ◌+◌, ◌-◌, ◌*◌, ◌/◌, ◌%◌, ◌^◌, ◌≤◌, min, bit_and, digits, bit_and-bitwise,
}
use mathlib.Core.Path.{◌≡◌, refl, ap}
use native.Mathlib.Omega.{arith}

abbrev pub add32 : ℕ → ℕ → ℕ
add32 a b = (a + b) % 2 ^ 32

abbrev pub sub32 : ℕ → ℕ → ℕ
sub32 a b = (a + 2 ^ 32 - b) % 2 ^ 32

abbrev pub mul32 : ℕ → ℕ → ℕ
mul32 a b = a * b % 2 ^ 32

-- `x & ~(a - 1)` for a power of two `a`.
abbrev pub align_down : ℕ → ℕ → ℕ
align_down x a = x / a * a

-- The bit operations go down both numbers' binary digits, on fuel; any fuel that the first number
-- stays below gives the same.
module _ (past_end : ℕ → ℕ) (digit : ℕ → ℕ → ℕ) where
  pub digits_enough :
      (a mask fuel more : ℕ)
      → a ≤ fuel
      → a ≤ more
      → digits past_end digit fuel a mask ≡ digits past_end digit more a mask
  digits_enough zero mask zero zero le_fuel le_more = refl
  digits_enough zero mask zero (suc more) le_fuel le_more = refl
  digits_enough zero mask (suc fuel) zero le_fuel le_more = refl
  digits_enough zero mask (suc fuel) (suc more) le_fuel le_more = refl
  digits_enough (suc a) mask (suc fuel) (suc more) le_fuel le_more =
      let half = suc a / 2 in
      let lower = digits_enough half (mask / 2) fuel more (omega arith) (omega arith) in
      ap (λ upper. upper * 2 + digit (suc a % 2) (mask % 2)) lower
  digits_enough (suc a) mask zero more le_fuel le_more = absurd (omega arith)
  digits_enough (suc a) mask (suc fuel) zero le_fuel le_more = absurd (omega arith)

-- One binary digit of `x & mask`.
bit_and-lowest :
    (x mask : ℕ) → bit_and x mask ≡ bit_and (x / 2) (mask / 2) * 2 + min (x % 2) (mask % 2)
bit_and-lowest zero mask = omega (arith, bit_and-bitwise 0 (mask / 2), bit_and-bitwise 0 mask)
bit_and-lowest (suc x) mask =
    let half = suc x / 2 in
    let enough = digits_enough (λ _. zero) min half (mask / 2) x half (omega arith) (omega arith) in
    omega (arith, enough, bit_and-bitwise half (mask / 2), bit_and-bitwise (suc x) mask)

bit_and-none : (fuel x : ℕ) → x ≤ fuel → bit_and x 0 ≡ 0
bit_and-none fuel zero below = refl
bit_and-none (suc fuel) (suc x) below =
    let upper = bit_and-none fuel (suc x / 2) (omega arith) in
    omega (arith, upper, bit_and-lowest (suc x) 0)
bit_and-none zero (suc x) below = absurd (omega arith)

-- The masks 1, 2 and 3 read the two lowest bits.
pub bit_and-one : (flags : ℕ) → bit_and flags 1 ≡ flags % 2
bit_and-one flags =
    omega (arith, bit_and-none (flags / 2) (flags / 2) (omega arith), bit_and-lowest flags 1)

pub bit_and-two : (flags : ℕ) → bit_and flags 2 ≡ flags / 2 % 2 * 2
bit_and-two flags = omega (arith, bit_and-one (flags / 2), bit_and-lowest flags 2)

pub bit_and-three : (flags : ℕ) → bit_and flags 3 ≡ flags % 4
bit_and-three flags = omega (arith, bit_and-one (flags / 2), bit_and-lowest flags 3)

bit_and-seven : (flags : ℕ) → bit_and flags 7 ≡ flags % 8
bit_and-seven flags = omega (arith, bit_and-three (flags / 2), bit_and-lowest flags 7)

-- `x & 0xF`, a hexadecimal digit.
pub bit_and-fifteen : (flags : ℕ) → bit_and flags 15 ≡ flags % 16
bit_and-fifteen flags = omega (arith, bit_and-seven (flags / 2), bit_and-lowest flags 15)

bit_and-byte : (flags : ℕ) → bit_and flags 255 ≡ flags % 256
bit_and-byte flags = omega (
  arith,
  bit_and-fifteen (flags / 2 / 2 / 2 / 2),
  bit_and-lowest (flags / 2 / 2 / 2) 31,
  bit_and-lowest (flags / 2 / 2) 63,
  bit_and-lowest (flags / 2) 127,
  bit_and-lowest flags 255,
)

-- `address & 0xFFF`, the place in a page.
pub bit_and-page : (address : ℕ) → bit_and address 4095 ≡ address % 4096
bit_and-page address = omega (
  arith,
  bit_and-byte (address / 2 / 2 / 2 / 2),
  bit_and-lowest (address / 2 / 2 / 2) 511,
  bit_and-lowest (address / 2 / 2) 1023,
  bit_and-lowest (address / 2) 2047,
  bit_and-lowest address 4095,
)
