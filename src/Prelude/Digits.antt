-- ===== src/Prelude/Digits.antt =====
-- The binary digits of a number, and what masks and shifts of one bit do to them.
use Prim.Native.Nat.{
  ℕ, zero, suc, ◌+◌, ◌*◌, ◌/◌, ◌%◌, ◌^◌, ◌<◌, min, max, bit_or, bit_and, bit_xor, bit_and-bitwise,
}
use mathlib.Core.Path.{◌≡◌, refl}
use mathlib.Core.Bool.{Bool, true, false}
use mathlib.Core.Logic.{inl, inr}
use native.Mathlib.Omega.{arith}
use gem_os_cs330a.Prelude.Bits.{bit_or_step, bitwise_step, bitwise_zero}
use gem_os_cs330a.Prelude.Tests.{◌==◌, if◌then◌else◌, Bool-cases}

bit_and_step : (a b : ℕ) → bit_and a b ≡ bit_and (a / 2) (b / 2) * 2 + min (a % 2) (b % 2)
bit_and_step a b = bitwise_step (λ x. 0) min bit_and bit_and-bitwise (λ b. omega arith) a b

bit_and-zero : (a : ℕ) → bit_and a 0 ≡ 0
bit_and-zero a =
    bitwise_zero (λ x. 0) min bit_and bit_and-bitwise (λ b. omega arith) (λ x. 0) (λ a. omega arith)
      refl a a (omega arith)

-- Digit `k` of `x`.
unfoldable pub digit : (x k : ℕ) → ℕ
digit x zero = x % 2
digit x (suc k) = digit (x / 2) k

pub digit_bound : (x k : ℕ) → digit x k < 2
unfolding digit
digit_bound x zero = omega arith
digit_bound x (suc k) = digit_bound (x / 2) k

pub zero-digit : (k : ℕ) → digit 0 k ≡ 0
unfolding digit
zero-digit zero = refl
zero-digit (suc k) = zero-digit k

pub digit-bit_or : (a b k : ℕ) → digit (bit_or a b) k ≡ max (digit a k) (digit b k)
unfolding digit
digit-bit_or a b zero = omega (arith, bit_or_step a b)
digit-bit_or a b (suc k) =
    let e : bit_or a b / 2 ≡ bit_or (a / 2) (b / 2) = omega (arith, bit_or_step a b) in
    rw e (digit-bit_or (a / 2) (b / 2) k)

pub digit-bit_and : (a b k : ℕ) → digit (bit_and a b) k ≡ min (digit a k) (digit b k)
unfolding digit
digit-bit_and a b zero = omega (arith, bit_and_step a b)
digit-bit_and a b (suc k) =
    let e : bit_and a b / 2 ≡ bit_and (a / 2) (b / 2) = omega (arith, bit_and_step a b) in
    rw e (digit-bit_and (a / 2) (b / 2) k)

half_pow : (j : ℕ) → 2 ^ suc j / 2 ≡ 2 ^ j
half_pow j = grind arith

pub digit-pow : (j k : ℕ) → digit (2 ^ j) k ≡ (if k == j then 1 else 0)
unfolding digit
digit-pow zero zero = refl
digit-pow zero (suc k) = ground (arith, zero-digit k)
digit-pow (suc j) zero = grind arith
digit-pow (suc j) (suc k) = rw half_pow (ground (arith, digit-pow j k))

-- `x & (1 << j)` tests digit `j`.
pub bit_and-pow : (x j : ℕ) → (bit_and x (2 ^ j) == 0) ≡ (digit x j == 0)
unfolding digit
bit_and-pow x zero = ground (arith, bit_and_step x 1, bit_and-zero (x / 2))
bit_and-pow x (suc j) =
    let e : 2 ^ suc j % 2 ≡ 0 = grind arith in
    ground (arith, bit_and_step x (2 ^ suc j), half_pow j, bit_and-pow (x / 2) j)

-- A test of all bits `k` of all masks `j` below `i / 8`, by their number `j * 8 + k`.
clears_bit : (i : ℕ) → Bool
clears_bit i = digit (bit_xor (2 ^ (i / 8)) 0xff) (i % 8) == (if i % 8 == i / 8 then 0 else 1)

clears_bits : (count : ℕ) → Bool
clears_bits zero = true
clears_bits (suc i) = if clears_bit i then clears_bits i else false

clears_bits-clears_bit : (i count : ℕ) → clears_bits count ≡ true → i < count → clears_bit i ≡ true
unfolding clears_bits
clears_bits-clears_bit i zero h lt = absurd (omega arith)
clears_bits-clears_bit i (suc count) h lt = elim (Bool-cases (i == count)) [
  | inl last ↦ let e : i ≡ count = ground arith in rw e (ground arith)
  | inr off ↦ clears_bits-clears_bit i count (ground arith) (ground arith)
]

byte_masks : clears_bits 64 ≡ true
unfolding clears_bits clears_bit digit
byte_masks = refl

-- `(1 << j) ^ 0xff` has every digit of a byte but `j`.
pub digit-mask :
    (j k : ℕ) → j < 8 → k < 8 → digit (bit_xor (2 ^ j) 0xff) k ≡ (if k == j then 0 else 1)
unfolding clears_bit
digit-mask j k h l =
    let found = clears_bits-clears_bit (j * 8 + k) 64 byte_masks (omega arith) in
    let d : (j * 8 + k) / 8 ≡ j = omega arith in
    let m : (j * 8 + k) % 8 ≡ k = omega arith in
    let test : (digit (bit_xor (2 ^ j) 0xff) k == (if k == j then 0 else 1)) ≡ true =
      rw (d, m) at found in
    ground arith

pub digit-ones : (k : ℕ) → k < 8 → digit 255 k ≡ 1
unfolding digit
digit-ones zero h = refl
digit-ones (suc zero) h = refl
digit-ones (suc (suc zero)) h = refl
digit-ones (suc (suc (suc zero))) h = refl
digit-ones (suc (suc (suc (suc zero)))) h = refl
digit-ones (suc (suc (suc (suc (suc zero))))) h = refl
digit-ones (suc (suc (suc (suc (suc (suc zero)))))) h = refl
digit-ones (suc (suc (suc (suc (suc (suc (suc zero))))))) h = refl
digit-ones (suc (suc (suc (suc (suc (suc (suc (suc k)))))))) h = absurd (omega (arith, h))
