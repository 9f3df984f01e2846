-- ===== src/Prelude/Bits.antt =====
-- Shifts and masks at variables. The tactics take a call of `bit_or` for an unknown, so the laws
-- that the models need are proved from its digits.
use Prim.Native.Nat.{
  ℕ, zero, suc, ◌+◌, ◌*◌, ◌/◌, ◌%◌, ◌^◌, ◌≤◌, ◌<◌, max, bit_or, digits, bitwise, bit_or-bitwise,
}
use mathlib.Core.Path.{◌≡◌, refl, ap, sym, ◌∙◌}
use native.Mathlib.Omega.{arith}

-- `x >> k`, `x << k` and `x & ((1 << k) - 1)`.
abbrev pub shr : ℕ → ℕ → ℕ
shr x k = x / 2 ^ k

abbrev pub shl : ℕ → ℕ → ℕ
shl x k = x * 2 ^ k

abbrev pub low_bits : ℕ → ℕ → ℕ
low_bits x k = x % 2 ^ k

-- More rounds than the first number needs do not matter, for either of the bitwise operations.
pub digits_rounds :
    (leaf : ℕ → ℕ) (op : ℕ → ℕ → ℕ) (n m a b : ℕ)
    → a ≤ n
    → a ≤ m
    → digits leaf op n a b ≡ digits leaf op m a b
digits_rounds leaf op zero zero a b p q = refl
digits_rounds leaf op zero (suc m) zero b p q = refl
digits_rounds leaf op zero (suc m) (suc a) b p q = absurd (omega arith)
digits_rounds leaf op (suc n) zero zero b p q = refl
digits_rounds leaf op (suc n) zero (suc a) b p q = absurd (omega arith)
digits_rounds leaf op (suc n) (suc m) zero b p q = refl
digits_rounds leaf op (suc n) (suc m) (suc a) b p q =
    let half = digits_rounds leaf op n m (suc a / 2) (b / 2) (omega arith) (omega arith) in
    ap (λ x. x * 2 + op (suc a % 2) (b % 2)) half

-- An operation on binary digits, as the library defines it.
module _ (leaf : ℕ → ℕ) (op f : ℕ → ℕ → ℕ) (law : (a b : ℕ) → f a b ≡ bitwise leaf op a b)
    (at_leaf : (b : ℕ) → leaf b ≡ leaf (b / 2) * 2 + op 0 (b % 2)) where
  -- Its lowest digit, and the others.
  pub bitwise_step : (a b : ℕ) → f a b ≡ f (a / 2) (b / 2) * 2 + op (a % 2) (b % 2)
  bitwise_step zero b = law 0 b ∙ (at_leaf b ∙ ap (λ x. x * 2 + op 0 (b % 2)) (sym (law 0 (b / 2))))
  bitwise_step (suc a) b =
      let half =
        digits_rounds leaf op a (suc a / 2) (suc a / 2) (b / 2) (omega arith) (omega arith) in
      law (suc a) b
      ∙ ap (λ x. x * 2 + op (suc a % 2) (b % 2)) (half ∙ sym (law (suc a / 2) (b / 2)))

  -- Its values at 0, where `r` follows the same rule.
  pub bitwise_zero :
      (r : ℕ → ℕ)
      → ((a : ℕ) → r a ≡ r (a / 2) * 2 + op (a % 2) 0)
      → leaf 0 ≡ r 0
      → (a bound : ℕ) → a ≤ bound
      → f a 0 ≡ r a
  bitwise_zero r rule start zero bound le = law 0 0 ∙ start
  bitwise_zero r rule start (suc a) zero le = absurd (omega arith)
  bitwise_zero r rule start (suc a) (suc bound) le =
      let rest = bitwise_zero r rule start (suc a / 2) bound (omega arith) in
      bitwise_step (suc a) 0 ∙ (ap (λ x. x * 2 + op (suc a % 2) 0) rest ∙ sym (rule (suc a)))

pub bit_or_step : (a b : ℕ) → bit_or a b ≡ bit_or (a / 2) (b / 2) * 2 + max (a % 2) (b % 2)
bit_or_step a b = bitwise_step (λ x. x) max bit_or bit_or-bitwise (λ b. omega arith) a b

bit_or-zero : (a : ℕ) → bit_or a 0 ≡ a
bit_or-zero a =
    bitwise_zero (λ x. x) max bit_or bit_or-bitwise (λ b. omega arith) (λ x. x) (λ a. omega arith)
      refl a a (omega arith)

-- Flags in three bits that are clear are added.
pub bit_or_flags : (m f : ℕ) → f < 8 → bit_or (m * 8) f ≡ m * 8 + f
bit_or_flags m f h =
    let e₁ : m * 8 / 2 ≡ m * 4 = omega arith in
    let e₂ : m * 4 / 2 ≡ m * 2 = omega arith in
    let e₃ : m * 2 / 2 ≡ m = omega arith in
    let z : f / 2 / 2 / 2 ≡ 0 = omega arith in
    let s₃ : bit_or (m * 2) (f / 2 / 2) ≡ m * 2 + f / 2 / 2 % 2 =
      rw (bit_or_step, e₃, z, bit_or-zero) (omega arith) in
    let s₂ : bit_or (m * 4) (f / 2) ≡ m * 4 + f / 2 % 4 = rw (bit_or_step, e₂, s₃) (omega arith) in
    rw (bit_or_step, e₁, s₂) (omega arith)
