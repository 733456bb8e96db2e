-- ===== src/Prelude/Bits.antt =====
-- The exclusive or of bytes. The tactics take `bit_xor` for an unknown: its laws over a byte come
-- from the law for the lowest digit.
use Prim.Native.Nat.{
  ℕ, zero, suc, ◌+◌, ◌*◌, ◌/◌, ◌%◌, ◌^◌, ◌≤◌, ◌<◌, bit_xor, differ, digits, bit_xor-bitwise,
}
use mathlib.Core.Path.{◌≡◌, refl, ap, ◌∙◌}
use native.Mathlib.Omega.{arith}

abbrev xor_digits : ℕ → ℕ → ℕ → ℕ
xor_digits n a b = digits (λ b. b) differ n a b

xor_digits_fuel : (n m a b : ℕ) → a ≤ n → a ≤ m → xor_digits n a b ≡ xor_digits m a b
xor_digits_fuel zero zero a b p q = refl
xor_digits_fuel zero (suc m) zero b p q = refl
xor_digits_fuel zero (suc m) (suc a) b p q = absurd (omega arith)
xor_digits_fuel (suc n) zero zero b p q = refl
xor_digits_fuel (suc n) zero (suc a) b p q = absurd (omega arith)
xor_digits_fuel (suc n) (suc m) zero b p q = refl
xor_digits_fuel (suc n) (suc m) (suc a) b p q =
    omega (arith, xor_digits_fuel n m (suc a / 2) (b / 2) (omega arith) (omega arith))

zero-bit_xor : (b : ℕ) → bit_xor 0 b ≡ b
zero-bit_xor b = bit_xor-bitwise 0 b

bit_xor_step : (a b : ℕ) → bit_xor a b ≡ bit_xor (a / 2) (b / 2) * 2 + differ (a % 2) (b % 2)
bit_xor_step zero b = omega (arith, zero-bit_xor b, zero-bit_xor (b / 2))
bit_xor_step (suc a) b = omega (
  arith,
  bit_xor-bitwise (suc a) b,
  bit_xor-bitwise (suc a / 2) (b / 2),
  xor_digits_fuel a (suc a / 2) (suc a / 2) (b / 2) (omega arith) (omega arith),
)

differ-bound : (x y : ℕ) → x ≤ 1 → y ≤ 1 → differ x y ≤ 1
differ-bound zero y p q = q
differ-bound (suc x) zero p q = p
differ-bound (suc x) (suc y) p q = differ-bound x y (omega arith) (omega arith)

differ-differ : (x y : ℕ) → x ≤ 1 → y ≤ 1 → differ (differ x y) y ≡ x
differ-differ zero zero p q = refl
differ-differ zero (suc zero) p q = refl
differ-differ (suc zero) zero p q = refl
differ-differ (suc zero) (suc zero) p q = refl
differ-differ (suc (suc x)) y p q = absurd (omega arith)
differ-differ x (suc (suc y)) p q = absurd (omega arith)

module _ (a b : ℕ) where
  digit-bound : differ (a % 2) (b % 2) ≤ 1
  digit-bound = differ-bound (a % 2) (b % 2) (omega arith) (omega arith)

  bit_xor-half : bit_xor a b / 2 ≡ bit_xor (a / 2) (b / 2)
  bit_xor-half = omega (arith, bit_xor_step a b, digit-bound)

  bit_xor-odd : bit_xor a b % 2 ≡ differ (a % 2) (b % 2)
  bit_xor-odd = omega (arith, bit_xor_step a b, digit-bound)

bit_xor_cancel_fuel : (n a b : ℕ) → a + b ≤ n → bit_xor (bit_xor a b) b ≡ a
bit_xor_cancel_fuel zero zero zero h = refl
bit_xor_cancel_fuel zero (suc a) b h = absurd (omega arith)
bit_xor_cancel_fuel zero a (suc b) h = absurd (omega arith)
bit_xor_cancel_fuel (suc n) a b h =
    let halves : bit_xor (bit_xor a b / 2) (b / 2) ≡ a / 2 =
      ap (λ x. bit_xor x (b / 2)) (bit_xor-half a b)
      ∙ bit_xor_cancel_fuel n (a / 2) (b / 2) (omega arith) in
    let odd : differ (bit_xor a b % 2) (b % 2) ≡ a % 2 =
      ap (λ x. differ x (b % 2)) (bit_xor-odd a b)
      ∙ differ-differ (a % 2) (b % 2) (omega arith) (omega arith) in
    omega (arith, bit_xor_step (bit_xor a b) b, halves, odd)

pub bit_xor_cancel : (a b : ℕ) → bit_xor (bit_xor a b) b ≡ a
bit_xor_cancel a b = bit_xor_cancel_fuel (a + b) a b (omega arith)

pub bit_xor-bound : (w a b : ℕ) → a < 2 ^ w → b < 2 ^ w → bit_xor a b < 2 ^ w
bit_xor-bound zero zero zero p q = omega (arith, zero-bit_xor 0)
bit_xor-bound zero (suc a) b p q = absurd (omega arith)
bit_xor-bound zero a (suc b) p q = absurd (omega arith)
bit_xor-bound (suc w) a b p q = omega (
  arith,
  bit_xor_step a b,
  digit-bound a b,
  bit_xor-bound w (a / 2) (b / 2) (omega arith) (omega arith),
)
