-- ===== src/Base/Bits.antt =====
-- `bit_and` digit by digit, which is all that is needed for a mask.
use Prim.Native.Nat.{ℕ, zero, suc, ◌+◌, ◌*◌, ◌/◌, ◌%◌, ◌≤◌, min, bit_and, digits, bit_and-bitwise}
use mathlib.Core.Path.{◌≡◌, refl, sym, subst}
use mathlib.Core.Logic.{◌≢◌, ◌↔◌}
use native.Mathlib.Omega.{arith}

-- The recursion that `bit_and` stands for, with its fuel.
abbrev digitwise : ℕ → ℕ → ℕ → ℕ
digitwise fuel a b = digits (λ _. zero) min fuel a b

digitwise_fuel : (m n a b : ℕ) → a ≤ m → a ≤ n → digitwise m a b ≡ digitwise n a b
digitwise_fuel zero zero a b h k = refl
digitwise_fuel zero (suc n) zero b h k = refl
digitwise_fuel zero (suc n) (suc a) b h k = absurd (omega arith)
digitwise_fuel (suc m) zero zero b h k = refl
digitwise_fuel (suc m) zero (suc a) b h k = absurd (omega arith)
digitwise_fuel (suc m) (suc n) zero b h k = refl
digitwise_fuel (suc m) (suc n) (suc a) b h k =
    omega (arith, digitwise_fuel m n (suc a / 2) (b / 2) (omega arith) (omega arith))

zero-and : (b : ℕ) → bit_and 0 b ≡ 0
zero-and b = bit_and-bitwise 0 b

-- The lowest digit, and the others.
pub bit_and_digit : (a b : ℕ) → bit_and a b ≡ bit_and (a / 2) (b / 2) * 2 + min (a % 2) (b % 2)
bit_and_digit zero b = omega (arith, zero-and b, zero-and (b / 2))
bit_and_digit (suc a) b = omega (
  arith,
  bit_and-bitwise (suc a) b,
  bit_and-bitwise (suc a / 2) (b / 2),
  digitwise_fuel a (suc a / 2) (suc a / 2) (b / 2) (omega arith) (omega arith),
)

bit_and-half : (a b : ℕ) → bit_and a b / 2 ≡ bit_and (a / 2) (b / 2)
bit_and-half a b = omega (arith, bit_and_digit a b)

-- Bit `k` of a number is set.
abbrev pub HasBit : ℕ → ℕ → Type 0
HasBit zero n = n % 2 ≡ 1
HasBit (suc k) n = HasBit k (n / 2)

-- A bit of the result is a bit of both, and the other way round.
pub HasBit-bit_and : (k a b : ℕ) → HasBit k (bit_and a b) ↔ (HasBit k a × HasBit k b)
HasBit-bit_and zero a b =
    (λ h. omega (arith, bit_and_digit a b), λ h. omega (arith, bit_and_digit a b))
HasBit-bit_and (suc k) a b =
    let ih = HasBit-bit_and k (a / 2) (b / 2) in
    (
      λ h. ih.0 (subst (HasBit k) (bit_and-half a b) h),
      λ h. subst (HasBit k) (sym (bit_and-half a b)) (ih.1 h),
    )

not-HasBit-zero : (k : ℕ) → ¬ HasBit k 0
not-HasBit-zero zero h = omega arith
not-HasBit-zero (suc k) h = not-HasBit-zero k h

pub HasBit-ne_zero : (k n : ℕ) → HasBit k n → n ≢ 0
HasBit-ne_zero k n h e = not-HasBit-zero k (subst (HasBit k) e h)
