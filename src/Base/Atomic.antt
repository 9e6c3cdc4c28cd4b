-- ===== src/Base/Atomic.antt =====
-- Signed counters: the kernel's `atomic_t` and `kref`, without their 32-bit bound.
use Prim.Native.Nat.{ℕ, zero, suc}
use mathlib.Core.Path.{◌≡◌, refl, sym, ap, ◌∙◌}
use mathlib.Core.Bool.{Bool, true, false}

-- `negsuc n` is -(n + 1).
pub data ℤ : Type 0 where
  pos : ℕ → ℤ
  negsuc : ℕ → ℤ

-- `atomic_add(1, &x)`
unfoldable pub increment : ℤ → ℤ
increment (pos n) = pos (suc n)
increment (negsuc zero) = pos zero
increment (negsuc (suc n)) = negsuc n

-- `atomic_sub(1, &x)`
unfoldable pub decrement : ℤ → ℤ
decrement (pos zero) = negsuc zero
decrement (pos (suc n)) = pos n
decrement (negsuc n) = negsuc (suc n)

pub decrement-increment : (z : ℤ) → decrement (increment z) ≡ z
unfolding increment decrement
decrement-increment (pos n) = refl
decrement-increment (negsuc zero) = refl
decrement-increment (negsuc (suc n)) = refl

pub increment-decrement : (z : ℤ) → increment (decrement z) ≡ z
unfolding increment decrement
increment-decrement (pos zero) = refl
increment-decrement (pos (suc n)) = refl
increment-decrement (negsuc n) = refl

-- `x == n`, for a count `n`
abbrev pub is : ℕ → ℤ → Bool
is zero (pos zero) = true
is zero (pos (suc m)) = false
is (suc n) (pos zero) = false
is (suc n) (pos (suc m)) = is n (pos m)
is _ (negsuc m) = false

-- `x > 0` and `x > 1`
abbrev pub above_zero : ℤ → Bool
above_zero (pos zero) = false
above_zero (pos (suc n)) = true
above_zero (negsuc n) = false

abbrev pub above_one : ℤ → Bool
above_one (pos (suc (suc n))) = true
above_one z = false

pub is_sound : (n : ℕ) (z : ℤ) → is n z ≡ true → z ≡ pos n
unfolding increment
is_sound zero (pos zero) h = refl
is_sound zero (pos (suc m)) h = cc
is_sound (suc n) (pos zero) h = cc
is_sound (suc n) (pos (suc m)) h = ap (λ z. increment z) (is_sound n (pos m) h)
is_sound zero (negsuc m) h = cc
is_sound (suc n) (negsuc m) h = cc

pub is_self : (n : ℕ) → is n (pos n) ≡ true
is_self zero = refl
is_self (suc n) = is_self n

pub increment-eq_one : (z : ℤ) → increment z ≡ pos 1 → z ≡ pos 0
unfolding decrement
increment-eq_one z h = sym (decrement-increment z) ∙ ap decrement h
