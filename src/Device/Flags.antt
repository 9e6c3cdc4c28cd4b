-- ===== src/Device/Flags.antt =====
-- The flag O_SESS of kmodule/device_sessionfs.h among the flags of open(2).
use Prim.Native.Nat.{bit_and}
use aosv.Base.{ℕ, ◌-◌, ◌≡◌, ◌≢◌, ◌⊎◌, inl, inr, false, arith, refl, subst, ◌==◌, ==_iff, Bool-cases}
use aosv.Base.Bits.{HasBit, HasBit-bit_and, HasBit-ne_zero}
use aosv.Manager.Files.{clear_flags}
use aosv.Device.Ioctl.{o_sess}

-- Bits of the flags in fcntl.h.
abbrev pub o_excl_bit : ℕ
o_excl_bit = 7

abbrev pub o_trunc_bit : ℕ
o_trunc_bit = 9

abbrev pub o_append_bit : ℕ
o_append_bit = 10

abbrev pub o_cloexec_bit : ℕ
o_cloexec_bit = 19

-- What is set after `flags & ~O_SESS` was set before, and is none of O_EXCL, O_TRUNC, O_APPEND and
-- O_CLOEXEC: the decimal value of O_SESS has the bits of these four, and they are lost.
pub clear_flags-o_sess :
    (k flags : ℕ)
    → HasBit k (clear_flags flags o_sess)
    → HasBit k flags
      × (k ≢ o_excl_bit)
      × (k ≢ o_trunc_bit)
      × (k ≢ o_append_bit)
      × (k ≢ o_cloexec_bit)
unfolding clear_flags
clear_flags-o_sess k flags h =
    let (set, kept) = (HasBit-bit_and k flags (0xffffffff - o_sess)).0 h in
    (
      set,
      λ e. lost o_excl_bit e kept (λ q. omega arith),
      λ e. lost o_trunc_bit e kept (λ q. omega arith),
      λ e. lost o_append_bit e kept (λ q. omega arith),
      λ e. lost o_cloexec_bit e kept (λ q. omega arith),
    )
  where
    lost : (b : ℕ) → k ≡ b → HasBit k (0xffffffff - o_sess) → ¬ HasBit b (0xffffffff - o_sess) → ⊥
    lost b e kept clear = clear (subst (λ j. HasBit j (0xffffffff - o_sess)) e kept)

not_zero : (flags b : ℕ) → HasBit b flags → HasBit b o_sess → (bit_and flags o_sess == 0) ≡ false
not_zero flags b h k = elim (Bool-cases (bit_and flags o_sess == 0)) [
  | inl e ↦ absurd (
      HasBit-ne_zero b (bit_and flags o_sess) ((HasBit-bit_and b flags o_sess).1 (h, k))
        ((==_iff (bit_and flags o_sess) 0).0 e))
  | inr e ↦ e
]

-- Each of the four, set alone, passes for O_SESS in the test of `device_ioctl`.
o_sess_accepts :
    (flags : ℕ)
    → HasBit o_excl_bit flags
      ⊎ HasBit o_trunc_bit flags
      ⊎ HasBit o_append_bit flags
      ⊎ HasBit o_cloexec_bit flags
    → (bit_and flags o_sess == 0) ≡ false
o_sess_accepts flags (inl h) = not_zero flags o_excl_bit h refl
o_sess_accepts flags (inr (inl h)) = not_zero flags o_trunc_bit h refl
o_sess_accepts flags (inr (inr (inl h))) = not_zero flags o_append_bit h refl
o_sess_accepts flags (inr (inr (inr h))) = not_zero flags o_cloexec_bit h refl
