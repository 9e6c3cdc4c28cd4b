-- ===== src/Library/Load.antt =====
-- `init_method` of shared_lib/libsessionfs.c: the constructor of the library.
use aosv.Base.{ℕ, ◌≡◌, refl, Bool, true, false, Option, none, some}
use aosv.Base.Atomic.{ℤ, pos}
use aosv.Kernel.Run.{done, M, pure, ◌>>=◌}
use aosv.Library.Process.{Process, fail}

-- The variables `orig_open` and `orig_close`.
record Symbols : Type 0 where
  pub orig_open : Option ℕ
  pub orig_close : Option ℕ

-- ENODATA
abbrev enodata : ℕ
enodata = 61

abbrev is_null : Option ℕ → Bool
is_null none = true
is_null (some f) = false

module _ {W : Type 0} where
  -- The arguments are what dlsym gives for "open" and "close". The second test is of `orig_open` again.
  unfoldable init_method : Option ℕ → Option ℕ → M (Process W) (ℤ × Symbols)
  init_method next_open next_close = elim (is_null next_open) [
    | true ↦ do
      res ← fail (pos enodata)
      pure (res, record { orig_open = next_open; orig_close = none })
    | false ↦ elim (is_null next_open) [
      | true ↦ do
        res ← fail (pos enodata)
        pure (res, record { orig_open = next_open; orig_close = next_close })
      | false ↦ pure (pos 0, record { orig_open = next_open; orig_close = next_close })
    ]
  ]

  -- Where only `close` is missing, the constructor succeeds with a null `orig_close`.
  init_method-close_missing :
      (f : ℕ) (p : Process W)
      → init_method (some f) none p
        ≡ done (pos 0, record { orig_open = some f; orig_close = none }) p
  unfolding init_method
  init_method-close_missing f p = refl
