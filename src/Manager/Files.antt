-- ===== src/Manager/Files.antt =====
-- `open_file` and `copy_file` of kmodule/session_manager.c.
use Prim.Native.Nat.{bit_and, bit_or}
use aosv.Base.{ℕ, zero, suc, ◌+◌, ◌-◌, Bool, true, false, [], ◌∷◌, ◌==◌, if◌then◌else◌, length}
use aosv.Base.Text.{FilePath}
use aosv.Kernel.{Kernel, Result, ok, err}
use aosv.Kernel.Errno.{enomem}
use aosv.Kernel.Run.{M, pure, starve, ◌>>=◌, ◌>>◌}
use aosv.Session.{Sys, lift, lift_}

-- fcntl.h: the flags that the module itself sets or clears, in a 32-bit `int`
abbrev pub o_rdonly : ℕ
o_rdonly = 0

abbrev pub o_wronly : ℕ
o_wronly = 1

abbrev pub o_rdwr : ℕ
o_rdwr = 2

abbrev pub o_creat : ℕ
o_creat = 64

abbrev pub no_fd : ℕ
no_fd = 0

-- DEFAULT_PERM is 0644
abbrev pub default_perm : ℕ
default_perm = 0o644

-- the `mode_t` that -1 becomes
abbrev pub mode_unset : ℕ
mode_unset = 0xffffffff

abbrev pub data_dim : ℕ
data_dim = 512

-- `flags & ~mask` on 32 bits
unfoldable pub clear_flags : ℕ → ℕ → ℕ
clear_flags flags mask = bit_and flags (0xffffffff - mask)

-- The flags with which `init_session` opens the original file.
unfoldable pub original_flags : ℕ → ℕ
unfolding clear_flags
original_flags flags = bit_or (clear_flags (clear_flags flags o_rdonly) o_wronly) o_rdwr

module _ {W : Type 0} (K : Kernel W) where
  -- The descriptor, and the file left in `*file`.
  unfoldable pub open_file : FilePath → ℕ → ℕ → Bool → M (Sys W) (Result ℕ × Result ℕ)
  open_file pathname flags mode fd_needed = do
    let perms = if mode == mode_unset then default_perm else mode
    f ← lift (K.filp_open pathname flags perms)
    elim f [
      | err e ↦ pure (err e, err e)
      | ok file ↦ elim fd_needed [
        | false ↦ pure (ok no_fd, ok file)
        | true ↦ do
          fd ← lift (K.get_unused_fd_flags flags)
          elim fd [
            | err e ↦ pure (err e, ok file)
            | ok n ↦ do lift_ (K.fd_install n file); pure (ok n, ok file)
          ]
      ]
    ]

  -- The loop of `copy_file`: a round reads, and writes what it has read, also when that is nothing.
  unfoldable pub copy_loop : ℕ → ℕ → ℕ → ℕ → ℕ → M (Sys W) (Result (Unit {0}))
  copy_loop zero src dst offsetr offsetw = starve
  copy_loop (suc fuel) src dst offsetr offsetw = do
    got ← lift (K.kernel_read src data_dim offsetr)
    elim got [
      | err e ↦ pure (err e)
      | ok bytes ↦ do
        put ← lift (K.kernel_write dst bytes offsetw)
        elim put [
          | err e ↦ pure (err e)
          | ok written ↦ elim bytes [
            | [] ↦ pure (ok tt)
            | b ∷ rest ↦ copy_loop fuel src dst (offsetr + length (b ∷ rest)) (offsetw + written)
          ]
        ]
    ]

  unfoldable pub copy_file : ℕ → ℕ → ℕ → M (Sys W) (Result (Unit {0}))
  copy_file fuel src dst = do
    got ← lift K.kmalloc
    elim got [ true ↦ copy_loop fuel src dst 0 0 | false ↦ pure (err enomem) ]
