-- ===== src/Library/Process.antt =====
-- The C library that shared_lib/libsessionfs.c calls, as parameters over the state `W` of the rest of the
-- system, and the process that calls it. Memory that is freed, and messages, have no counterpart.
use aosv.Base.{
  ℕ, zero, suc, Bool, true, false, List, [], ◌∷◌, Option, none, some, leb, length, if◌then◌else◌,
}
use aosv.Base.Atomic.{ℤ, pos, negsuc}
use aosv.Base.Text.{FilePath, starts_with}
use aosv.Kernel.{Result, ok, err}
use aosv.Kernel.Run.{done, fault, M, pure, ◌>>=◌}
use aosv.Device.Ioctl.{SessParams}

-- `err e` stands for -1 with e in `errno`.
pub record Libc (W : Type 0) : Type 0 where
  -- PATH_MAX and getpid()
  pub path_max : ℕ
  pub getpid : ℕ
  pub malloc : W → Bool × W
  -- `orig_open` and `orig_close`
  pub orig_open : FilePath → ℕ → W → Result ℕ × W
  pub orig_close : ℕ → W → Result ℕ × W
  pub creat : FilePath → ℕ → W → Result ℕ × W
  -- the bytes of the path
  pub readlink : FilePath → W → Result FilePath × W
  pub realpath : FilePath → W → Result FilePath × W
  -- the size of the buffer in which `realpath(path, NULL)` gives this path
  pub realpath_size : FilePath → ℕ
  pub read : ℕ → ℕ → W → Result (List ℕ) × W
  pub write : ℕ → List ℕ → W → Result ℕ × W
  -- IOCTL_SEQ_OPEN, IOCTL_SEQ_CLOSE: the parameters as the device leaves them
  pub seq_open : ℕ → SessParams → W → (Result ℕ × SessParams) × W
  pub seq_close : ℕ → SessParams → W → (Result ℕ × SessParams) × W
  -- IOCTL_SEQ_SHUTDOWN: `active_sessions` is only printed
  pub seq_shutdown : ℕ → W → Result ℕ × W
  pub remove : FilePath → W → Result ℕ × W

pub record Process (W : Type 0) : Type 0 where
  pub world : W
  pub errno : ℤ

-- The C result.
abbrev pub to_int : Result ℕ → ℤ
to_int (ok n) = pos n
to_int (err e) = negsuc 0

-- `-res`
unfoldable pub negate : ℤ → ℤ
negate (pos zero) = pos zero
negate (pos (suc n)) = negsuc n
negate (negsuc n) = pos (suc n)

-- `errno` after a call.
abbrev pub errno_after : {A : Type 0} → Result A → ℤ → ℤ
errno_after (ok a) n = n
errno_after (err e) n = pos e

module _ {W : Type 0} where
  -- A call of the C library: a failure sets `errno`.
  abbrev pub call : {A : Type 0} → (W → Result A × W) → M (Process W) (Result A)
  call f p =
      let (r, w) = f p.world in done r (record p { world = w; errno = errno_after r p.errno })

  -- A call with a second result.
  abbrev pub call_with : {A B : Type 0} → (W → (Result A × B) × W) → M (Process W) (Result A × B)
  call_with f p =
      let ((r, b), w) = f p.world in
      done (r, b) (record p { world = w; errno = errno_after r p.errno })

  -- `errno = n; return -1;`
  abbrev pub fail : ℤ → M (Process W) ℤ
  fail n p = done (negsuc 0) (record p { errno = n })

  abbrev pub minus_one : M (Process W) ℤ
  minus_one = pure (negsuc 0)

  -- `malloc`
  unfoldable pub malloc : Libc W → M (Process W) Bool
  malloc L p = let (got, w) = L.malloc p.world in done got (record p { world = w })

  -- `malloc`, and `memset` before the result is tested.
  unfoldable pub malloc_zeroed : Libc W → M (Process W) (Unit {0})
  malloc_zeroed L = do got ← malloc L; elim got [ true ↦ pure tt | false ↦ λ p. fault ]

  -- The bytes as a string in a buffer of PATH_MAX zeroes; one that fills the buffer has no end.
  unfoldable pub in_buffer : Libc W → FilePath → M (Process W) FilePath
  in_buffer L path p = elim (leb L.path_max (length path)) [ true ↦ fault | false ↦ done path p ]

-- What is before the first occurrence of `part`, where there is one: `strstr`.
unfoldable pub before : FilePath → FilePath → Option FilePath
before part [] = if starts_with part [] then some [] else none
before part (c ∷ s) = elim (starts_with part (c ∷ s)) [
  | true ↦ some []
  | false ↦ elim (before part s) [ none ↦ none | some rest ↦ some (c ∷ rest) ]
]
