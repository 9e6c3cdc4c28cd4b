-- ===== src/Library/Close.antt =====
-- `close` of shared_lib/libsessionfs.c.
use aosv.Base.{ℕ, true, false, [], ◌∷◌, ◌++◌, Option, none, some}
use aosv.Base.Atomic.{ℤ, pos, negsuc, is}
use aosv.Base.Text.{FilePath, codes, decimal}
use aosv.Kernel.{ok, err}
use aosv.Kernel.Errno.{enomem, enodev}
use aosv.Kernel.Run.{M, pure, ◌>>=◌, ◌>>◌}
use aosv.Device.Ioctl.{SessParams}
use aosv.Manager.Files.{o_wronly}
use aosv.Library.Process.{
  Libc, Process, to_int, negate, call, call_with, fail, minus_one, malloc, malloc_zeroed, in_buffer,
  before,
}
use aosv.Library.Paths.{dev_path}

-- "_incarnation_%d_"
abbrev pub incarnation_tag : ℕ → FilePath
incarnation_tag pid = codes "_incarnation_" ++ (decimal pid ++ codes "_")

-- The path of the original file, if the path is that of an incarnation of the process.
abbrev pub original_path : ℕ → FilePath → Option FilePath
original_path pid path = before (incarnation_tag pid) path

abbrev pub close_params : FilePath → ℕ → ℕ → SessParams
close_params sess_path fd pid = record {
  orig_path = sess_path ++ (0 ∷ []);
  flags = 0;
  mode = 0;
  pid = pid;
  filedes = fd;
  valid = 0;
}

module _ {W : Type 0} (L : Libc W) where
  -- `res` after an error of the device is -1, whatever the error was.
  unfoldable pub session_error : ℕ → ℤ → M (Process W) ℤ
  unfolding negate
  session_error dev res = do
    call (L.orig_close dev)
    elim (is enodev (negate res)) [ true ↦ fail (pos enodev) | false ↦ fail (negate res) ]

  -- The device has let the incarnation go: the device and the descriptor are closed, and the file is
  -- removed.
  unfoldable pub finish_close : ℕ → FilePath → ℕ → M (Process W) ℤ
  finish_close dev inc_path fd = do
    res ← call (L.orig_close dev)
    elim res [
      | err _ ↦ minus_one
      | ok _ ↦ do
        closed ← call (L.orig_close fd)
        elim closed [
          | err _ ↦ minus_one
          | ok _ ↦ do removed ← call (L.remove inc_path); pure (to_int removed)
        ]
    ]

  unfoldable pub close_incarnation : FilePath → FilePath → ℕ → M (Process W) ℤ
  unfolding session_error finish_close
  close_incarnation inc_path sess_path fd = do
    opened ← call (L.orig_open dev_path o_wronly)
    elim opened [
      | err _ ↦ minus_one
      | ok dev ↦ do
        (res, _) ← call_with (L.seq_close dev (close_params sess_path fd L.getpid))
        elim res [ err _ ↦ session_error dev (negsuc 0) | ok _ ↦ finish_close dev inc_path fd ]
    ]

  -- Where the descriptor leads.
  unfoldable pub close_path : FilePath → ℕ → M (Process W) ℤ
  unfolding close_incarnation before
  close_path inc_path fd = elim (original_path L.getpid inc_path) [
    | none ↦ do res ← call (L.orig_close fd); pure (to_int res)
    | some sess_path ↦ close_incarnation inc_path sess_path fd
  ]

  -- `params`, `inc_path` and `tmp_path` are cleared before they are tested; `sess_path` is tested.
  unfoldable pub lib_close : ℕ → M (Process W) ℤ
  unfolding close_path malloc_zeroed in_buffer
  lib_close fd = do
    malloc_zeroed L
    malloc_zeroed L
    malloc_zeroed L
    link ← call (L.readlink (codes "/proc/self/fd/" ++ decimal fd))
    elim link [
      | err _ ↦ minus_one
      | ok path ↦ do
        inc_path ← in_buffer L path
        got ← malloc L
        elim got [ false ↦ fail (pos enomem) | true ↦ close_path inc_path fd ]
    ]
