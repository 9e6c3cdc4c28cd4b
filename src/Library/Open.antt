-- ===== src/Library/Open.antt =====
-- `open` of shared_lib/libsessionfs.c.
use Prim.Native.Nat.{bit_and}
use aosv.Base.{
  ℕ, ◌+◌, ◌-◌, Bool, true, false, ◌&&◌, [], ◌∷◌, ◌++◌, Option, none, some, ◌==◌, length, take,
  if◌then◌else◌,
}
use aosv.Base.Atomic.{ℤ, pos, negsuc, is}
use aosv.Base.Text.{FilePath, codes, contains}
use aosv.Kernel.{Result, ok, err}
use aosv.Kernel.Errno.{enoent, enomem, eagain}
use aosv.Kernel.Run.{done, M, pure, ◌>>=◌, ◌>>◌}
use aosv.Manager.Files.{o_wronly, o_creat, clear_flags}
use aosv.Device.State.{c_string}
use aosv.Device.Ioctl.{SessParams, o_sess}
use aosv.Library.Process.{
  Libc, Process, to_int, negate, call, call_with, fail, minus_one, malloc, malloc_zeroed, in_buffer,
}
use aosv.Library.Paths.{dev_path, get_sess_path}
use aosv.Library.Close.{lib_close}

-- `flags & O_CREAT`
abbrev pub creates : ℕ → Bool
creates flags = if bit_and flags o_creat == 0 then false else true

-- -1 in the unsigned field `mode`.
abbrev pub no_mode : ℕ
no_mode = 0xffffffff

abbrev pub open_params : FilePath → ℕ → ℕ → ℕ → SessParams
open_params file_path flags mode pid = record {
  orig_path = file_path ++ (0 ∷ []);
  flags = flags;
  mode = mode;
  pid = pid;
  filedes = 0;
  valid = 0;
}

abbrev pub is_absolute : FilePath → Bool
is_absolute [] = false
is_absolute (c ∷ s) = c == b'/'

-- `errno==ENOENT`
abbrev pub no_entry : ℤ → Bool
no_entry n = is enoent n

module _ {W : Type 0} (L : Libc W) where
  -- `strncat` of the name behind the folder and a slash: at most two bytes more than there is room for.
  unfoldable pub below : FilePath → FilePath → M (Process W) FilePath
  unfolding in_buffer
  below folder pathname =
      let file_path = folder ++ codes "/" in
      in_buffer L (file_path ++ take (L.path_max - length file_path + 1) pathname)

  -- A path that does not resolve is taken for that of a new file in the current folder.
  unfoldable pub new_path : ℕ → FilePath → M (Process W) (Option FilePath)
  unfolding below
  new_path flags pathname p = elim (no_entry p.errno && creates flags) [
    | false ↦ done none p
    | true ↦
        (do
          folder ← call (L.realpath (codes "."))
          elim folder [
            | err _ ↦ pure none
            | ok path ↦ do file_path ← below path pathname; pure (some file_path)
          ])
          p
  ]

  -- `file_path`, or an early return of -1.
  unfoldable pub absolute_path : ℕ → FilePath → M (Process W) (Option FilePath)
  unfolding new_path in_buffer
  absolute_path flags pathname = elim (is_absolute pathname) [
    | true ↦ do file_path ← in_buffer L pathname; pure (some file_path)
    | false ↦ do
      resolved ← call (L.realpath pathname)
      elim resolved [
        | ok path ↦ do file_path ← in_buffer L path; pure (some file_path)
        | err _ ↦ new_path flags pathname
      ]
  ]

  -- After the device has been asked for an incarnation: the result, and the parameters.
  unfoldable pub finish_open : ℕ → Result ℕ → SessParams → M (Process W) ℤ
  unfolding lib_close negate
  finish_open dev (err _) params = do
    call (L.orig_close dev)
    lib_close L params.filedes
    fail (negate (negsuc 0))
  finish_open dev (ok _) params = do
    res ← call (L.orig_close dev)
    elim res [
      | err _ ↦ minus_one
      | ok _ ↦ elim (params.valid == 0) [
        | true ↦ pure (pos params.filedes)
        | false ↦ do lib_close L params.filedes; fail (negate (pos eagain))
      ]
    ]

  unfoldable pub request_incarnation : FilePath → ℕ → ℕ → M (Process W) ℤ
  unfolding finish_open malloc_zeroed
  request_incarnation file_path flags mode = do
    opened ← call (L.orig_open dev_path o_wronly)
    elim opened [
      | err _ ↦ minus_one
      | ok dev ↦ do
        malloc_zeroed L
        (res, params) ← call_with (L.seq_open dev (open_params file_path flags mode L.getpid))
        finish_open dev res params
    ]

  -- `orig_open(pathname, flags & ~O_SESS & ~O_CREAT)`
  unfoldable pub open_plain : FilePath → ℕ → M (Process W) ℤ
  unfolding clear_flags
  open_plain pathname flags = do
    r ← call (L.orig_open pathname (clear_flags (clear_flags flags o_sess) o_creat))
    pure (to_int r)

  -- The file is made by `creat` first.
  unfoldable pub create_and_open : FilePath → ℕ → ℕ → M (Process W) ℤ
  unfolding open_plain
  create_and_open pathname flags mode = elim (creates flags) [
    | false ↦ open_plain pathname flags
    | true ↦ do
      made ← call (L.creat pathname mode)
      elim made [ err _ ↦ minus_one | ok _ ↦ open_plain pathname flags ]
  ]

  unfoldable pub choose : FilePath → FilePath → FilePath → ℕ → ℕ → M (Process W) ℤ
  unfolding request_incarnation create_and_open
  choose pathname file_path sess_path flags mode =
      elim ((bit_and flags o_sess == o_sess) && contains sess_path file_path) [
        | true ↦ request_incarnation file_path flags mode
        | false ↦ create_and_open pathname flags mode
      ]

  -- The session path, where the whole buffer may be read.
  unfoldable pub with_sess_path : FilePath → FilePath → ℕ → ℕ → M (Process W) ℤ
  unfolding get_sess_path choose in_buffer
  with_sess_path pathname file_path flags mode = do
    (res, bytes) ← get_sess_path L L.path_max
    elim res [
      | negsuc n ↦ pure (negsuc n)
      | pos _ ↦ do
        sess_path ← in_buffer L (c_string bytes)
        choose pathname file_path sess_path flags mode
    ]

  -- `given` is the optional parameter.
  unfoldable pub lib_open : FilePath → ℕ → ℕ → M (Process W) ℤ
  unfolding absolute_path with_sess_path
  lib_open pathname flags given = do
    got_sess ← malloc L
    got_file ← malloc L
    elim (got_sess && got_file) [
      | false ↦ fail (negate (pos enomem))
      | true ↦ do
        path ← absolute_path flags pathname
        elim path [
          | none ↦ minus_one
          | some file_path ↦
              with_sess_path pathname file_path flags (if creates flags then given else no_mode)
        ]
    ]
