-- ===== src/Library/Paths.antt =====
-- `get_sess_path`, `write_sess_path` and `device_shutdown` of shared_lib/libsessionfs.c.
use aosv.Base.{ℕ, true, false, List, [], leb}
use aosv.Base.Atomic.{ℤ, negsuc}
use aosv.Base.Text.{FilePath, codes}
use aosv.Kernel.{ok, err}
use aosv.Manager.Files.{o_rdonly, o_wronly}
use aosv.Kernel.Run.{fault, done, M, pure, ◌>>=◌, ◌>>◌}
use aosv.Library.Process.{Libc, Process, to_int, negate, call, fail, minus_one}

-- DEV_PATH
abbrev pub dev_path : FilePath
dev_path = codes "/dev/SessionFS_dev"

module _ {W : Type 0} (L : Libc W) where
  -- `res=orig_close(dev)`, which is returned.
  unfoldable pub close_device : ℕ → M (Process W) ℤ
  close_device dev = do r ← call (L.orig_close dev); pure (to_int r)

  -- `orig_close(dev); errno=-res; return -1;`
  unfoldable pub fail_with : ℕ → ℤ → M (Process W) ℤ
  unfolding negate
  fail_with dev res = do call (L.orig_close dev); fail (negate res)

  -- The result, and what is in the buffer.
  unfoldable pub get_sess_path : ℕ → M (Process W) (ℤ × List ℕ)
  unfolding close_device fail_with
  get_sess_path bufsize = do
    opened ← call (L.orig_open dev_path o_rdonly)
    elim opened [
      | err _ ↦ pure (negsuc 0, [])
      | ok dev ↦ do
        res ← call (L.read dev bufsize)
        elim res [
          | err _ ↦ do r ← fail_with dev (negsuc 0); pure (r, [])
          | ok bytes ↦ do r ← close_device dev; pure (r, bytes)
        ]
    ]

  -- `abs_path[PATH_MAX]='\0'` is a write into the buffer that `realpath` has allocated.
  unfoldable pub terminate : FilePath → M (Process W) (Unit {0})
  terminate abs_path p = elim (leb (L.realpath_size abs_path) L.path_max) [
    | true ↦ fault
    | false ↦ done tt p
  ]

  unfoldable pub write_sess_path : FilePath → M (Process W) ℤ
  unfolding terminate close_device fail_with
  write_sess_path path = do
    resolved ← call (L.realpath path)
    elim resolved [
      | err _ ↦ minus_one
      | ok abs_path ↦ do
        opened ← call (L.orig_open dev_path o_wronly)
        elim opened [
          | err _ ↦ minus_one
          | ok dev ↦ do
            terminate abs_path
            res ← call (L.write dev abs_path)
            elim res [ err _ ↦ fail_with dev (negsuc 0) | ok _ ↦ close_device dev ]
        ]
    ]

  unfoldable pub device_shutdown : M (Process W) ℤ
  unfolding close_device fail_with
  device_shutdown = do
    opened ← call (L.orig_open dev_path o_rdonly)
    elim opened [
      | err _ ↦ minus_one
      | ok dev ↦ do
        res ← call (L.seq_shutdown dev)
        elim res [ err _ ↦ fail_with dev (negsuc 0) | ok _ ↦ close_device dev ]
    ]
