-- ===== src/Library/Closes.antt =====
-- What `close` of shared_lib/libsessionfs.c does to the process.
use aosv.Base.{ℕ, ◌≡◌, ◌∙◌, false, ◌++◌, none, some, arith, leb, length}
use aosv.Base.Atomic.{pos, negsuc}
use aosv.Base.Text.{FilePath, codes, decimal}
use aosv.Kernel.{Result, ok, err}
use aosv.Kernel.Errno.{eperm}
use aosv.Kernel.Run.{done}
use aosv.Device.Ioctl.{SessParams}
use aosv.Manager.Files.{o_wronly}
use aosv.Library.Process.{Libc, Process, to_int, errno_after, negate}
use aosv.Library.Steps.{malloc-Grants, and_then-done, Grants, malloc_zeroed-Grants, in_buffer_fits}
use aosv.Library.Paths.{dev_path}
use aosv.Library.Close.{
  original_path, close_params, session_error, close_incarnation, close_path, lib_close,
}

module _ {W : Type 0} (L : Libc W) where
  -- The descriptor leads to a path, which fits the buffer; `w` is what is left of the world.
  abbrev pub LeadsTo : ℕ → FilePath → W → W → Type 0
  LeadsTo fd path v w =
      (L.readlink (codes "/proc/self/fd/" ++ decimal fd) v ≡ (ok path, w))
      × (leb L.path_max (length path) ≡ false)

  lib_close-close_path :
      (fd : ℕ) (path : FilePath) (w : W) (p : Process W)
      → Grants L
      → LeadsTo fd path p.world w
      → lib_close L fd p ≡ close_path L path fd (record p { world = w })
  unfolding lib_close
  lib_close-close_path fd path w p grants (link, fits) =
      and_then-done _ (malloc_zeroed-Grants L p grants)
      ∙ and_then-done _ (malloc_zeroed-Grants L p grants)
      ∙ and_then-done _ (malloc_zeroed-Grants L p grants)
      ∙ ground (
        arith,
        link,
        in_buffer_fits L path (record p { world = w }) fits,
        malloc-Grants L (record p { world = w }) grants,
      )

  -- A descriptor that leads to no incarnation of the process is closed by the C library's `close`, and
  -- nothing else happens: the result and `errno` are those of that call.
  pub lib_close-orig_close :
      (fd : ℕ) (path : FilePath) (w : W) (p : Process W)
      → Grants L
      → LeadsTo fd path p.world w
      → original_path L.getpid path ≡ none
      → lib_close L fd p
        ≡ done (to_int (L.orig_close fd w).0) (record p {
          world = (L.orig_close fd w).1;
          errno = errno_after (L.orig_close fd w).0 p.errno;
        })
  unfolding close_path
  lib_close-orig_close fd path w p grants leads plain =
      lib_close-close_path fd path w p grants leads ∙ ground (arith, plain)

  -- The device is open as `dev` after `w`, and answers the request for the original path.
  abbrev pub Requests : ℕ → ℕ → FilePath → W → Result ℕ → W → Type 0
  Requests fd dev sess_path w answer t =
      (v : W) × (params : SessParams) × (L.orig_open dev_path o_wronly w ≡ (ok dev, v))
      × (L.seq_close dev (close_params sess_path fd L.getpid) v ≡ ((answer, params), t))

  -- Where the device refuses to close an incarnation, `close` gives -1 and EPERM, whatever the error was
  -- (ENODEV, on which the caller should try again, too); only the device is closed.
  pub lib_close-refused :
      (fd dev e : ℕ) (path sess_path : FilePath) (w t : W) (p : Process W)
      → Grants L
      → LeadsTo fd path p.world w
      → original_path L.getpid path ≡ some sess_path
      → Requests fd dev sess_path w (err e) t
      → lib_close L fd p
        ≡ done (negsuc 0) (record p { world = (L.orig_close dev t).1; errno = pos eperm })
  unfolding close_path close_incarnation session_error negate
  lib_close-refused fd dev e path sess_path w t p grants leads inc (v, params, opened, refused) =
      lib_close-close_path fd path w p grants leads ∙ ground (arith, inc, opened, refused)
