-- ===== src/Library/Opens.antt =====
-- What `open` of shared_lib/libsessionfs.c does to the process.
use Prim.Native.Nat.{bit_and}
use aosv.Base.{
  ℕ, ◌≡◌, subst, ◌∙◌, Bool, true, false, ◌&&◌, List, none, some, arith, leb, ◌==◌, length,
  if◌then◌else◌,
}
use aosv.Base.Atomic.{pos, negsuc}
use aosv.Base.Text.{FilePath, contains}
use aosv.Kernel.{Result, ok, err}
use aosv.Kernel.Errno.{eperm}
use aosv.Kernel.Run.{done}
use aosv.Manager.Files.{o_wronly}
use aosv.Device.State.{c_string}
use aosv.Device.Ioctl.{SessParams, o_sess}
use aosv.Library.Process.{Libc, Process, errno_after, negate}
use aosv.Library.Steps.{and_then-done, Grants, malloc-Grants, malloc_zeroed-Grants, in_buffer_fits}
use aosv.Library.Paths.{dev_path, get_sess_path}
use aosv.Library.Close.{original_path}
use aosv.Library.Closes.{LeadsTo, lib_close-orig_close}
use aosv.Library.Open.{
  creates, no_mode, open_params, absolute_path, finish_open, request_incarnation, choose,
  with_sess_path, lib_open,
}

-- The mode for the file that is opened.
abbrev pub mode_for : ℕ → ℕ → ℕ
mode_for flags given = if creates flags then given else no_mode

-- The test that makes `open` ask for an incarnation.
abbrev pub for_session : ℕ → FilePath → FilePath → Bool
for_session flags sess_path file_path =
    (bit_and flags o_sess == o_sess) && contains sess_path file_path

module _ {W : Type 0} (L : Libc W) where
  -- The name stands for `file_path`, and the device gives `sess_path` as the session path; `u` is the
  -- process then.
  abbrev pub Located : ℕ → FilePath → FilePath → FilePath → Process W → Process W → Type 0
  Located flags pathname file_path sess_path p u =
      (q : Process W) × (n : ℕ) × (bytes : List ℕ) × (absolute_path L flags pathname p
        ≡ done (some file_path) q)
      × (get_sess_path L L.path_max q ≡ done (pos n, bytes) u)
      × (c_string bytes ≡ sess_path)
      × (leb L.path_max (length sess_path) ≡ false)

  with_sess_path-choose :
      (pathname file_path : FilePath) (flags mode n : ℕ) (bytes : List ℕ) (q u : Process W)
      → get_sess_path L L.path_max q ≡ done (pos n, bytes) u
      → leb L.path_max (length (c_string bytes)) ≡ false
      → with_sess_path L pathname file_path flags mode q
        ≡ choose L pathname file_path (c_string bytes) flags mode u
  unfolding with_sess_path
  with_sess_path-choose pathname file_path flags mode n bytes q u got fits =
      and_then-done _ got ∙ and_then-done _ (in_buffer_fits L (c_string bytes) u fits)

  lib_open-choose :
      (pathname file_path sess_path : FilePath) (flags given : ℕ) (p u : Process W)
      → Grants L
      → Located flags pathname file_path sess_path p u
      → lib_open L pathname flags given p
        ≡ choose L pathname file_path sess_path flags (mode_for flags given) u
  unfolding lib_open
  lib_open-choose pathname file_path sess_path flags given p u grants
        (q, n, bytes, located, got, text, fits) =
      and_then-done _ (malloc-Grants L p grants)
      ∙ and_then-done _ (malloc-Grants L p grants)
      ∙ and_then-done _ located
      ∙ subst
          (λ t.
            leb L.path_max (length t) ≡ false
            → with_sess_path L pathname file_path flags (mode_for flags given) q
              ≡ choose L pathname file_path t flags (mode_for flags given) u)
          text
          (with_sess_path-choose pathname file_path flags (mode_for flags given) n bytes q u got)
          fits

  -- The device is open as `dev` after `w`, and answers the request for an incarnation of the file with
  -- the parameters `params`.
  abbrev pub Asks : FilePath → ℕ → ℕ → ℕ → W → Result ℕ → SessParams → W → Type 0
  Asks file_path flags mode dev w answer params t =
      (v : W) × (L.orig_open dev_path o_wronly w ≡ (ok dev, v))
      × (L.seq_open dev (open_params file_path flags mode L.getpid) v ≡ ((answer, params), t))

  request_incarnation-finish_open :
      (file_path : FilePath) (flags mode dev : ℕ) (answer : Result ℕ) (params : SessParams) (t : W)
      (u : Process W)
      → Grants L
      → Asks file_path flags mode dev u.world answer params t
      → request_incarnation L file_path flags mode u
        ≡ finish_open L dev answer params
            (record u { world = t; errno = errno_after answer u.errno })
  unfolding request_incarnation
  request_incarnation-finish_open file_path flags mode dev answer params t u grants
        (v, opened, answered) =
      ground (arith, opened, answered, malloc_zeroed-Grants L (record u { world = v }) grants)

  lib_open-finish_open :
      (pathname file_path sess_path : FilePath) (flags given dev : ℕ) (answer : Result ℕ)
      (params : SessParams) (t : W) (p u : Process W)
      → Grants L
      → Located flags pathname file_path sess_path p u
      → for_session flags sess_path file_path ≡ true
      → Asks file_path flags (mode_for flags given) dev u.world answer params t
      → lib_open L pathname flags given p
        ≡ finish_open L dev answer params
            (record u { world = t; errno = errno_after answer u.errno })
  unfolding choose
  lib_open-finish_open pathname file_path sess_path flags given dev answer params t p u grants
        located wanted asks =
      lib_open-choose pathname file_path sess_path flags given p u grants located
      ∙ ground (
        arith,
        wanted,
        request_incarnation-finish_open file_path flags (mode_for flags given) dev answer params t u
            grants asks,
      )

  -- Where the device refuses an incarnation and leaves the parameters as they were, `open` gives -1 and
  -- EPERM, whatever the error was; and it closes the descriptor 0 by the C library's `close`, where that
  -- descriptor leads to no incarnation of the process.
  pub lib_open-refused :
      (pathname file_path sess_path path : FilePath) (flags given dev e : ℕ) (t x : W)
      (p u : Process W)
      → Grants L
      → Located flags pathname file_path sess_path p u
      → for_session flags sess_path file_path ≡ true
      → Asks file_path flags
          (mode_for flags given)
          dev
          u.world
          (err e)
          (open_params file_path flags (mode_for flags given) L.getpid)
          t
      → LeadsTo L 0 path (L.orig_close dev t).1 x
      → original_path L.getpid path ≡ none
      → lib_open L pathname flags given p
        ≡ done (negsuc 0) (record u { world = (L.orig_close 0 x).1; errno = pos eperm })
  unfolding finish_open negate
  lib_open-refused pathname file_path sess_path path flags given dev e t x p u grants located wanted
        asks leads plain =
      lib_open-finish_open pathname file_path sess_path flags given dev (err e)
        (open_params file_path flags (mode_for flags given) L.getpid) t p u grants located wanted
        asks
      ∙ and_then-done _ (
          lib_close-orig_close L 0 path x
            (record u {
              world = (L.orig_close dev t).1;
              errno = errno_after (L.orig_close dev t).0 (pos e);
            })
            grants leads plain)
