-- ===== src/Library/Switches.antt =====
-- What `get_sess_path` of shared_lib/libsessionfs.c does.
use aosv.Base.{ℕ, ◌≡◌, List, arith}
use aosv.Base.Atomic.{pos}
use aosv.Kernel.{ok}
use aosv.Kernel.Run.{done}
use aosv.Manager.Files.{o_rdonly}
use aosv.Library.Process.{Libc, Process}
use aosv.Library.Paths.{get_sess_path, dev_path, close_device}

module _ {W : Type 0} (L : Libc W) where
  -- After the device is open: `get_sess_path` gives the bytes that are read.
  pub get_sess_path-read :
      (n dev m : ℕ) (bytes : List ℕ) (v w t : W) (p : Process W)
      → L.orig_open dev_path o_rdonly p.world ≡ (ok dev, v)
      → L.read dev n v ≡ (ok bytes, w)
      → L.orig_close dev w ≡ (ok m, t)
      → get_sess_path L n p ≡ done (pos m, bytes) (record p { world = t })
  unfolding get_sess_path close_device
  get_sess_path-read n dev m bytes v w t p opened got closed = ground (arith, opened, got, closed)
