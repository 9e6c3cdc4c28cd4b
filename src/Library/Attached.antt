-- ===== src/Library/Attached.antt =====
-- `get_sess_path` of shared_lib/libsessionfs.c on the device of
-- kmodule/device_sessionfs.c.
use aosv.Base.{ℕ, ◌≡◌, refl, sym, ◌∙◌, subst, ap, true, false, List, ◌∷◌, ◌<◌, ◌≤◌, some, length}
use aosv.Base.Atomic.{ℤ, pos}
use aosv.Base.Text.{FilePath}
use aosv.Kernel.{Kernel, ok, err}
use aosv.Kernel.Errno.{efault}
use aosv.Kernel.Run.{Run, done, fault, out_of_fuel, Returns, Returns-mono}
use aosv.Device.State.{Device}
use aosv.Device.Path.{device_read, device_write}
use aosv.Device.Directory.{device_read-write}
use aosv.Manager.Files.{o_rdonly}
use aosv.Library.Process.{Libc, Process}
use aosv.Library.Paths.{dev_path, get_sess_path}
use aosv.Library.Switches.{get_sess_path-read}

-- A call of the C library that runs a handler of the module; a handler that faults ends the call with
-- `crashed`.
abbrev pub system_call : {S A : Type 0} → A → Run S A → S → A × S
system_call crashed (done a t) s = (a, t)
system_call crashed fault s = (crashed, s)
system_call crashed out_of_fuel s = (crashed, s)

module _ {W : Type 0} (K : Kernel W) where
  -- The C library on a system where `dev` is the device: opening and closing it leaves
  -- it alone, and read runs the handler of the module.
  pub record Attached (L : Libc (Device W)) (dev : ℕ) : Type 0 where
    pub opens : (flags : ℕ) (d : Device W) → L.orig_open dev_path flags d ≡ (ok dev, d)
    pub closes : (d : Device W) → L.orig_close dev d ≡ (ok 0, d)
    pub reads :
        (n : ℕ) (d : Device W)
        → L.read dev n d ≡ system_call (err efault) (device_read K false n d) d

  -- Where a run returns, the call has its result and state.
  system_call-Returns :
      {S A : Type 0} (P : A → S → Type 0) (crashed : A) (r : Run S A) (s : S)
      → Returns P r
      → P (system_call crashed r s).0 (system_call crashed r s).1
  system_call-Returns P crashed (done a t) s h = h
  system_call-Returns P crashed fault s h = absurd h
  system_call-Returns P crashed out_of_fuel s h = absurd h

  module _ (L : Libc (Device W)) (dev : ℕ) (attached : Attached L dev) where
    read_back :
        (n : ℕ) (bytes : List ℕ) (p : Process (Device W))
        → Returns (λ r e. r ≡ ok bytes) (device_read K false n p.world)
        → Returns (λ r q. r ≡ (pos 0, bytes)) (get_sess_path L n p)
    read_back n bytes p h =
        subst (Returns (λ r q. r ≡ (pos 0, bytes)))
          (sym (
            get_sess_path-read L n dev 0 bytes p.world after after p
              (attached.opens o_rdonly p.world)
              (attached.reads n p.world
                ∙ ap (λ r. (r, after))
                    (system_call-Returns (λ r e. r ≡ ok bytes) (err efault)
                      (device_read K false n p.world) p.world h))
              (attached.closes after)))
          refl
      where
        after : Device W
        after = (system_call (err efault) (device_read K false n p.world) p.world).1

    -- Where the kernel grants memory and copies all bytes, the device is not disabled, and opening, closing
    -- and reading the device in the C library work as on the module's device: after a write of an
    -- absolute path shorter than PATH_MAX to the device, by any process, `get_sess_path` of any process
    -- with a buffer that is large enough gives that path (and 0, not its length).
    pub device_write-get_sess_path :
        (abs_path rest : FilePath) (n : ℕ) (d : Device W) (errno : ℤ)
        → d.disabled ≡ false
        → ((w : W) → (K.kmalloc w).0 ≡ true)
        → ((k : ℕ) (w : W) → (K.copy_user k w).0 ≡ 0)
        → abs_path ≡ b'/' ∷ rest
        → length abs_path < K.path_max
        → length abs_path ≤ n
        → Returns
            (λ r t.
              (r ≡ ok 0)
              × Returns
                  (λ got q. got ≡ (pos 0, abs_path))
                  (get_sess_path L n (record { world = t; errno = errno })))
            (device_write K (some abs_path) d)
    device_write-get_sess_path abs_path rest n d errno on grant copy slash short large =
        Returns-mono
          (λ r t. (r ≡ ok 0) × Returns (λ bytes e. bytes ≡ ok abs_path) (device_read K false n t))
          (λ r t.
            (r ≡ ok 0)
            × Returns (λ got q. got ≡ (pos 0, abs_path))
                (get_sess_path L n (record { world = t; errno = errno })))
          (device_write K (some abs_path) d)
          (λ r t (accepted, kept).
            (accepted, read_back n abs_path (record { world = t; errno = errno }) kept))
          (device_read-write K abs_path rest n d on grant copy slash short large)
