-- ===== src/Device/Directory.antt =====
-- The session path of kmodule/device_sessionfs.c: reading, changing and testing against it.
use aosv.Base.{
  ℕ, ◌-◌, ◌≤◌, ◌<◌, ◌≡◌, ap, true, false, List, [], ◌∷◌, some, arith, length, replicate,
  take-take-append,
}
use aosv.Base.Atomic.{decrement-increment}
use aosv.Kernel.{Kernel, Result, ok, err}
use aosv.Kernel.Run.{Returns}
use aosv.Device.State.{Device}
use aosv.Device.Path.{device_read, device_write, fill_path, first_byte}

module _ {W : Type 0} (K : Kernel W) where
  -- What is left of the device after a write of `buffer` with result `r`: the new path, which is
  -- absolute, and its length; or an error, and the path as before. The `refcount` is as before.
  abbrev pub Wrote : List ℕ → Device W → Result ℕ → Device W → Type 0
  Wrote buffer d (ok n) t =
      (n ≡ 0)
      × (t ≡ record d { sys = t.sys; sess_path = fill_path K buffer; path_len = length buffer })
      × (length buffer ≤ K.path_max)
      × (first_byte buffer ≡ b'/')
  Wrote buffer d (err e) t = t ≡ record d { sys = t.sys }

  -- A write ends on every branch, and changes the path only if it reports success.
  pub device_write-Wrote :
      (buffer : List ℕ) (d : Device W) → Returns (Wrote buffer d) (device_write K (some buffer) d)
  unfolding device_write
  device_write-Wrote buffer d = ground (arith, decrement-increment d.refcount)

  -- Where the kernel grants memory and copies all bytes, an absolute path that leaves room for the
  -- terminator is accepted, and a read with a large enough buffer gives it back.
  pub device_read-write :
      (buffer rest : List ℕ) (n : ℕ) (d : Device W)
      → d.disabled ≡ false
      → ((w : W) → (K.kmalloc w).0 ≡ true)
      → ((k : ℕ) (w : W) → (K.copy_user k w).0 ≡ 0)
      → buffer ≡ b'/' ∷ rest
      → length buffer < K.path_max
      → length buffer ≤ n
      → Returns
          (λ r t. (r ≡ ok 0) × Returns (λ bytes e. bytes ≡ ok buffer) (device_read K false n t))
          (device_write K (some buffer) d)
  unfolding device_write device_read
  device_read-write buffer rest n d on grant copy slash room large = ground (
    arith,
    grant d.sys.world,
    copy (length buffer) (K.kmalloc d.sys.world).1,
    copy (length buffer) (K.copy_user (length buffer) (K.kmalloc d.sys.world).1).1,
    take-take-append buffer (replicate K.path_max 0) (0 ∷ []) (K.path_max - 1) (omega arith),
    ap first_byte slash,
  )
