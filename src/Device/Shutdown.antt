-- ===== src/Device/Shutdown.antt =====
-- IOCTL_SEQ_SHUTDOWN of kmodule/device_sessionfs.c.
use aosv.Base.{ℕ, ◌≡◌, Bool, true, false, some}
use aosv.Base.Atomic.{pos}
use aosv.Kernel.{Kernel, ok, err}
use aosv.Kernel.Errno.{eagain}
use aosv.Kernel.Run.{Run}
use aosv.Device.State.{Device}
use aosv.Device.Ioctl.{Reply}
use aosv.Device.Balance.{SameDevice}

module _ {W : Type 0} (K : Kernel W) where
  -- The outcome of a shutdown request while `n` incarnations are active: none is, nobody else uses the
  -- device and its kobject, the device stays disabled and the module is unlocked; or one of these is
  -- not so, the request fails with EAGAIN and reports `n`, and the device is enabled again.
  pub data ShutDown (n : ℕ) (d : Device W) (r : Reply) (t : Device W) : Type 0 where
    allowed_shutdown :
        (missed : ℕ)
        → r.result ≡ ok missed
        → r.active ≡ some 0
        → n ≡ 0
        → d.refcount ≡ pos 0
        → t.sys.dev_kref ≡ pos 2
        → t ≡ record d { sys = t.sys; disabled = true; locked = false }
        → ShutDown n d r t
    refused_shutdown :
        r.result ≡ err eagain
        → r.active ≡ some n
        → ¬ ((n ≡ 0) × (d.refcount ≡ pos 0) × (t.sys.dev_kref ≡ pos 2))
        → SameDevice d t
        → ShutDown n d r t
