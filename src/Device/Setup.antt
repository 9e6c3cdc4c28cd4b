-- ===== src/Device/Setup.antt =====
-- `init_device` and `release_device` of kmodule/device_sessionfs.c, `init_info` and `release_info` of
-- kmodule/session_info.c: the module is loaded and unloaded.
use aosv.Base.{
  ℕ, ◌-◌, Bool, true, false, ◌++◌, Option, none, some, if◌then◌else◌, length, replicate,
}
use aosv.Base.Atomic.{pos}
use aosv.Base.Text.{FilePath, codes}
use aosv.Kernel.{Kernel, Result, ok, err}
use aosv.Kernel.Run.{M, crash, pure, ◌>>=◌, ◌>>◌}
use aosv.Session.{lift, lift_, modify}
use aosv.Manager.Close.{init_manager}
use aosv.Manager.Clean.{clean_manager}
use aosv.Device.State.{Device, call, set}

-- The kernel's registers of character devices, device classes and devices, and the attribute
-- `active_sessions_num` of the device.
pub record Registers (W : Type 0) : Type 0 where
  pub register_chrdev : W → Result ℕ × W
  pub unregister_chrdev : W → W
  pub class_create : W → Result ℕ × W
  pub class_destroy : W → W
  pub device_create : W → Result ℕ × W
  pub device_destroy : W → W
  pub create_attribute : W → Result (Unit {0}) × W
  pub remove_attribute : W → W

-- DEFAULT_SESS_PATH
abbrev pub default_sess_path : FilePath
default_sess_path = codes "/mnt"

module _ {W : Type 0} (R : Registers W) where
  unfoldable pub init_info : M (Device W) (Result (Unit {0}))
  init_info = do
    call (modify (λ s. record s { sessions_num = pos 0 }))
    res ← call (lift R.create_attribute)
    elim res [
      | err e ↦ pure (err e)
      | ok _ ↦ do set (λ d. record d { dev_kobj = true }); pure (ok tt)
    ]

  -- `sysfs_remove_file` reads through `dev_kobj`.
  unfoldable pub release_info : M (Device W) (Unit {0})
  release_info d = elim d.dev_kobj [ true ↦ call (lift_ R.remove_attribute) d | false ↦ crash d ]

  -- The result of init_info is not tested. `locked` is what try_module_get leaves.
  unfoldable pub create_device : M (Device W) (Result (Unit {0}))
  unfolding init_info
  create_device = do
    dev ← call (lift R.device_create)
    elim dev [
      | err e ↦ do call (lift_ R.class_destroy); call (lift_ R.unregister_chrdev); pure (err e)
      | ok _ ↦ do init_info; set (λ d. record d { locked = true }); pure (ok tt)
    ]

  unfoldable pub create_class : M (Device W) (Result (Unit {0}))
  unfolding create_device
  create_class = do
    dev_class ← call (lift R.class_create)
    elim dev_class [
      | err e ↦ do call (lift_ R.unregister_chrdev); pure (err e)
      | ok _ ↦ create_device
    ]

  unfoldable pub register_device : M (Device W) (Result (Unit {0}))
  unfolding create_class
  register_device = do
    res ← call (lift R.register_chrdev)
    elim res [ err e ↦ pure (err e) | ok _ ↦ create_class ]

module _ {W : Type 0} (K : Kernel W) where
  -- `sess_path=kzalloc(...); strcpy(...)`, which is not tested, and the length.
  unfoldable pub init_path : M (Device W) (Unit {0})
  init_path = do
    got ← call (lift K.kmalloc)
    elim got [
      | false ↦ crash
      | true ↦ set (λ d. record d {
        sess_path = default_sess_path ++ replicate (K.path_max - length default_sess_path) 0;
        path_len = length default_sess_path;
      })
    ]

  -- `dev_ops=kzalloc(...)`, which is not tested.
  unfoldable pub init_ops : M (Device W) (Unit {0})
  init_ops = do got ← call (lift K.kmalloc); elim got [ false ↦ crash | true ↦ pure tt ]

  unfoldable pub init_device : Registers W → M (Device W) (Result (Unit {0}))
  unfolding init_path init_ops init_manager register_device
  init_device R = do
    set (λ d. record d { disabled = false; refcount = pos 0 })
    init_path
    init_ops
    call init_manager
    register_device R

  -- The memory that is freed has no counterpart.
  unfoldable pub release_device : Registers W → M (Device W) (Unit {0})
  unfolding clean_manager release_info
  release_device R = do
    set (λ d. record d { disabled = true })
    call (clean_manager K)
    release_info R
    call (lift_ R.device_destroy)
    call (lift_ R.class_destroy)
    call (lift_ R.unregister_chrdev)

  -- `sessionFS_load` and `sessionFS_unload` of kmodule/module.c.
  unfoldable session_fs_load : Registers W → M (Device W) (Result (Unit {0}))
  session_fs_load R = init_device R

  unfoldable session_fs_unload : Registers W → M (Device W) (Unit {0})
  session_fs_unload R = release_device R

-- The mode that the device's inode gets, if one is asked for: `is_device` is the test of the device number.
unfoldable sessionfs_devnode : Bool → Option ℕ → Option ℕ
sessionfs_devnode is_device none = none
sessionfs_devnode is_device (some mode) = some (if is_device then 0x1b6 else mode)
