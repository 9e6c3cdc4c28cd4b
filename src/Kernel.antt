-- ===== src/Kernel.antt =====
-- The Linux interfaces that src/kmodule calls, as parameters: an operation takes the state `W` of
-- the rest of the kernel and returns it changed. Errors are positive `errno` numbers: `err n` is
-- the C result -n. A `struct file *` is a handle, a number.
pub mod Errno
pub mod Run
use aosv.Base.{ℕ, Bool, List}
use aosv.Base.Text.{FilePath}

pub data Result (A : Type 0) : Type 0 where
  ok : A → Result A
  err : ℕ → Result A

-- What `find_get_pid` and `get_pid_task` say of a process number: no such pid, a pid without a
-- task, a task, or a task that is stopped or traced.
pub data PidStatus : Type 0 where
  no_pid no_task running halted : PidStatus

pub record Kernel (W : Type 0) : Type 0 where
  -- PATH_MAX
  pub path_max : ℕ
  -- kmalloc and kzalloc: does the allocation succeed?
  pub kmalloc : W → Bool × W
  pub filp_open : FilePath → ℕ → ℕ → W → Result ℕ × W
  pub filp_close : ℕ → W → W
  pub get_unused_fd_flags : ℕ → W → Result ℕ × W
  -- fsnotify_open and fd_install
  pub fd_install : ℕ → ℕ → W → W
  -- handle, bytes wanted, offset; the bytes read
  pub kernel_read : ℕ → ℕ → ℕ → W → Result (List ℕ) × W
  -- handle, bytes, offset; the number of bytes written
  pub kernel_write : ℕ → List ℕ → ℕ → W → Result ℕ × W
  pub ktime_get_real : W → ℕ × W
  -- of a folder under the device's; of a file in a folder
  pub kobject_create_and_add : FilePath → W → Bool × W
  pub kobject_del : FilePath → W → W
  pub sysfs_create_file : FilePath → FilePath → W → Result (Unit {0}) × W
  pub sysfs_remove_file : FilePath → FilePath → W → W
  pub pid_status : ℕ → W → PidStatus
  -- copy_to_user and copy_from_user of so many bytes: the number not copied
  pub copy_user : ℕ → W → ℕ × W
  -- kern_path: is there a dentry?
  pub kern_path : FilePath → W → Result ℕ × W
  pub send_sigpipe : ℕ → W → W
