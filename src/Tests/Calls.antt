-- ===== src/Tests/Calls.antt =====
-- The library of shared_lib/libsessionfs.c at inputs that meet the hypotheses of its theorems, with a C
-- library that writes down what it does.
use aosv.Base.{ℕ, ◌≡◌, some, refl, Bool, true, false, List, [], ◌∷◌, ◌++◌, if◌then◌else◌, arith}
use aosv.Base.Atomic.{pos, negsuc}
use aosv.Base.Text.{FilePath, codes, same_text, decimal, starts_with, contains}
use aosv.Kernel.{Result, ok, err}
use aosv.Kernel.Run.{done, Returns}
use aosv.Device.Ioctl.{o_sess}
use aosv.Device.State.{c_string}
use aosv.Library.Process.{Libc, Process, in_buffer, before}
use aosv.Library.Paths.{get_sess_path, close_device}
use aosv.Library.Close.{lib_close}
use aosv.Library.Open.{lib_open, absolute_path}
use aosv.Kernel.Errno.{efault}
use aosv.Device.State.{Device}
use aosv.Device.Path.{device_read, device_write}
use aosv.Library.Attached.{system_call, Attached, device_write-get_sess_path}
use aosv.Tests.Toy.{Toy, toy}
use aosv.Tests.Devices.{device}
use aosv.Library.Closes.{lib_close-refused}
use aosv.Library.Opens.{Located, lib_open-refused}

data Action : Type 0 where
  opened : FilePath → ℕ → Action
  closed : ℕ → Action
  made : FilePath → Action
  removed : FilePath → Action
  asked_open : ℕ → Action
  asked_close : ℕ → Action
  wrote : FilePath → Action

abbrev Log : Type 0
Log = List Action

abbrev incarnation_file : FilePath
incarnation_file = codes "/s/a_incarnation_7_5"

abbrev succeeds : Result ℕ → Bool
succeeds (ok n) = true
succeeds (err e) = false

-- The process 7 has an incarnation as 3, and the device answers as `answer` says; `realpath` allocates
-- `size` bytes.
abbrev libc : Result ℕ → ℕ → Libc Log
libc answer size = record {
  path_max = 64;
  getpid = 7;
  malloc = λ w. (true, w);
  orig_open = λ path flags w. (ok 9, opened path flags ∷ w);
  orig_close = λ fd w. (ok 0, closed fd ∷ w);
  creat = λ path mode w. (ok 8, made path ∷ w);
  readlink = λ path w. (
    ok (if same_text path (codes "/proc/self/fd/3") then incarnation_file else codes "/dev/tty"),
    w,
  );
  realpath = λ path w. (ok (codes "/s/" ++ path), w);
  realpath_size = λ path. size;
  read = λ fd n w. (ok (codes "/s"), w);
  write = λ fd bytes w. (answer, wrote bytes ∷ w);
  seq_open = λ fd params w. (
    (answer, if succeeds answer then record params { filedes = 3 } else params),
    asked_open params.flags ∷ w,
  );
  seq_close = λ fd params w. ((answer, params), asked_close params.filedes ∷ w);
  seq_shutdown = λ fd w. (answer, w);
  remove = λ path w. (ok 0, removed path ∷ w);
}

abbrev start : Process Log
start = record { world = []; errno = pos 0 }

-- The module is not there any more.
lib_close-refused_example :
    lib_close (libc (err 19) 64) 3 start
    ≡ done (negsuc 0) (record {
      world = closed 9 ∷ asked_close 3 ∷ opened (codes "/dev/SessionFS_dev") 1 ∷ [];
      errno = pos 1;
    })
unfolding before same_text decimal starts_with
lib_close-refused_example =
    lib_close-refused (libc (err 19) 64) 3 9 19 incarnation_file (codes "/s/a") []
      (asked_close 3 ∷ opened (codes "/dev/SessionFS_dev") 1 ∷ []) start (λ w. refl) (refl, refl)
      refl (_, _, refl, refl)

-- After the session path has been read.
abbrev located : Process Log
located = record { world = closed 9 ∷ opened (codes "/dev/SessionFS_dev") 0 ∷ []; errno = pos 0 }

a-Located :
    (answer : Result ℕ) (flags : ℕ)
    → Located (libc answer 64) flags (codes "/s/a") (codes "/s/a") (codes "/s") start located
unfolding absolute_path in_buffer get_sess_path close_device c_string
a-Located answer flags = (_, _, _, refl, refl, refl, refl)

-- The log after the device has been asked for an incarnation.
abbrev after_request : Log
after_request = asked_open o_sess ∷ opened (codes "/dev/SessionFS_dev") 1 ∷ located.world

-- The original file does not exist.
lib_open-refused_example :
    lib_open (libc (err 2) 64) (codes "/s/a") o_sess 0 start
    ≡ done (negsuc 0) (record { world = closed 0 ∷ closed 9 ∷ after_request; errno = pos 1 })
unfolding before contains starts_with same_text decimal
lib_open-refused_example =
    lib_open-refused (libc (err 2) 64) (codes "/s/a") (codes "/s/a") (codes "/s") (codes "/dev/tty")
      o_sess 0 9 2 after_request (closed 9 ∷ after_request) start located (λ w. refl)
      (a-Located (err 2) o_sess) refl (_, refl, refl) (refl, refl) refl

-- A C library on a system with the device.
abbrev device_libc : Libc (Device Toy)
device_libc = record {
  path_max = 64;
  getpid = 7;
  malloc = λ d. (true, d);
  orig_open = λ path flags d. (ok 9, d);
  orig_close = λ fd d. (ok 0, d);
  creat = λ path mode d. (ok 8, d);
  readlink = λ path d. (ok (codes "/dev/tty"), d);
  realpath = λ path d. (ok (codes "/mnt/" ++ path), d);
  realpath_size = λ path. 4097;
  read = λ fd n d. system_call (err efault) (device_read toy false n d) d;
  write = λ fd bytes d. system_call (err efault) (device_write toy (some bytes) d) d;
  seq_open = λ fd params d. ((err efault, params), d);
  seq_close = λ fd params d. ((err efault, params), d);
  seq_shutdown = λ fd d. (err efault, d);
  remove = λ path d. (ok 0, d);
}

device_libc-Attached : Attached toy device_libc 9
device_libc-Attached = record { opens = λ flags d. refl; closes = λ d. refl; reads = λ n d. refl }

device_write-get_sess_path_example :
    Returns
      (λ r t.
        (r ≡ ok 0)
        × Returns
            (λ got q. got ≡ (pos 0, codes "/mnt/s"))
            (get_sess_path device_libc 64 (record { world = t; errno = pos 0 })))
      (device_write toy (some (codes "/mnt/s")) device)
device_write-get_sess_path_example =
    device_write-get_sess_path toy device_libc 9 device_libc-Attached (codes "/mnt/s")
      (codes "mnt/s") 64 device (pos 0) refl (λ w. refl) (λ k w. refl) refl (ground arith)
      (ground arith)
