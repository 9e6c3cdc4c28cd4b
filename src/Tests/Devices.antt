-- ===== src/Tests/Devices.antt =====
-- The device with "/mnt" as its session path.
use aosv.Base.{ℕ, suc, ◌-◌, ap, refl, ◌++◌, true, false, [], ◌∷◌, some, arith, ◌≢◌, replicate}
use aosv.Base.Bits.{HasBit}
use aosv.Base.Atomic.{pos}
use aosv.Base.Text.{FilePath, codes}
use aosv.Kernel.{no_task, ok}
use aosv.Kernel.Run.{Returns, Ends}
use aosv.Manager.Files.{clear_flags}
use aosv.Manager.Clean.{clean_manager}
use aosv.Manager.CleanEnds.{clean_manager-Returns}
use aosv.Device.State.{Device}
use aosv.Device.Path.{device_write}
use aosv.Device.Directory.{Wrote, device_write-Wrote}
use aosv.Device.Ioctl.{o_sess, close_request, SessParams, device_ioctl}
use aosv.Device.Flags.{o_trunc_bit, clear_flags-o_sess, o_excl_bit, o_append_bit, o_cloexec_bit}
use aosv.Device.Balance.{SameDevice, device_ioctl-SameDevice}
use aosv.Device.Setup.{Registers, init_device}
use aosv.Device.Loading.{Undoes, After, init_device-After}
use aosv.Tests.Toy.{Toy, toy}
use aosv.Tests.Sessions.{state, session, name}

abbrev directory : FilePath
directory = codes "/mnt"

abbrev pub device : Device Toy
device = record {
  sys = record (state 2) {
    world = record (state 2).world { names = (codes "/mnt", 5) ∷ (codes "/mnt/a", 0) ∷ [] };
  };
  sess_path = directory ++ replicate 60 0;
  path_len = 4;
  disabled = false;
  refcount = pos 0;
  locked = true;
  dev_kobj = false;
}

abbrev params : SessParams
params = record {
  orig_path = codes "/mnt/a";
  flags = o_sess;
  mode = 420;
  pid = 7;
  filedes = 3;
  valid = 0;
}

device_write-Wrote_example :
    Returns (Wrote toy (codes "/tmp") device) (device_write toy (some (codes "/tmp")) device)
device_write-Wrote_example = device_write-Wrote toy (codes "/tmp") device

device_ioctl-SameDevice_example :
    Ends (λ _ t. SameDevice device t) (device_ioctl toy 9 close_request params device)
device_ioctl-SameDevice_example =
    device_ioctl-SameDevice toy 9 close_request params device (ground arith)

toy_tasks : (pid : ℕ) (w : Toy) → toy.pid_status pid w ≢ no_task
toy_tasks pid w = ground arith

clear_flags-o_sess_example :
    HasBit 1 2 × (1 ≢ o_excl_bit) × (1 ≢ o_trunc_bit) × (1 ≢ o_append_bit) × (1 ≢ o_cloexec_bit)
unfolding clear_flags
clear_flags-o_sess_example = clear_flags-o_sess 1 2 refl

clean_manager-Returns_example : Returns (λ _ _. Unit {0}) (clean_manager toy device.sys)
clean_manager-Returns_example =
    clean_manager-Returns toy device.sys (1 ∷ []) toy_tasks
      ((session 2, refl, refl), (name, refl), tt, tt, tt)

-- Registrations that count up, and down again.
abbrev registers : Registers Toy
registers = record {
  register_chrdev = λ w. (ok 0, record w { clock = suc w.clock });
  unregister_chrdev = λ w. record w { clock = w.clock - 1 };
  class_create = λ w. (ok 1, record w { next_fd = suc w.next_fd });
  class_destroy = λ w. record w { next_fd = w.next_fd - 1 };
  device_create = λ w. (ok 2, record w { next_file = suc w.next_file });
  device_destroy = λ w. record w { next_file = w.next_file - 1 };
  create_attribute = λ w. (ok tt, w);
  remove_attribute = λ w. w;
}

registers-Undoes : Undoes registers
registers-Undoes = record {
  chrdev = λ w. ap (λ n. record w { clock = n }) (omega arith);
  class = λ w. ap (λ n. record w { next_fd = n }) (omega arith);
  device = λ w. ap (λ n. record w { next_file = n }) (omega arith);
  attribute = λ w. refl;
}

init_device-After_example :
    Returns (After toy registers device.sys.world) (init_device toy registers device)
init_device-After_example = init_device-After toy registers registers-Undoes device refl (λ w. refl)
