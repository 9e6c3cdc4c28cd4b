-- ===== src/Device/Ioctl.antt =====
-- `device_ioctl` of kmodule/device_sessionfs.c.
use Prim.Native.Nat.{bit_and}
use aosv.Base.{ℕ, zero, suc, Bool, true, false, not, ◌&&◌, List, Option, none, some, ◌==◌}
use aosv.Base.Atomic.{is, increment}
use aosv.Base.Text.{FilePath}
use aosv.Kernel.{Kernel, Result, ok, err, no_pid, no_task}
use aosv.Kernel.Errno.{eagain, enomem, enodev, einval, epipe}
use aosv.Kernel.Run.{done, M, pure, ◌>>=◌, ◌>>◌}
use aosv.Session.{Incarnation, Sys, lift, lift_, write, free_string}
use aosv.Manager.Files.{clear_flags}
use aosv.Manager.Open.{create_session}
use aosv.Manager.Close.{close_session}
use aosv.Manager.Clean.{clean_manager}
use aosv.Device.State.{Device, c_string, call, set, exit_with}
use aosv.Device.Path.{path_ok, path_check}

-- The decimal constant of device_sessionfs.h.
abbrev pub o_sess : ℕ
o_sess = 10000000

-- The `num` of the call: IOCTL_SEQ_OPEN, IOCTL_SEQ_CLOSE, IOCTL_SEQ_SHUTDOWN, and any other.
pub data Request : Type 0 where
  open_request close_request shutdown_request other_request : Request

-- `struct sess_params`; `orig_path` is the buffer that the pointer leads to, `valid` a negated
-- error number.
pub record SessParams : Type 0 where
  pub orig_path : List ℕ
  pub flags : ℕ
  pub mode : ℕ
  pub pid : ℕ
  pub filedes : ℕ
  pub valid : ℕ

-- What the caller sees: the result, where `ok n` is n and `err n` is -n, the parameters, and the
-- number that a shutdown writes.
pub record Reply : Type 0 where
  pub result : Result ℕ
  pub params : SessParams
  pub active : Option ℕ

abbrev pub reply : SessParams → Result ℕ → Reply
reply p r = record { result = r; params = p; active = none }

-- `p->valid=inc->status; p->filedes=inc->filedes`
abbrev pub fill_params : SessParams → Incarnation → SessParams
fill_params p i = record p { valid = i.status; filedes = i.filedes }

-- `sizeof(struct sess_params)`
abbrev pub sess_params_size : ℕ
sess_params_size = 32

-- A status as the result of a call.
abbrev pub status_result : ℕ → Result ℕ
status_result zero = ok 0
status_result (suc e) = err (suc e)

-- `res == PATH_OK`
abbrev pub allowed : Result ℕ → Bool
allowed (ok r) = r == path_ok
allowed (err e) = false

module _ {W : Type 0} where
  -- `orig_pathname`, allocated and filled
  unfoldable pub new_string : FilePath → M (Sys W) ℕ
  new_string path s =
      done s.next (record s { strings = write s.strings s.next (some path); next = suc s.next })

module _ {W : Type 0} (K : Kernel W) (fuel : ℕ) where
  -- The structure and the path, copied from the user; `none` stands
  -- for an early return, with its error.
  unfoldable pub copy_params : SessParams → M (Device W) (Result ℕ)
  unfolding new_string
  copy_params p = do
    got ← call (lift K.kmalloc)
    elim got [
      | false ↦ pure (err enomem)
      | true ↦ do
        missed ← call (lift (K.copy_user sess_params_size))
        elim (missed == 0) [
          | false ↦ pure (err einval)
          | true ↦ do
            got_path ← call (lift K.kmalloc)
            elim got_path [
              | false ↦ pure (err enomem)
              | true ↦ do
                missed_path ← call (lift (K.copy_user K.path_max))
                elim (missed_path == 0) [
                  | false ↦ pure (err einval)
                  | true ↦ do q ← call (new_string (c_string p.orig_path)); pure (ok q)
                ]
            ]
        ]
    ]

  -- The end of IOCTL_SEQ_OPEN, after `create_session`.
  unfoldable pub answer_open : SessParams → ℕ → Result Incarnation → M (Device W) Reply
  answer_open p q (err e) = do call (free_string q); exit_with (reply p (err e))
  answer_open p q (ok i) = do
    missed ← call (lift (K.copy_user sess_params_size))
    elim (missed == 0) [
      | false ↦ exit_with (reply p (err eagain))
      | true ↦ exit_with (reply (fill_params p i) (status_result i.status))
    ]

  unfoldable pub refuse : SessParams → ℕ → M (Device W) Reply
  refuse p q = do call (free_string q); exit_with (reply p (err einval))

  unfoldable pub open_session : SessParams → ℕ → M (Device W) Reply
  unfolding answer_open
  open_session p q = do
    inc ← call (create_session K fuel q (clear_flags p.flags o_sess) p.pid p.mode)
    answer_open p q inc

  -- The path must be allowed, and one of the bits of O_SESS be set in the flags.
  unfoldable pub ioctl_open : SessParams → ℕ → M (Device W) Reply
  unfolding open_session refuse
  ioctl_open p q = do
    checked ← path_check K (c_string p.orig_path)
    elim (allowed checked && not (bit_and p.flags o_sess == 0)) [
      | false ↦ refuse p q
      | true ↦ open_session p q
    ]

  -- SIGPIPE to the process, if it is there.
  unfoldable pub signal_owner : ℕ → M (Device W) (Unit {0})
  signal_owner pid d = elim (K.pid_status pid d.sys.world) [
    | no_pid ↦ done tt d
    | no_task ↦ done tt d
    | _ ↦ call (lift_ (K.send_sigpipe pid)) d
  ]

  unfoldable pub answer_close : SessParams → Result (Unit {0}) → M (Device W) Reply
  unfolding signal_owner
  answer_close p (ok _) = exit_with (reply p (ok 0))
  answer_close p (err _) = do signal_owner p.pid; exit_with (reply p (err epipe))

  unfoldable pub ioctl_close : SessParams → ℕ → M (Device W) Reply
  unfolding answer_close
  ioctl_close p q = do
    res ← call (close_session K fuel q p.filedes p.pid)
    call (free_string q)
    answer_close p res

  -- The test of IOCTL_SEQ_SHUTDOWN: no active session, one user of the device, which is this call,
  -- and nobody else at the device's kobject.
  unfoldable pub decide_shutdown : SessParams → ℕ → ℕ → M (Device W) Reply
  decide_shutdown p n missed d = elim ((n == 0) && (is 1 d.refcount && is 2 d.sys.dev_kref)) [
    | true ↦
        exit_with (record { result = ok missed; params = p; active = some n })
          (record d { locked = false })
    | false ↦
        exit_with (record { result = err eagain; params = p; active = some n })
          (record d { disabled = false })
  ]

  unfoldable pub ioctl_shutdown : SessParams → M (Device W) Reply
  ioctl_shutdown p = do
    set (λ d. record d { disabled = true })
    n ← call (clean_manager K)
    missed ← call (lift (K.copy_user 4))
    decide_shutdown p n missed

  -- The two requests that take parameters.
  unfoldable pub with_params : SessParams → (ℕ → M (Device W) Reply) → M (Device W) Reply
  unfolding copy_params
  with_params p handle = do
    q ← copy_params p
    elim q [ err e ↦ exit_with (reply p (err e)) | ok a ↦ handle a ]

  unfoldable pub dispatch : Request → SessParams → M (Device W) Reply
  unfolding with_params ioctl_open ioctl_close ioctl_shutdown
  dispatch open_request p = with_params p (ioctl_open p)
  dispatch close_request p = with_params p (ioctl_close p)
  dispatch shutdown_request p = ioctl_shutdown p
  dispatch other_request p = exit_with (reply p (ok 0))

  unfoldable pub device_ioctl : Request → SessParams → M (Device W) Reply
  unfolding dispatch
  device_ioctl num p d = elim d.disabled [
    | true ↦ done (reply p (err enodev)) d
    | false ↦ dispatch num p (record d { refcount = increment d.refcount })
  ]
