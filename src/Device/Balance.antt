-- ===== src/Device/Balance.antt =====
-- What the calls on the device leave of its own variables.
use Prim.Native.Nat.{bit_and}
use aosv.Base.{
  ℕ, ◌≡◌, ◌≢◌, refl, sym, ap, ◌∙◌, subst, not, ◌&&◌, inl, inr, Bool-cases, Bool, true, false, arith,
  ◌==◌,
}
use aosv.Base.Atomic.{increment, decrement, decrement-increment}
use aosv.Base.Text.{FilePath}
use aosv.Kernel.{Kernel, Result, ok, err}
use aosv.Kernel.Errno.{enodev}
use aosv.Kernel.Run.{Run, done, fault, out_of_fuel, M, and_then, Ends}
use aosv.Session.{Incarnation, Sys, free_string}
use aosv.Manager.Open.{create_session}
use aosv.Manager.Close.{close_session}
use aosv.Device.State.{Device, c_string, call, resume, exit_with}
use aosv.Device.Path.{path_check}
use aosv.Device.Ioctl.{
  Request, open_request, close_request, shutdown_request, other_request, SessParams, Reply,
  copy_params, answer_open, ioctl_open, ioctl_close, answer_close, refuse, open_session, allowed,
  o_sess, reply, with_params, dispatch, device_ioctl,
}

-- Everything but the session manager's state is as it was.
abbrev pub SameDevice : {W : Type 0} → Device W → Device W → Type 0
SameDevice d t = t ≡ record d { sys = t.sys }

-- As before, but one user less, as at the end of a call.
abbrev pub Left : {W : Type 0} → Device W → Device W → Type 0
Left d t = t ≡ record d { sys = t.sys; refcount = decrement d.refcount }

module _ {W : Type 0} where
  call-SameDevice :
      {A : Type 0} (m : M (Sys W) A) (d : Device W) → Ends (λ _ t. SameDevice d t) (call m d)
  call-SameDevice m d = go (m d.sys)
    where
      go : {A : Type 0} (r : Run (Sys W) A) → Ends (λ _ t. SameDevice d t) (resume d r)
      go (done a s) = refl
      go fault = tt
      go out_of_fuel = tt

module _ {W : Type 0} (K : Kernel W) where
  path_check-SameDevice :
      (path : FilePath) (d : Device W) → Ends (λ _ t. SameDevice d t) (path_check K path d)
  unfolding path_check
  path_check-SameDevice path d = ground arith

  copy_params-SameDevice :
      (fuel : ℕ) (p : SessParams) (d : Device W)
      → Ends (λ _ t. SameDevice d t) (copy_params K fuel p d)
  unfolding copy_params
  copy_params-SameDevice fuel p d = ground arith

  -- A call of the session manager, and then a step that leaves.
  then_leave :
      {A B : Type 0} (m : M (Sys W) A) (k : A → M (Device W) B) (d : Device W)
      → ((a : A) (s : Sys W)
          → Ends (λ _ t. Left (record d { sys = s }) t) (k a (record d { sys = s })))
      → Ends (λ _ t. Left d t) (and_then (call m d) k)
  then_leave m k d f = go (m d.sys)
    where
      go : (r : Run (Sys W) _) → Ends (λ _ t. Left d t) (and_then (resume d r) k)
      go (done a s) = f a s
      go fault = tt
      go out_of_fuel = tt

  answer_open-Left :
      (fuel : ℕ) (p : SessParams) (q : ℕ) (r : Result Incarnation) (d : Device W)
      → Ends (λ _ t. Left d t) (answer_open K fuel p q r d)
  unfolding answer_open
  answer_open-Left fuel p q (err e) d = then_leave (free_string q) _ d (λ _ s. refl)
  answer_open-Left fuel p q (ok i) d = ground arith

  -- A step that keeps the device, and then one that leaves.
  keep_leave :
      {A B : Type 0} (r : Run (Device W) A) (k : A → M (Device W) B) (d : Device W)
      → Ends (λ _ t. SameDevice d t) r
      → ((a : A) (s : Sys W)
          → Ends (λ _ t. Left (record d { sys = s }) t) (k a (record d { sys = s })))
      → Ends (λ _ t. Left d t) (and_then r k)
  keep_leave (done a t) k d h f = subst (λ u. Ends (λ _ t. Left d t) (k a u)) (sym h) (f a t.sys)
  keep_leave fault k d h f = tt
  keep_leave out_of_fuel k d h f = tt

  ioctl_open-Left :
      (fuel : ℕ) (p : SessParams) (q : ℕ) (d : Device W)
      → Ends (λ _ t. Left d t) (ioctl_open K fuel p q d)
  unfolding ioctl_open
  ioctl_open-Left fuel p q d =
      keep_leave (path_check K (c_string p.orig_path) d) _ d (path_check-SameDevice _ d)
        λ checked s. choose (allowed checked && not (bit_and p.flags o_sess == 0)) s
    where
      choose :
          (b : Bool) (s : Sys W)
          → Ends
              (λ _ t. Left (record d { sys = s }) t)
              ((elim b as (λ _. M (Device W) Reply) [
                | false ↦ refuse K fuel p q
                | true ↦ open_session K fuel p q
              ])
                (record d { sys = s }))
      choose false s = then_leave (free_string q) _ (record d { sys = s }) (λ _ s. refl)
      choose true s =
          then_leave (create_session K fuel q _ p.pid p.mode) _ (record d { sys = s })
            λ inc s'. answer_open-Left fuel p q inc (record d { sys = s' })

  answer_close-Left :
      (fuel : ℕ) (p : SessParams) (r : Result (Unit {0})) (d : Device W)
      → Ends (λ _ t. Left d t) (answer_close K fuel p r d)
  unfolding answer_close
  answer_close-Left fuel p (ok _) d = refl
  answer_close-Left fuel p (err e) d = ground arith

  ioctl_close-Left :
      (fuel : ℕ) (p : SessParams) (q : ℕ) (d : Device W)
      → Ends (λ _ t. Left d t) (ioctl_close K fuel p q d)
  unfolding ioctl_close
  ioctl_close-Left fuel p q d = then_leave (close_session K fuel q p.filedes p.pid) _ d λ r s.
      then_leave (free_string q) _ (record d { sys = s })
        λ _ s'. answer_close-Left fuel p r (record d { sys = s' })

  with_params-Left :
      (fuel : ℕ) (p : SessParams) (handle : ℕ → M (Device W) Reply) (d : Device W)
      → ((q : ℕ) (e : Device W) → Ends (λ _ t. Left e t) (handle q e))
      → Ends (λ _ t. Left d t) (with_params K fuel p handle d)
  unfolding with_params
  with_params-Left fuel p handle d f =
      keep_leave (copy_params K fuel p d) _ d (copy_params-SameDevice fuel p d)
        λ q s. next q (record d { sys = s })
    where
      next :
          (q : Result ℕ) (e : Device W)
          → Ends
              (λ _ t. Left e t)
              ((elim q as (λ _. M (Device W) Reply) [
                | err n ↦ exit_with (reply p (err n))
                | ok a ↦ handle a
              ])
                e)
      next (ok a) e = f a e
      next (err n) e = refl

  -- One user more on entry and one less at the end: none.
  Left-entered :
      (d t : Device W) → Left (record d { refcount = increment d.refcount }) t → SameDevice d t
  Left-entered d t h =
      h ∙ ap (λ n. record d { sys = t.sys; refcount = n }) (decrement-increment d.refcount)

  Ends-entered :
      {A : Type 0} (d : Device W) (r : Run (Device W) A)
      → Ends (λ _ t. Left (record d { refcount = increment d.refcount }) t) r
      → Ends (λ _ t. SameDevice d t) r
  Ends-entered d (done a t) h = Left-entered d t h
  Ends-entered d fault h = tt
  Ends-entered d out_of_fuel h = tt

  pub device_ioctl-enabled :
      (fuel : ℕ) (num : Request) (p : SessParams) (d : Device W)
      → d.disabled ≡ false
      → device_ioctl K fuel num p d
        ≡ dispatch K fuel num p (record d { refcount = increment d.refcount })
  unfolding device_ioctl
  device_ioctl-enabled fuel num p d h = ground arith

  pub device_ioctl-disabled :
      (fuel : ℕ) (num : Request) (p : SessParams) (d : Device W)
      → d.disabled ≡ true
      → device_ioctl K fuel num p d ≡ done (reply p (err enodev)) d
  unfolding device_ioctl
  device_ioctl-disabled fuel num p d h = ground arith

  dispatch-Left :
      (fuel : ℕ) (num : Request) (p : SessParams) (d : Device W)
      → num ≢ shutdown_request
      → Ends (λ _ t. Left d t) (dispatch K fuel num p d)
  unfolding dispatch
  dispatch-Left fuel open_request p d ne =
      with_params-Left fuel p (ioctl_open K fuel p) d (ioctl_open-Left fuel p)
  dispatch-Left fuel close_request p d ne =
      with_params-Left fuel p (ioctl_close K fuel p) d (ioctl_close-Left fuel p)
  dispatch-Left fuel shutdown_request p d ne = absurd (ne refl)
  dispatch-Left fuel other_request p d ne = refl

  -- Whatever an ioctl that is no shutdown request does, on success and on each of its early
  -- returns, it leaves the device's own variables as they were; its `refcount` too, which counts
  -- the call while it runs.
  pub device_ioctl-SameDevice :
      (fuel : ℕ) (num : Request) (p : SessParams) (d : Device W)
      → num ≢ shutdown_request
      → Ends (λ _ t. SameDevice d t) (device_ioctl K fuel num p d)
  device_ioctl-SameDevice fuel num p d other = elim (Bool-cases d.disabled) [
    | inl h ↦ subst (Ends (λ _ t. SameDevice d t)) (sym (device_ioctl-disabled fuel num p d h)) refl
    | inr h ↦ subst (Ends (λ _ t. SameDevice d t)) (sym (device_ioctl-enabled fuel num p d h)) (
        Ends-entered d _
          (dispatch-Left fuel num p (record d { refcount = increment d.refcount }) other))
  ]
