-- ===== src/Device/State.antt =====
-- The variables of kmodule/device_sessionfs.c, and the step from the session manager's state to
-- the device's.
use aosv.Base.{ℕ, Bool, List, [], ◌∷◌, ◌==◌, if◌then◌else◌}
use aosv.Base.Atomic.{ℤ, increment, decrement}
use aosv.Base.Text.{FilePath}
use aosv.Kernel.Run.{Run, done, fault, out_of_fuel, M}
use aosv.Session.{Sys}

-- `sess_path` is the whole buffer of PATH_MAX bytes; `disabled` is `device_status`; `locked` says
-- that the module still holds the reference of `try_module_get`, and `dev_kobj` that the variable of
-- kmodule/session_info.c is not NULL.
pub record Device (W : Type 0) : Type 0 where
  pub sys : Sys W
  pub sess_path : List ℕ
  pub path_len : ℕ
  pub disabled : Bool
  pub refcount : ℤ
  pub locked : Bool
  pub dev_kobj : Bool

-- The string in a buffer ends at the first zero.
unfoldable pub c_string : List ℕ → FilePath
c_string [] = []
c_string (b ∷ rest) = if b == 0 then [] else b ∷ c_string rest

module _ {W : Type 0} where
  abbrev pub resume : {A : Type 0} → Device W → Run (Sys W) A → Run (Device W) A
  resume d (done a s) = done a (record d { sys = s })
  resume d fault = fault
  resume d out_of_fuel = out_of_fuel

  -- A call of the session manager.
  abbrev pub call : {A : Type 0} → M (Sys W) A → M (Device W) A
  call m d = resume d (m d.sys)

  abbrev pub set : (Device W → Device W) → M (Device W) (Unit {0})
  set f d = done tt (f d)

  -- `atomic_add(1, &refcount)`
  abbrev pub enter : M (Device W) (Unit {0})
  enter = set (λ d. record d { refcount = increment d.refcount })

  -- `atomic_sub(1, &refcount); return r;`
  abbrev pub exit_with : {A : Type 0} → A → M (Device W) A
  exit_with r d = done r (record d { refcount = decrement d.refcount })
