-- ===== src/Session.antt =====
-- kmodule/session_types.h: the session objects, and the memory that holds them. A pointer is a
-- number; the address of a `struct session` also stands for its `struct session_rcu`, which is
-- allocated with it and points back to it. The locks and list nodes have no field: each operation
-- runs alone, and the lockless list of incarnations is a list, newest first.
use aosv.Base.{
  ℕ, ◌≡◌, ◌≢◌, fun_ext, arith, Bool, true, false, List, Option, none, some, ◌==◌, if◌then◌else◌,
}
use aosv.Base.Atomic.{ℤ}
use aosv.Base.Text.{FilePath}
use aosv.Kernel.{Kernel, Result, err}
use aosv.Kernel.Errno.{enomem}
use aosv.Kernel.Run.{done, fault, M}

-- `struct sess_info`; `kref` is the reference count of its kobject
pub record SessInfo : Type 0 where
  pub kref : ℤ
  pub f_name : FilePath
  pub inc_num : ℤ

-- `struct incarnation`; `status` is the error number that made it invalid, 0 if it is valid
pub record Incarnation : Type 0 where
  pub file : ℕ
  pub attr_name : FilePath
  pub pathname : FilePath
  pub filedes : ℕ
  pub owner_pid : ℕ
  pub status : ℕ

-- `struct session`; `pathname` is a pointer into the string memory
pub record Session : Type 0 where
  pub incarnations : List Incarnation
  pub info : SessInfo
  pub file : ℕ
  pub pathname : ℕ
  pub refcount : ℤ
  pub valid : Bool

abbrev pub Memory : Type 0 → Type 0
Memory A = ℕ → Option A

unfoldable pub write {ℓ} : {A : Type ℓ} → (ℕ → Option A) → ℕ → Option A → ℕ → Option A
write m p v q = if p == q then v else m q

pub write_self {ℓ} : {A : Type ℓ} (m : ℕ → Option A) (p : ℕ) (v : Option A) → write m p v p ≡ v
unfolding write
write_self m p v = ground arith

pub write_other {ℓ} :
    {A : Type ℓ} (m : ℕ → Option A) (p q : ℕ) (v : Option A) → p ≢ q → write m p v q ≡ m q
unfolding write
write_other m p q v h = ground arith

pub write_write {ℓ} :
    {A : Type ℓ} (m : ℕ → Option A) (p : ℕ) (v w : Option A) → write (write m p v) p w ≡ write m p w
unfolding write
write_write m p v w = fun_ext λ q. ground arith

pub write_restores {ℓ} :
    {A : Type ℓ} (m : ℕ → Option A) (p : ℕ) (v w : Option A) → m p ≡ w → write (write m p v) p w ≡ m
unfolding write
write_restores m p v w e = fun_ext λ q. ground arith

-- The state of the session manager (`sessions`), of the session information (`sessions_num`, the
-- reference count of `dev_kobj`) and of the kernel around them.
pub record Sys (W : Type 0) : Type 0 where
  pub world : W
  pub cell : Memory Session
  pub strings : Memory FilePath
  pub next : ℕ
  pub sessions : List ℕ
  pub sessions_num : ℤ
  pub dev_kref : ℤ

module _ {W : Type 0} where
  abbrev pub lift : {A : Type 0} → (W → A × W) → M (Sys W) A
  lift f s = let (a, w) = f s.world in done a (record s { world = w })

  abbrev pub lift_ : (W → W) → M (Sys W) (Unit {0})
  lift_ f s = done tt (record s { world = f s.world })

  abbrev pub modify : (Sys W → Sys W) → M (Sys W) (Unit {0})
  modify f s = done tt (f s)

  -- `*p`
  unfoldable pub load : ℕ → M (Sys W) Session
  load p s = elim (s.cell p) [ none ↦ fault | some x ↦ done x s ]

  -- the string at `p`
  unfoldable pub load_string : ℕ → M (Sys W) FilePath
  load_string p s = elim (s.strings p) [ none ↦ fault | some x ↦ done x s ]

  -- `*p = x`
  abbrev pub put : ℕ → Option Session → Sys W → Sys W
  put p x s = record s { cell = write s.cell p x }

  -- a change of `*p`
  unfoldable pub update : ℕ → (Session → Session) → M (Sys W) (Unit {0})
  update p f s = elim (s.cell p) [ none ↦ fault | some x ↦ done tt (put p (some (f x)) s) ]

  -- `kfree`, of an object and of a string; a second `kfree` is a fault
  unfoldable pub free : ℕ → M (Sys W) (Unit {0})
  free p s = elim (s.cell p) [ none ↦ fault | some x ↦ done tt (put p none s) ]

  unfoldable pub free_string : ℕ → M (Sys W) (Unit {0})
  free_string p s = elim (s.strings p) [
    | none ↦ fault
    | some x ↦ done tt (record s { strings = write s.strings p none })
  ]

-- `if(!kmalloc(...)) return ERR_PTR(-ENOMEM);` and what follows.
unfoldable pub with_memory : {W A : Type 0} → Kernel W → M (Sys W) (Result A) → M (Sys W) (Result A)
with_memory K m s = elim (K.kmalloc s.world).0 [
  | false ↦ done (err enomem) (record s { world = (K.kmalloc s.world).1 })
  | true ↦ m (record s { world = (K.kmalloc s.world).1 })
]

module _ {W : Type 0} where
  pub load_lem : (p : ℕ) (s : Sys W) {x : Session} → s.cell p ≡ some x → load p s ≡ done x s
  unfolding load
  load_lem p s e = ground arith

  pub update_lem :
      (p : ℕ) (f : Session → Session) (s : Sys W) {x : Session}
      → s.cell p ≡ some x
      → update p f s ≡ done tt (put p (some (f x)) s)
  unfolding update
  update_lem p f s e = ground arith

  pub load_string_lem :
      (p : ℕ) (s : Sys W) {path : FilePath}
      → s.strings p ≡ some path
      → load_string p s ≡ done path s
  unfolding load_string
  load_string_lem p s e = ground arith
