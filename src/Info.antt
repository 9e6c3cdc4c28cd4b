-- ===== src/Info.antt =====
-- kmodule/session_info.c: the folder of a session and the file of an incarnation in SysFS, and the
-- counters that they publish.
pub mod Counters
pub mod Publish
pub mod Show
use aosv.Base.{ℕ, ◌≡◌, Bool, true, false, List, [], ◌∷◌, ◌++◌, map, ◌==◌, if◌then◌else◌, take}
use aosv.Base.Atomic.{ℤ, pos, increment, decrement}
use aosv.Base.Text.{FilePath, codes, decimal}
use aosv.Kernel.{Kernel, Result, ok, err}
use aosv.Kernel.Errno.{enomem}
use aosv.Kernel.Run.{Run, done, M, pure, ◌>>=◌, ◌>>◌}
use aosv.Session.{SessInfo, Session, Sys, lift, lift_, modify, load, update}

abbrev pub inc_num_name : FilePath
inc_num_name = codes "active_incarnations_num"

-- The loop of `add_session_info` over the file name: '/' becomes '-'.
unfoldable pub format_name : FilePath → FilePath
format_name name = map (λ c. if c == b'/' then b'-' else c) name

-- `scnprintf(name, 20, "%d_%d", pid, fdes)`
unfoldable pub incarnation_attr : ℕ → ℕ → FilePath
incarnation_attr pid fdes = take 19 (decimal pid ++ (b'_' ∷ decimal fdes))

abbrev pub map_info : (SessInfo → SessInfo) → Session → Session
map_info f s = record s { info = f s.info }

-- `atomic_add(1, &info->inc_num)` with `kobject_get(info->kobj)`, and the way back
abbrev pub gain : SessInfo → SessInfo
gain i = record i { kref = increment i.kref; inc_num = increment i.inc_num }

abbrev pub lose : SessInfo → SessInfo
lose i = record i { kref = decrement i.kref; inc_num = decrement i.inc_num }

module _ {W : Type 0} (K : Kernel W) where
  -- After `kobject_create_and_add`.
  unfoldable pub publish_folder : FilePath → ℕ → M (Sys W) (Result (Unit {0}))
  publish_folder f_name a = do
    modify (λ s. record s { dev_kref = increment s.dev_kref })
    update a (map_info λ i. record { kref = pos 1; f_name = f_name; inc_num = pos 0 })
    res ← lift (K.sysfs_create_file f_name inc_num_name)
    elim res [
      | ok _ ↦ pure (ok tt)
      | err e ↦ do
        update a (map_info λ i. record i { f_name = [] })
        lift_ (K.kobject_del f_name)
        modify (λ s. record s { dev_kref = decrement s.dev_kref })
        pure (err e)
    ]

  unfoldable pub add_session_info : FilePath → ℕ → M (Sys W) (Result (Unit {0}))
  unfolding publish_folder format_name
  add_session_info name a = do
    got ← lift K.kmalloc
    elim got [
      | false ↦ pure (err enomem)
      | true ↦ do
        made ← lift (K.kobject_create_and_add (format_name name))
        elim made [
          | true ↦ publish_folder (format_name name) a
          | false ↦ do modify (λ s. record s { dev_kref = decrement s.dev_kref }); pure (err enomem)
        ]
    ]

  unfoldable pub remove_session_info : ℕ → M (Sys W) (Unit {0})
  remove_session_info a = do
    s ← load a
    lift_ (K.sysfs_remove_file s.info.f_name inc_num_name)
    lift_ (K.kobject_del s.info.f_name)
    modify (λ t. record t { dev_kref = decrement t.dev_kref })

  unfoldable pub add_incarnation_info : ℕ → ℕ → ℕ → M (Sys W) (Result (Unit {0}))
  unfolding incarnation_attr
  add_incarnation_info a pid fdes = do
    got ← lift K.kmalloc
    elim got [
      | false ↦ pure (err enomem)
      | true ↦ do
        modify (λ s. record s { sessions_num = increment s.sessions_num })
        update a (map_info gain)
        s ← load a
        res ← lift (K.sysfs_create_file s.info.f_name (incarnation_attr pid fdes))
        elim res [
          | ok _ ↦ pure (ok tt)
          | err e ↦ do
            update a (map_info lose)
            modify (λ t. record t { sessions_num = decrement t.sessions_num })
            pure (err e)
        ]
    ]

  unfoldable pub remove_incarnation_info : ℕ → FilePath → M (Sys W) (Unit {0})
  remove_incarnation_info a attr_name = do
    s ← load a
    lift_ (K.sysfs_remove_file s.info.f_name attr_name)
    modify (λ t. record t { sessions_num = decrement t.sessions_num })
    update a (map_info lose)
