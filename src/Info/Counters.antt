-- ===== src/Info/Counters.antt =====
-- The counters of kmodule/session_info.c under its operations.
use aosv.Base.{ℕ, ◌≡◌, ap₂, true, false, some, arith}
use aosv.Base.Atomic.{increment, decrement, decrement-increment}
use aosv.Base.Text.{FilePath}
use aosv.Kernel.{Kernel, Result, ok, err}
use aosv.Kernel.Errno.{enomem}
use aosv.Kernel.Run.{done, Returns}
use aosv.Session.{Session, Sys, write, write_self, write_write, write_restores, load, update}
use aosv.Info.{
  gain, lose, map_info, add_incarnation_info, remove_incarnation_info, remove_session_info,
  inc_num_name, incarnation_attr,
}

lose-gain : (x : Session) → map_info lose (map_info gain x) ≡ x
lose-gain x =
    ap₂ (λ k n. record x { info = record (x.info) { kref = k; inc_num = n } })
      (decrement-increment x.info.kref) (decrement-increment x.info.inc_num)

module _ {W : Type 0} (K : Kernel W) where
  -- The state after `remove_incarnation_info`.
  abbrev pub without_attr : ℕ → FilePath → Session → Sys W → Sys W
  without_attr a attr_name x s = record s {
    world = K.sysfs_remove_file x.info.f_name attr_name s.world;
    sessions_num = decrement s.sessions_num;
    cell = write s.cell a (some (map_info lose x));
  }

  pub remove_incarnation_info_lem :
      (a : ℕ) (attr_name : FilePath) (x : Session) (s : Sys W)
      → s.cell a ≡ some x
      → remove_incarnation_info K a attr_name s ≡ done tt (without_attr a attr_name x s)
  unfolding remove_incarnation_info load update
  remove_incarnation_info_lem a attr_name x s e = ground arith

  -- The state after `remove_session_info`.
  abbrev pub without_folder : Session → Sys W → Sys W
  without_folder x s = record s {
    world = K.kobject_del x.info.f_name (K.sysfs_remove_file x.info.f_name inc_num_name s.world);
    dev_kref = decrement s.dev_kref;
  }

  pub remove_session_info_lem :
      (a : ℕ) (x : Session) (s : Sys W)
      → s.cell a ≡ some x
      → remove_session_info K a s ≡ done tt (without_folder x s)
  unfolding remove_session_info load
  remove_session_info_lem a x s e = ground arith

  -- The state after `add_incarnation_info` has succeeded.
  abbrev pub with_attr : ℕ → Session → W → Sys W → Sys W
  with_attr a x w s = record s {
    world = w;
    sessions_num = increment s.sessions_num;
    cell = write s.cell a (some (map_info gain x));
  }

  -- What memory and SysFS answer, in the world `w`, to the wish for a file in the session's folder.
  abbrev pub sysfs_answer : Session → FilePath → W → Result (Unit {0})
  sysfs_answer x attr_name w = elim (K.kmalloc w).0 [
    | false ↦ err enomem
    | true ↦ (K.sysfs_create_file x.info.f_name attr_name (K.kmalloc w).1).0
  ]

  -- What `add_incarnation_info` leaves: the answer is that of memory and SysFS; on success one more
  -- incarnation in the three counters, on failure nothing but a changed world.
  abbrev pub Added : ℕ → FilePath → Session → Sys W → Result (Unit {0}) → Sys W → Type 0
  Added a attr_name x s (ok u) t =
      (sysfs_answer x attr_name s.world ≡ ok u) × (t ≡ with_attr a x t.world s)
  Added a attr_name x s (err e) t =
      (sysfs_answer x attr_name s.world ≡ err e) × (t ≡ record s { world = t.world })

  pub add_incarnation_info-Added :
      (a pid fd : ℕ) (x : Session) (s : Sys W)
      → s.cell a ≡ some x
      → Returns (Added a (incarnation_attr pid fd) x s) (add_incarnation_info K a pid fd s)
  unfolding add_incarnation_info load update
  add_incarnation_info-Added a pid fd x s e = ground (
    arith,
    write_self s.cell a (some (map_info gain x)),
    write_write s.cell a (some (map_info gain x)) (some x),
    write_restores s.cell a (some (map_info gain x)) (some x) e,
    decrement-increment s.sessions_num,
    lose-gain x,
  )
