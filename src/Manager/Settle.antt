-- ===== src/Manager/Settle.antt =====
-- The steps of `close_session` of kmodule/session_manager.c.
use aosv.Base.{ℕ, ◌≡◌, Bool, true, false, ◌&&◌, none, some, arith, ◌==◌, All}
use aosv.Base.Atomic.{pos, decrement, is}
use aosv.Base.Text.{FilePath}
use aosv.Kernel.{Kernel, Result, ok, err}
use aosv.Kernel.Errno.{enoent}
use aosv.Kernel.Run.{Run, done, and_then, pure}
use aosv.Session.{
  Incarnation, Session, Sys, write, write_self, write_write, put, load, update, free, free_string,
}
use aosv.Info.{lose, map_info}
use aosv.Info.Counters.{
  without_attr, without_folder, remove_incarnation_info_lem, remove_session_info_lem,
}
use aosv.Manager.Files.{copy_file}
use aosv.Manager.Search.{hold, release, delete_session}
use aosv.Manager.Find.{Live, first_match, first_match_sound, searched, search-found}
use aosv.Manager.Open.{invalidate, unlink, remove_address}
use aosv.Manager.Close.{find_incarnation, close_in, delete_incarnation, settle, close_session}

module _ {W : Type 0} (K : Kernel W) (fuel a fd pid : ℕ) (s : Sys W) {x : Session}
    (at : s.cell a ≡ some x) where
  pub delete_incarnation-missing :
      (overwrite : Bool)
      → find_incarnation fd pid x.incarnations ≡ none
      → delete_incarnation K fuel a fd pid overwrite s ≡ done (err enoent) s
  unfolding delete_incarnation load
  delete_incarnation-missing overwrite h = ground arith

  -- After the copy has ended with `r`.
  abbrev pub closed_state : Incarnation → W → Sys W
  closed_state i w =
      put a (some (close_in fd pid (map_info lose x)))
        (record (without_attr K a i.attr_name x s) { world = w })

  abbrev finish : Incarnation → W → Result (Unit {0}) → Run (Sys W) (Result (Unit {0}))
  finish i w (ok _) = done (ok tt) (closed_state i w)
  finish i w (err e) = done (err e) (record (without_attr K a i.attr_name x s) { world = w })

  -- An incarnation that is not valid is closed without a copy.
  pub delete_incarnation-skip :
      (overwrite : Bool) {i : Incarnation}
      → find_incarnation fd pid x.incarnations ≡ some i
      → (i.status == 0) ≡ false
      → delete_incarnation K fuel a fd pid overwrite s
        ≡ done (ok tt) (closed_state i (K.sysfs_remove_file x.info.f_name i.attr_name s.world))
  unfolding delete_incarnation load update
  delete_incarnation-skip overwrite {i} h st = ground (
    arith,
    remove_incarnation_info_lem K a i.attr_name x s at,
    write_self s.cell a (some (map_info lose x)),
  )

  pub delete_incarnation-flush :
      {i : Incarnation} {w : W} {r : Result (Unit {0})}
      → find_incarnation fd pid x.incarnations ≡ some i
      → i.status ≡ 0
      → (let t = without_attr K a i.attr_name x s in
          copy_file K fuel i.file x.file t ≡ done r (record t { world = w }))
      → delete_incarnation K fuel a fd pid true s ≡ finish i w r
  unfolding delete_incarnation load update
  delete_incarnation-flush {i} {w} {r} h st c = ground (
    arith,
    remove_incarnation_info_lem K a i.attr_name x s at,
    write_self s.cell a (some (map_info lose x)),
  )

module _ {W : Type 0} (K : Kernel W) (a : ℕ) (t : Sys W) {y : Session} (at : t.cell a ≡ some y)
    (valid : y.valid ≡ true) where
  -- Nobody else uses the session: it is unlisted, closed and freed with its name.
  abbrev pub purged_state : Sys W
  purged_state = record t {
    world = K.filp_close y.file (without_folder K y t).world;
    cell = write t.cell a none;
    strings = write t.strings y.pathname none;
    sessions = remove_address a t.sessions;
    dev_kref = decrement t.dev_kref;
  }

  pub settle-last :
      {name : FilePath}
      → t.strings y.pathname ≡ some name
      → y.refcount ≡ pos 1
      → y.info.kref ≡ pos 1
      → settle K a t ≡ done tt purged_state
  unfolding settle load update unlink delete_session free free_string decrement
  settle-last n r k = ground (
    arith,
    remove_session_info_lem K a (invalidate y) (put a (some (invalidate y)) t)
        (write_self t.cell a (some (invalidate y))),
    write_self t.cell a (some (invalidate y)),
    write_write t.cell a (some (invalidate y)) (some (release (invalidate y))),
    write_self t.cell a (some (release (invalidate y))),
    write_write t.cell a (some (release (invalidate y))) none,
  )

  pub settle-kept :
      (is 1 y.refcount && is 1 y.info.kref) ≡ false
      → settle K a t ≡ done tt (put a (some (release y)) t)
  unfolding settle load update
  settle-kept h = ground (arith, write_self t.cell a (some (release y)))

module _ {W : Type 0} (K : Kernel W) (fuel p fd pid a : ℕ) (s : Sys W) {path : FilePath}
    {x : Session} (named : s.strings p ≡ some path) (live : All (Live s) s.sessions)
    (listed : first_match path s.cell s.strings s.sessions ≡ some a) (at : s.cell a ≡ some x) where
  abbrev pub settled : Result (Unit {0}) → Sys W → Run (Sys W) (Result (Unit {0}))
  settled (ok _) t = and_then (settle K a t) (λ _. pure (ok tt))
  settled (err e) t = done (err e) t

  pub close_session-step :
      {r : Result (Unit {0})} {t : Sys W}
      → delete_incarnation K fuel a fd pid true (searched a x s) ≡ done r t
      → close_session K fuel p fd pid s ≡ settled r t
  unfolding close_session load
  close_session-step {r} {t} d = ground (
    arith,
    search-found p fd pid a s named live listed at,
    write_self s.cell a (some (hold x)),
    first_match_sound path s.cell s.strings s.sessions listed at,
    d,
  )
