-- ===== src/Manager/Closed.antt =====
-- `close_session`, where nothing is copied, of kmodule/session_manager.c.
use aosv.Base.{ℕ, ◌≡◌, ap, ◌∙◌, true, false, ◌&&◌, none, some, ◌==◌, All}
use aosv.Base.Atomic.{increment, decrement, decrement-increment, is}
use aosv.Base.Text.{FilePath}
use aosv.Kernel.{Kernel, ok, err}
use aosv.Kernel.Errno.{enoent}
use aosv.Kernel.Run.{done, and_then, pure}
use aosv.Session.{Incarnation, Session, Sys, write, write_self, write_write, put}
use aosv.Info.{lose, map_info}
use aosv.Manager.Search.{hold, release}
use aosv.Manager.Find.{Live, first_match, first_match_sound, searched}
use aosv.Manager.Close.{find_incarnation, close_in, close_session}
use aosv.Manager.Settle.{
  closed_state, delete_incarnation-missing, delete_incarnation-skip, settle-kept,
  close_session-step,
}

module _ {W : Type 0} (K : Kernel W) (fuel p fd pid a : ℕ) (s : Sys W) {path : FilePath}
    {x : Session} (named : s.strings p ≡ some path) (live : All (Live s) s.sessions)
    (listed : first_match path s.cell s.strings s.sessions ≡ some a) (at : s.cell a ≡ some x) where
  -- The descriptor is no incarnation of the process: the close fails with ENOENT, and the session
  -- keeps the user that the search has counted, for ever.
  pub close_session-unknown :
      find_incarnation fd pid x.incarnations ≡ none
      → close_session K fuel p fd pid s ≡ done (err enoent) (put a (some (hold x)) s)
  close_session-unknown h = close_session-step K fuel p fd pid a s named live listed at (
      delete_incarnation-missing K fuel a fd pid (searched a x s)
        (write_self s.cell a (some (hold x))) true h)

  -- An incarnation that is not valid, because its copy had failed or because it was closed before:
  -- where the session stays in use, the close succeeds without a copy. The SysFS references and the
  -- two counts go down once more, for each such close.
  close_session-invalid :
      {i : Incarnation}
      → find_incarnation fd pid x.incarnations ≡ some i
      → (i.status == 0) ≡ false
      → (is 1 (increment x.refcount) && is 1 (decrement x.info.kref)) ≡ false
      → close_session K fuel p fd pid s
        ≡ done (ok tt) (record s {
          world = K.sysfs_remove_file x.info.f_name i.attr_name s.world;
          cell = write s.cell a (some (close_in fd pid (map_info lose x)));
          sessions_num = decrement s.sessions_num;
        })
  close_session-invalid {i} open_inc st busy =
      let s1 = searched a x s in
      let w = K.sysfs_remove_file x.info.f_name i.attr_name s.world in
      let at1 = write_self s.cell a (some (hold x)) in
      let y = close_in fd pid (map_info lose (hold x)) in
      let t = closed_state K fuel a fd pid s1 at1 i w in
      let m1 = write s.cell a (some (hold x)) in
      let m2 = write m1 a (some (map_info lose (hold x))) in
      close_session-step K fuel p fd pid a s named live listed at
        (delete_incarnation-skip K fuel a fd pid s1 at1 true open_inc st)
      ∙ ap (λ r. and_then r (λ _. pure (ok tt)))
          (settle-kept K a t (write_self m2 a (some y))
            (first_match_sound path s.cell s.strings s.sessions listed at).0 busy)
      ∙ ap
          (λ c.
            done (ok tt)
              (record s { world = w; cell = c; sessions_num = decrement s.sessions_num }))
          (write_write m2 a (some y) (some (release y))
            ∙ write_write m1 a _ (some (release y))
            ∙ write_write s.cell a _ (some (release y))
            ∙ ap
                (λ n.
                  write s.cell a
                    (some (record (close_in fd pid (map_info lose x)) { refcount = n })))
                (decrement-increment x.refcount))
