-- ===== src/Manager/Reopen.antt =====
-- `create_session` of kmodule/session_manager.c on a file that has a session.
use aosv.Base.{
  ℕ, ◌≡◌, refl, sym, ap, ap₂, ◌∙◌, subst, true, ◌||◌, some, arith, All, length, ◌≤◌, ◌<◌,
}
use aosv.Base.Atomic.{decrement-increment, above_zero, above_one}
use aosv.Base.Text.{FilePath}
use aosv.Kernel.{Kernel, Result, ok, err}
use aosv.Kernel.Run.{Run, done, fault, out_of_fuel, and_then, Returns}
use aosv.Session.{
  Incarnation, Session, Sys, write, write_self, write_write, write_restores, put, load_lem, update,
  update_lem,
}
use aosv.Info.{gain, map_info}
use aosv.Info.Counters.{sysfs_answer}
use aosv.Manager.Files.{no_fd}
use aosv.Manager.Search.{no_pid, hold, release, delete_session}
use aosv.Manager.Find.{Live, first_match, first_match_sound, searched, search-found, release-hold}
use aosv.Manager.Open.{
  with_incarnation, create_incarnation, find_or_init, conclude, join_session, create_session,
}
use aosv.Manager.Copy.{Content, Reads}
use aosv.Manager.CopyEnds.{CopyReturns, copy_file-CopyReturns}
use aosv.Manager.Join.{Counted, Joined, create_incarnation-copies}

module _ {W : Type 0} (K : Kernel W) where
  -- A session that is in use is not deallocated.
  pub delete_session_used :
      (a : ℕ) (s : Sys W) {x : Session}
      → s.cell a ≡ some x
      → (above_zero x.refcount || above_one x.info.kref) ≡ true
      → delete_session K a s ≡ done tt s
  unfolding delete_session
  delete_session_used a s at used = ground (arith, load_lem a s at)

  conclude_used :
      (a : ℕ) (r : Result Incarnation) (s : Sys W) {x : Session}
      → s.cell a ≡ some x
      → (above_zero x.refcount || above_one x.info.kref) ≡ true
      → conclude K a r s ≡ done r s
  unfolding conclude
  conclude_used a (ok i) s at used = refl
  conclude_used a (err e) s at used = ground (arith, delete_session_used a s at used)

  module _ (fuel a flags pid mode : ℕ) (s : Sys W) {x : Session} (at : s.cell a ≡ some x)
      (used : (above_zero x.refcount || above_one x.info.kref) ≡ true) where
    released_state :
        (y : Session) (w : W)
        → release y ≡ x
        → put a (some (release y)) (record (put a (some y) s) { world = w })
          ≡ record s { world = w }
    released_state y w e =
        ap (λ c. record s { world = w; cell = c })
          (ap (λ z. write (write s.cell a (some y)) a (some z)) e
            ∙ write_restores s.cell a (some y) (some x) at)

    -- Releasing the user that the search has counted.
    released_error :
        (e : ℕ) (w : W)
        → Returns (Joined K a x s) (
            and_then
              (update a release (record (searched a x s) { world = w }))
              (λ _ u. conclude K a (err e) u))
    released_error e w =
        let s1 : Sys W = record (searched a x s) { world = w } in
        rw (update_lem a release s1 (write_self s.cell a (some (hold x)))) (
          subst (λ v. Returns (Joined K a x s) (conclude K a (err e) v))
            (sym (released_state (hold x) w (release-hold x)))
            (subst (Returns (Joined K a x s))
              (sym (conclude_used a (err e) (record s { world = w }) at used)) refl))

    released_ok :
        (i : Incarnation) (t : Sys W) (y z : Session)
        → t.cell ≡ write (write s.cell a (some (hold x))) a (some y)
        → release y ≡ z
        → Joined K a x s (ok i) (record t { cell = write s.cell a (some z) })
        → Returns (Joined K a x s) (and_then (update a release t) (λ _ u. conclude K a (ok i) u))
    unfolding conclude
    released_ok i t y z c e j =
        let held = write s.cell a (some (hold x)) in
        rw (update_lem a release t (ap (λ m. m a) c ∙ write_self held a (some y))) (
          subst (λ m. Joined K a x s (ok i) (record t { cell = m }))
            (sym (
              ap₂ (λ m v. write m a (some v)) c e
              ∙ write_write held a (some y) (some z)
              ∙ write_write s.cell a (some (hold x)) (some z)))
            j)

    -- The two outcomes of the question to memory and SysFS that was asked in the world `v`.
    released_added :
        (i : Incarnation) (t : Sys W) (v : W) (added : Result (Unit {0}))
        → sysfs_answer K x i.attr_name v ≡ added
        → Counted added a (hold x) (searched a x s) i t
        → Returns (Joined K a x s) (and_then (update a release t) (λ _ u. conclude K a (ok i) u))
    released_added i t v (ok o) answer h =
        let y = with_incarnation i (map_info gain x) in
        let u = record t { cell = write s.cell a (some y) } in
        released_ok i t _ y (ap {A = Sys W} (λ u. u.cell) h)
          (ap (λ n. record y { refcount = n }) (decrement-increment x.refcount))
          (
            v,
            subst (λ q. Counted q a x s i u) (sym answer)
                (ap {A = Sys W} (λ u. record u { cell = write s.cell a (some y) }) h),
          )
    released_added i t v (err e) answer (status, h) =
        let y = with_incarnation i x in
        let u = record t { cell = write s.cell a (some y) } in
        released_ok i t _ y (ap {A = Sys W} (λ u. u.cell) h)
          (ap (λ n. record y { refcount = n }) (decrement-increment x.refcount))
          (
            v,
            subst (λ q. Counted q a x s i u) (sym answer)
                (status, ap {A = Sys W} (λ u. record u { cell = write s.cell a (some y) }) h),
          )

    released :
        (r : Result Incarnation) (t : Sys W)
        → Joined K a (hold x) (searched a x s) r t
        → Returns (Joined K a x s) (and_then (update a release t) (λ _ u. conclude K a r u))
    released (err e) t h =
        subst
          (λ u.
            Returns (Joined K a x s)
              (and_then (update a release u) (λ _ v. conclude K a (err e) v)))
          (sym h) (released_error e t.world)
    released (ok i) t (v, c) = released_added i t v (sysfs_answer K x i.attr_name v) refl c

    join_session-Joined :
        {path : FilePath}
        → s.strings x.pathname ≡ some path
        → x.valid ≡ true
        → CopyReturns K fuel x.file
        → Returns (Joined K a x s) (join_session K fuel a flags pid mode (searched a x s))
    unfolding join_session
    join_session-Joined named valid copies =
        go (create_incarnation K fuel a flags pid mode (searched a x s)) (
          create_incarnation-copies K fuel a flags pid mode (searched a x s)
            (write_self s.cell a (some (hold x))) named valid copies)
      where
        go :
            (r : Run (Sys W) (Result Incarnation))
            → Returns (Joined K a (hold x) (searched a x s)) r
            → Returns
                (Joined K a x s)
                (and_then r (λ inc t. and_then (update a release t) (λ _ u. conclude K a inc u)))
        go (done r t) h = released r t h
        go fault h = absurd h
        go out_of_fuel h = absurd h

  -- `create_session` on a file whose session is in use, where the original is regular and never
  -- longer than `n` bytes, `n` less than the fuel: it ends, and whatever happens, the session's
  -- `refcount` is as before. An error changes nothing in the manager; a success puts one incarnation
  -- at the head of the session's list, which is counted in SysFS and in `sessions_num`
  -- exactly if memory and SysFS granted its file, and else has the error for its status. No session is made or removed.
  pub create_session-Joined :
      (content : Content W) (n fuel p flags pid mode a : ℕ) (s : Sys W) {path : FilePath}
      {x : Session}
      → s.strings p ≡ some path
      → All (Live s) s.sessions
      → first_match path s.cell s.strings s.sessions ≡ some a
      → s.cell a ≡ some x
      → (above_zero x.refcount || above_one x.info.kref) ≡ true
      → Reads K content x.file
      → ((w : W) → length (content x.file w) ≤ n)
      → n < fuel
      → Returns (Joined K a x s) (create_session K fuel p flags pid mode s)
  unfolding create_session
  create_session-Joined content n fuel p flags pid mode a s {path} {x} named live listed at used
        reads bounded h =
      let (valid, name) = first_match_sound path s.cell s.strings s.sessions listed at in
      rw (search-found p no_fd no_pid a s named live listed at, find_valid)
        (join_session-Joined fuel a flags pid mode s at used name valid
          (copy_file-CopyReturns K content x.file n reads bounded fuel h))
    where
      find_valid :
          find_or_init K (some a) p flags mode (searched a x s) ≡ done (ok a) (searched a x s)
      find_valid = ground (
        arith,
        load_lem a (searched a x s) (write_self s.cell a (some (hold x))),
        first_match_sound path s.cell s.strings s.sessions listed at,
      )
