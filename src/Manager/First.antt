-- ===== src/Manager/First.antt =====
-- `create_session` of kmodule/session_manager.c on a file that has no session.
use mathlib.Core.Bool.{false≢true}
use aosv.Base.{
  ℕ, ◌≤◌, ◌<◌, ◌≡◌, ◌≢◌, refl, sym, ap, ◌∙◌, subst, ◌⊎◌, inl, inr, true, false, ◌||◌, none, some,
  arith, All, length, ◌==◌, ==_iff, Bool-cases,
}
use aosv.Base.Atomic.{increment, decrement, above_zero, above_one}
use aosv.Base.Text.{FilePath}
use aosv.Kernel.{Kernel, Result, ok, err}
use aosv.Kernel.Errno.{eagain}
use aosv.Kernel.Run.{Run, done, fault, out_of_fuel, and_then, Returns}
use aosv.Session.{
  Incarnation, Session, Sys, write, write_self, write_write, write_restores, load, update, free,
  free_string, update_lem,
}
use aosv.Info.{gain, map_info}
use aosv.Info.Publish.{published, with_info}
use aosv.Manager.Files.{no_fd}
use aosv.Manager.Search.{no_pid, release, delete_session}
use aosv.Manager.Find.{Live, first_match, search_session-first_match}
use aosv.Manager.Copy.{Content, Reads}
use aosv.Manager.CopyEnds.{CopyReturns, copy_file-CopyReturns}
use aosv.Info.Counters.{sysfs_answer}
use aosv.Manager.Join.{Counted, Joined, create_incarnation-copies}
use aosv.Manager.Fresh.{placed, Placed, init_session-Placed}
use aosv.Manager.Open.{
  new_session, with_incarnation, create_incarnation, conclude, join_session, join_if_found,
  find_or_init, create_session, init_session,
}

-- The session that `init_session` makes of the file `f` with the name at `p`.
abbrev pub made : FilePath → ℕ → ℕ → Session
made path f p = with_info (published path) (new_session f p)

module _ {W : Type 0} where
  -- The state with that session, with `x` in its place.
  abbrev pub placed_as : FilePath → ℕ → ℕ → Session → W → Sys W → Sys W
  placed_as path p f x w s = record (placed path p f w s) { cell = write s.cell s.next (some x) }

  -- On success a new session with one incarnation stands at the head of the list, and is not in use
  -- otherwise; the incarnation is counted in SysFS and in `sessions_num`, or it is not. On an error either no session
  -- was made; or the new session stays listed without an incarnation; or, where the error is EAGAIN,
  -- the new session stays listed although it and its name are deallocated.
  abbrev pub Opened : FilePath → ℕ → Sys W → Result Incarnation → Sys W → Type 0
  Opened path p s (ok i) t =
      (f : ℕ) × ((t
          ≡ record (placed_as path p f
              (release (with_incarnation i (map_info gain (made path f p)))) t.world s) {
                sessions_num = increment s.sessions_num;
              })
        ⊎ (t ≡ placed_as path p f (release (with_incarnation i (made path f p))) t.world s))
  Opened path p s (err e) t =
      (t ≡ record s { world = t.world; next = t.next; dev_kref = t.dev_kref })
      ⊎ ((f : ℕ) × (((e ≢ eagain) × (t ≡ placed_as path p f (release (made path f p)) t.world s))
            ⊎ ((e ≡ eagain)
                × (t ≡ record (placed path p f t.world s) {
                  cell = s.cell;
                  strings = write s.strings p none;
                }))))

module _ {W : Type 0} (K : Kernel W) where
  -- A session that nobody uses is deallocated, with its name.
  pub delete_session_unused :
      (a : ℕ) (s : Sys W) {x : Session} {name : FilePath}
      → s.cell a ≡ some x
      → s.strings x.pathname ≡ some name
      → (above_zero x.refcount || above_one x.info.kref) ≡ false
      → delete_session K a s
        ≡ done tt (record s {
          world = K.filp_close x.file s.world;
          strings = write s.strings x.pathname none;
          cell = write s.cell a none;
        })
  unfolding delete_session load free free_string
  delete_session_unused a s at named unused = ground arith

  module _ (path : FilePath) (p f : ℕ) (s : Sys W) (named : s.strings p ≡ some path)
      (unused : s.cell s.next ≡ none) where
    abbrev a : ℕ
    a = s.next

    abbrev x : Session
    x = made path f p

    conclude_other :
        (e : ℕ) (t : Sys W) → (e == eagain) ≡ false → conclude K a (err e) t ≡ done (err e) t
    unfolding conclude
    conclude_other e t other = ground arith

    conclude_again :
        (e : ℕ) (t u : Sys W)
        → (e == eagain) ≡ true
        → delete_session K a t ≡ done tt u
        → conclude K a (err e) t ≡ done (err e) u
    unfolding conclude
    conclude_again e t u again gone = ground arith

    conclude_error :
        (e : ℕ) (w : W)
        → Returns (Opened path p s) (conclude K a (err e) (placed_as path p f (release x) w s))
    unfolding decrement
    conclude_error e w = elim (Bool-cases (e == eagain)) [
      | inr other ↦
          subst (Returns (Opened path p s)) (sym (conclude_other e _ other))
            (inr (f, inl ((λ q. false≢true (sym other ∙ (==_iff e eagain).1 q)), refl)))
      | inl again ↦
          subst (Returns (Opened path p s))
            (sym (
              conclude_again e _ _ again (
                delete_session_unused a (placed_as path p f (release x) w s)
                  (write_self s.cell a (some (release x))) named refl)))
            (inr (
              f,
              inr (
                (==_iff e eagain).0 again,
                ap
                    (λ c. record (placed path p f (K.filp_close f w) s) {
                      cell = c;
                      strings = write s.strings p none;
                    })
                    (write_restores s.cell a (some (release x)) none unused),
              ),
            ))
    ]

    released_ok :
        (i : Incarnation) (t : Sys W) (z : Session)
        → t.cell ≡ write (write s.cell a (some x)) a (some z)
        → and_then (update a release t) (λ _ u. conclude K a (ok i) u)
          ≡ done (ok i) (record t { cell = write s.cell a (some (release z)) })
    unfolding conclude
    released_ok i t z c =
        let first = write s.cell a (some x) in
        rw (update_lem a release t (ap (λ m. m a) c ∙ write_self first a (some z))) (
          ap (λ m. done (ok i) (record t { cell = m }))
            (ap (λ m. write m a (some (release z))) c
              ∙ write_write first a (some z) (some (release z))
              ∙ write_write s.cell a (some x) (some (release z))))

    released_added :
        (i : Incarnation) (t : Sys W) (v : W) (added : Result (Unit {0}))
        → Counted added a x (placed path p f v s) i t
        → Returns (Opened path p s) (and_then (update a release t) (λ _ u. conclude K a (ok i) u))
    released_added i t v (ok o) h =
        let y = release (with_incarnation i (map_info gain x)) in
        subst (Returns (Opened path p s)) (sym (released_ok i t _ (ap {A = Sys W} (λ u. u.cell) h)))
          (f, inl (ap {A = Sys W} (λ u. record u { cell = write s.cell a (some y) }) h))
    released_added i t v (err e) (_, h) =
        let y = release (with_incarnation i x) in
        subst (Returns (Opened path p s)) (sym (released_ok i t _ (ap {A = Sys W} (λ u. u.cell) h)))
          (f, inr (ap {A = Sys W} (λ u. record u { cell = write s.cell a (some y) }) h))

    released :
        (r : Result Incarnation) (t : Sys W) (v : W)
        → Joined K a x (placed path p f v s) r t
        → Returns (Opened path p s) (and_then (update a release t) (λ _ u. conclude K a r u))
    released (err e) t v h =
        subst
          (λ u.
            Returns (Opened path p s)
              (and_then (update a release u) (λ _ v. conclude K a (err e) v)))
          (sym h)
          (rw (update_lem a release (placed path p f t.world s) (write_self s.cell a (some x))) (
            subst
              (λ c.
                Returns (Opened path p s)
                  (conclude K a (err e) (record (placed path p f t.world s) { cell = c })))
              (sym (write_write s.cell a (some x) (some (release x)))) (conclude_error e t.world)))
    released (ok i) t v (u, c) = released_added i t v (sysfs_answer K x i.attr_name u) c

    join_session-Opened :
        (fuel flags pid mode : ℕ) (w : W)
        → CopyReturns K fuel f
        → Returns (Opened path p s) (join_session K fuel a flags pid mode (placed path p f w s))
    unfolding join_session
    join_session-Opened fuel flags pid mode w copies =
        go (create_incarnation K fuel a flags pid mode (placed path p f w s)) (
          create_incarnation-copies K fuel a flags pid mode (placed path p f w s)
            (write_self s.cell a (some x)) named refl copies)
      where
        go :
            (r : Run (Sys W) (Result Incarnation))
            → Returns (Joined K a x (placed path p f w s)) r
            → Returns
                (Opened path p s)
                (and_then r (λ inc t. and_then (update a release t) (λ _ u. conclude K a inc u)))
        go (done r t) h = released r t w h
        go fault h = absurd h
        go out_of_fuel h = absurd h

  -- `create_session` on a file that no valid session in the list is for, while every listed session
  -- and its name are allocated, the next address is unused, and all files are regular and never
  -- longer than `n` bytes, `n` less than the fuel: it ends, with one of the outcomes of `Opened`.
  pub create_session-Opened :
      (content : Content W) (n fuel p flags pid mode : ℕ) (s : Sys W) {path : FilePath}
      → s.strings p ≡ some path
      → All (Live s) s.sessions
      → first_match path s.cell s.strings s.sessions ≡ none
      → s.cell s.next ≡ none
      → ((f : ℕ) → Reads K content f)
      → ((f : ℕ) (w : W) → length (content f w) ≤ n)
      → n < fuel
      → Returns (Opened path p s) (create_session K fuel p flags pid mode s)
  unfolding create_session find_or_init join_if_found
  create_session-Opened content n fuel p flags pid mode s {path} named live new unused reads bounded
        h =
      rw (search_session-first_match s p no_fd no_pid path named live, new)
        (go (init_session K p flags mode s)
          (init_session-Placed K p flags mode s named live new unused))
    where
      go :
          (r : Run (Sys W) (Result ℕ))
          → Returns (Placed path p s) r
          → Returns
              (Opened path p s)
              (and_then r (λ session. join_if_found K fuel session flags pid mode))
      go (done (err e) t) q = inl q
      go (done (ok b) t) (f, e, q) =
          subst (λ u. Returns (Opened path p s) (join_session K fuel b flags pid mode u)) (sym q)
            (subst
              (λ c.
                Returns (Opened path p s)
                  (join_session K fuel c flags pid mode (placed path p f t.world s)))
              (sym e)
              (join_session-Opened path p f s named unused fuel flags pid mode t.world
                (copy_file-CopyReturns K content f n (reads f) (bounded f) fuel h)))
      go fault q = absurd q
      go out_of_fuel q = absurd q
