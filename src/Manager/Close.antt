-- ===== src/Manager/Close.antt =====
-- `delete_incarnation`, `init_manager` and `close_session` of kmodule/session_manager.c.
use aosv.Base.{ℕ, Bool, true, false, ◌&&◌, List, [], ◌∷◌, Option, none, some, ◌==◌, if◌then◌else◌}
use aosv.Base.Atomic.{is}
use aosv.Kernel.{Kernel, Result, ok, err}
use aosv.Kernel.Errno.{enoent, ebadf}
use aosv.Kernel.Run.{done, M, pure, ◌>>=◌, ◌>>◌}
use aosv.Session.{Incarnation, Session, Sys, load, update}
use aosv.Info.{remove_session_info, remove_incarnation_info}
use aosv.Manager.Files.{copy_file}
use aosv.Manager.Search.{release, search_session, delete_session}
use aosv.Manager.Open.{invalidate, unlink}

-- `owner_pid == pid && filedes == fd`
abbrev pub owned_by : ℕ → ℕ → Incarnation → Bool
owned_by filedes pid i = (i.owner_pid == pid) && (i.filedes == filedes)

-- The two searches of `delete_incarnation`, at the head and along the list.
unfoldable pub find_incarnation : ℕ → ℕ → List Incarnation → Option Incarnation
find_incarnation filedes pid [] = none
find_incarnation filedes pid (i ∷ rest) =
    if owned_by filedes pid i then some i else find_incarnation filedes pid rest

-- `incarnation->status = -ENOENT`, on the incarnation that the search has found
unfoldable pub mark_closed : ℕ → ℕ → List Incarnation → List Incarnation
mark_closed filedes pid [] = []
mark_closed filedes pid (i ∷ rest) =
    if owned_by filedes pid i
    then record i { status = enoent } ∷ rest
    else i ∷ mark_closed filedes pid rest

abbrev pub close_in : ℕ → ℕ → Session → Session
close_in filedes pid s = record s { incarnations = mark_closed filedes pid s.incarnations }

module _ {W : Type 0} where
  unfoldable pub init_manager : M (Sys W) (Unit {0})
  init_manager s = done tt (record s { sessions = [] })

module _ {W : Type 0} (K : Kernel W) where
  unfoldable pub delete_incarnation : ℕ → ℕ → ℕ → ℕ → Bool → M (Sys W) (Result (Unit {0}))
  unfolding find_incarnation mark_closed
  delete_incarnation fuel a filedes pid overwrite = do
    s ← load a
    elim (find_incarnation filedes pid s.incarnations) [
      | none ↦ pure (err enoent)
      | some i ↦ do
        remove_incarnation_info K a i.attr_name
        res ← elim (overwrite && (i.status == 0)) [
          | true ↦ copy_file K fuel i.file s.file
          | false ↦ pure (ok tt)
        ]
        elim res [ err e ↦ pure (err e) | ok _ ↦ do update a (close_in filedes pid); pure (ok tt) ]
    ]

  -- The purge of a session that nobody uses: it leaves the list and SysFS.
  unfoldable pub purge : ℕ → M (Sys W) (Unit {0})
  purge a = do
    s ← load a
    elim (is 1 s.refcount && (is 1 s.info.kref && s.valid)) [
      | false ↦ pure tt
      | true ↦ do update a invalidate; remove_session_info K a; unlink a
    ]

  -- `close_session` once the incarnation is gone.
  unfoldable pub settle : ℕ → M (Sys W) (Unit {0})
  unfolding purge
  settle a = do
    purge a
    update a release
    after ← load a
    elim after.valid [ true ↦ pure tt | false ↦ delete_session K a ]

  unfoldable pub close_session : ℕ → ℕ → ℕ → ℕ → M (Sys W) (Result (Unit {0}))
  close_session fuel pathname fdes pid = do
    found ← search_session (some pathname) fdes pid
    elim found [
      | none ↦ pure (err ebadf)
      | some a ↦ do
        s ← load a
        res ← delete_incarnation fuel a fdes pid s.valid
        elim res [ err e ↦ pure (err e) | ok _ ↦ do settle a; pure (ok tt) ]
    ]
