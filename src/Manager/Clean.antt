-- ===== src/Manager/Clean.antt =====
-- `clean_manager` of kmodule/session_manager.c.
use aosv.Base.{ℕ, suc, Bool, true, false, ◌&&◌, List, [], ◌∷◌, ◌==◌, if◌then◌else◌}
use aosv.Base.Atomic.{is}
use aosv.Kernel.{Kernel, no_pid, no_task, running, halted}
use aosv.Kernel.Errno.{enoent}
use aosv.Kernel.Run.{done, M, pure, crash, ◌>>=◌, ◌>>◌}
use aosv.Session.{Incarnation, Session, Sys, load, update}
use aosv.Info.{remove_session_info, remove_incarnation_info}
use aosv.Manager.Search.{hold, release, delete_session}
use aosv.Manager.Open.{invalidate, unlink}

abbrev pub push_incarnation : Incarnation → Session → Session
push_incarnation i s = record s { incarnations = i ∷ s.incarnations }

abbrev pub detach_incarnations : Session → Session
detach_incarnations s = record s { incarnations = [] }

module _ {W : Type 0} (K : Kernel W) where
  -- `pid==NULL || task_is_stopped_or_traced(task)`; a pid without a task makes the macro read
  -- through a null pointer.
  unfoldable pub owner_dead : ℕ → M (Sys W) Bool
  owner_dead pid s = elim (K.pid_status pid s.world) [
    | no_pid ↦ done true s
    | no_task ↦ crash s
    | running ↦ done false s
    | halted ↦ done true s
  ]

  -- One incarnation of the detached list: what is put back.
  unfoldable pub retire : ℕ → Incarnation → M (Sys W) (Unit {0})
  retire a i = elim (i.status == 0) [
    | true ↦ do
      remove_incarnation_info K a i.attr_name
      update a (push_incarnation (record i { status = enoent }))
    | false ↦ update a (push_incarnation i)
  ]

  -- The walk over the detached list; the numbers of active and dead incarnations so far.
  unfoldable pub sweep_incarnations : ℕ → ℕ → ℕ → List Incarnation → M (Sys W) (ℕ × ℕ)
  unfolding owner_dead retire
  sweep_incarnations a active dead [] = pure (active, dead)
  sweep_incarnations a active dead (i ∷ rest) = do
    gone ← owner_dead i.owner_pid
    elim gone [ true ↦ retire a i | false ↦ update a (push_incarnation i) ]
    sweep_incarnations a (if gone then active else suc active) (if gone then suc dead else dead)
        rest

  -- A session that nobody uses any more is flagged as invalid and leaves SysFS.
  unfoldable pub flag_unused : ℕ → M (Sys W) (Unit {0})
  flag_unused a = do
    s ← load a
    elim (is 0 s.refcount && is 1 s.info.kref) [
      | true ↦ do update a invalidate; remove_session_info K a
      | false ↦ pure tt
    ]

  -- One session of the first walk; a session that is invalid is skipped.
  unfoldable pub sweep_session : ℕ → ℕ → ℕ → M (Sys W) (ℕ × ℕ)
  unfolding sweep_incarnations flag_unused
  sweep_session active dead a = do
    s ← load a
    elim s.valid [
      | false ↦ pure (active, dead)
      | true ↦ do
        update a hold
        update a detach_incarnations
        counts ← sweep_incarnations a active dead s.incarnations
        update a release
        flag_unused a
        pure counts
    ]

  -- The first walk over the sessions.
  unfoldable pub sweep_sessions : ℕ → ℕ → List ℕ → M (Sys W) (ℕ × ℕ)
  unfolding sweep_session
  sweep_sessions active dead [] = pure (active, dead)
  sweep_sessions active dead (a ∷ rest) = do
    counts ← sweep_session active dead a
    sweep_sessions counts.0 counts.1 rest

  -- The second walk.
  unfoldable pub drop_invalid : List ℕ → M (Sys W) (Unit {0})
  drop_invalid [] = pure tt
  drop_invalid (a ∷ rest) = do
    s ← load a
    elim s.valid [ true ↦ pure tt | false ↦ do unlink a; delete_session K a ]
    drop_invalid rest

  -- The number of active incarnations.
  unfoldable pub clean_manager : M (Sys W) ℕ
  unfolding sweep_sessions drop_invalid
  clean_manager s =
      (do
        counts ← sweep_sessions 0 0 s.sessions
        elim (counts.1 == 0) [ true ↦ pure tt | false ↦ drop_invalid s.sessions ]
        pure counts.0)
        s
