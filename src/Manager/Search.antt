-- ===== src/Manager/Search.antt =====
-- `search_session` and `delete_session` of kmodule/session_manager.c.
use aosv.Base.{
  ℕ, Bool, true, false, not, ◌&&◌, ◌||◌, List, [], ◌∷◌, Option, none, some, ◌==◌, if◌then◌else◌,
}
use aosv.Base.Atomic.{increment, decrement, above_zero, above_one}
use aosv.Base.Text.{same_text}
use aosv.Kernel.{Kernel}
use aosv.Kernel.Run.{done, M, pure, crash, ◌>>=◌, ◌>>◌}
use aosv.Session.{Session, Sys, lift_, load, load_string, update, free, free_string}
use aosv.Manager.Files.{no_fd}

abbrev pub no_pid : ℕ
no_pid = 0

abbrev pub hold : Session → Session
hold s = record s { refcount = increment s.refcount }

abbrev pub release : Session → Session
release s = record s { refcount = decrement s.refcount }

module _ {W : Type 0} where
  -- The two tests of the loop. The second one ends with its message, which reads `found->pathname` while
  -- `found` is still NULL: the walk over the incarnations behind the message never begins.
  unfoldable pub matches : Option ℕ → ℕ → ℕ → Session → M (Sys W) Bool
  matches none filedes pid s =
      if not (filedes == no_fd) && not (pid == no_pid) then crash else pure false
  matches (some pathname) filedes pid s = do
    name ← load_string s.pathname
    wanted ← load_string pathname
    pure (same_text name wanted)

  unfoldable pub search_loop : Option ℕ → ℕ → ℕ → List ℕ → M (Sys W) (Option ℕ)
  unfolding matches
  search_loop pathname filedes pid [] = pure none
  search_loop pathname filedes pid (a ∷ rest) = do
    update a hold
    s ← load a
    found ← if s.valid then matches pathname filedes pid s else pure false
    elim found [
      | true ↦ pure (some a)
      | false ↦ do update a release; search_loop pathname filedes pid rest
    ]

  unfoldable pub search_session : Option ℕ → ℕ → ℕ → M (Sys W) (Option ℕ)
  search_session none filedes pid t =
      if filedes == no_fd then done none t else search_loop none filedes pid t.sessions t
  search_session (some p) filedes pid t = search_loop (some p) filedes pid t.sessions t

module _ {W : Type 0} (K : Kernel W) where
  unfoldable pub delete_session : ℕ → M (Sys W) (Unit {0})
  delete_session a = do
    s ← load a
    elim (above_zero s.refcount || above_one s.info.kref) [
      | true ↦ pure tt
      | false ↦ do lift_ (K.filp_close s.file); free_string s.pathname; free a
    ]
