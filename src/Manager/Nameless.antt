-- ===== src/Manager/Nameless.antt =====
-- `search_session` of kmodule/session_manager.c without a pathname, by descriptor and process.
use aosv.Base.{
  ℕ, ◌≡◌, refl, ◌∙◌, inl, inr, Bool, true, false, ◌||◌, List, [], ◌∷◌, none, some, arith, ◌==◌,
  if◌then◌else◌, Bool-cases, All,
}
use aosv.Kernel.Run.{done, fault}
use aosv.Session.{Session, Sys, Memory, write_self, load, update}
use aosv.Manager.Search.{hold, search_loop, search_session}
use aosv.Manager.Find.{Live, undo_hold}

-- Is a session of the list valid?
unfoldable pub any_valid : Memory Session → List ℕ → Bool
any_valid cell [] = false
any_valid cell (a ∷ rest) = elim (cell a) [ none ↦ false | some x ↦ x.valid || any_valid cell rest ]

module _ {W : Type 0} (s : Sys W) (fd pid : ℕ) (by_fd : (fd == 0) ≡ false)
    (by_pid : (pid == 0) ≡ false) where
  search_loop-valid :
      (a : ℕ) (rest : List ℕ) {x : Session}
      → s.cell a ≡ some x
      → x.valid ≡ true
      → search_loop none fd pid (a ∷ rest) s ≡ fault
  unfolding search_loop update load
  search_loop-valid a rest {x} at valid = ground (arith, write_self s.cell a (some (hold x)))

  search_loop-skip :
      (a : ℕ) (rest : List ℕ) {x : Session}
      → s.cell a ≡ some x
      → x.valid ≡ false
      → search_loop none fd pid (a ∷ rest) s ≡ search_loop none fd pid rest s
  unfolding search_loop update load
  search_loop-skip a rest {x} at invalid =
      ground (arith, write_self s.cell a (some (hold x)), undo_hold s a x at)

  search_loop-any_valid :
      (l : List ℕ)
      → All (Live s) l
      → search_loop none fd pid l s ≡ (if any_valid s.cell l then fault else done none s)
  unfolding any_valid search_loop
  search_loop-any_valid [] live = refl
  search_loop-any_valid (a ∷ rest) (l, live) = elim (Bool-cases l.object.valid) [
    | inl valid ↦ search_loop-valid a rest l.at valid ∙ ground (arith, l.at, valid)
    | inr invalid ↦
        search_loop-skip a rest l.at invalid
        ∙ search_loop-any_valid rest live
        ∙ ground (arith, l.at, invalid)
  ]

  -- With a descriptor and a process but without a pathname, the search faults if any listed session
  -- is valid, since its message and its unlocking read through the result that is still NULL; and
  -- otherwise it finds nothing. It never finds the session of an incarnation.
  pub search_session-any_valid :
      All (Live s) s.sessions
      → search_session none fd pid s ≡ (if any_valid s.cell s.sessions then fault else done none s)
  unfolding search_session
  search_session-any_valid live = ground (arith, search_loop-any_valid s.sessions live)
