-- ===== src/Manager/Tally.antt =====
-- `clean_manager` of kmodule/session_manager.c: the number of active incarnations.
use aosv.Base.{
  ℕ, suc, ◌+◌, if◌then◌else◌, ◌≡◌, ◌≢◌, refl, sym, ap, ◌∙◌, subst, true, false, List, [], ◌∷◌,
  Option, some, none, All, ◌==◌, Bool, not, ◌&&◌, arith,
}
use aosv.Base.Atomic.{is}
use aosv.Kernel.{Kernel, PidStatus, no_pid, no_task, running, halted}
use aosv.Kernel.Run.{done, M, pure, ◌>>◌, ◌>>=◌, and_then, Returns, Returns-and_then, Returns-mono}
use aosv.Session.{
  Incarnation, Session, Sys, Memory, write, write_self, write_other, write_write, write_restores,
  load_lem, update, update_lem,
}
use aosv.Info.{lose, map_info}
use aosv.Info.Counters.{remove_incarnation_info_lem, remove_session_info_lem}
use aosv.Manager.Search.{hold, release}
use aosv.Manager.Open.{invalidate}
use aosv.Manager.Clean.{
  push_incarnation, detach_incarnations, owner_dead, retire, sweep_incarnations, flag_unused,
  sweep_session, sweep_sessions,
}

-- The incarnations whose owner is alive.
abbrev active_in : (ℕ → Bool) → List Incarnation → ℕ
active_in alive [] = 0
active_in alive (i ∷ l) = (if alive i.owner_pid then 1 else 0) + active_in alive l

-- Those of a session, if it is valid.
abbrev active_at : (ℕ → Bool) → Option Session → ℕ
active_at alive none = 0
active_at alive (some x) = if x.valid then active_in alive x.incarnations else 0

-- Those of all listed sessions that are valid.
abbrev pub active_count : (ℕ → Bool) → Memory Session → List ℕ → ℕ
active_count alive cell [] = 0
active_count alive cell (a ∷ l) = active_at alive (cell a) + active_count alive cell l

-- What the kernel says of a process that is alive, or not.
abbrev pub Says : Bool → PidStatus → Type 0
Says true running = Unit
Says true no_pid = ⊥
Says true no_task = ⊥
Says true halted = ⊥
Says false running = ⊥
Says false no_pid = Unit
Says false no_task = ⊥
Says false halted = Unit

pub Says-task : (b : Bool) (r : PidStatus) → Says b r → r ≢ no_task
Says-task true no_task h e = h
Says-task true running h e = cc
Says-task true no_pid h e = h
Says-task true halted h e = h
Says-task false running h e = h
Says-task false no_pid h e = cc
Says-task false no_task h e = h
Says-task false halted h e = cc

-- The sessions `l` are allocated and different.
abbrev pub Separate : Memory Session → List ℕ → Type 0
Separate cell [] = Unit
Separate cell (a ∷ l) = ((x : Session) × (cell a ≡ some x)) × All (λ b. a ≢ b) l × Separate cell l

Separate-write :
    (cell : Memory Session) (a : ℕ) (m : Option Session) (l : List ℕ)
    → All (λ b. a ≢ b) l
    → Separate cell l
    → Separate (write cell a m) l
Separate-write cell a m [] other h = tt
Separate-write cell a m (b ∷ l) (ne, other) ((x, at), hb, h) =
    ((x, write_other cell a b m ne ∙ at), hb, Separate-write cell a m l other h)

active_count-write :
    (alive : ℕ → Bool) (cell : Memory Session) (a : ℕ) (m : Option Session) (l : List ℕ)
    → All (λ b. a ≢ b) l
    → active_count alive (write cell a m) l ≡ active_count alive cell l
active_count-write alive cell a m [] other = refl
active_count-write alive cell a m (b ∷ l) (ne, other) =
    rw (write_other cell a b m ne, active_count-write alive cell a m l other) refl

-- Of the sessions in `cell` at most the one at `a` has changed.
abbrev At : {W : Type 0} → Memory Session → ℕ → Sys W → Type 0
At cell a t = (y : Session) × (t.cell ≡ write cell a (some y))

module _ {W : Type 0} (cell : Memory Session) (a : ℕ) where
  At_now : (s : Sys W) (y : Session) → s.cell ≡ write cell a (some y) → s.cell a ≡ some y
  At_now s y e = ap (λ m. m a) e ∙ write_self cell a (some y)

  At_next :
      (s : Sys W) (y z : Session)
      → s.cell ≡ write cell a (some y)
      → write s.cell a (some z) ≡ write cell a (some z)
  At_next s y z e = ap (λ m. write m a (some z)) e ∙ write_write cell a (some y) (some z)

  At-update :
      (f : Session → Session) (s : Sys W)
      → At cell a s
      → Returns (λ _ t. At cell a t) (update a f s)
  At-update f s (y, e) = rw (update_lem a f s (At_now s y e)) (f y, At_next s y (f y) e)

choose :
    {S A : Type 0} (P : A → S → Type 0) (b : Bool) (m n : M S A) (s : S)
    → Returns P (m s)
    → Returns P (n s)
    → Returns P ((elim b as (λ _. M S A) [ true ↦ m | false ↦ n ]) s)
choose P true m n s h k = h
choose P false m n s h k = k

module _ {W : Type 0} (K : Kernel W) (cell : Memory Session) (a : ℕ) where
  retire-At :
      (i : Incarnation) (s : Sys W) → At cell a s → Returns (λ _ t. At cell a t) (retire K a i s)
  unfolding retire
  retire-At i s (y, e) =
      choose (λ _ t. At cell a t) (i.status == 0) _ _ s
        (rw (remove_incarnation_info_lem K a i.attr_name y s (At_now cell a s y e))
          (At-update cell a _ _ (map_info lose y, At_next cell a s y (map_info lose y) e)))
        (At-update cell a _ s (y, e))

  flag_unused-At : (s : Sys W) → At cell a s → Returns (λ _ t. At cell a t) (flag_unused K a s)
  unfolding flag_unused
  flag_unused-At s (y, e) = rw (load_lem a s (At_now cell a s y e)) (
      choose (λ _ t. At cell a t) (is 0 y.refcount && is 1 y.info.kref) _ _ s
        (Returns-and_then (λ _ t. At cell a t) (λ _ t. At cell a t) (update a invalidate s) _
          (At-update cell a invalidate s (y, e))
          λ _ t (z, f). rw (remove_session_info_lem K a z t (At_now cell a t z f)) (z, f))
        (y, e))

module _ {W : Type 0} (K : Kernel W) (alive : ℕ → Bool)
    (says : (pid : ℕ) (w : W) → Says (alive pid) (K.pid_status pid w)) where
  owner_dead-alive : (pid : ℕ) (s : Sys W) → owner_dead K pid s ≡ done (not (alive pid)) s
  unfolding owner_dead
  owner_dead-alive pid s = go (alive pid) (K.pid_status pid s.world) refl refl (says pid s.world)
    where
      go :
          (b : Bool) (r : PidStatus)
          → alive pid ≡ b
          → K.pid_status pid s.world ≡ r
          → Says b r
          → owner_dead K pid s ≡ done (not (alive pid)) s
      go true running e f h = rw (f, e, owner_dead) refl
      go true no_pid e f h = absurd h
      go true no_task e f h = absurd h
      go true halted e f h = absurd h
      go false running e f h = absurd h
      go false no_pid e f h = rw (f, e, owner_dead) refl
      go false no_task e f h = absurd h
      go false halted e f h = rw (f, e, owner_dead) refl

  module _ (cell : Memory Session) (a : ℕ) where
    -- The number, and the sessions.
    abbrev Tallied : ℕ → ℕ × ℕ → Sys W → Type 0
    Tallied n counts t = (counts.0 ≡ n) × At cell a t

    sweep_incarnations-Tallied :
        (active dead n : ℕ) (l : List Incarnation) (s : Sys W)
        → active + active_in alive l ≡ n
        → At cell a s
        → Returns (Tallied n) (sweep_incarnations K a active dead l s)
    unfolding sweep_incarnations
    sweep_incarnations-Tallied active dead n [] s e h = (omega arith, h)
    sweep_incarnations-Tallied active dead n (i ∷ l) s e h = rw (owner_dead-alive i.owner_pid s) (
        go (alive i.owner_pid) refl
          λ active dead t e h. sweep_incarnations-Tallied active dead n l t e h)
      where
        go :
            (b : Bool)
            → alive i.owner_pid ≡ b
            → ((active dead : ℕ) (t : Sys W)
                → active + active_in alive l ≡ n
                → At cell a t
                → Returns (Tallied n) (sweep_incarnations K a active dead l t))
            → Returns (Tallied n) (
                and_then
                  ((elim (not b) as (λ _. M (Sys W) (Unit {0})) [
                    | true ↦ retire K a i
                    | false ↦ update a (push_incarnation i)
                  ])
                    s)
                  (λ _.
                    sweep_incarnations K a
                      (if not b then active else suc active)
                      (if not b then suc dead else dead)
                      l))
        go true living rest =
            Returns-and_then (λ _ t. At cell a t) (Tallied n) _ _
              (At-update cell a (push_incarnation i) s h)
              λ _ t k. rest (suc active) dead t (ground (arith, living)) k
        go false gone rest =
            Returns-and_then (λ _ t. At cell a t) (Tallied n) _ _ (retire-At K cell a i s h)
              λ _ t k. rest active (suc dead) t (ground (arith, gone)) k

  sweep_session-Tallied :
      (a active dead : ℕ) (s : Sys W) {x : Session}
      → s.cell a ≡ some x
      → Returns
          (Tallied s.cell a (active + active_at alive (some x)))
          (sweep_session K active dead a s)
  unfolding sweep_session
  sweep_session-Tallied a active dead s {x} at = rw (load_lem a s at) (go x.valid refl)
    where
      n : ℕ
      n = active + active_at alive (some x)

      now : At s.cell a s
      now = (x, sym (write_restores s.cell a none (some x) at) ∙ write_write s.cell a none (some x))

      ends :
          (counts : ℕ × ℕ) (t : Sys W)
          → Tallied s.cell a n counts t
          → Returns (Tallied s.cell a n) ((do update a release; flag_unused K a; pure counts) t)
      ends counts t (e, h) =
          Returns-and_then (λ _ u. At s.cell a u) (Tallied s.cell a n) (update a release t) _
            (At-update s.cell a release t h)
            λ _ u k.
              Returns-and_then (λ _ v. At s.cell a v) (Tallied s.cell a n) (flag_unused K a u) _
                (flag_unused-At K s.cell a u k) λ _ v j. (e, j)

      go :
          (b : Bool)
          → x.valid ≡ b
          → Returns (Tallied s.cell a n) (
              (elim b as (λ _. M (Sys W) (ℕ × ℕ)) [
                | false ↦ pure (active, dead)
                | true ↦ do
                  update a hold
                  update a detach_incarnations
                  counts ← sweep_incarnations K a active dead x.incarnations
                  update a release
                  flag_unused K a
                  pure counts
              ])
                s)
      go false invalid = (ground (arith, invalid), now)
      go true valid =
          Returns-and_then (λ _ t. At s.cell a t) (Tallied s.cell a n) (update a hold s) _
            (At-update s.cell a hold s now)
            λ _ t k.
              Returns-and_then (λ _ u. At s.cell a u) (Tallied s.cell a n)
                (update a detach_incarnations t) _ (At-update s.cell a detach_incarnations t k)
                λ _ u j.
                  Returns-and_then (Tallied s.cell a n) (Tallied s.cell a n)
                    (sweep_incarnations K a active dead x.incarnations u) _
                    (sweep_incarnations-Tallied s.cell a active dead n x.incarnations u
                      (ground (arith, valid)) j)
                    ends

  -- The first walk counts the incarnations of valid sessions whose owner is alive.
  pub sweep_sessions-active_count :
      (active dead : ℕ) (l : List ℕ) (s : Sys W)
      → Separate s.cell l
      → Returns
          (λ counts _. counts.0 ≡ active + active_count alive s.cell l)
          (sweep_sessions K active dead l s)
  unfolding sweep_sessions
  sweep_sessions-active_count active dead [] s h = omega arith
  sweep_sessions-active_count active dead (a ∷ l) s ((x, at), other, h) =
      Returns-and_then (Tallied s.cell a (active + active_at alive (some x)))
        (λ counts _. counts.0 ≡ active + active_count alive s.cell (a ∷ l))
        (sweep_session K active dead a s) _ (sweep_session-Tallied a active dead s at)
        λ counts t (e, (y, f)).
          let here : Separate t.cell l =
            subst (λ c. Separate c l) (sym f) (Separate-write s.cell a (some y) l other h) in
          let same : active_count alive t.cell l ≡ active_count alive s.cell l =
            ap (λ c. active_count alive c l) f
            ∙ active_count-write alive s.cell a (some y) l other in
          Returns-mono (λ c _. c.0 ≡ counts.0 + active_count alive t.cell l)
            (λ c _. c.0 ≡ active + active_count alive s.cell (a ∷ l))
            (sweep_sessions K counts.0 counts.1 l t) (λ c u g. g ∙ rw (e, same, at) (omega arith))
            (sweep_sessions-active_count counts.0 counts.1 l t here)
