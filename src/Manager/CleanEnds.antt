-- ===== src/Manager/CleanEnds.antt =====
-- `clean_manager` of kmodule/session_manager.c ends.

use aosv.Base.{
  ℕ, ◌+◌, arith, subst, ◌≡◌, ◌≢◌, refl, ap, ◌∙◌, inl, inr, Bool, true, false, List, [], ◌∷◌, none,
  some, All, ◌==◌, Bool-cases, ◌||◌,
}
use aosv.Base.Atomic.{above_zero, above_one}
use aosv.Base.Text.{FilePath}
use aosv.Kernel.{Kernel, no_task}
use aosv.Kernel.Run.{M, pure, ◌>>◌, and_then, Returns, Returns-and_then, Returns-both, Returns-mono}
use aosv.Session.{Session, Sys, Memory, write, write_other, load_lem}
use aosv.Manager.Search.{delete_session}
use aosv.Manager.First.{delete_session_unused}
use aosv.Manager.Reopen.{delete_session_used}
use aosv.Manager.Open.{remove_address, unlink}
use aosv.Manager.Clean.{sweep_sessions, drop_invalid, clean_manager}
use aosv.Manager.Tally.{Says, Says-task, active_count, Separate, sweep_sessions-active_count}
use aosv.Manager.Tidy.{Slot, Slots, Kept, sweep_sessions-Kept}

zero_add : (n : ℕ) → 0 + n ≡ n
zero_add n = omega arith

-- The sessions `l` are allocated and different, and so are their names, at `ps`.
abbrev pub Tidy : Memory Session → Memory FilePath → List ℕ → List ℕ → Type 0
Tidy cell strings [] [] = Unit
Tidy cell strings [] (p ∷ ps) = ⊥
Tidy cell strings (a ∷ l) [] = ⊥
Tidy cell strings (a ∷ l) (p ∷ ps) =
    Slot cell a p
    × ((name : FilePath) × (strings p ≡ some name))
    × All (λ b. a ≢ b) l
    × All (λ q. p ≢ q) ps
    × Tidy cell strings l ps

Tidy-Slots :
    {W : Type 0} (s : Sys W) (l ps : List ℕ) → Tidy s.cell s.strings l ps → Slots s.cell l ps
Tidy-Slots s [] [] h = tt
Tidy-Slots s [] (p ∷ ps) h = h
Tidy-Slots s (a ∷ l) [] h = h
Tidy-Slots s (a ∷ l) (p ∷ ps) (x, n, hl, hp, r) = (x, Tidy-Slots s l ps r)

Tidy-Separate :
    {W : Type 0} (s : Sys W) (l ps : List ℕ) → Tidy s.cell s.strings l ps → Separate s.cell l
Tidy-Separate s [] [] h = tt
Tidy-Separate s [] (p ∷ ps) h = absurd h
Tidy-Separate s (a ∷ l) [] h = absurd h
Tidy-Separate s (a ∷ l) (p ∷ ps) ((x, at, _), n, hl, hp, r) = ((x, at), hl, Tidy-Separate s l ps r)

Tidy-Kept :
    {W : Type 0} (s t : Sys W) (l ps : List ℕ)
    → Kept s t
    → Tidy s.cell s.strings l ps
    → Tidy t.cell t.strings l ps
Tidy-Kept s t [] [] k h = tt
Tidy-Kept s t [] (p ∷ ps) k h = h
Tidy-Kept s t (a ∷ l) [] k h = h
Tidy-Kept s t (a ∷ l) (p ∷ ps) k (x, (n, at), b, q, r) =
    (k.0 a p x, (n, ap (λ m. m p) k.1 ∙ at), b, q, Tidy-Kept s t l ps k r)

-- Without the session `a` and its name at `p`, which are none of the others.
Tidy-freed :
    {W : Type 0} (s t : Sys W) (a p : ℕ) (l ps : List ℕ)
    → t.cell ≡ write s.cell a none
    → t.strings ≡ write s.strings p none
    → All (λ b. a ≢ b) l
    → All (λ q. p ≢ q) ps
    → Tidy s.cell s.strings l ps
    → Tidy t.cell t.strings l ps
Tidy-freed s t a p [] [] e f hl hp h = tt
Tidy-freed s t a p [] (q ∷ ps) e f hl hp h = h
Tidy-freed s t a p (b ∷ l) [] e f hl hp h = h
Tidy-freed s t a p (b ∷ l) (q ∷ ps) e f (ne, hl) (np, hp) ((x, at, k), (n, named), hb, hq, r) = (
  (x, ap (λ m. m b) e ∙ write_other s.cell a b none ne ∙ at, k),
  (n, ap (λ m. m q) f ∙ write_other s.strings p q none np ∙ named),
  hb,
  hq,
  Tidy-freed s t a p l ps e f hl hp r,
)

module _ {W : Type 0} (K : Kernel W) where
  -- A session in use is left alone, any other is freed.
  delete_session-Tidy :
      (a p : ℕ) (l ps : List ℕ) (s : Sys W)
      → Tidy s.cell s.strings (a ∷ l) (p ∷ ps)
      → Returns (λ _ t. Tidy t.cell t.strings l ps) (delete_session K a s)
  delete_session-Tidy a p l ps s ((x, at, e), (n, named), hl, hp, r) =
      elim (Bool-cases (above_zero x.refcount || above_one x.info.kref)) [
        | inl used ↦ rw (delete_session_used K a s at used) r
        | inr unused ↦ rw (delete_session_unused K a s at (ap s.strings e ∙ named) unused) (
            Tidy-freed s
              (record s {
                world = K.filp_close x.file s.world;
                strings = write s.strings x.pathname none;
                cell = write s.cell a none;
              })
              a p l ps refl (ap (λ q. write s.strings q none) e) hl hp r)
      ]

  drop_invalid-Returns :
      (l ps : List ℕ) (s : Sys W)
      → Tidy s.cell s.strings l ps
      → Returns (λ _ _. Unit {0}) (drop_invalid K l s)
  unfolding drop_invalid unlink
  drop_invalid-Returns [] ps s h = tt
  drop_invalid-Returns (a ∷ l) [] s h = absurd h
  drop_invalid-Returns (a ∷ l) (p ∷ ps) s ((x, at, e), n, hl, hp, r) = rw (load_lem a s at) (
      Returns-and_then (λ _ t. Tidy t.cell t.strings l ps) (λ _ _. Unit {0}) _ _ (step x.valid)
        λ _ t r. drop_invalid-Returns l ps t r)
    where
      step :
          (b : Bool)
          → Returns
              (λ _ t. Tidy t.cell t.strings l ps)
              ((elim b as (λ _. M (Sys W) (Unit {0})) [
                | false ↦ do unlink a; delete_session K a
                | true ↦ pure tt
              ])
                s)
      step true = r
      step false =
          delete_session-Tidy a p l ps (record s { sessions = remove_address a s.sessions })
            ((x, at, e), n, hl, hp, r)

  -- What the first walk says of its number holds of the result.
  clean_manager-reports :
      (P : ℕ → Type 0) (s : Sys W) (ps : List ℕ)
      → ((pid : ℕ) (w : W) → K.pid_status pid w ≢ no_task)
      → Tidy s.cell s.strings s.sessions ps
      → Returns (λ counts _. P counts.0) (sweep_sessions K 0 0 s.sessions s)
      → Returns (λ n _. P n) (clean_manager K s)
  unfolding clean_manager
  clean_manager-reports P s ps tasks tidy reported =
      Returns-and_then (λ counts t. P counts.0 × Kept s t) (λ n _. P n)
        (sweep_sessions K 0 0 s.sessions s) _
        (Returns-both (λ counts _. P counts.0) (λ _ t. Kept s t) (sweep_sessions K 0 0 s.sessions s)
          reported
          (sweep_sessions-Kept K tasks 0 0 s.sessions ps s (Tidy-Slots s s.sessions ps tidy)))
        λ counts t (h, kept).
          second (counts.1 == 0) counts.0 t h (Tidy-Kept s t s.sessions ps kept tidy)
    where
      second :
          (b : Bool) (n : ℕ) (t : Sys W)
          → P n
          → Tidy t.cell t.strings s.sessions ps
          → Returns
              (λ n _. P n)
              (and_then
                ((elim b as (λ _. M (Sys W) (Unit {0})) [
                  | true ↦ pure tt
                  | false ↦ drop_invalid K s.sessions
                ])
                  t)
                (λ _. pure n))
      second true n t p h = p
      second false n t p h =
          Returns-and_then (λ _ _. Unit {0}) (λ n _. P n) (drop_invalid K s.sessions t) _
            (drop_invalid-Returns s.sessions ps t h) λ _ _ _. p

  -- While the listed sessions and their names are allocated and different, and every process number
  -- that is known has a task, `clean_manager` ends without a fault.
  pub clean_manager-Returns :
      (s : Sys W) (ps : List ℕ)
      → ((pid : ℕ) (w : W) → K.pid_status pid w ≢ no_task)
      → Tidy s.cell s.strings s.sessions ps
      → Returns (λ _ _. Unit {0}) (clean_manager K s)
  clean_manager-Returns s ps tasks tidy =
      clean_manager-reports (λ _. Unit {0}) s ps tasks tidy
        (Returns-mono (λ _ t. Kept s t) (λ _ _. Unit {0}) (sweep_sessions K 0 0 s.sessions s)
          (λ _ _ _. tt)
          (sweep_sessions-Kept K tasks 0 0 s.sessions ps s (Tidy-Slots s s.sessions ps tidy)))

  -- Where the kernel says of each process number that `alive` holds of it or that it has no running
  -- task, `clean_manager` ends with the number of incarnations of valid sessions whose owner is alive.
  pub clean_manager-active_count :
      (alive : ℕ → Bool) (s : Sys W) (ps : List ℕ)
      → ((pid : ℕ) (w : W) → Says (alive pid) (K.pid_status pid w))
      → Tidy s.cell s.strings s.sessions ps
      → Returns (λ n _. n ≡ active_count alive s.cell s.sessions) (clean_manager K s)
  clean_manager-active_count alive s ps says tidy =
      clean_manager-reports (λ n. n ≡ active_count alive s.cell s.sessions) s ps
        (λ pid w. Says-task (alive pid) (K.pid_status pid w) (says pid w)) tidy
        (subst (λ m. Returns (λ counts _. counts.0 ≡ m) (sweep_sessions K 0 0 s.sessions s))
          (zero_add (active_count alive s.cell s.sessions))
          (sweep_sessions-active_count K alive says 0 0 s.sessions s
            (Tidy-Separate s s.sessions ps tidy)))
