-- ===== src/Manager/Tidy.antt =====
-- `clean_manager` of kmodule/session_manager.c: what its walks keep of the sessions.
use mathlib.Core.Option.{some-injective}
use mathlib.Core.Bool.{false≢true}
use aosv.Base.{
  ℕ, suc, if◌then◌else◌, ◌≡◌, ◌≢◌, refl, sym, ap, ◌∙◌, subst, inl, inr, true, false, List, [], ◌∷◌,
  some, ◌==◌, ==_iff, Bool, Bool-cases, ◌&&◌,
}
use aosv.Base.Atomic.{is}
use aosv.Base.Text.{FilePath}
use aosv.Kernel.{Kernel, PidStatus, no_pid, no_task, running, halted}
use aosv.Kernel.Run.{Run, done, fault, out_of_fuel, M, pure, ◌>>◌, and_then, Returns}
use aosv.Session.{
  Incarnation, Session, Sys, Memory, write, write_self, write_other, load_lem, update, update_lem,
}
use aosv.Info.{lose, map_info, remove_session_info, remove_incarnation_info}
use aosv.Info.Counters.{remove_incarnation_info_lem, remove_session_info_lem}
use aosv.Manager.Search.{hold, release}
use aosv.Manager.Open.{invalidate}
use aosv.Manager.Clean.{
  push_incarnation, detach_incarnations, owner_dead, retire, sweep_incarnations, flag_unused,
  sweep_session, sweep_sessions,
}

-- The session at `a` is allocated, and its name is the string at `p`.
abbrev pub Slot : Memory Session → ℕ → ℕ → Type 0
Slot cell a p = (x : Session) × (cell a ≡ some x) × (x.pathname ≡ p)

Slot-write :
    (cell : Memory Session) (a : ℕ) {x : Session} (y : Session)
    → cell a ≡ some x
    → y.pathname ≡ x.pathname
    → (b q : ℕ) → Slot cell b q
    → Slot (write cell a (some y)) b q
Slot-write cell a {x} y at e b q (z, zt, ze) = elim (Bool-cases (a == b)) [
  | inl h ↦
      let k = (==_iff a b).0 h in
      (
        y,
        subst (λ c. write cell a (some y) c ≡ some y) k (write_self cell a (some y)),
        e ∙ ap (λ v. v.pathname) (some-injective _ _ (sym at ∙ ap cell k ∙ zt)) ∙ ze,
      )
  | inr h ↦ (z, write_other cell a b _ (λ k. false≢true (sym h ∙ (==_iff a b).1 k)) ∙ zt, ze)
]

-- Sessions stay allocated, with their names; the list and the strings are as before.
abbrev pub Kept : {W : Type 0} → Sys W → Sys W → Type 0
Kept s t =
    ((a p : ℕ) → Slot s.cell a p → Slot t.cell a p)
    × (t.strings ≡ s.strings)
    × (t.sessions ≡ s.sessions)

pub Kept-trans : {W : Type 0} (s t u : Sys W) → Kept s t → Kept t u → Kept s u
Kept-trans s t u (f, g, h) (f', g', h') = (λ a p x. f' a p (f a p x), g' ∙ g, h' ∙ h)

module _ {W : Type 0} where
  pub Kept-then :
      {A B : Type 0} (r : Run (Sys W) A) (k : A → M (Sys W) B) (s : Sys W)
      → Returns (λ _ t. Kept s t) r
      → ((a : A) (t : Sys W) → Kept s t → Returns (λ _ u. Kept t u) (k a t))
      → Returns (λ _ u. Kept s u) (and_then r k)
  Kept-then (done a t) k s h f = from (k a t) (f a t h)
    where
      from :
          {B : Type 0} (r : Run (Sys W) B)
          → Returns (λ _ u. Kept t u) r
          → Returns (λ _ u. Kept s u) r
      from (done b u) q = Kept-trans s t u h q
      from fault q = q
      from out_of_fuel q = q
  Kept-then fault k s h f = h
  Kept-then out_of_fuel k s h f = h

  choose-Kept :
      {A : Type 0} (b : Bool) (m n : M (Sys W) A) (s : Sys W)
      → Returns (λ _ t. Kept s t) (m s)
      → Returns (λ _ t. Kept s t) (n s)
      → Returns (λ _ t. Kept s t) ((elim b as (λ _. M (Sys W) A) [ true ↦ m | false ↦ n ]) s)
  choose-Kept true m n s h k = h
  choose-Kept false m n s h k = k

  update-Kept :
      (a p : ℕ) (f : Session → Session) (s : Sys W)
      → ((x : Session) → (f x).pathname ≡ x.pathname)
      → Slot s.cell a p
      → Returns (λ _ t. Kept s t) (update a f s)
  update-Kept a p f s e (x, at, _) =
      rw (update_lem a f s at) (Slot-write s.cell a (f x) at (e x), refl, refl)

-- The walk over the sessions `l`, whose names are at `ps`.
abbrev pub Slots : Memory Session → List ℕ → List ℕ → Type 0
Slots cell [] [] = Unit
Slots cell [] (p ∷ ps) = ⊥
Slots cell (a ∷ l) [] = ⊥
Slots cell (a ∷ l) (p ∷ ps) = Slot cell a p × Slots cell l ps

pub Slots-Kept :
    {W : Type 0} (s t : Sys W) (l ps : List ℕ) → Kept s t → Slots s.cell l ps → Slots t.cell l ps
Slots-Kept s t [] [] k h = tt
Slots-Kept s t [] (p ∷ ps) k h = h
Slots-Kept s t (a ∷ l) [] k h = h
Slots-Kept s t (a ∷ l) (p ∷ ps) k (h, r) = (k.0 a p h, Slots-Kept s t l ps k r)

module _ {W : Type 0} (K : Kernel W)
    (tasks : (pid : ℕ) (w : W) → K.pid_status pid w ≢ no_task) where
  remove_incarnation_info-Kept :
      (a p : ℕ) (attr : FilePath) (s : Sys W)
      → Slot s.cell a p
      → Returns (λ _ t. Kept s t) (remove_incarnation_info K a attr s)
  remove_incarnation_info-Kept a p attr s (x, at, _) =
      rw (remove_incarnation_info_lem K a attr x s at)
        (Slot-write s.cell a (map_info lose x) at refl, refl, refl)

  remove_session_info-Kept :
      (a p : ℕ) (s : Sys W)
      → Slot s.cell a p
      → Returns (λ _ t. Kept s t) (remove_session_info K a s)
  remove_session_info-Kept a p s (x, at, _) =
      rw (remove_session_info_lem K a x s at) (λ b q h. h, refl, refl)

  retire-Kept :
      (a p : ℕ) (i : Incarnation) (s : Sys W)
      → Slot s.cell a p
      → Returns (λ _ t. Kept s t) (retire K a i s)
  unfolding retire
  retire-Kept a p i s slot =
      choose-Kept (i.status == 0) _ _ s
        (Kept-then (remove_incarnation_info K a i.attr_name s) _ s
          (remove_incarnation_info-Kept a p i.attr_name s slot)
          λ _ t kept. update-Kept a p (push_incarnation _) t (λ x. refl) (kept.0 a p slot))
        (update-Kept a p (push_incarnation i) s (λ x. refl) slot)

  owner_dead-Kept : (pid : ℕ) (s : Sys W) → Returns (λ _ t. Kept s t) (owner_dead K pid s)
  unfolding owner_dead
  owner_dead-Kept pid s = go (K.pid_status pid s.world) refl
    where
      same : Kept s s
      same = (λ a p h. h, refl, refl)

      go :
          (r : PidStatus)
          → K.pid_status pid s.world ≡ r
          → Returns (λ _ t. Kept s t) (owner_dead K pid s)
      go no_pid e = rw (e, owner_dead) same
      go no_task e = absurd (tasks pid s.world e)
      go running e = rw (e, owner_dead) same
      go halted e = rw (e, owner_dead) same

  sweep_incarnations-Kept :
      (a p : ℕ) (l : List Incarnation) (active dead : ℕ) (s : Sys W)
      → Slot s.cell a p
      → Returns (λ _ t. Kept s t) (sweep_incarnations K a active dead l s)
  unfolding sweep_incarnations
  sweep_incarnations-Kept a p [] active dead s slot = (λ a p h. h, refl, refl)
  sweep_incarnations-Kept a p (i ∷ rest) active dead s slot =
      Kept-then (owner_dead K i.owner_pid s) _ s (owner_dead-Kept i.owner_pid s) λ gone t kept.
        let there = kept.0 a p slot in
        Kept-then _ _ t
          (choose-Kept gone _ _ t (retire-Kept a p i t there)
            (update-Kept a p (push_incarnation i) t (λ x. refl) there))
          λ _ u kept'.
            sweep_incarnations-Kept a p rest (if gone then active else suc active)
              (if gone then suc dead else dead) u (kept'.0 a p there)

  flag_unused-Kept :
      (a p : ℕ) (s : Sys W) → Slot s.cell a p → Returns (λ _ t. Kept s t) (flag_unused K a s)
  unfolding flag_unused
  flag_unused-Kept a p s (x, at, e) = rw (load_lem a s at) (
      choose-Kept (is 0 x.refcount && is 1 x.info.kref) _ _ s
        (Kept-then (update a invalidate s) _ s (update-Kept a p invalidate s (λ x. refl) (x, at, e))
          λ _ t kept. remove_session_info-Kept a p t (kept.0 a p (x, at, e)))
        (λ a p h. h, refl, refl))

  sweep_session-Kept :
      (a p active dead : ℕ) (s : Sys W)
      → Slot s.cell a p
      → Returns (λ _ t. Kept s t) (sweep_session K active dead a s)
  unfolding sweep_session
  sweep_session-Kept a p active dead s (x, at, e) = rw (load_lem a s at) (
      choose-Kept x.valid _ _ s
        (Kept-then (update a hold s) _ s (update-Kept a p hold s (λ x. refl) (x, at, e)) λ _ t k.
          Kept-then (update a detach_incarnations t) _ t
            (update-Kept a p detach_incarnations t (λ x. refl) (k.0 a p (x, at, e)))
            λ _ u k'. ending x.incarnations u (k'.0 a p (k.0 a p (x, at, e))))
        (λ a p h. h, refl, refl))
    where
      ending :
          (l : List Incarnation) (u : Sys W)
          → Slot u.cell a p
          → Returns
              (λ _ t. Kept u t)
              (and_then
                (sweep_incarnations K a active dead l u)
                λ counts. do update a release; flag_unused K a; pure counts)
      ending l u slot =
          Kept-then (sweep_incarnations K a active dead l u) _ u
            (sweep_incarnations-Kept a p l active dead u slot)
            λ counts v k.
              Kept-then (update a release v) _ v
                (update-Kept a p release v (λ x. refl) (k.0 a p slot))
                λ _ w k'.
                  Kept-then (flag_unused K a w) _ w
                    (flag_unused-Kept a p w (k'.0 a p (k.0 a p slot)))
                    λ _ z k''. (λ a p h. h, refl, refl)

  pub sweep_sessions-Kept :
      (active dead : ℕ) (l ps : List ℕ) (s : Sys W)
      → Slots s.cell l ps
      → Returns (λ _ t. Kept s t) (sweep_sessions K active dead l s)
  unfolding sweep_sessions
  sweep_sessions-Kept active dead [] [] s h = (λ a p h. h, refl, refl)
  sweep_sessions-Kept active dead [] (p ∷ ps) s h = absurd h
  sweep_sessions-Kept active dead (a ∷ l) [] s h = absurd h
  sweep_sessions-Kept active dead (a ∷ l) (p ∷ ps) s (h, r) =
      Kept-then (sweep_session K active dead a s) _ s (sweep_session-Kept a p active dead s h)
        λ counts t k. sweep_sessions-Kept counts.0 counts.1 l ps t (Slots-Kept s t l ps k r)
