-- ===== src/Manager/Find.antt =====
-- `search_session` of kmodule/session_manager.c against a search of the list.
use mathlib.Core.Option.{some-injective}
use aosv.Base.{
  ℕ, ◌≡◌, refl, sym, ap, ◌∙◌, inl, inr, Bool, true, false, ◌&&◌, List, [], ◌∷◌, Option, none, some,
  arith, if◌then◌else◌, Bool-cases, Option-cases, All, subst,
}
use aosv.Base.Atomic.{decrement-increment}
use aosv.Base.Text.{FilePath, same_text, same_text_sound}
use aosv.Kernel.Run.{done}
use aosv.Session.{
  Session, Sys, Memory, write, write_self, write_restores, put, load, load_string, update,
}
use aosv.Manager.Search.{hold, release, search_loop, search_session}

-- The session at `a` is allocated, and so is the string with its name.
pub record Live {W : Type 0} (s : Sys W) (a : ℕ) : Type 0 where
  pub object : Session
  pub name : FilePath
  pub at : s.cell a ≡ some object
  pub named : s.strings object.pathname ≡ some name

-- A valid session with that name.
abbrev pub is_for : FilePath → Memory FilePath → Session → Bool
is_for path strings x = elim (strings x.pathname) [
  | none ↦ false
  | some name ↦ x.valid && same_text name path
]

-- The first valid session in the list with that name.
unfoldable pub first_match : FilePath → Memory Session → Memory FilePath → List ℕ → Option ℕ
first_match path cell strings [] = none
first_match path cell strings (a ∷ rest) = elim (cell a) [
  | none ↦ none
  | some x ↦ if is_for path strings x then some a else first_match path cell strings rest
]

pub release-hold : (x : Session) → release (hold x) ≡ x
release-hold x = ap (λ n. record x { refcount = n }) (decrement-increment x.refcount)

module _ {W : Type 0} where
  -- One more user of the session that was found.
  abbrev pub held : Option ℕ → Sys W → Sys W
  held none s = s
  held (some a) s = elim (s.cell a) [ none ↦ s | some x ↦ put a (some (hold x)) s ]

  pub undo_hold :
      (s : Sys W) (a : ℕ) (x : Session)
      → s.cell a ≡ some x
      → put a (some (release (hold x))) (put a (some (hold x)) s) ≡ s
  undo_hold s a x e =
      ap (λ c. record s { cell = c })
        (ap (λ y. write (write s.cell a (some (hold x))) a (some y)) (release-hold x)
          ∙ write_restores s.cell a (some (hold x)) (some x) e)

  search_loop-hit :
      (s : Sys W) (p fd pid a : ℕ) (rest : List ℕ) {x : Session} {path name : FilePath}
      → s.cell a ≡ some x
      → s.strings x.pathname ≡ some name
      → s.strings p ≡ some path
      → (x.valid && same_text name path) ≡ true
      → search_loop (some p) fd pid (a ∷ rest) s ≡ done (some a) (put a (some (hold x)) s)
  unfolding search_loop update load load_string
  search_loop-hit s p fd pid a rest {x} e n q h =
      ground (arith, write_self s.cell a (some (hold x)))

  search_loop-miss :
      (s : Sys W) (p fd pid a : ℕ) (rest : List ℕ) {x : Session} {path name : FilePath}
      → s.cell a ≡ some x
      → s.strings x.pathname ≡ some name
      → s.strings p ≡ some path
      → (x.valid && same_text name path) ≡ false
      → search_loop (some p) fd pid (a ∷ rest) s ≡ search_loop (some p) fd pid rest s
  unfolding search_loop update load load_string
  search_loop-miss s p fd pid a rest {x} e n q h =
      ground (arith, write_self s.cell a (some (hold x)), undo_hold s a x e)

  search_loop-nil : (s : Sys W) (p fd pid : ℕ) → search_loop (some p) fd pid [] s ≡ done none s
  unfolding search_loop
  search_loop-nil s p fd pid = refl

  search_loop-first_match :
      (s : Sys W) (p fd pid : ℕ) (path : FilePath) (rest : List ℕ)
      → s.strings p ≡ some path
      → All (Live s) rest
      → let r = first_match path s.cell s.strings rest in
        search_loop (some p) fd pid rest s ≡ done r (held r s)
  unfolding first_match
  search_loop-first_match s p fd pid path [] q live = search_loop-nil s p fd pid
  search_loop-first_match s p fd pid path (a ∷ rest) q (l, live) =
      elim (Bool-cases (l.object.valid && same_text l.name path)) [
        | inl hit ↦
            search_loop-hit s p fd pid a rest l.at l.named q hit
            ∙ ground (arith, l.at, l.named, hit)
        | inr miss ↦
            search_loop-miss s p fd pid a rest l.at l.named q miss
            ∙ search_loop-first_match s p fd pid path rest q live
            ∙ ground (arith, l.at, l.named, miss)
      ]

  -- While every listed session and its name are allocated, a search by name does not fault. It
  -- returns the first valid session of that name, with its `refcount` one higher and all else as it
  -- was; where there is none it changes nothing. (The descriptor and the pid play no part.)
  pub search_session-first_match :
      (s : Sys W) (p fd pid : ℕ) (path : FilePath)
      → s.strings p ≡ some path
      → All (Live s) s.sessions
      → let r = first_match path s.cell s.strings s.sessions in
        search_session (some p) fd pid s ≡ done r (held r s)
  unfolding search_session
  search_session-first_match s p fd pid path q live =
      search_loop-first_match s p fd pid path s.sessions q live

is_for_sound :
    (path : FilePath) (strings : Memory FilePath) (x : Session)
    → is_for path strings x ≡ true
    → (x.valid ≡ true) × (strings x.pathname ≡ some path)
is_for_sound path strings x hit = elim (Option-cases (strings x.pathname)) [
  | inl e ↦ ground (arith, e)
  | inr (name, e) ↦ ground (arith, e, same_text_sound name path)
]

module _ (path : FilePath) (cell : Memory Session) (strings : Memory FilePath) (b : ℕ)
    (rest : List ℕ) {y : Session} (f : cell b ≡ some y) where
  first_match-hit : is_for path strings y ≡ true → first_match path cell strings (b ∷ rest) ≡ some b
  unfolding first_match
  first_match-hit hit = ground arith

  first_match-miss :
      is_for path strings y ≡ false
      → first_match path cell strings (b ∷ rest) ≡ first_match path cell strings rest
  unfolding first_match
  first_match-miss miss = ground arith

-- What is found is a valid session with that name.
pub first_match_sound :
    (path : FilePath) (cell : Memory Session) (strings : Memory FilePath) (rest : List ℕ) {a : ℕ}
    {x : Session}
    → first_match path cell strings rest ≡ some a
    → cell a ≡ some x
    → (x.valid ≡ true) × (strings x.pathname ≡ some path)
unfolding first_match
first_match_sound path cell strings [] h e = cc
first_match_sound path cell strings (b ∷ rest) {a} {x} h e = elim (Option-cases (cell b)) [
  | inl f ↦ ground (arith, f)
  | inr (y, f) ↦ elim (Bool-cases (is_for path strings y)) [
    | inl hit ↦
        is_for_sound path strings x (subst (λ z. is_for path strings z ≡ true) (found y f hit) hit)
    | inr miss ↦ first_match_sound path cell strings rest (later y f miss) e
  ]
]
  where
    found : (y : Session) → cell b ≡ some y → is_for path strings y ≡ true → y ≡ x
    found y f hit = some-injective _ _ (
        sym f
        ∙ ap cell (some-injective _ _ (sym (first_match-hit path cell strings b rest f hit) ∙ h))
        ∙ e)

    later :
        (y : Session)
        → cell b ≡ some y
        → is_for path strings y ≡ false
        → first_match path cell strings rest ≡ some a
    later y f miss = sym (first_match-miss path cell strings b rest f miss) ∙ h

-- The state after a search that has found `a`.
abbrev pub searched : {W : Type 0} → ℕ → Session → Sys W → Sys W
searched a x s = put a (some (hold x)) s

pub search-found :
    {W : Type 0} (p fd pid a : ℕ) (s : Sys W) {path : FilePath} {x : Session}
    → s.strings p ≡ some path
    → All (Live s) s.sessions
    → first_match path s.cell s.strings s.sessions ≡ some a
    → s.cell a ≡ some x
    → search_session (some p) fd pid s ≡ done (some a) (searched a x s)
search-found p fd pid a s {path} named live listed at =
    search_session-first_match s p fd pid path named live
    ∙ ap (λ r. done r (held r s)) listed
    ∙ ground arith
