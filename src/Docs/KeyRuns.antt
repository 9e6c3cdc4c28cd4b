-- ===== src/Docs/KeyRuns.antt =====
-- Runs of `ProcessKeys` of docs/doxygen/html/search/search.js: one key held down, and let go.
use aosv.Base.{
  ℕ, zero, suc, ◌≡◌, ◌≢◌, refl, ap, ◌∙◌, Bool, true, false, List, [], ◌∷◌, ◌++◌, arith, ◌==◌,
  replicate,
}
use aosv.Docs.Window.{SearchResults, Event, keydown, keypress, keyup}
use aosv.Docs.Nav.{process_keys}

-- The answers to a sequence of events, and the object after it.
unfoldable pub run_keys : List Event → SearchResults → List Bool × SearchResults
unfolding process_keys
run_keys [] r = ([], r)
run_keys (e ∷ rest) r =
    let (held, s) = process_keys e r in let (answers, t) = run_keys rest s in (held ∷ answers, t)

abbrev pub holding : Bool → ℕ → SearchResults → SearchResults
holding repeating key r = record r { last_key = key; repeat_on = repeating }

abbrev prepend : List Bool → List Bool × SearchResults → List Bool × SearchResults
prepend first (answers, t) = (first ++ answers, t)

-- One event.
run_keys_step :
    (e : Event) (rest : List Event) (r s : SearchResults) (held : Bool)
    → process_keys e r ≡ (held, s)
    → run_keys (e ∷ rest) r ≡ prepend (held ∷ []) (run_keys rest s)
unfolding run_keys
run_keys_step e rest r s held h = rw h refl

prepend_cons :
    (b : Bool) (first : List Bool) (q : List Bool × SearchResults)
    → prepend (b ∷ []) (prepend first q) ≡ prepend (b ∷ first) q
prepend_cons b first q = refl

module _ (r : SearchResults) (k : ℕ) (press : Event) (p : press.kind ≡ keypress) where
  press_repeats :
      (k == 0) ≡ false → process_keys press (holding true k r) ≡ (true, holding true k r)
  unfolding process_keys
  press_repeats nz = rw (p, nz) refl

  press_first :
      (k == 0) ≡ false → process_keys press (holding false k r) ≡ (false, holding true k r)
  unfolding process_keys
  press_first nz = rw (p, nz) refl

  press_idle : process_keys press (holding false 0 r) ≡ (false, holding false 0 r)
  unfolding process_keys
  press_idle = rw p refl

  repeats :
      (n : ℕ) (rest : List Event)
      → (k == 0) ≡ false
      → run_keys (replicate n press ++ rest) (holding true k r)
        ≡ prepend (replicate n true) (run_keys rest (holding true k r))
  repeats zero rest nz = refl
  repeats (suc n) rest nz =
      run_keys_step press (replicate n press ++ rest) _ _ true (press_repeats nz)
      ∙ ap (prepend (true ∷ [])) (repeats n rest nz)

  ignored :
      (n : ℕ)
      → run_keys (replicate n press) (holding false 0 r) ≡ (replicate n false, holding false 0 r)
  unfolding run_keys
  ignored zero = refl
  ignored (suc n) =
      run_keys_step press (replicate n press) (holding false 0 r) (holding false 0 r) false
        press_idle
      ∙ ap (prepend (false ∷ [])) (ignored n)

-- Whatever came before, the events of a key that is pressed, repeats, and is let go: `ProcessKeys`
-- accepts the first, ignores the first keypress behind it, accepts each of the `n` further ones, and
-- ignores the keyup and all keypresses after it.
pub run_keys-hold :
    (r : SearchResults) (down press up : Event) (n m : ℕ)
    → down.kind ≡ keydown
    → press.kind ≡ keypress
    → up.kind ≡ keyup
    → down.key_code ≢ 0
    → run_keys (down ∷ (press ∷ (replicate n press ++ (up ∷ replicate m press)))) r
      ≡ (true ∷ (false ∷ (replicate n true ++ (false ∷ replicate m false))), holding false 0 r)
unfolding process_keys
run_keys-hold r down press up n m d p u nz =
    run_keys_step down _ _ _ true went_down
    ∙ ap (prepend (true ∷ [])) (
        run_keys_step press _ _ _ false (press_first r down.key_code press p pressed)
        ∙ ap (prepend (false ∷ [])) (
            repeats r down.key_code press p n (up ∷ replicate m press) pressed
            ∙ ap (prepend (replicate n true)) (
                run_keys_step up _ _ _ false went_up
                ∙ ap (prepend (false ∷ [])) (ignored r down.key_code press p m))))
  where
    pressed : (down.key_code == 0) ≡ false
    pressed = ground arith

    went_down : process_keys down r ≡ (true, holding false down.key_code r)
    went_down = rw (d, pressed) refl

    went_up : process_keys up (holding true down.key_code r) ≡ (false, holding false 0 r)
    went_up = rw u refl
