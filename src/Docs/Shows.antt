-- ===== src/Docs/Shows.antt =====
-- What `Search` of SearchResults in docs/doxygen/html/search/search.js leaves in the frame.
use aosv.Base.{ℕ, ◌≡◌, ◌≢◌, refl, sym, ap, ◌∙◌, subst, Option, some, arith, ◌==◌, if◌then◌else◌}
use aosv.Base.Text.{codes}
use aosv.Kernel.Run.{done, Returns}
use aosv.Docs.Text.{Text}
use aosv.Docs.Dom.{Dom, Browser, change, change_self, change_other, show_as, non_null}
use aosv.Docs.Box.{hidden, block}
use aosv.Docs.Match.{show_rows, show_matches}
use aosv.Docs.Rows.{count_fitting, display_after, Shown, show_rows-Shown}

module _ (B : Browser) (word : Text) where
  -- The two messages after the loop.
  abbrev tell : ℕ → ℕ → ℕ → Dom → Dom
  tell searching no_matches m e =
      show_as no_matches (if m == 0 then block else hidden) (show_as searching hidden e)

  show_matches-done :
      (d e : Dom) (m : ℕ) {searching no_matches : ℕ}
      → show_rows B word 0 d.divs d ≡ (m, e)
      → e.by_id (codes "Searching") ≡ some searching
      → e.by_id (codes "NoMatches") ≡ some no_matches
      → show_matches B word d ≡ done m (tell searching no_matches m e)
  unfolding show_matches non_null
  show_matches-done d e m {searching} {no_matches} rows s n = rw (rows, s, n) refl

  -- The document `t` after a search in `d` with `m` matches.
  abbrev pub Searched : Dom → ℕ → ℕ → ℕ → Dom → Type 0
  Searched d searching no_matches m t =
      (m ≡ count_fitting B word d d.divs)
      × (t ≡ record d { display = t.display })
      × (t.display searching ≡ hidden)
      × (t.display no_matches ≡ (if m == 0 then block else hidden))
      × ((e : ℕ) → e ≢ searching → e ≢ no_matches → t.display e ≡ display_after B word d d.divs e)

  tell-Searched :
      (d e : Dom) (m searching no_matches : ℕ)
      → searching ≢ no_matches
      → Shown B word 0 d.divs d (m, e)
      → Searched d searching no_matches m (tell searching no_matches m e)
  tell-Searched d e m searching no_matches other (count, same, shown) = (
    omega (arith, count),
    ap (tell searching no_matches m) same,
    change_other (change e.display searching hidden) no_matches searching _ (λ q. other (sym q))
        ∙ change_self e.display searching hidden,
    change_self (change e.display searching hidden) no_matches _,
    λ q s n.
        change_other (change e.display searching hidden) no_matches q _ (λ k. n (sym k))
        ∙ change_other e.display searching q hidden (λ k. s (sym k))
        ∙ shown q,
  )

  -- Where the frame has the two messages, `Search` ends: it answers with the number of rows of class
  -- SRResult that fit the word, shows these rows and hides the others of that class, hides the message
  -- Searching, shows NoMatches exactly if there are none, and changes nothing else.
  pub show_matches-Searched :
      (d : Dom) {searching no_matches : ℕ}
      → d.by_id (codes "Searching") ≡ some searching
      → d.by_id (codes "NoMatches") ≡ some no_matches
      → searching ≢ no_matches
      → Returns (Searched d searching no_matches) (show_matches B word d)
  show_matches-Searched d {searching} {no_matches} s n other =
      let (count, same, shown) = show_rows-Shown B word 0 d.divs d in
      let by_id = ap (λ (t : Dom). t.by_id) same in
      subst (Returns (Searched d searching no_matches))
        (sym (
          show_matches-done d _ _ refl
            (ap (λ (f : Text → Option ℕ). f (codes "Searching")) by_id ∙ s)
            (ap (λ (f : Text → Option ℕ). f (codes "NoMatches")) by_id ∙ n)))
        (tell-Searched d _ _ searching no_matches other (count, same, shown))
