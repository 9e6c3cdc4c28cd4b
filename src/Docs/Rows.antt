-- ===== src/Docs/Rows.antt =====
-- `Search` of SearchResults in docs/doxygen/html/search/search.js: which rows it shows.
use mathlib.Core.Bool.{false≢true}
use aosv.Base.{
  ℕ, suc, length, ◌≤◌, ◌++◌, ◌+◌, ◌≡◌, refl, sym, ◌∙◌, subst, inl, inr, Bool, true, false, ◌&&◌,
  ◌||◌, List, [], ◌∷◌, arith, Bool-cases, ◌==◌, ==_iff, if◌then◌else◌, All,
}
use aosv.Base.Text.{codes, same_text, starts_with, starts_with_longer}
use aosv.Docs.Text.{Text}
use aosv.Docs.Dom.{Dom, Browser, change_self, change_other, show_as}
use aosv.Docs.Ids.{convert_to_id}
use aosv.Docs.IdsRoundTrip.{IsUnit, starts_with-convert_to_id}
use aosv.Docs.Box.{hidden, block}
use aosv.Docs.Match.{row_matches, row_name, show_rows}

-- The test by length and `substr` is a test for a prefix.
row_matches-starts_with : (word name : Text) → row_matches word name ≡ starts_with word name
unfolding row_matches starts_with same_text
row_matches-starts_with [] [] = refl
row_matches-starts_with [] (y ∷ name) = ground arith
row_matches-starts_with (x ∷ word) [] = ground arith
row_matches-starts_with (x ∷ word) (y ∷ name) = ground (arith, row_matches-starts_with word name)

-- A row whose id is that of a name and a suffix, as all rows have it, is shown for a word whose id is
-- no longer than that of the name exactly if the name starts with the word.
pub row_matches-convert_to_id :
    (word name suffix : Text)
    → All IsUnit word
    → All IsUnit name
    → length (convert_to_id word) ≤ length (convert_to_id name)
    → row_matches (convert_to_id word) (convert_to_id name ++ suffix) ≡ starts_with word name
row_matches-convert_to_id word name suffix u v short =
    row_matches-starts_with (convert_to_id word) (convert_to_id name ++ suffix)
    ∙ starts_with_longer (convert_to_id word) (convert_to_id name) suffix short
    ∙ starts_with-convert_to_id word name u v

unfoldable pub count_if : (ℕ → Bool) → List ℕ → ℕ
count_if p [] = 0
count_if p (e ∷ rest) = let others = count_if p rest in if p e then suc others else others

count_if-yes :
    (p : ℕ → Bool) (e : ℕ) (rest : List ℕ)
    → p e ≡ true
    → count_if p (e ∷ rest) ≡ suc (count_if p rest)
unfolding count_if
count_if-yes p e rest h = ground arith

count_if-no :
    (p : ℕ → Bool) (e : ℕ) (rest : List ℕ) → p e ≡ false → count_if p (e ∷ rest) ≡ count_if p rest
unfolding count_if
count_if-no p e rest h = ground arith

module _ (B : Browser) (word : Text) where
  abbrev pub is_result : Dom → ℕ → Bool
  is_result d row = same_text (d.class_name row) (codes "SRResult")

  abbrev pub fits : Dom → ℕ → Bool
  fits d row = row_matches word (row_name B d row)

  -- The number of rows that fit.
  abbrev pub count_fitting : Dom → List ℕ → ℕ
  count_fitting d rows = count_if (λ row. is_result d row && fits d row) rows

  abbrev pub listed : ℕ → List ℕ → Bool
  listed e [] = false
  listed e (row ∷ rest) = (row == e) || listed e rest

  -- What `style.display` is after the loop.
  abbrev pub display_after : Dom → List ℕ → ℕ → Text
  display_after d rows e =
      if listed e rows && is_result d e then (if fits d e then block else hidden) else d.display e

  show_rows-nil : (m : ℕ) (d : Dom) → show_rows B word m [] d ≡ (m, d)
  unfolding show_rows
  show_rows-nil m d = refl

  show_rows-other :
      (m row : ℕ) (rest : List ℕ) (d : Dom)
      → is_result d row ≡ false
      → show_rows B word m (row ∷ rest) d ≡ show_rows B word m rest d
  unfolding show_rows
  show_rows-other m row rest d h = ground arith

  show_rows-fit :
      (m row : ℕ) (rest : List ℕ) (d : Dom)
      → is_result d row ≡ true
      → fits d row ≡ true
      → show_rows B word m (row ∷ rest) d ≡ show_rows B word (suc m) rest (show_as row block d)
  unfolding show_rows
  show_rows-fit m row rest d h f = ground arith

  show_rows-miss :
      (m row : ℕ) (rest : List ℕ) (d : Dom)
      → is_result d row ≡ true
      → fits d row ≡ false
      → show_rows B word m (row ∷ rest) d ≡ show_rows B word m rest (show_as row hidden d)
  unfolding show_rows
  show_rows-miss m row rest d h f = ground arith

  -- The number of matches, and the document: only the display of elements changes.
  abbrev pub Shown : ℕ → List ℕ → Dom → ℕ × Dom → Type 0
  Shown m rows d r =
      (r.0 ≡ m + count_fitting d rows)
      × (r.1 ≡ record d { display = r.1.display })
      × ((e : ℕ) → r.1.display e ≡ display_after d rows e)

  display-other :
      (d : Dom) (row e : ℕ) (rest : List ℕ)
      → is_result d row ≡ false
      → display_after d rest e ≡ display_after d (row ∷ rest) e
  display-other d row e rest h = elim (Bool-cases (row == e)) [
    | inl k ↦
        subst (λ q. display_after d rest q ≡ display_after d (row ∷ rest) q) ((==_iff row e).0 k)
          (ground arith)
    | inr k ↦ ground arith
  ]

  display-result :
      (v : Text) (d : Dom) (row e : ℕ) (rest : List ℕ)
      → is_result d row ≡ true
      → (if fits d row then block else hidden) ≡ v
      → display_after (show_as row v d) rest e ≡ display_after d (row ∷ rest) e
  display-result v d row e rest h f = elim (Bool-cases (row == e)) [
    | inl k ↦
        subst (λ q. display_after (show_as row v d) rest q ≡ display_after d (row ∷ rest) q)
          ((==_iff row e).0 k) (ground (arith, change_self d.display row v))
    | inr k ↦
        ground
          (arith, change_other d.display row e v (λ q. false≢true (sym k ∙ (==_iff row e).1 q)))
  ]

  pub show_rows-Shown :
      (m : ℕ) (rows : List ℕ) (d : Dom) → Shown m rows d (show_rows B word m rows d)
  unfolding count_if
  show_rows-Shown m [] d = rw (show_rows-nil m d) (omega arith, refl, λ e. refl)
  show_rows-Shown m (row ∷ rest) d = elim (Bool-cases (is_result d row)) [
    | inr other ↦
        let (n, same, shown) = show_rows-Shown m rest d in
        rw (show_rows-other m row rest d other)
          (ground arith, same, λ e. shown e ∙ display-other d row e rest other)
    | inl result ↦ elim (Bool-cases (fits d row)) [
      | inl fit ↦
          let (n, same, shown) = show_rows-Shown (suc m) rest (show_as row block d) in
          rw (show_rows-fit m row rest d result fit) (
            n ∙ ground arith,
            same,
            λ e. shown e ∙ display-result block d row e rest result (ground arith),
          )
      | inr miss ↦
          let (n, same, shown) = show_rows-Shown m rest (show_as row hidden d) in
          rw (show_rows-miss m row rest d result miss) (
            n ∙ ground arith,
            same,
            λ e. shown e ∙ display-result hidden d row e rest result (ground arith),
          )
    ]
  ]
