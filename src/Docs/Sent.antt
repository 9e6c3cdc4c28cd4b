-- ===== src/Docs/Sent.antt =====
-- Where `Search` of SearchBox in docs/doxygen/html/search/search.js sends the frame.
use aosv.Base.{
  ℕ, zero, suc, Bool, false, ◌&&◌, leb, inl, inr, Bool-cases, if◌then◌else◌, take, drop, ◌++◌, ◌≤◌,
  ◌<◌, ◌≡◌, refl, sym, ap, subst, true, List, [], ◌∷◌, Option, none, some, arith, length,
}
use aosv.Base.Text.{codes, starts_with, contains}
use aosv.Kernel.Run.{done, Returns}
use aosv.Docs.Text.{Text, strip_leading, index_of, hex}
use aosv.Docs.Dom.{Browser, shown_as, non_null}
use aosv.Docs.Index.{index_sections_with_content, index_section_names}
use aosv.Docs.Window.{Window, element}
use aosv.Docs.Box.{
  block, at_index, starts_high, index_char, results_page, page_with_search, show_results, search,
}

abbrev pub get_elem? : List Text → ℕ → Option Text
get_elem? [] n = none
get_elem? (x ∷ l) zero = some x
get_elem? (x ∷ l) (suc n) = get_elem? l n

get_elem_within : (l : List Text) (n : ℕ) → n < length l → (x : Text) × (get_elem? l n ≡ some x)
get_elem_within [] n h = absurd (omega arith)
get_elem_within (x ∷ l) zero h = (x, refl)
get_elem_within (x ∷ l) (suc n) h = get_elem_within l n (omega arith)

at_index-get_elem :
    (l : List Text) (n : ℕ) (w : Window) {x : Text}
    → get_elem? l n ≡ some x
    → at_index n l w ≡ done x w
unfolding at_index
at_index-get_elem [] n w h = ground arith
at_index-get_elem (y ∷ l) zero w h = ground arith
at_index-get_elem (y ∷ l) (suc n) w h = at_index-get_elem l n w h

-- `part` stands in the place `idx` of `s` and in none before, or in none.
abbrev FirstAt : Text → Text → Option ℕ → Type 0
FirstAt part s none = contains part s ≡ false
FirstAt part s (some idx) =
    (idx ≤ length s)
    × (starts_with part (drop idx s) ≡ true)
    × ((j : ℕ) → j < idx → starts_with part (drop j s) ≡ false)

FirstAt-later :
    (part : Text) (c : ℕ) (s : Text) (idx : Option ℕ)
    → starts_with part (c ∷ s) ≡ false
    → FirstAt part s idx
    → FirstAt part (c ∷ s) (elim idx [ none ↦ none | some n ↦ some (suc n) ])
unfolding contains
FirstAt-later part c s none here h = ground (arith, here, h)
FirstAt-later part c s (some n) here (bound, found, before) =
    (omega arith, found, λ j k. earlier j k)
  where
    earlier : (j : ℕ) → j < suc n → starts_with part (drop j (c ∷ s)) ≡ false
    earlier zero k = here
    earlier (suc j) k = before j (omega arith)

index_of-FirstAt : (part s : Text) → FirstAt part s (index_of part s)
unfolding index_of contains
index_of-FirstAt part [] = elim (Bool-cases (starts_with part [])) [
  | inl h ↦ rw (h, FirstAt) (omega arith, h, λ j k. absurd (omega arith))
  | inr h ↦ rw (h, FirstAt) h
]
index_of-FirstAt part (c ∷ s) = go (starts_with part (c ∷ s)) refl (index_of-FirstAt part s)
  where
    go :
        (b : Bool)
        → starts_with part (c ∷ s) ≡ b
        → FirstAt part s (index_of part s)
        → FirstAt part (c ∷ s) (elim b [
          | true ↦ some 0
          | false ↦ elim (index_of part s) [ none ↦ none | some n ↦ some (suc n) ]
        ])
    go true h later = (omega arith, h, λ j k. absurd (omega arith))
    go false h later = FirstAt-later part c s (index_of part s) h later

append_nil : (s : Text) → s ++ [] ≡ s
append_nil [] = refl
append_nil (c ∷ s) = ap (λ t. c ∷ t) (append_nil s)

module _ (B : Browser) (fuel : ℕ) where
  -- Two units where the value in lower case starts with a high surrogate and the value passes the test
  -- `> 1`, or else the first one in
  -- lower case.
  abbrev high : Text → Bool
  high [] = false
  high (l ∷ _) = leb 0xd800 l && leb l 0xdbff

  abbrev letter_of : Text → Text
  letter_of value =
      if high (B.to_lower_case value) && B.above_one value
      then take 2 value
      else B.to_lower_case (take 1 value)

  -- The page for the letters in the place `idx` of the section `section`, and what follows its name in the
  -- address.
  abbrev page_at : Text → Text → Option ℕ → Text
  page_at path section none = path ++ codes "/nomatches.html"
  page_at path section (some idx) =
      path ++ (codes "/" ++ (section ++ (codes "_" ++ (hex idx ++ codes ".html"))))

  abbrev query : Text → Option ℕ → Text
  query value none = []
  query value (some _) = codes "?" ++ B.escape value

  abbrev sent : Window → Text → Text → Option ℕ → Window
  sent w value section idx =
      let page = page_at w.box.results_path section idx in
      record w {
        location = page ++ query value idx;
        box = record w.box { key_timeout = 0; last_search_value = value; last_results_page = page };
      }

  -- The section and its letters stand in the same place of their lists, and the first letter of the
  -- value stands first in the place `idx` of these letters.
  abbrev pub Sent : Window → ℕ → Window → Type 0
  Sent w field t =
      (section : Text) × (letters : Text) × (idx : Option ℕ) × (get_elem? index_section_names
          w.box.search_index
        ≡ some section)
      × (get_elem? index_sections_with_content w.box.search_index ≡ some letters)
      × FirstAt (letter_of (strip_leading (w.page.value field))) letters idx
      × (t ≡ sent w (strip_leading (w.page.value field)) section idx)

  show_results-shown :
      (address : Text) (w : Window) {popup : ℕ}
      → w.page.by_id (codes "MSearchResultsWindow") ≡ some popup
      → shown_as w.page popup block ≡ true
      → show_results B fuel address w ≡ done tt (record w { location = address })
  unfolding show_results element non_null
  show_results-shown address w p h = ground arith

  results_page-page_at :
      (path section : Text) (idx : Option ℕ)
      → results_page B fuel path section idx ≡ page_at path section idx
  results_page-page_at path section none = refl
  results_page-page_at path section (some idx) = refl

  page_with_search-query :
      (page value : Text) (idx : Option ℕ)
      → page_with_search B fuel page idx value ≡ page ++ query value idx
  page_with_search-query page value none = sym (append_nil page)
  page_with_search-query page value (some idx) = refl

  starts_high-high : (t : Text) → starts_high B fuel t ≡ high t
  starts_high-high [] = refl
  starts_high-high (c ∷ t) = refl

  index_char-letter_of : (value : Text) → index_char B fuel value ≡ letter_of value
  unfolding index_char
  index_char-letter_of value =
      ap (λ b. if b && B.above_one value then take 2 value else B.to_lower_case (take 1 value))
        (starts_high-high (B.to_lower_case value))

  search-done :
      (w : Window) (section letters : Text) {field popup : ℕ}
      → w.page.by_id (codes "MSearchField") ≡ some field
      → w.page.by_id (codes "MSearchResultsWindow") ≡ some popup
      → shown_as w.page popup block ≡ true
      → get_elem? index_section_names w.box.search_index ≡ some section
      → get_elem? index_sections_with_content w.box.search_index ≡ some letters
      → (let value = strip_leading (w.page.value field) in
          search B fuel w ≡ done tt (sent w value section (index_of (letter_of value) letters)))
  unfolding search element non_null
  search-done w section letters {field} f p h s l =
      let value = strip_leading (w.page.value field) in
      let idx = index_of (letter_of value) letters in
      let w' : Window = record w { box = record w.box { key_timeout = 0 } } in
      rw
        (
          f,
          at_index-get_elem index_sections_with_content w.box.search_index w' l,
          at_index-get_elem index_section_names w.box.search_index w' s,
          index_char-letter_of value,
          results_page-page_at w.box.results_path section idx,
          page_with_search-query (page_at w.box.results_path section idx) value idx,
          show_results-shown (sent w value section idx).location w' p h,
        )
        refl

  -- While the results are shown, and with one of the 8 sections chosen, `Search` ends: it sends the frame
  -- to the page of the section and of the place that the first letter of the field has among the
  -- section's letters, keeps what it has searched for, and changes nothing else.
  pub search-Sent :
      (w : Window) {field popup : ℕ}
      → w.page.by_id (codes "MSearchField") ≡ some field
      → w.page.by_id (codes "MSearchResultsWindow") ≡ some popup
      → shown_as w.page popup block ≡ true
      → w.box.search_index < 8
      → Returns (λ _ t. Sent w field t) (search B fuel w)
  search-Sent w {field} f p h i =
      let value = strip_leading (w.page.value field) in
      let (section, s) = get_elem_within index_section_names w.box.search_index i in
      let (letters, l) = get_elem_within index_sections_with_content w.box.search_index i in
      subst (Returns (λ _ t. Sent w field t)) (sym (search-done w section letters f p h s l)) (
        section,
        letters,
        index_of (letter_of value) letters,
        s,
        l,
        index_of-FirstAt (letter_of value) letters,
        refl,
      )
