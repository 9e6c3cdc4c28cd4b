-- ===== src/Docs/Match.antt =====
-- `Search` of SearchResults in docs/doxygen/html/search/search.js: the rows whose name starts with the
-- search word are shown.
use aosv.Base.{
  ℕ, suc, Bool, true, false, ◌&&◌, List, [], ◌∷◌, Option, none, some, leb, ◌==◌, if◌then◌else◌,
  length, take, drop,
}
use aosv.Base.Text.{codes, same_text}
use aosv.Kernel.Run.{done, M, ◌>>=◌}
use aosv.Docs.Text.{Text, strip_leading, strip_trailing}
use aosv.Docs.Dom.{Dom, Browser, show_as, non_null}
use aosv.Docs.Ids.{convert_to_id}
use aosv.Docs.Box.{hidden, block}

abbrev pub is_digit : ℕ → Bool
is_digit c = leb b'0' c && leb c b'9'

-- `/^\d*_/`, without the start: what is behind it, if it fits
unfoldable pub after_digits : Text → Option Text
after_digits [] = none
after_digits (c ∷ s) = elim (is_digit c) [
  | true ↦ after_digits s
  | false ↦ if c == b'_' then some s else none
]

-- `name.replace(/^sr\d*_/, '')`
unfoldable pub strip_number : Text → Text
unfolding after_digits
strip_number [] = []
strip_number (c ∷ []) = c ∷ []
strip_number (c ∷ d ∷ s) = elim ((c == b's') && (d == b'r')) [
  | false ↦ c ∷ d ∷ s
  | true ↦ elim (after_digits s) [ none ↦ c ∷ d ∷ s | some rest ↦ rest ]
]

-- `s.substring(1)`
abbrev pub after_first : Text → Text
after_first s = drop 1 s

-- `search.length<=name.length && name.substr(0, search.length)==search`
unfoldable pub row_matches : Text → Text → Bool
row_matches word name = leb (length word) (length name) && same_text (take (length word) name) word

module _ (B : Browser) where
  -- The word that is searched for; `query` is the address's query with its '?', for an empty argument.
  unfoldable pub search_word : Text → Text → Text
  search_word query given = convert_to_id (
      B.to_lower_case (
        strip_trailing
          (strip_leading (if same_text given [] then B.unescape (after_first query) else given))))

  abbrev pub row_name : Dom → ℕ → Text
  row_name d row = strip_number (B.to_lower_case (d.id row))

  -- The loop over the div elements; `matches` counts the rows that are shown.
  unfoldable pub show_rows : Text → ℕ → List ℕ → Dom → ℕ × Dom
  unfolding row_matches strip_number
  show_rows word matches [] d = (matches, d)
  show_rows word matches (row ∷ rest) d = elim (same_text (d.class_name row) (codes "SRResult")) [
    | false ↦ show_rows word matches rest d
    | true ↦ elim (row_matches word (row_name d row)) [
      | true ↦ show_rows word (suc matches) rest (show_as row block d)
      | false ↦ show_rows word matches rest (show_as row hidden d)
    ]
  ]

  unfoldable pub show_matches : Text → M Dom ℕ
  unfolding show_rows non_null
  show_matches word d =
      let (matches, e) = show_rows word 0 d.divs d in
      (do
        searching ← non_null (e.by_id (codes "Searching"))
        no_matches ← non_null (e.by_id (codes "NoMatches"))
        λ e. done matches (
            show_as no_matches (if matches == 0 then block else hidden)
              (show_as searching hidden e)))
        e
