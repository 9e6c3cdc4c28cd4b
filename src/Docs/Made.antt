-- ===== src/Docs/Made.antt =====
-- The elements that `createResults` of docs/doxygen/html/search/search.js makes are those that the keys
-- look for.
use aosv.Base.{ℕ, suc, ◌≡◌, refl, ap, ◌∙◌, true, false, List, [], ◌∷◌, ◌++◌}
use aosv.Base.Atomic.{pos}
use aosv.Base.Text.{codes, same_text}
use aosv.Docs.Text.{Text, int_text}
use aosv.Docs.Walk.{item_name}
use aosv.Docs.Nav.{child_name}
use aosv.Docs.Build.{
  Place, Entry, Tree, Trees, element, nil, cons, child_link, child_links, entry_parts, result_row,
  result_rows, create_results,
}

-- The attribute of an element, which was set first.
unfoldable pub attribute : Text → List (Text × Text) → List Text
attribute name [] = []
attribute name ((n, v) ∷ rest) = elim (same_text n name) [
  | true ↦ v ∷ []
  | false ↦ attribute name rest
]

-- The ids of an element and of those below it, in the order of the document.
unfoldable mutual
  unfolding attribute

  pub ids_of : Tree → List Text
  ids_of (element tag attrs text kids) = attribute (codes "id") attrs ++ all_ids kids

  pub all_ids : Trees → List Text
  all_ids nil = []
  all_ids (cons t rest) = ids_of t ++ all_ids rest

-- The names of the children of an item, from number `c`.
unfoldable pub child_names : ℕ → ℕ → List Place → List Text
child_names e c [] = []
child_names e c (p ∷ rest) = child_name (pos e) c ∷ child_names e (suc c) rest

-- None if there is exactly one place.
abbrev pub names_below : ℕ → List Place → List Text
names_below e (p ∷ []) = []
names_below e [] = []
names_below e (p ∷ q ∷ more) = child_names e 0 (p ∷ (q ∷ more))

-- For each entry its row, its item, and its children.
unfoldable pub names_from : ℕ → List Entry → List Text
unfolding child_names
names_from e [] = []
names_from e (x ∷ rest) =
    (codes "SR_" ++ x.id)
    ∷ (item_name (pos e) ∷ (names_below e x.places ++ names_from (suc e) rest))

child_links-child_names :
    (e c : ℕ) (l : List Place) → all_ids (child_links e c l) ≡ child_names e c l
unfolding all_ids child_links child_link child_names same_text int_text
child_links-child_names e c [] = refl
child_links-child_names e c (p ∷ l) =
    ap (λ (r : List Text). child_name (pos e) c ∷ r) (child_links-child_names e (suc c) l)

append_nils : (l : List Text) (r : List Text) → ((l ++ []) ++ []) ++ r ≡ l ++ r
append_nils [] r = refl
append_nils (x ∷ l) r = ap (λ (q : List Text). x ∷ q) (append_nils l r)

row-names_below :
    (e : ℕ) (id label : Text) (l : List Place) (rest : Trees)
    → all_ids (cons (result_row e (record { id = id; label = label; places = l })) rest)
      ≡ (codes "SR_" ++ id) ∷ (item_name (pos e) ∷ (names_below e l ++ all_ids rest))
unfolding all_ids result_row entry_parts child_links child_names same_text int_text
row-names_below e id label [] rest = refl
row-names_below e id label (p ∷ []) rest = refl
row-names_below e id label (p ∷ q ∷ l) rest =
    ap
      (λ (r : List Text).
        (codes "SR_" ++ id) ∷ (item_name (pos e) ∷ (((r ++ []) ++ []) ++ all_ids rest)))
      (child_links-child_names e 0 (p ∷ (q ∷ l)))
    ∙ ap (λ (r : List Text). (codes "SR_" ++ id) ∷ (item_name (pos e) ∷ r))
        (append_nils (child_names e 0 (p ∷ (q ∷ l))) (all_ids rest))

result_rows-names_from : (e : ℕ) (l : List Entry) → all_ids (result_rows e l) ≡ names_from e l
unfolding all_ids result_rows names_from
result_rows-names_from e [] = refl
result_rows-names_from e (x ∷ l) =
    row-names_below e x.id x.label x.places (result_rows (suc e) l)
    ∙ ap
        (λ (r : List Text).
          (codes "SR_" ++ x.id) ∷ (item_name (pos e) ∷ (names_below e x.places ++ r)))
        (result_rows-names_from (suc e) l)

-- The ids of the elements that `createResults` makes are, in the order of the document: for each entry of
-- the data that of its row, the name under which `Nav` looks for its item, and, unless it has exactly
-- one place, the names under which `Nav` and `NavChild` look for its children.
pub create_results-names_from : (l : List Entry) → all_ids (create_results l) ≡ names_from 0 l
unfolding create_results
create_results-names_from l = result_rows-names_from 0 l
