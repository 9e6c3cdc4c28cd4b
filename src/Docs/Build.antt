-- ===== src/Docs/Build.antt =====
-- `createResults`, `setKeyActions` and `setClassAttr` of docs/doxygen/html/search/search.js: the rows that
-- are appended to the results, as trees of elements.
use aosv.Base.{ℕ, suc, Bool, true, false, List, [], ◌∷◌, ◌++◌}
use aosv.Base.Text.{codes, decimal}
use aosv.Docs.Text.{Text}

-- `searchData[e]`: the name, the text, and a link for each place where it is found.
pub record Place : Type 0 where
  pub href : Text
  pub in_parent : Bool
  pub scope : Text

pub record Entry : Type 0 where
  pub id : Text
  pub label : Text
  pub places : List Place

-- An element under construction: its tag, attributes in the order they were set, text and children.
mutual
  pub data Tree : Type 0 where
    element : Text → List (Text × Text) → Text → Trees → Tree

  pub data Trees : Type 0 where
    nil : Trees
    cons : Tree → Trees → Trees

abbrev pub key_actions : Text → List (Text × Text)
key_actions action =
    (codes "onkeydown", action) ∷ (codes "onkeypress", action) ∷ (codes "onkeyup", action) ∷ []

abbrev pub class_attr : Text → List (Text × Text)
class_attr name = (codes "class", name) ∷ (codes "className", name) ∷ []

abbrev pub target_attr : Bool → List (Text × Text)
target_attr true = (codes "target", codes "_parent") ∷ []
target_attr false = []

abbrev pub item_id : ℕ → Text
item_id e = codes "Item" ++ decimal e

abbrev pub child_id : ℕ → ℕ → Text
child_id e c = item_id e ++ (codes "_c" ++ decimal c)

abbrev pub link_action : ℕ → Text
link_action e = codes "return searchResults.Nav(event," ++ (decimal e ++ codes ")")

abbrev pub child_action : ℕ → ℕ → Text
child_action e c =
    codes "return searchResults.NavChild(event," ++ (decimal e ++ (b',' ∷ (decimal c ++ codes ")")))

abbrev pub toggle_action : Text → Text
toggle_action id = codes "javascript:searchResults.Toggle(\"SR_" ++ (id ++ codes "\")")

unfoldable pub child_link : ℕ → ℕ → Place → Tree
child_link e c p =
    element (codes "a")
      ((codes "id", child_id e c)
        ∷ (key_actions (child_action e c)
            ++ (class_attr (codes "SRScope")
                ++ ((codes "href", p.href) ∷ target_attr p.in_parent))))
      p.scope nil

-- The loop over the places, from number `c`.
unfoldable pub child_links : ℕ → ℕ → List Place → Trees
unfolding child_link
child_links e c [] = nil
child_links e c (p ∷ rest) = cons (child_link e c p) (child_links e (suc c) rest)

abbrev pub link_base : ℕ → List (Text × Text)
link_base e =
    (codes "id", item_id e) ∷ (key_actions (link_action e) ++ class_attr (codes "SRSymbol"))

abbrev pub children_div : ℕ → List Place → Tree
children_div e places =
    element (codes "div") (class_attr (codes "SRChildren")) [] (child_links e 0 places)

-- One place: a link and its scope; any other number: a link that toggles, and the children.
unfoldable pub entry_parts : ℕ → Entry → Trees
unfolding child_links
entry_parts e x = elim x.places [
  | [] ↦
      cons
        (element (codes "a") (link_base e ++ ((codes "href", toggle_action x.id) ∷ [])) x.label nil)
        (cons (children_div e []) nil)
  | p ∷ rest ↦ elim rest [
    | [] ↦
        cons
          (element (codes "a") (link_base e ++ ((codes "href", p.href) ∷ target_attr p.in_parent))
            x.label nil)
          (cons (element (codes "span") (class_attr (codes "SRScope")) p.scope nil) nil)
    | q ∷ more ↦
        cons
          (element (codes "a") (link_base e ++ ((codes "href", toggle_action x.id) ∷ [])) x.label
            nil)
          (cons (children_div e (p ∷ (q ∷ more))) nil)
  ]
]

unfoldable pub result_row : ℕ → Entry → Tree
unfolding entry_parts
result_row e x =
    element (codes "div") ((codes "id", codes "SR_" ++ x.id) ∷ class_attr (codes "SRResult")) []
      (cons (element (codes "div") (class_attr (codes "SREntry")) [] (entry_parts e x)) nil)

-- The loop over `searchData`, from number `e`.
unfoldable pub result_rows : ℕ → List Entry → Trees
unfolding result_row
result_rows e [] = nil
result_rows e (x ∷ rest) = cons (result_row e x) (result_rows (suc e) rest)

unfoldable pub create_results : List Entry → Trees
unfolding result_rows
create_results entries = result_rows 0 entries
