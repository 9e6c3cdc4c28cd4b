-- ===== src/Docs/NodeHtml.antt =====
-- The elements that `createIndent` and `newNode` of docs/doxygen/html/navtree.js make, as trees of
-- elements. What a click does is not part of them.
use aosv.Base.{ℕ, suc, ◌≡◌, refl, arith, ◌*◌, ◌+◌, Bool, true, false, [], ◌∷◌, ◌++◌}
use aosv.Base.Text.{codes, decimal}
use aosv.Docs.Text.{Text}
use aosv.Docs.Build.{Tree, Trees, element, nil, cons}
use aosv.Docs.Links.{void, node_link}
use aosv.Docs.Tree.{ChildData, Entries, absent, variable, listed}

-- The nodes above a node, up to the root, which has no parent.
data Above : Type 0 where
  root : Above
  below : Above → Above

-- `node.depth`: `po.depth + 1`, and 0 at the root.
unfoldable depth : Above → ℕ
depth root = 0
depth (below po) = depth po + 1

-- The loop of createIndent along `parentNode`: one less than the number of the nodes above.
unfoldable parents : Above → ℕ
parents root = 0
parents (below po) = suc (parents po)

-- arrowRight, and the space that stands for no arrow
abbrev arrow_right : Text
arrow_right = 9658 ∷ []

abbrev no_arrow : Text
no_arrow = 160 ∷ []

-- `node.childrenData` as a condition
abbrev has_data : ChildData → Bool
has_data absent = false
has_data (variable []) = false
has_data (variable (c ∷ name)) = true
has_data (listed entries) = true

-- `po` is the parent's place; the level is that of the parent.
unfoldable create_indent : Above → ChildData → Tree
unfolding parents
create_indent po d = elim (has_data d) [
  | true ↦ element (codes "a") ((codes "href", void) ∷ []) [] (
      cons
        (element (codes "span")
          ((codes "class", codes "arrow")
            ∷ (codes "padding-left", decimal (16 * parents po) ++ codes "px")
            ∷ [])
          arrow_right nil)
        nil)
  | false ↦
      element (codes "span")
        ((codes "class", codes "arrow")
          ∷ (codes "width", decimal (16 * (parents po + 1)) ++ codes "px")
          ∷ [])
        no_arrow nil
]

-- `a`, with the class and the address of its link, or none, where only a node with data below it gets an
-- address; `text` is its text node.
unfoldable node_anchor : Text → Text → Text → Text → ChildData → Tree
unfolding node_link
node_anchor relpath pathname text (c ∷ link) d =
    let l = node_link relpath pathname (c ∷ link) in
    element (codes "a") ((codes "class", l.class_name) ∷ (codes "href", l.href) ∷ []) text nil
node_anchor relpath pathname text [] absent = element (codes "a") [] text nil
node_anchor relpath pathname text [] (variable name) =
    element (codes "a") ((codes "class", codes "nolink") ∷ (codes "href", void) ∷ []) text nil
node_anchor relpath pathname text [] (listed entries) =
    element (codes "a") ((codes "class", codes "nolink") ∷ (codes "href", void) ∷ []) text nil

-- `node.li` of a node below `po`.
unfoldable new_item : Text → Text → Above → Text → Text → ChildData → Tree
unfolding create_indent node_anchor
new_item relpath pathname po text link d = element (codes "li") [] [] (
    cons
      (element (codes "div") ((codes "class", codes "item") ∷ []) [] (
        cons (create_indent po d) (
          cons
            (element (codes "span") ((codes "class", codes "label") ∷ []) []
              (cons (node_anchor relpath pathname text link d) nil))
            nil)))
      nil)

-- The items that the loop of getNode appends to `po.getChildrenUL()`.
unfoldable new_items : Text → Text → Above → Entries → Trees
unfolding new_item
new_items relpath pathname po Entries.nil = nil
new_items relpath pathname po (Entries.cons text link d rest) =
    cons (new_item relpath pathname po text link d) (new_items relpath pathname po rest)

-- The two counts of a node agree: the level of its arrow is its depth, less one.
depth-parents : (po : Above) → depth (below po) ≡ parents po + 1
unfolding depth parents
depth-parents root = refl
depth-parents (below po) = ground (arith, depth-parents po)
