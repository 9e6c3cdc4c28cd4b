-- ===== src/Docs/Tree.antt =====
-- The tree of docs/doxygen/html/navtree.js: its entries are made when they are first shown, from data that
-- is loaded when it is first used. A script that is loaded is there at once.
use aosv.Base.{ℕ, zero, suc, Bool, true, false, List, [], ◌∷◌, ◌++◌, ◌||◌, ◌==◌, Option, none, some}
use aosv.Base.Text.{codes, same_text}
use aosv.Docs.Text.{Text}
use aosv.Docs.Links.{strip_path}

-- `childrenData`: null, the name of a variable, or an array of entries with a text, a link and
-- `childrenData` of their own.
mutual
  pub data ChildData : Type 0 where
    absent : ChildData
    variable : Text → ChildData
    listed : Entries → ChildData

  pub data Entries : Type 0 where
    nil : Entries
    cons : Text → Text → ChildData → Entries → Entries

-- A node: its link, `childrenData`, `childrenVisited`, `expanded`, and `children`.
mutual
  pub data Node : Type 0 where
    node : Text → ChildData → Bool → Bool → Nodes → Node

  pub data Nodes : Type 0 where
    nil : Nodes
    cons : Node → Nodes → Nodes

-- What newNode and the loop of getNode make.
unfoldable pub new_nodes : Entries → Nodes
new_nodes nil = nil
new_nodes (cons text link data_of rest) = cons (node link data_of false false nil) (new_nodes rest)

-- `if (!node.childrenVisited) getNode(o, node)`
abbrev pub visit : Bool → Entries → Nodes → Nodes
visit true entries children = children
visit false entries children = new_nodes entries

-- The variables that the scripts define.
module _ (variables : Text → Option Entries) where
  -- `node.childrenData = getData(varName)`; an unknown variable is an error.
  abbrev pub load : ChildData → Option ChildData
  load absent = some absent
  load (listed entries) = some (listed entries)
  load (variable name) = elim (variables name) [
    | none ↦ none
    | some entries ↦ some (listed entries)
  ]

  -- `expandNode`, where the node's own data is loaded first.
  unfoldable pub expand_node : Node → Option Node
  unfolding new_nodes
  expand_node (node link d visited true children) = some (node link d visited true children)
  expand_node (node link d visited false children) = elim (load d) [
    | none ↦ none
    | some absent ↦ some (node link absent visited false children)
    | some (variable name) ↦ none
    | some (listed entries) ↦
        some (node link (listed entries) true true (visit visited entries children))
  ]

unfoldable pub node_at : ℕ → Nodes → Option Node
node_at i nil = none
node_at zero (cons n rest) = some n
node_at (suc i) (cons n rest) = node_at i rest

-- The children with another object in one place: `children[i]` has been changed.
unfoldable pub put_at : ℕ → Node → Nodes → Nodes
put_at i m nil = nil
put_at zero m (cons n rest) = cons m rest
put_at (suc i) m (cons n rest) = cons n (put_at i m rest)

abbrev pub own_link : Node → Text
own_link (node link d visited expanded children) = link

abbrev pub with_data : ChildData → Node → Node
with_data d (node link old visited expanded children) = node link d visited expanded children

abbrev pub data_of : Node → ChildData
data_of (node link d visited expanded children) = d

-- `s.replace(/\..+$/, '')`
unfoldable pub before_dot : Text → Text
before_dot [] = []
before_dot (c ∷ []) = c ∷ []
before_dot (c ∷ d ∷ s) = elim (c == b'.') [ true ↦ [] | false ↦ c ∷ before_dot (d ∷ s) ]

unfoldable pub is_start_page : Text → Bool
unfolding before_dot strip_path
is_start_page toroot =
    let root_base = strip_path (before_dot toroot) in
    same_text root_base (codes "index")
    || (same_text root_base (codes "pages") || same_text root_base (codes "search"))

module _ (variables : Text → Option Entries) (start_page : Bool) where
  -- The last step: the data of the node is loaded first, and the retry then finds the same node. The
  -- answer is the node, with the link of the entry that `selectAndHighlight` is given.
  unfoldable pub show_last : Node → Option (Node × Option Text)
  unfolding expand_node
  show_last n = elim (load variables (data_of n)) [
    | none ↦ none
    | some d ↦ elim start_page [
      | false ↦ some (with_data d n, some (own_link n))
      | true ↦ elim (expand_node variables (with_data d n)) [
        | none ↦ none
        | some m ↦ some (m, some (own_link n))
      ]
    ]
  ]

  -- The node whose child in place `i` is `n`, with what has become of the child.
  abbrev pub put_child :
      Text → Entries → Nodes → ℕ → Option (Node × Option Text) → Option (Node × Option Text)
  put_child link entries kids i none = none
  put_child link entries kids i (some (m, selected)) =
      some (node link (listed entries) true true (put_at i m kids), selected)

  -- `i` is the breadcrumb at the index, `rest` are those behind it. A node that is not there, or has
  -- nothing below it, selects no entry; at the last breadcrumb, one that is not there is an error.
  unfoldable pub show_node : ℕ → List ℕ → Node → Option (Node × Option Text)
  unfolding show_last new_nodes node_at put_at
  show_node i [] (node link d visited expanded children) = elim (load variables d) [
    | none ↦ none
    | some absent ↦ some (node link absent visited expanded children, none)
    | some (variable name) ↦ none
    | some (listed entries) ↦
        let kids = visit visited entries children in
        elim (node_at i kids) [ none ↦ none | some n ↦ put_child link entries kids i (show_last n) ]
  ]
  show_node i (j ∷ rest) (node link d visited expanded children) = elim (load variables d) [
    | none ↦ none
    | some absent ↦ some (node link absent visited expanded children, none)
    | some (variable name) ↦ none
    | some (listed entries) ↦
        let kids = visit visited entries children in
        elim (node_at i kids) [
          | none ↦ some (node link (listed entries) true true kids, none)
          | some n ↦ put_child link entries kids i (show_node j rest n)
        ]
  ]

-- `navTreeSubIndices[subIndex]`, as a function. `$.extend(true, [], undefined)` is an empty array, so the
-- breadcrumbs are never missing.
abbrev pub breadcrumbs : (Text → Option (List ℕ)) → Text → Text → List ℕ
breadcrumbs index root hash = elim (index (root ++ hash)) [
  | some nti ↦ nti
  | none ↦ elim (index root) [ some nti ↦ nti | none ↦ [] ]
]

unfoldable pub goto_node :
    (Text → Option Entries)
    → Bool
    → (Text → Option (List ℕ))
    → Text
    → Text
    → Node
    → Option (Node × Option Text)
unfolding show_node
goto_node variables start_page index root hash n =
    show_node variables start_page 0 (breadcrumbs index root hash) n

-- The root that `initNavTree` makes.
abbrev pub init_node : Entries → Node
init_node navtree = node [] (listed navtree) false false nil
