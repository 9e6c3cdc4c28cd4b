-- ===== src/Docs/Reach.antt =====
-- Following breadcrumbs in the tree of docs/doxygen/html/navtree.js.
use aosv.Base.{ℕ, zero, suc, ◌≡◌, refl, Bool, true, false, List, [], ◌∷◌, Option, none, some, arith}
use aosv.Docs.Text.{Text}
use aosv.Docs.Tree.{
  ChildData, absent, variable, expand_node, listed, Entries, Node, node, Nodes, load, new_nodes,
  node_at, put_at, show_last, show_node, own_link,
}

-- The entry in a place: its link and its data.
unfoldable pub entry_at : ℕ → Entries → Option (Text × ChildData)
entry_at i Entries.nil = none
entry_at zero (Entries.cons text link d rest) = some (link, d)
entry_at (suc i) (Entries.cons text link d rest) = entry_at i rest

-- The new node in a place has what the entry there has.
node_at-new_nodes :
    (i : ℕ) (l : Entries) {link : Text} {d : ChildData}
    → entry_at i l ≡ some (link, d)
    → node_at i (new_nodes l) ≡ some (node link d false false Nodes.nil)
unfolding entry_at node_at new_nodes
node_at-new_nodes i Entries.nil h = ground arith
node_at-new_nodes zero (Entries.cons text link d rest) h = ground arith
node_at-new_nodes (suc i) (Entries.cons text link d rest) h = node_at-new_nodes i rest h

node_at-put_at :
    (i : ℕ) (m : Node) (l : Nodes) {n : Node}
    → node_at i l ≡ some n
    → node_at i (put_at i m l) ≡ some m
unfolding node_at put_at
node_at-put_at i m Nodes.nil h = ground arith
node_at-put_at zero m (Nodes.cons n l) h = refl
node_at-put_at (suc i) m (Nodes.cons n l) h = node_at-put_at i m l h

module _ (variables : Text → Option Entries) where
  -- The breadcrumbs lead through the data, where variables are replaced by what they name, to an entry
  -- with that link, of which the data can be loaded too.
  abbrev pub Leads : ChildData → ℕ → List ℕ → Text → Type 0
  Leads d i [] target =
      (l : Entries) × (c : ChildData) × (load variables d ≡ some (listed l))
      × (entry_at i l ≡ some (target, c))
      × (e : ChildData) × (load variables c ≡ some e)
  Leads d i (j ∷ rest) target =
      (l : Entries) × (c : ChildData) × (link : Text) × (load variables d ≡ some (listed l))
      × (entry_at i l ≡ some (link, c))
      × Leads c j rest target

  -- Every node on the way is expanded, and has the next one below it.
  abbrev pub Opened : Node → ℕ → List ℕ → Text → Type 0
  Opened (node link d visited expanded kids) i [] target =
      (expanded ≡ true) × (m : Node) × (node_at i kids ≡ some m) × (own_link m ≡ target)
  Opened (node link d visited expanded kids) i (j ∷ rest) target =
      (expanded ≡ true) × (m : Node) × (node_at i kids ≡ some m) × Opened m j rest target

  -- The last node that the breadcrumbs lead to: on a start page it is expanded as well.
  show_last-own_link :
      (start_page : Bool) (link : Text) (c e : ChildData)
      → load variables c ≡ some e
      → (m : Node) × (show_last variables start_page (node link c false false Nodes.nil)
          ≡ some (m, some link))
        × (own_link m ≡ link)
  unfolding show_last expand_node
  show_last-own_link false link c e h = (node link e false false Nodes.nil, ground (arith, h), refl)
  show_last-own_link true link absent e h = (node link absent false false Nodes.nil, refl, refl)
  show_last-own_link true link (listed l) e h =
      (node link (listed l) true true (new_nodes l), refl, refl)
  show_last-own_link true link (variable name) e h = go (variables name) refl
    where
      go :
          (o : Option Entries)
          → variables name ≡ o
          → (m : Node) × (show_last variables true (node link (variable name) false false Nodes.nil)
              ≡ some (m, some link))
            × (own_link m ≡ link)
      go none q = absurd (ground (arith, h, q))
      go (some l) q = (node link (listed l) true true (new_nodes l), ground (arith, q), refl)

  show_end :
      (start_page : Bool) (link target : Text) (d c : ChildData) (expanded : Bool) (i : ℕ)
      (l : Entries) (m : Node)
      → load variables d ≡ some (listed l)
      → entry_at i l ≡ some (target, c)
      → show_last variables start_page (node target c false false Nodes.nil) ≡ some (m, some target)
      → show_node variables start_page i [] (node link d false expanded Nodes.nil)
        ≡ some (node link (listed l) true true (put_at i m (new_nodes l)), some target)
  unfolding show_node
  show_end start_page link target d c expanded i l m h k q =
      ground (arith, node_at-new_nodes i l k, q)

  show_next :
      (start_page : Bool) (link below : Text) (d c : ChildData) (expanded : Bool) (i j : ℕ)
      (rest : List ℕ) (l : Entries) (t : Node) (r : Option Text)
      → load variables d ≡ some (listed l)
      → entry_at i l ≡ some (below, c)
      → show_node variables start_page j rest (node below c false false Nodes.nil) ≡ some (t, r)
      → show_node variables start_page i (j ∷ rest) (node link d false expanded Nodes.nil)
        ≡ some (node link (listed l) true true (put_at i t (new_nodes l)), r)
  unfolding show_node
  show_next start_page link below d c expanded i j rest l t r h k q =
      ground (arith, node_at-new_nodes i l k)

  -- Where the breadcrumbs lead to an entry, `showNode` on a node that has not been shown yet, on a start
  -- page or another, ends without an error, gives the entry with that link to `selectAndHighlight`,
  -- and leaves all nodes on the way expanded.
  pub show_node-Opened :
      (start_page : Bool) (link target : Text) (d : ChildData) (expanded : Bool) (i : ℕ)
      (rest : List ℕ)
      → Leads d i rest target
      → (t : Node) × (show_node variables start_page i rest (node link d false expanded Nodes.nil)
          ≡ some (t, some target))
        × Opened t i rest target
  show_node-Opened start_page link target d expanded i [] (l, c, h, k, e, q) =
      let (m, shown, named) = show_last-own_link start_page target c e q in
      (
        node link (listed l) true true (put_at i m (new_nodes l)),
        show_end start_page link target d c expanded i l m h k shown,
        (refl, m, node_at-put_at i m (new_nodes l) (node_at-new_nodes i l k), named),
      )
  show_node-Opened start_page link target d expanded i (j ∷ rest) (l, c, below, h, k, leads) =
      let (t, shown, opened) = show_node-Opened start_page below target c false j rest leads in
      (
        node link (listed l) true true (put_at i t (new_nodes l)),
        show_next start_page link below d c expanded i j rest l t (some target) h k shown,
        (refl, t, node_at-put_at i t (new_nodes l) (node_at-new_nodes i l k), opened),
      )
