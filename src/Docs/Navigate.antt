-- ===== src/Docs/Navigate.antt =====
-- `navTo` of docs/doxygen/html/navtree.js, with the parts of the index that it loads. A script that it loads
-- is there at once.
use aosv.Base.{ℕ, Bool, List, [], Option, none, some}
use aosv.Docs.Text.{Text}
use aosv.Docs.Sync.{Sync, Target, nav_to}
use aosv.Docs.Tree.{Entries, nil, cons, Node, goto_node}

-- `NAVTREE[0][1]`
abbrev pub first_link : Entries → Text
first_link nil = []
first_link (cons text link d rest) = link

-- What follows once the place is known. `sub_indices` are the parts of the index that the scripts define;
-- one that no script defines changes nothing.
unfoldable pub goto_target :
    (Text → Option Entries)
    → (ℕ → Option (Text → Option (List ℕ)))
    → Bool
    → Target
    → Node
    → Option (Node × Option Text)
unfolding goto_node
goto_target variables sub_indices start_page target n = elim (sub_indices target.sub_index) [
  | none ↦ some (n, none)
  | some part ↦ goto_node variables start_page part target.root target.hash n
]

unfoldable pub navigate :
    (Text → Option Entries)
    → Entries
    → List Text
    → (ℕ → Option (Text → Option (List ℕ)))
    → Bool
    → Sync
    → Text
    → Text
    → Node
    → Option (Node × Option Text)
unfolding nav_to goto_target
navigate variables tree index sub_indices start_page s root hash n =
    goto_target variables sub_indices start_page (nav_to index (first_link tree) s root hash) n
