-- ===== src/Docs/Highlight.antt =====
-- `selectAndHighlight` of docs/doxygen/html/navtree.js: which items of the tree are selected.
use aosv.Base.{Bool, false, ◌||◌, map, List, [], ◌∷◌, ◌++◌, drop, if◌then◌else◌}
use aosv.Base.Text.{same_text}
use aosv.Docs.Text.{Text}
use aosv.Docs.Links.{strip_path, path_name}

-- `[class$="..."]`
unfoldable pub ends_with : Text → Text → Bool
ends_with part [] = same_text part []
ends_with part (c ∷ s) = same_text part (c ∷ s) || ends_with part s

-- `stripPath(pathName())+':'+hash.substring(1)`
abbrev pub sought : Text → Text → Text
sought pathname hash = strip_path (path_name pathname) ++ (b':' ∷ drop 1 hash)

abbrev pub any : List Bool → Bool
any [] = false
any (b ∷ rest) = b || any rest

-- The items that are selected, by the classes of their links, and whether the node's own item is selected
-- instead: `has_node` says that there is a node.
unfoldable pub select_and_highlight : List Text → Text → Text → Bool → List Bool × Bool
unfolding ends_with strip_path path_name
select_and_highlight classes pathname [] has_node = (map (λ name. false) classes, has_node)
select_and_highlight classes pathname (c ∷ hash) has_node =
    let found = map (ends_with (sought pathname (c ∷ hash))) classes in
    if any found then (found, false) else (found, has_node)
