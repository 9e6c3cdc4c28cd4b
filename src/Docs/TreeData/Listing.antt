-- ===== src/Docs/TreeData/Listing.antt =====
-- Arrays of entries, as the scripts of the tree write them.
use aosv.Base.{List, [], ◌∷◌}
use aosv.Docs.Text.{Text}
use aosv.Docs.Tree.{ChildData, Entries, nil, cons}

-- A text, a link and `childrenData`.
abbrev pub listing : List (Text × Text × ChildData) → Entries
listing [] = nil
listing ((text, link, d) ∷ rest) = cons text link d (listing rest)
