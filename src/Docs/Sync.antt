-- ===== src/Docs/Sync.antt =====
-- Where the navigation of docs/doxygen/html/navtree.js goes: the link that is kept for the next page, the
-- button that keeps the navigation in step with the page, and the part of the index that is used.
use aosv.Base.{
  ℕ, zero, suc, Bool, true, false, ◌&&◌, ◌||◌, not, List, [], ◌∷◌, ◌++◌, Option, none, some, ltb,
  ◌==◌, if◌then◌else◌,
}
use aosv.Base.Text.{codes, same_text}
use aosv.Docs.Text.{Text}
use aosv.Docs.Match.{is_digit}
use aosv.Docs.Folders.{keep}
use aosv.Docs.Links.{is_hash, strip_path2, hash_url, path_name, before_hash, after_hash}

-- The button `nav-sync` and the item "navpath" of the local storage, which is none until it is set.
pub record Sync : Type 0 where
  pub supported : Bool
  pub sync : Bool
  pub html : Text
  pub navpath : Option Text

unfoldable pub store_link : Text → Sync → Sync
store_link link s = if not s.sync && s.supported then record s { navpath = some link } else s

unfoldable pub delete_link : Sync → Sync
delete_link s = if s.supported then record s { navpath = some [] } else s

-- The link, where nothing is the same as the empty string.
unfoldable pub cached_link : Sync → Text
cached_link s = elim s.navpath [ none ↦ [] | some link ↦ if s.supported then link else [] ]

abbrev pub sync_image : Text → Text → Text → Text
sync_image name msg relpath =
    codes "<img src=\"" ++ (relpath ++ (name ++ (codes "\" title=\"" ++ (msg ++ codes "\"/>"))))

unfoldable pub show_sync_off : Text → Sync → Sync
show_sync_off relpath s = record s {
  html = sync_image (codes "sync_off.png") (codes "click to enable panel synchronisation") relpath;
}

unfoldable pub show_sync_on : Text → Sync → Sync
show_sync_on relpath s = record s {
  html = sync_image (codes "sync_on.png") (codes "click to disable panel synchronisation") relpath;
}

-- `pathname` and `hash` are those of the location.
unfoldable pub toggle_sync_button : Text → Text → Text → Sync → Sync
unfolding store_link delete_link show_sync_off show_sync_on strip_path2 path_name hash_url
toggle_sync_button relpath pathname hash s = elim s.sync [
  | true ↦
      store_link (strip_path2 (path_name pathname) ++ hash_url hash)
        (show_sync_off relpath (record s { sync = false }))
  | false ↦ delete_link (show_sync_on relpath (record s { sync = true }))
]

-- The button in `initNavTree`.
unfoldable pub init_sync : Text → Sync → Sync
unfolding cached_link show_sync_off show_sync_on
init_sync relpath s = elim s.supported [
  | false ↦ s
  | true ↦ elim (same_text (cached_link s) []) [
    | false ↦ record (show_sync_off relpath s) { sync = false }
    | true ↦ show_sync_on relpath s
  ]
]

-- `a <= b` on strings
unfoldable pub text_leb : Text → Text → Bool
text_leb [] t = true
text_leb (x ∷ s) [] = false
text_leb (x ∷ s) (y ∷ t) = ltb x y || ((x == y) && text_leb s t)

-- `i+1` after the loop over NAVTREEINDEX.
unfoldable pub count_below : List Text → Text → ℕ
unfolding text_leb
count_below [] url = 0
count_below (x ∷ rest) url = elim (text_leb x url) [ true ↦ suc (count_below rest url) | false ↦ 0 ]

abbrev pub all_digits : Text → Bool
all_digits [] = true
all_digits (c ∷ s) = is_digit c && all_digits s

-- `hash.match(/^#l\d+$/)`
abbrev pub is_line : Text → Bool
is_line (a ∷ b ∷ c ∷ s) = (a == b'#') && ((b == b'l') && all_digits (c ∷ s))
is_line _ = false

-- The place that `navTo` finds: which part of the index, the page and the anchor.
pub record Target : Type 0 where
  pub sub_index : ℕ
  pub root : Text
  pub hash : Text

-- The link that is kept goes before the arguments. The glow of a line is not modelled.
abbrev pub chosen : Text → Text → Text → Text × Text
chosen [] root hash = (root, hash)
chosen (c ∷ link) root hash = (
  before_hash (c ∷ link),
  elim (after_hash (c ∷ link)) [ none ↦ [] | some part ↦ b'#' ∷ keep is_hash part ],
)

unfoldable pub nav_to : List Text → Text → Sync → Text → Text → Target
unfolding cached_link count_below before_hash after_hash keep
nav_to index first s root hash =
    let (page, anchor) = chosen (cached_link s) root hash in
    let part = if is_line anchor then [] else anchor in
    elim (count_below index (page ++ part)) [
      | zero ↦ record { sub_index = 0; root = first; hash = part }
      | suc i ↦ record { sub_index = i; root = page; hash = part }
    ]
