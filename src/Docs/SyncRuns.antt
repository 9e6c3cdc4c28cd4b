-- ===== src/Docs/SyncRuns.antt =====
-- The button `nav-sync` of docs/doxygen/html/navtree.js and the link that is kept agree at all times.
use aosv.Base.{ℕ, ◌≡◌, refl, true, false, List, [], ◌∷◌, ◌++◌, arith}
use aosv.Base.Text.{same_text}
use aosv.Docs.Text.{Text}
use aosv.Docs.Links.{hash_value, hash_url, strip_path2, path_name}
use aosv.Docs.Sync.{
  Sync, store_link, delete_link, cached_link, show_sync_off, show_sync_on, toggle_sync_button,
  init_sync,
}

-- A click on an entry of the tree, of which the link is not empty, and one on the button.
pub data Action : Type 0 where
  followed : ℕ → Text → Action
  toggled : Text → Text → Action

unfoldable pub act : Text → Action → Sync → Sync
unfolding store_link toggle_sync_button
act relpath (followed c link) s = store_link (c ∷ link) s
act relpath (toggled pathname hash) s = toggle_sync_button relpath pathname hash s

unfoldable pub acts : Text → List Action → Sync → Sync
unfolding act
acts relpath [] s = s
acts relpath (a ∷ rest) s = acts relpath rest (act relpath a s)

-- The navigation follows the page exactly if no link is kept.
abbrev pub Synced : Sync → Type 0
Synced s = (s.supported ≡ true) × (s.sync ≡ same_text (cached_link s) [])

not_empty : (a b : Text) (c : ℕ) → same_text (a ++ (c ∷ b)) [] ≡ false
unfolding same_text
not_empty [] b c = refl
not_empty (x ∷ a) b c = refl

store_link-Synced : (c : ℕ) (link : Text) (s : Sync) → Synced s → Synced (store_link (c ∷ link) s)
unfolding store_link cached_link same_text
store_link-Synced c link s (u, h) = (ground arith, ground arith)

toggle_sync_button-Synced :
    (relpath pathname hash : Text) (s : Sync)
    → Synced s
    → Synced (toggle_sync_button relpath pathname hash s)
unfolding toggle_sync_button store_link delete_link cached_link show_sync_on show_sync_off hash_url
    same_text
toggle_sync_button-Synced relpath pathname hash s (u, h) = (
  ground arith,
  ground (arith, not_empty (strip_path2 (path_name pathname)) (hash_value hash) b'#'),
)

init_sync-Synced :
    (relpath : Text) (s : Sync) → s.supported ≡ true → s.sync ≡ true → Synced (init_sync relpath s)
unfolding init_sync cached_link show_sync_on show_sync_off
init_sync-Synced relpath s u h = (ground arith, ground arith)

acts-Synced : (relpath : Text) (l : List Action) (s : Sync) → Synced s → Synced (acts relpath l s)
unfolding acts act
acts-Synced relpath [] s h = h
acts-Synced relpath (followed c link ∷ l) s h =
    acts-Synced relpath l (store_link (c ∷ link) s) (store_link-Synced c link s h)
acts-Synced relpath (toggled pathname hash ∷ l) s h =
    acts-Synced relpath l (toggle_sync_button relpath pathname hash s)
      (toggle_sync_button-Synced relpath pathname hash s h)

-- Where the browser has local storage and the page comes with the button on, after `initNavTree` and any
-- sequence of clicks on entries and on the button, the button is on exactly if no link is kept.
pub acts-init_sync-Synced :
    (relpath : Text) (l : List Action) (s : Sync)
    → s.supported ≡ true
    → s.sync ≡ true
    → Synced (acts relpath l (init_sync relpath s))
acts-init_sync-Synced relpath l s u h =
    acts-Synced relpath l (init_sync relpath s) (init_sync-Synced relpath s u h)
