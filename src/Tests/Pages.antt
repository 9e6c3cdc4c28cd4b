-- ===== src/Tests/Pages.antt =====
-- The theorems on the scripts of the pages, on a small page.
use aosv.Base.{replicate, ◌++◌, ◌≡◌, refl, true, false, [], ◌∷◌, some, arith}
use aosv.Base.Atomic.{pos, increment}
use aosv.Base.Text.{codes, decimal, same_text, starts_with}
use aosv.Kernel.Run.{done, fault, Returns}
use aosv.Docs.Text.{int_text, remove_spaces}
use aosv.Docs.Ids.{convert_to_id}
use aosv.Docs.IdsRoundTrip.{decode_id, decode_id-convert_to_id}
use aosv.Docs.Keys.{count_items, on_search_select_key}
use aosv.Docs.Walk.{find_child_element, nav_items}
use aosv.Docs.Match.{row_matches, show_matches}
use aosv.Docs.Preorder.{find_child_element-find_in}
use aosv.Docs.Forest.{nil, node, rounds, find_in}
use aosv.Docs.Shows.{Searched, show_matches-Searched}
use aosv.Docs.Rows.{row_matches-convert_to_id}
use aosv.Docs.Items.{FirstVisible, nav_items-FirstVisible}
use aosv.Docs.Resize.{resize_height, collapse_expand}
use aosv.Docs.KeyRuns.{run_keys, holding, run_keys-hold}
use aosv.Docs.Links.{node_link, strip_path, last_slash, path_name}
use aosv.Docs.Highlight.{select_and_highlight}
use aosv.Docs.Found.{select_and_highlight-node_link}
use aosv.Docs.Widths.{
  Followed, resize_height-Followed, resize_height-through_768, Consistent, Fits,
  collapse_expand-Fits,
}
use aosv.Docs.Sync.{init_sync}
use aosv.Docs.SyncRuns.{followed, toggled, acts, Synced, acts-init_sync-Synced}
use aosv.Docs.Tree.{Node, listed, init_node, show_node}
use aosv.Docs.Reach.{Opened, show_node-Opened}
use aosv.Docs.Box.{search}
use aosv.Docs.Sent.{Sent, search-Sent}
use aosv.Docs.Build.{create_results}
use aosv.Docs.Made.{all_ids, names_from, create_results-names_from}
use aosv.Docs.Sections.{on_search_select_key-beyond}
use aosv.Tests.Website.{
  press, release, narrow, idle, found, results, browser, window, key, screen, panes, button,
  below_root, scripts, leads, units, units_of_word,
}

find_child_element-find_in_example :
    find_child_element 9 (codes "SR_open_5ffile_0") results
    ≡ done (find_in results (node 2 (node 3 nil (node 4 nil nil)) nil)) results
unfolding same_text rounds
find_child_element-find_in_example =
    find_child_element-find_in results (codes "SR_open_5ffile_0") 9
      (node 2 (node 3 nil (node 4 nil nil)) nil) refl
      (refl, refl, (refl, refl, refl, (refl, refl, refl, refl)), refl)
      (λ q. ground arith, (λ q. ground arith, tt, (λ q. ground arith, tt, tt)), tt) (ground arith)

show_matches-Searched_example :
    Returns
      (Searched browser (codes "open") results 10 11)
      (show_matches browser (codes "open") results)
unfolding same_text
show_matches-Searched_example =
    show_matches-Searched browser (codes "open") results refl refl (λ q. ground arith)

decode_id-convert_to_id_example : decode_id (convert_to_id (codes "open_file")) ≡ codes "open_file"
decode_id-convert_to_id_example = decode_id-convert_to_id (codes "open_file") units

row_matches-convert_to_id_example :
    row_matches (convert_to_id (codes "open_f")) (convert_to_id (codes "open_file") ++ codes "_0")
    ≡ true
unfolding starts_with convert_to_id
row_matches-convert_to_id_example =
    row_matches-convert_to_id (codes "open_f") (codes "open_file") (codes "_0") units_of_word units
      (ground arith)

nav_items-FirstVisible_example :
    Returns
      (λ r t. (t ≡ results) × FirstVisible increment results (pos 0) r)
      (nav_items increment 5 (pos 0) results)
unfolding same_text int_text increment decimal
nav_items-FirstVisible_example =
    nav_items-FirstVisible increment results (λ index e h. (_, _, refl, refl)) 2 5 (pos 0) refl
      (omega arith)

collapse_expand-Fits_example :
    Consistent (collapse_expand (screen 900) panes)
    × ((collapse_expand (screen 900) panes).collapsed ≡ true)
    × Fits (screen 900) (collapse_expand (screen 900) panes)
collapse_expand-Fits_example = collapse_expand-Fits (screen 900) panes

on_search_select_key-beyond_example : on_search_select_key browser 9 (key 40) window ≡ fault
unfolding same_text count_items remove_spaces
on_search_select_key-beyond_example =
    on_search_select_key-beyond browser 9 (key 40) window refl refl refl refl refl refl refl

acts-init_sync-Synced_example : Synced (
    acts
      (codes "../")
      (followed b'a' (codes ".html")
        ∷ (toggled (codes "/docs/index.html") (codes "#a1") ∷ (followed b'b' (codes ".html") ∷ [])))
      (init_sync (codes "../") button))
acts-init_sync-Synced_example =
    acts-init_sync-Synced (codes "../")
      (followed b'a' (codes ".html")
        ∷ (toggled (codes "/docs/index.html") (codes "#a1") ∷ (followed b'b' (codes ".html") ∷ [])))
      button refl refl

show_node-Opened_example :
    (t : Node) × (show_node scripts true 1 (0 ∷ []) (init_node below_root)
      ≡ some (t, some (codes "a_8c.html")))
    × Opened scripts t 1 (0 ∷ []) (codes "a_8c.html")
show_node-Opened_example =
    show_node-Opened scripts true [] (codes "a_8c.html") (listed below_root) false 1 (0 ∷ []) leads

search-Sent_example : Returns (λ _ t. Sent browser 9 window 23 t) (search browser 9 window)
unfolding same_text
search-Sent_example = search-Sent browser 9 window refl refl refl (ground arith)

create_results-names_from_example : all_ids (create_results found) ≡ names_from 0 found
create_results-names_from_example = create_results-names_from found

run_keys-hold_example :
    run_keys (key 40 ∷ (press ∷ (replicate 2 press ++ (release ∷ replicate 1 press)))) idle
    ≡ (true ∷ (false ∷ (replicate 2 true ++ (false ∷ replicate 1 false))), holding false 0 idle)
run_keys-hold_example = run_keys-hold idle (key 40) press release 2 1 refl refl refl (ground arith)

resize_height-Followed_example :
    Followed (screen 500) panes (resize_height (screen 500) panes)
    × ((resize_height (screen 500) panes).collapsed_width ≡ 500)
resize_height-Followed_example = resize_height-Followed (screen 500) panes refl

resize_height-through_768_example :
    (resize_height (screen 900) (resize_height (screen 768) narrow)).collapsed ≡ true
resize_height-through_768_example =
    resize_height-through_768 (screen 768) (screen 900) narrow refl refl (ground arith) refl
      (ground arith)

select_and_highlight-node_link_example :
    select_and_highlight
      ([] ++ ((node_link (codes "../") (codes "x") (codes "a_8c.html#a1")).class_name ∷ []))
      (codes "/docs/a_8c.html")
      (codes "#a1")
      true
    ≡ ([] ++ (true ∷ []), false)
unfolding strip_path last_slash path_name
select_and_highlight-node_link_example =
    select_and_highlight-node_link [] [] (codes "../") (codes "x") (codes "/docs/a_8c.html") true
      b'a' (codes "_8c.html") (codes "a1") (ground arith) (ground arith) (ground arith)
      (ground arith) refl
