-- ===== src/Docs/Start.antt =====
-- `init_search` of docs/doxygen/html/search/search.js: a link for each section.
use aosv.Base.{ℕ, suc, ◌+◌, List, [], ◌∷◌, ◌++◌, some}
use aosv.Base.Text.{codes, decimal}
use aosv.Kernel.Run.{M, ◌>>=◌, ◌>>◌}
use aosv.Docs.Text.{Text}
use aosv.Docs.Dom.{Dom, Browser, change}
use aosv.Docs.Index.{index_section_labels}
use aosv.Docs.Box.{select_item}
use aosv.Docs.Keys.{blank, on_select_item}
use aosv.Docs.Window.{Window, map_page, dom_search_select_window}

-- The link is `d.next`; what `innerHTML` is set to starts with a span, which is the next element.
unfoldable pub append_link : ℕ → ℕ → Text → Dom → Dom
append_link win key label d =
    let link = d.next in
    let span = suc d.next in
    record d {
      next = d.next + 2;
      class_name = change d.class_name link select_item;
      on_click =
          change d.on_click link (codes "searchBox.OnSelectItem(" ++ (decimal key ++ codes ")"));
      href = change d.href link (codes "javascript:void(0)");
      inner_html =
          change
            (change d.inner_html link
              (codes "<span class=\"SelectionMark\">&#160;</span>" ++ label))
            span blank;
      first_child = change d.first_child link (some span);
      child_nodes = change d.child_nodes win (d.child_nodes win ++ (link ∷ []));
    }

-- The loop over the labels, from number `key`.
unfoldable pub append_links : ℕ → ℕ → List Text → Dom → Dom
unfolding append_link
append_links win key [] d = d
append_links win key (label ∷ rest) d =
    append_links win (suc key) rest (append_link win key label d)

unfoldable pub init_search : Browser → ℕ → M Window (Unit {0})
unfolding append_links
init_search B fuel = do
  win ← dom_search_select_window
  map_page (append_links win 0 index_section_labels)
  on_select_item B fuel 0
