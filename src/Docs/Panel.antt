-- ===== src/Docs/Panel.antt =====
-- How the search panel of docs/doxygen/html/search/search.js opens and closes.
use aosv.Base.{ℕ, ◌≡◌, ◌≢◌, refl, sym, ap, ◌∙◌, true, false, [], Option, some}
use aosv.Base.Text.{codes, same_text}
use aosv.Kernel.Run.{done, and_then}
use aosv.Docs.Text.{Text}
use aosv.Docs.Dom.{change, change_self, change_other, show_as, shown_as, non_null}
use aosv.Docs.Window.{Window, element}
use aosv.Docs.Box.{
  hidden, block, is_open, close_panel, activate, on_search_field_focus, hide_results,
  close_results_window,
}

-- The page has the elements of the panel, and the results are not the cross.
pub record Panel (by_id : Text → Option ℕ) : Type 0 where
  pub popup : ℕ
  pub close : ℕ
  pub box : ℕ
  pub field : ℕ
  pub popup_named : by_id (codes "MSearchResultsWindow") ≡ some popup
  pub close_named : by_id (codes "MSearchClose") ≡ some close
  pub box_named : by_id (codes "MSearchBox") ≡ some box
  pub field_named : by_id (codes "MSearchField") ≡ some field
  pub popup_close : popup ≢ close

-- What a closed panel is: the two elements are hidden, the box has its class, the field its label, and
-- the search is not active; the rest of the window is that of `w`.
abbrev pub closed : (w : Window) → Panel w.page.by_id → Window
closed w p = record w {
  page = record w.page {
    display = change (change w.page.display p.popup hidden) p.close hidden;
    class_name = change w.page.class_name p.box (codes "MSearchBoxInactive");
    value = change w.page.value p.field w.box.search_label;
  };
  box = record w.box { search_active = false; last_search_value = []; last_results_page = [] };
}

element_named :
    (name : Text) (w : Window) {e : ℕ} → w.page.by_id name ≡ some e → element name w ≡ done e w
unfolding element non_null
element_named name w h = rw h refl

hide_results-done :
    (w : Window) (p : Panel w.page.by_id)
    → hide_results w
      ≡ done tt (record w { page = show_as p.close hidden (show_as p.popup hidden w.page) })
unfolding hide_results element non_null
hide_results-done w p = rw (p.popup_named, p.close_named) refl

activate-close :
    (w : Window) (p : Panel w.page.by_id)
    → shown_as w.page p.popup block ≡ false
    → activate false w ≡ close_panel w
unfolding activate is_open element non_null
activate-close w p h = rw (p.popup_named, h) refl

activate-open :
    (w : Window) (p : Panel w.page.by_id)
    → shown_as w.page p.popup block ≡ true
    → activate false w ≡ activate true w
unfolding activate is_open element non_null
activate-open w p h = rw (p.popup_named, h) refl

close_panel-done :
    (w : Window) (p : Panel w.page.by_id)
    → close_panel w
      ≡ done tt (record w {
        page = record w.page {
          class_name = change w.page.class_name p.box (codes "MSearchBoxInactive");
          value = change w.page.value p.field w.box.search_label;
        };
        box = record w.box {
          search_active = false;
          last_search_value = [];
          last_results_page = [];
        };
      })
unfolding close_panel element non_null
close_panel-done w p = rw (p.box_named, p.field_named) refl

-- The panel after `CloseResultsWindow` has hidden its two elements.
abbrev hiding : (w : Window) → Panel w.page.by_id → Window
hiding w p = record w { page = show_as p.close hidden (show_as p.popup hidden w.page) }

hiding-shown :
    (w : Window) (p : Panel w.page.by_id) → shown_as (hiding w p).page p.popup block ≡ false
unfolding same_text
hiding-shown w p =
    ap (λ t. same_text t block)
      (change_other (change w.page.display p.popup hidden) p.close p.popup hidden
          (λ q. p.popup_close (sym q))
        ∙ change_self w.page.display p.popup hidden)

-- Where the page has the elements of the panel, `CloseResultsWindow` ends with a closed panel: it hides
-- the results and the cross, and so always takes the branch of `Activate` that removes the panel and
-- puts the label in the field; nothing else changes.
close_results_window-closed :
    (w : Window) (p : Panel w.page.by_id) → close_results_window w ≡ done tt (closed w p)
unfolding close_results_window hide_results activate
close_results_window-closed w p =
    ap (λ r. and_then r (λ _. activate false)) (hide_results-done w p)
    ∙ activate-close (hiding w p) p (hiding-shown w p)
    ∙ close_panel-done (hiding w p) p

-- While the results are shown, the field's losing the focus is the same as its getting it.
on_search_field_focus-results :
    (w : Window) (p : Panel w.page.by_id)
    → shown_as w.page p.popup block ≡ true
    → on_search_field_focus false w ≡ on_search_field_focus true w
unfolding on_search_field_focus
on_search_field_focus-results w p h = activate-open w p h
