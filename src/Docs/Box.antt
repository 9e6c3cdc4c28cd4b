-- ===== src/Docs/Box.antt =====
-- The methods of SearchBox in docs/doxygen/html/search/search.js. The events that `focus()` and `blur()`
-- cause are calls of their own.
use aosv.Base.{
  ℕ, zero, suc, Bool, true, false, ◌&&◌, List, [], ◌∷◌, ◌++◌, Option, none, some, leb, ◌==◌,
  if◌then◌else◌, take,
}
use aosv.Base.Atomic.{ℤ, pos}
use aosv.Base.Text.{codes, same_text}
use aosv.Kernel.Run.{done, fault, M, pure, ◌>>=◌, ◌>>◌}
use aosv.Docs.Text.{Text, strip_leading, index_of, hex, px, ◌+ℤ◌, ◌-ℤ◌}
use aosv.Docs.Dom.{Dom, Browser, change, shown_as}
use aosv.Docs.Index.{index_sections_with_content, index_section_names}
use aosv.Docs.Position.{get_x_pos, get_y_pos}
use aosv.Docs.Window.{
  Window, map_page, map_box, get_page, get_box, set_display, clear_timeout, set_timeout,
  dom_search_field, dom_search_select, dom_search_select_window, dom_popup_search_results,
  dom_popup_search_results_window, dom_search_close, dom_search_box,
}

abbrev pub hidden : Text
hidden = codes "none"

abbrev pub block : Text
block = codes "block"

abbrev pub select_item : Text
select_item = codes "SelectItem"

abbrev pub is_select_item : Dom → ℕ → Bool
is_select_item d e = same_text (d.class_name e) select_item

-- `array[index]`, of which a method is called
unfoldable pub at_index : ℕ → List Text → M Window Text
at_index n [] w = fault
at_index zero (x ∷ rest) w = done x w
at_index (suc n) (x ∷ rest) w = at_index n rest w

-- The search is on, or the results are shown.
unfoldable pub is_open : Bool → M Window Bool
is_open true = pure true
is_open false = do
  popup ← dom_popup_search_results_window
  d ← get_page
  pure (shown_as d popup block)

unfoldable pub open_panel : M Window (Unit {0})
open_panel = do
  box ← dom_search_box
  map_page (λ d. record d { class_name = change d.class_name box (codes "MSearchBoxActive") })
  field ← dom_search_field
  d ← get_page
  b ← get_box
  elim (same_text (d.value field) b.search_label) [
    | true ↦ do
      map_page (λ d. record d { value = change d.value field [] })
      map_box (λ b. record b { search_active = true })
    | false ↦ pure tt
  ]

unfoldable pub close_panel : M Window (Unit {0})
close_panel = do
  box ← dom_search_box
  map_page (λ d. record d { class_name = change d.class_name box (codes "MSearchBoxInactive") })
  field ← dom_search_field
  b ← get_box
  map_page (λ d. record d { value = change d.value field b.search_label })
  map_box (λ b. record b { search_active = false; last_search_value = []; last_results_page = [] })

unfoldable pub activate : Bool → M Window (Unit {0})
unfolding is_open open_panel close_panel
activate is_active = do
  open_now ← is_open is_active
  elim open_now [ true ↦ open_panel | false ↦ close_panel ]

unfoldable pub on_search_field_focus : Bool → M Window (Unit {0})
unfolding activate
on_search_field_focus is_active = activate is_active

-- The two elements that a closed search hides.
unfoldable pub hide_results : M Window (Unit {0})
hide_results = do
  popup ← dom_popup_search_results_window
  set_display popup hidden
  close ← dom_search_close
  set_display close hidden

unfoldable pub close_results_window : M Window (Unit {0})
unfolding hide_results activate
close_results_window = do hide_results; activate false

unfoldable pub close_selection_window : M Window (Unit {0})
close_selection_window = do win ← dom_search_select_window; set_display win hidden

unfoldable pub on_search_select_hide : M Window (Unit {0})
on_search_select_hide = do
  b ← get_box
  t ← set_timeout (b.name ++ codes ".CloseSelectionWindow()") b.close_selection_timeout
  map_box (λ b. record b { hide_timeout = t })

-- `style.left` and `style.top`
abbrev pub place_at : ℕ → ℤ → ℤ → M Window (Unit {0})
place_at e left top =
    map_page (λ d. record d { left = change d.left e (px left); top = change d.top e (px top) })

module _ (B : Browser) (fuel : ℕ) where
  -- The width of the popup is read after it is shown.
  unfoldable pub place_selection : ℕ → ℕ → M Window (Unit {0})
  unfolding get_x_pos get_y_pos
  place_selection win field = do
    left ← get_x_pos B fuel field
    top ← get_y_pos B fuel field
    b ← get_box
    d ← get_page
    set_display win block
    shown ← get_page
    place_at win
        (if b.inside_frame
          then (left +ℤ (B.offset_width d field +ℤ pos 6)) -ℤ B.offset_width shown win
          else left)
        (top +ℤ B.offset_height d field)

  -- `if (this.hideTimeout) { clearTimeout(this.hideTimeout); this.hideTimeout=0; }`
  unfoldable pub stop_hide_timer : M Window (Unit {0})
  stop_hide_timer = do
    b ← get_box
    elim (b.hide_timeout == 0) [
      | true ↦ pure tt
      | false ↦ do clear_timeout b.hide_timeout; map_box (λ b. record b { hide_timeout = 0 })
    ]

  unfoldable pub on_search_select_show : M Window Bool
  unfolding place_selection stop_hide_timer
  on_search_select_show = do
    win ← dom_search_select_window
    field ← dom_search_select
    place_selection win field
    stop_hide_timer
    pure false

  -- The position of the first letter in the section, and the two addresses.
  abbrev pub results_page : Text → Text → Option ℕ → Text
  results_page path section none = path ++ codes "/nomatches.html"
  results_page path section (some idx) =
      path ++ (b'/' ∷ (section ++ (b'_' ∷ (hex idx ++ codes ".html"))))

  abbrev pub page_with_search : Text → Option ℕ → Text → Text
  page_with_search page none value = page
  page_with_search page (some idx) value = page ++ (b'?' ∷ B.escape value)

  -- The first code unit lies in 0xD800..0xDBFF.
  abbrev pub starts_high : Text → Bool
  starts_high [] = false
  starts_high (c ∷ _) = leb 0xd800 c && leb c 0xdbff

  -- `idxChar`
  unfoldable pub index_char : Text → Text
  index_char value =
      if starts_high (B.to_lower_case value) && B.above_one value
      then take 2 value
      else B.to_lower_case (take 1 value)

  unfoldable pub place_results : ℕ → M Window (Unit {0})
  unfolding get_x_pos get_y_pos
  place_results popup = do
    close ← dom_search_close
    set_display close (codes "inline")
    b ← get_box
    results ← dom_popup_search_results
    elim b.inside_frame [
      | true ↦ do
        map_page (λ d. record d { position = change d.position popup (codes "relative") })
        set_display popup block
        d ← get_page
        let width = px (B.client_width d d.body -ℤ pos 8)
        map_page (λ d. record d { width = change (change d.width popup width) results width })
      | false ↦ do
        box ← dom_search_box
        left ← get_x_pos B fuel box
        top ← get_y_pos B fuel box
        set_display popup block
        d ← get_page
        place_at popup ((left +ℤ pos 150) -ℤ B.offset_width d results) (top +ℤ pos 20)
    ]

  -- The frame is sent to the page, and the popup is shown unless it is.
  unfoldable pub show_results : Text → M Window (Unit {0})
  unfolding place_results
  show_results address = do
    λ w. done tt (record w { location = address })
    popup ← dom_popup_search_results_window
    d ← get_page
    elim (shown_as d popup block) [ true ↦ pure tt | false ↦ place_results popup ]

  unfoldable pub search : M Window (Unit {0})
  unfolding index_char show_results at_index
  search = do
    map_box (λ b. record b { key_timeout = 0 })
    field ← dom_search_field
    d ← get_page
    let value = strip_leading (d.value field)
    b ← get_box
    letters ← at_index b.search_index index_sections_with_content
    let idx = index_of (index_char value) letters
    section ← at_index b.search_index index_section_names
    let page = results_page b.results_path section idx
    show_results (page_with_search page idx value)
    map_box (λ b. record b { last_search_value = value; last_results_page = page })
