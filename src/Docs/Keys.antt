-- ===== src/Docs/Keys.antt =====
-- The methods of SearchBox in docs/doxygen/html/search/search.js that handle keys: the selection of a
-- section, and the search field.
use aosv.Base.{
  ℕ, suc, ◌-◌, Bool, true, false, ◌&&◌, ◌||◌, List, [], ◌∷◌, ◌++◌, Option, none, some, ltb, ◌==◌,
  if◌then◌else◌,
}
use aosv.Base.Atomic.{pos}
use aosv.Base.Text.{codes, same_text}
use aosv.Kernel.Run.{Run, done, fault, out_of_fuel, M, pure, ◌>>=◌, ◌>>◌}
use aosv.Docs.Text.{Text, remove_spaces}
use aosv.Docs.Dom.{Dom, Browser, change, non_null}
use aosv.Docs.Walk.{nav_next}
use aosv.Docs.Box.{
  is_select_item, hide_results, activate, close_selection_window, on_search_select_show, search,
}
use aosv.Docs.Window.{
  Event, nowhere, in_page, in_frame, Window, map_box, get_page, get_box, set_focus, clear_timeout,
  set_timeout, dom_search_field, dom_search_select_window,
}

unfoldable pub count_items : Dom → List ℕ → ℕ
count_items d [] = 0
count_items d (e ∷ rest) =
    let others = count_items d rest in if is_select_item d e then suc others else others

unfoldable pub select_item_count : M Window ℕ
unfolding count_items
select_item_count = do
  win ← dom_search_select_window
  d ← get_page
  pure (count_items d (d.child_nodes win))

abbrev pub bullet : Text
bullet = codes "&#8226;"

abbrev pub blank : Text
blank = codes "&#160;"

-- The loop of SelectItemSet; `j` counts the items so far.
unfoldable pub mark_items : ℕ → ℕ → List ℕ → M Dom (Unit {0})
unfolding non_null
mark_items id j [] d = done tt d
mark_items id j (e ∷ rest) d = elim (is_select_item d e) [
  | false ↦ mark_items id j rest d
  | true ↦ elim (d.first_child e) [
    | none ↦ fault
    | some n ↦
        mark_items id (suc j) rest
          (record d { inner_html = change d.inner_html n (if j == id then bullet else blank) })
  ]
]

-- A computation on the page's document.
abbrev pub put_page : {A : Type 0} → Window → Run Dom A → Run Window A
put_page w (done a d) = done a (record w { page = d })
put_page w fault = fault
put_page w out_of_fuel = out_of_fuel

abbrev pub put_frame : {A : Type 0} → Window → Run Dom A → Run Window A
put_frame w (done a d) = done a (record w { frame = d })
put_frame w fault = fault
put_frame w out_of_fuel = out_of_fuel

abbrev pub on_page : {A : Type 0} → M Dom A → M Window A
on_page m w = put_page w (m w.page)

-- The same in the frame.
abbrev pub on_frame : {A : Type 0} → M Dom A → M Window A
on_frame m w = put_frame w (m w.frame)

unfoldable pub select_item_set : ℕ → M Window (Unit {0})
unfolding mark_items
select_item_set id = do
  win ← dom_search_select_window
  d ← get_page
  on_page (mark_items id 0 (d.child_nodes win))

-- `if (elem) elem.focus()`, in the frame
abbrev pub focus_in_frame : Option ℕ → M Window (Unit {0})
focus_in_frame none = pure tt
focus_in_frame (some e) = set_focus (in_frame e)

unfoldable pub first_item : Dom → List ℕ → Option ℕ
first_item d [] = none
first_item d (e ∷ rest) = elim (is_select_item d e) [ true ↦ some e | false ↦ first_item d rest ]

-- `this.DOMSearchField().focus()`
unfoldable pub focus_field : M Window (Unit {0})
focus_field = do field ← dom_search_field; set_focus (in_page field)

module _ (B : Browser) (fuel : ℕ) where
  unfoldable pub on_select_item : ℕ → M Window (Unit {0})
  unfolding select_item_set
  on_select_item id = do
    map_box (λ b. record b { search_index = id })
    select_item_set id
    field ← dom_search_field
    d ← get_page
    b ← get_box
    elim (same_text (remove_spaces (d.value field)) []) [
      | true ↦ pure tt
      | false ↦ elim b.search_active [ true ↦ search B fuel | false ↦ pure tt ]
    ]

  -- Down, while the index is below the number of items; up, while it is above 0; Enter and Escape.
  unfoldable pub select_key : ℕ → ℕ → ℕ → M Window (Unit {0})
  unfolding on_select_item focus_field
  select_key key index count = elim ((key == 40) && ltb index count) [
    | true ↦ on_select_item (suc index)
    | false ↦ elim ((key == 38) && ltb 0 index) [
      | true ↦ on_select_item (index - 1)
      | false ↦ elim ((key == 13) || (key == 27)) [
        | true ↦ do on_select_item index; close_selection_window; focus_field
        | false ↦ pure tt
      ]
    ]
  ]

  -- The items are counted only for the key Down.
  unfoldable pub on_search_select_key : Event → M Window Bool
  unfolding select_item_count select_key
  on_search_select_key e = do
    b ← get_box
    count ← elim (e.key_code == 40) [ true ↦ select_item_count | false ↦ pure 0 ]
    select_key e.key_code b.search_index count
    pure false

  -- Shift with Down or Enter: the focus goes to the first section.
  unfoldable pub enter_selection : M Window (Unit {0})
  unfolding first_item
  enter_selection = do
    on_search_select_show B fuel
    win ← dom_search_select_window
    d ← get_page
    elim (first_item d (d.child_nodes win)) [ none ↦ pure tt | some e ↦ set_focus (in_page e) ]

  -- Down or Enter: the focus goes to the first result in the frame, if it has results.
  unfoldable pub enter_results : M Window (Unit {0})
  enter_results w = elim w.results [
    | none ↦ done tt w
    | some _ ↦ (do elem ← on_frame (nav_next fuel (pos 0)); focus_in_frame elem) w
  ]

  -- `element.blur()`
  unfoldable pub blur : ℕ → M Window (Unit {0})
  blur e w = elim w.focus [
    | in_page q ↦ done tt (record w { focus = if q == e then nowhere else in_page q })
    | other ↦ done tt w
  ]

  unfoldable pub escape_field : M Window (Unit {0})
  unfolding hide_results activate blur
  escape_field = do
    field ← dom_search_field
    blur field
    hide_results
    map_box (λ b. record b { last_search_value = [] })
    activate false

  -- The end of OnSearchFieldChange: a search is due after a while if the value has changed.
  unfoldable pub schedule_search : M Window (Unit {0})
  schedule_search = do
    field ← dom_search_field
    d ← get_page
    b ← get_box
    let value = remove_spaces (d.value field)
    elim (same_text value b.last_search_value) [
      | true ↦ pure tt
      | false ↦ elim (same_text value []) [
        | false ↦ do
          t ← set_timeout (b.name ++ codes ".Search()") b.key_timeout_length
          map_box (λ b. record b { key_timeout = t })
        | true ↦ do hide_results; map_box (λ b. record b { last_search_value = [] })
      ]
    ]

  unfoldable pub stop_key_timer : M Window (Unit {0})
  stop_key_timer = do
    b ← get_box
    elim (b.key_timeout == 0) [
      | true ↦ pure tt
      | false ↦ do clear_timeout b.key_timeout; map_box (λ b. record b { key_timeout = 0 })
    ]

  unfoldable pub on_search_field_change : Event → M Window (Unit {0})
  unfolding stop_key_timer enter_selection enter_results escape_field schedule_search
  on_search_field_change e = do
    stop_key_timer
    elim ((e.key_code == 40) || (e.key_code == 13)) [
      | true ↦ elim e.shift_key [
        | true ↦ enter_selection
        | false ↦ do enter_results; schedule_search
      ]
      | false ↦ elim (e.key_code == 27) [ true ↦ escape_field | false ↦ schedule_search ]
    ]
