-- ===== src/Docs/Nav.antt =====
-- `Search`, `ProcessKeys`, `Nav` and `NavChild` of SearchResults in
-- docs/doxygen/html/search/search.js.
use aosv.Base.{
  ℕ, zero, suc, ◌-◌, Bool, true, false, not, ◌++◌, Option, none, some, ltb, ◌==◌, if◌then◌else◌,
}
use aosv.Base.Atomic.{ℤ, pos, decrement}
use aosv.Base.Text.{codes, decimal}
use aosv.Kernel.Run.{done, fault, out_of_fuel, M, pure, ◌>>=◌, ◌>>◌}
use aosv.Docs.Text.{Text}
use aosv.Docs.Dom.{Dom, Browser, show_as, shown_as, non_null}
use aosv.Docs.Walk.{find_child_element, item_name, nav_next, nav_prev}
use aosv.Docs.Match.{search_word, show_matches}
use aosv.Docs.Box.{hidden, block, close_results_window}
use aosv.Docs.Keys.{on_frame, focus_in_frame, focus_field}
use aosv.Docs.Window.{SearchResults, Event, keydown, keypress, keyup, in_frame, Window, set_focus}

-- The answer of ProcessKeys, and the object after it: is a key held down?
unfoldable pub process_keys : Event → SearchResults → Bool × SearchResults
process_keys e r = elim e.kind [
  | keydown ↦ (not (e.key_code == 0), record r { repeat_on = false; last_key = e.key_code })
  | keypress ↦ elim r.repeat_on [
    | true ↦ (not (r.last_key == 0), r)
    | false ↦ (false, record r { repeat_on = not (r.last_key == 0) })
  ]
  | keyup ↦ (false, record r { last_key = 0; repeat_on = false })
]

abbrev pub child_name : ℤ → ℕ → Text
child_name index n = item_name index ++ (codes "_c" ++ decimal n)

-- `e.parentNode.parentNode.id`
unfoldable pub row_id : ℕ → M Dom Text
unfolding non_null
row_id e d = (do p ← non_null (d.parent e); q ← non_null (d.parent p); pure (d.id q)) d

-- The loop of Nav that looks for the last child of an item.
unfoldable pub last_child : ℕ → ℤ → ℕ → ℕ → M Dom ℕ
last_child zero index n item d = out_of_fuel
last_child (suc fuel) index n item d = elim (d.by_id (child_name index n)) [
  | none ↦ done item d
  | some e ↦ last_child fuel index (suc n) e d
]

abbrev pub shown_block : Dom → Option ℕ → Bool
shown_block d none = false
shown_block d (some e) = shown_as d e block

-- A change of the frame's document, or none.
abbrev pub show_found : Text → Option ℕ → M Dom (Unit {0})
show_found v none d = done tt d
show_found v (some e) d = done tt (show_as e v d)

-- The children of the item with that name: the element of FindChildElement.
unfoldable pub children_of : ℕ → ℕ → M Dom (Option ℕ)
unfolding row_id find_child_element
children_of fuel item = do id ← row_id item; find_child_element fuel id

unfoldable pub item_children : ℕ → ℕ → M Dom (Option ℕ)
unfolding non_null children_of
item_children fuel index d =
    (do item ← non_null (d.by_id (item_name (pos index))); children_of fuel item) d

-- The key Up: the last visible child of the item before, or that item.
unfoldable pub item_before : ℕ → ℤ → M Dom (Option ℕ)
unfolding children_of last_child
item_before fuel index = do
  item ← nav_prev fuel index
  elim item [
    | none ↦ pure none
    | some e ↦ do
      child ← children_of fuel e
      λ d. elim (shown_block d child) [
        | true ↦ (do last ← last_child fuel index 0 e; pure (some last)) d
        | false ↦ done (some e) d
      ]
  ]

-- The key Down: the first visible child of the item, or the item after it.
unfoldable pub item_after : ℕ → ℕ → M Dom (Option ℕ)
unfolding item_children
item_after fuel index = do
  children ← item_children fuel index
  λ d. elim (if shown_block d children then d.by_id (child_name (pos index) 0) else none) [
    | some e ↦ done (some e) d
    | none ↦ nav_next fuel (pos (suc index)) d
  ]

-- The focus goes to the element, or to the search field of the page.
unfoldable pub focus_or_field : Option ℕ → M Window (Unit {0})
unfolding focus_field
focus_or_field none = focus_field
focus_or_field (some e) = set_focus (in_frame e)

unfoldable pub leave_results : M Window (Unit {0})
unfolding close_results_window focus_field
leave_results = do close_results_window; focus_field

-- The keys that open and close the children.
unfoldable pub show_children : ℕ → ℕ → Text → M Window (Unit {0})
unfolding item_children
show_children fuel index v = on_frame (do e ← item_children fuel index; show_found v e)

unfoldable pub nav_key : ℕ → ℕ → ℕ → M Window Bool
unfolding item_before item_after focus_or_field leave_results show_children
nav_key fuel key index = elim (key == 38) [
  | true ↦ do e ← on_frame (item_before fuel (decrement (pos index))); focus_or_field e; pure false
  | false ↦ elim (key == 40) [
    | true ↦ do e ← on_frame (item_after fuel index); focus_in_frame e; pure false
    | false ↦ elim (key == 39) [
      | true ↦ do show_children fuel index block; pure false
      | false ↦ elim (key == 37) [
        | true ↦ do show_children fuel index hidden; pure false
        | false ↦ elim (key == 27) [
          | true ↦ do leave_results; pure false
          | false ↦ pure (key == 13)
        ]
      ]
    ]
  ]
]

-- `Item<index>_c<child>`, focused
unfoldable pub focus_element : Text → M Window (Unit {0})
unfolding non_null
focus_element name = do e ← on_frame (λ d. non_null (d.by_id name) d); set_focus (in_frame e)

-- The child after, or the item after its item.
unfoldable pub child_after : ℕ → ℕ → ℕ → M Dom (Option ℕ)
child_after fuel index child d = elim (d.by_id (child_name (pos index) (suc child))) [
  | some e ↦ done (some e) d
  | none ↦ nav_next fuel (pos (suc index)) d
]

unfoldable pub nav_child_key : ℕ → ℕ → ℕ → ℕ → M Window Bool
unfolding focus_element child_after leave_results
nav_child_key fuel key index child = elim (key == 38) [
  | true ↦ do
    focus_element
        (if ltb 0 child then child_name (pos index) (child - 1) else item_name (pos index))
    pure false
  | false ↦ elim (key == 40) [
    | true ↦ do e ← on_frame (child_after fuel index child); focus_in_frame e; pure false
    | false ↦ elim (key == 27) [ true ↦ do leave_results; pure false | false ↦ pure (key == 13) ]
  ]
]

-- The common start of both handlers: Enter is left to the browser, and ProcessKeys decides.
unfoldable pub with_keys : Event → (ℕ → M Window Bool) → M Window Bool
unfolding process_keys
with_keys e handle w = elim (e.key_code == 13) [
  | true ↦ done true w
  | false ↦ elim w.results [
    | none ↦ fault
    | some r ↦
        let (held, s) = process_keys e r in
        elim held [
          | true ↦ handle s.last_key (record w { results = some s })
          | false ↦ done false (record w { results = some s })
        ]
  ]
]

unfoldable pub nav : ℕ → Event → ℕ → M Window Bool
unfolding nav_key with_keys
nav fuel e index = with_keys e (λ key. nav_key fuel key index)

unfoldable pub nav_child : ℕ → Event → ℕ → ℕ → M Window Bool
unfolding nav_child_key with_keys
nav_child fuel e index child = with_keys e (λ key. nav_child_key fuel key index child)

-- `Search` of SearchResults.
unfoldable pub search_results : Browser → Text → Text → M Window Bool
unfolding search_word show_matches
search_results B query given = do
  matches ← on_frame (show_matches B (search_word B query given))
  λ w. elim w.results [
    | none ↦ fault
    | some r ↦ done true (record w { results = some (record r { last_match_count = matches }) })
  ]
