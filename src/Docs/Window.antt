-- ===== src/Docs/Window.antt =====
-- The state that docs/doxygen/html/search/search.js works on: the page with the search box, the frame
-- MSearchResults with the results, the focus and the timers.
use aosv.Base.{ℕ, suc, Bool, false, List, [], ◌∷◌, Option, ◌==◌, if◌then◌else◌}
use aosv.Base.Text.{codes}
use aosv.Kernel.Run.{done, M, ◌>>=◌}
use aosv.Docs.Text.{Text}
use aosv.Docs.Dom.{Dom, show_as, non_null}

-- The instance variables of SearchBox. A timer is its number, and 0 is none.
pub record SearchBox : Type 0 where
  pub name : Text
  pub results_path : Text
  pub key_timeout : ℕ
  pub key_timeout_length : ℕ
  pub close_selection_timeout : ℕ
  pub last_search_value : Text
  pub last_results_page : Text
  pub hide_timeout : ℕ
  pub search_index : ℕ
  pub search_active : Bool
  pub inside_frame : Bool
  pub search_label : Text

-- The instance variables of SearchResults.
pub record SearchResults : Type 0 where
  pub last_match_count : ℕ
  pub last_key : ℕ
  pub repeat_on : Bool

abbrev pub new_search_box : Text → Text → Bool → Text → SearchBox
new_search_box name results_path in_frame label = record {
  name = name;
  results_path = results_path;
  key_timeout = 0;
  key_timeout_length = 500;
  close_selection_timeout = 300;
  last_search_value = [];
  last_results_page = [];
  hide_timeout = 0;
  search_index = 0;
  search_active = false;
  inside_frame = in_frame;
  search_label = label;
}

abbrev pub new_search_results : SearchResults
new_search_results = record { last_match_count = 0; last_key = 0; repeat_on = false }

pub data EventKind : Type 0 where
  keydown keypress keyup : EventKind

pub record Event : Type 0 where
  pub kind : EventKind
  pub key_code : ℕ
  pub shift_key : Bool

-- A call of `setTimeout` that has not run and was not cleared.
pub record Timer : Type 0 where
  pub number : ℕ
  pub code : Text
  pub delay : ℕ

-- The element with the focus, in the page or in the frame.
pub data Focus : Type 0 where
  nowhere : Focus
  in_page : ℕ → Focus
  in_frame : ℕ → Focus

-- `results` is `searchResults` of the frame, which a page without results does not have. `location` is
-- the address that the frame was sent to.
pub record Window : Type 0 where
  pub page : Dom
  pub frame : Dom
  pub box : SearchBox
  pub results : Option SearchResults
  pub location : Text
  pub focus : Focus
  pub timers : List Timer
  pub next_timer : ℕ

abbrev pub map_page : (Dom → Dom) → M Window (Unit {0})
map_page f w = done tt (record w { page = f w.page })

abbrev pub map_frame : (Dom → Dom) → M Window (Unit {0})
map_frame f w = done tt (record w { frame = f w.frame })

abbrev pub map_box : (SearchBox → SearchBox) → M Window (Unit {0})
map_box f w = done tt (record w { box = f w.box })

abbrev pub get_page : M Window Dom
get_page w = done w.page w

abbrev pub get_frame : M Window Dom
get_frame w = done w.frame w

abbrev pub get_box : M Window SearchBox
get_box w = done w.box w

abbrev pub set_focus : Focus → M Window (Unit {0})
set_focus f w = done tt (record w { focus = f })

-- `document.getElementById(name)`, where a property of the result is used.
unfoldable pub element : Text → M Window ℕ
unfolding non_null
element name = do d ← get_page; non_null (d.by_id name)

-- `element.style.display = v`
abbrev pub set_display : ℕ → Text → M Window (Unit {0})
set_display e v = map_page (show_as e v)

-- `clearTimeout(number)`
unfoldable pub without_timer : ℕ → List Timer → List Timer
without_timer n [] = []
without_timer n (t ∷ rest) =
    let others = without_timer n rest in if t.number == n then others else t ∷ others

unfoldable pub clear_timeout : ℕ → M Window (Unit {0})
unfolding without_timer
clear_timeout n w = done tt (record w { timers = without_timer n w.timers })

-- `setTimeout(code, delay)`
unfoldable pub set_timeout : Text → ℕ → M Window ℕ
set_timeout code delay w = done w.next_timer (record w {
  timers = record { number = w.next_timer; code = code; delay = delay } ∷ w.timers;
  next_timer = suc w.next_timer;
})

-- The elements of SearchBox.
abbrev pub dom_search_field : M Window ℕ
dom_search_field = element (codes "MSearchField")

abbrev pub dom_search_select : M Window ℕ
dom_search_select = element (codes "MSearchSelect")

abbrev pub dom_search_select_window : M Window ℕ
dom_search_select_window = element (codes "MSearchSelectWindow")

abbrev pub dom_popup_search_results : M Window ℕ
dom_popup_search_results = element (codes "MSearchResults")

abbrev pub dom_popup_search_results_window : M Window ℕ
dom_popup_search_results_window = element (codes "MSearchResultsWindow")

abbrev pub dom_search_close : M Window ℕ
dom_search_close = element (codes "MSearchClose")

abbrev pub dom_search_box : M Window ℕ
dom_search_box = element (codes "MSearchBox")
