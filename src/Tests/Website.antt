-- ===== src/Tests/Website.antt =====
-- A page with the search panel, and a frame with two results, of which the first has two places.
use aosv.Base.{
  ℕ, refl, true, false, List, [], ◌∷◌, Option, none, some, arith, ◌==◌, if◌then◌else◌, All,
}
use aosv.Base.Atomic.{pos}
use aosv.Base.Text.{codes, same_text}
use aosv.Docs.Text.{Text}
use aosv.Docs.Dom.{Dom, Browser}
use aosv.Docs.IdsRoundTrip.{IsUnit}
use aosv.Docs.Window.{
  SearchResults, new_search_box, new_search_results, Event, keydown, keypress, keyup, Window,
  nowhere,
}
use aosv.Docs.Box.{block}
use aosv.Docs.Panel.{Panel}
use aosv.Docs.Resize.{Panes, Screen}
use aosv.Docs.Sync.{Sync}
use aosv.Docs.Build.{Place, Entry}
use aosv.Docs.Tree.{Entries, absent, variable, listed}
use aosv.Docs.Reach.{entry_at, Leads}

abbrev pub at {ℓ} : {A : Type ℓ} → List (ℕ × A) → A → ℕ → A
at [] other e = other
at ((q, a) ∷ rest) other e = if e == q then a else at rest other e

abbrev pub named : List (Text × ℕ) → Text → Option ℕ
named [] name = none
named ((n, e) ∷ rest) name = if same_text n name then some e else named rest name

abbrev pub nothing : Dom
nothing = record {
  by_id = λ name. none;
  divs = [];
  node_name = λ e. codes "DIV";
  class_name = λ e. [];
  id = λ e. [];
  parent = λ e. some 0;
  first_child = λ e. none;
  next_sibling = λ e. none;
  child_nodes = λ e. [];
  offset_parent = λ e. none;
  value = λ e. [];
  inner_html = λ e. [];
  on_click = λ e. [];
  href = λ e. [];
  display = λ e. [];
  left = λ e. [];
  top = λ e. [];
  position = λ e. [];
  width = λ e. [];
  body = 0;
  next = 100;
}

-- The rows 1 and 5 with the entries 2 and 6, the links 3 and 7, and the children 4 of the first.
abbrev pub results : Dom
results = record nothing {
  by_id = named (
      (codes "SR_open_5ffile_0", 1)
      ∷ (codes "Item0", 3)
      ∷ (codes "SR_copy_1", 5)
      ∷ (codes "Item1", 7)
      ∷ (codes "Searching", 10)
      ∷ (codes "NoMatches", 11)
      ∷ []);
  divs = 1 ∷ (2 ∷ (4 ∷ (5 ∷ (6 ∷ []))));
  node_name = at ((3, codes "A") ∷ ((7, codes "A") ∷ [])) (codes "DIV");
  class_name =
      at ((1, codes "SRResult") ∷ ((5, codes "SRResult") ∷ ((4, codes "SRChildren") ∷ []))) [];
  id = at ((1, codes "SR_open_5ffile_0") ∷ ((5, codes "SR_copy_1") ∷ [])) [];
  parent = λ e. some (at ((2, 1) ∷ ((3, 2) ∷ ((4, 2) ∷ ((6, 5) ∷ ((7, 6) ∷ []))))) 0 e);
  first_child = at ((1, some 2) ∷ ((2, some 3) ∷ ((5, some 6) ∷ ((6, some 7) ∷ [])))) none;
  next_sibling = at ((1, some 5) ∷ ((3, some 4) ∷ [])) none;
  display = at ((5, block) ∷ []) [];
}

abbrev pub browser : Browser
browser = record {
  offset_left = λ d e. pos 0;
  offset_top = λ d e. pos 0;
  offset_width = λ d e. pos 10;
  offset_height = λ d e. pos 10;
  client_width = λ d e. pos 800;
  to_lower_case = λ t. t;
  escape = λ t. t;
  unescape = λ t. t;
  above_one = λ t. false;
}

-- The window of sections 30 has the items 31 to 38, each with a mark.
abbrev pub page : Dom
page = record nothing {
  by_id = named (
      (codes "MSearchResultsWindow", 20)
      ∷ (codes "MSearchClose", 21)
      ∷ (codes "MSearchBox", 22)
      ∷ (codes "MSearchField", 23)
      ∷ (codes "MSearchSelectWindow", 30)
      ∷ []);
  child_nodes = at ((30, 31 ∷ (32 ∷ (33 ∷ (34 ∷ (35 ∷ (36 ∷ (37 ∷ (38 ∷ [])))))))) ∷ []) [];
  class_name = λ e. codes "SelectItem";
  first_child = λ e. some 40;
  value = at ((23, codes "open") ∷ []) [];
  display = at ((20, block) ∷ []) [];
}

abbrev pub window : Window
window = record {
  page = page;
  frame = results;
  box = record (new_search_box (codes "searchBox") (codes "search") false (codes "Search")) {
    search_index = 7;
    search_active = true;
  };
  results = some new_search_results;
  location = [];
  focus = nowhere;
  timers = [];
  next_timer = 1;
}

abbrev pub panel : Panel page.by_id
unfolding same_text
panel = record {
  popup = 20;
  close = 21;
  box = 22;
  field = 23;
  popup_named = refl;
  close_named = refl;
  box_named = refl;
  field_named = refl;
  popup_close = λ q. ground arith;
}

abbrev pub key : ℕ → Event
key n = record { kind = keydown; key_code = n; shift_key = false }

abbrev pub press : Event
press = record { kind = keypress; key_code = 40; shift_key = false }

abbrev pub release : Event
release = record { kind = keyup; key_code = 40; shift_key = false }

abbrev pub idle : SearchResults
idle = record { last_match_count = 0; last_key = 0; repeat_on = false }

abbrev pub screen : ℕ → Screen
screen width = record {
  window_width = width;
  window_height = 600;
  header_height = 80;
  footer_height = 20;
  outer_width = λ n. n;
  number = λ t. none;
  expiration = codes "later";
  set_cookie = λ set jar. set;
}

abbrev pub panes : Panes
panes = record {
  sidenav_width = 250;
  content_margin = 256;
  pane_height = pos 500;
  collapsed = false;
  collapsed_width = 900;
  bar_width = 6;
  jar = [];
}

-- The panes in a narrow window.
abbrev pub narrow : Panes
narrow = record panes {
  sidenav_width = 0;
  content_margin = 6;
  collapsed = true;
  collapsed_width = 500;
}

-- The button as it is in the pages.
abbrev pub button : Sync
button = record { supported = true; sync = true; html = []; navpath = none }

pub units : All IsUnit (codes "open_file")
units = ground arith

pub units_of_word : All IsUnit (codes "open_f")
units_of_word = ground arith

-- A root with one entry, of which the data is in a script.
abbrev pub below_root : Entries
below_root =
    Entries.cons (codes "Start") (codes "index.html") absent
      (Entries.cons (codes "Files") (codes "files.html") (variable (codes "files_dup")) Entries.nil)

abbrev pub files : Entries
files = Entries.cons (codes "a.c") (codes "a_8c.html") absent Entries.nil

abbrev pub scripts : Text → Option Entries
scripts name = if same_text name (codes "files_dup") then some files else none

-- Through the second entry, to the first below it.
abbrev pub leads : Leads scripts (listed below_root) 1 (0 ∷ []) (codes "a_8c.html")
unfolding same_text entry_at
leads = (
  below_root,
  variable (codes "files_dup"),
  codes "files.html",
  refl,
  refl,
  (files, absent, refl, refl, absent, refl),
)

abbrev place : Place
place = record { href = codes "../a_8c.html"; in_parent = true; scope = codes "a.c" }

-- Two entries of the search index, with one place and with two.
abbrev pub found : List Entry
found =
    record { id = codes "copy_1"; label = codes "copy"; places = place ∷ [] }
    ∷ (record { id = codes "open_0"; label = codes "open"; places = place ∷ (place ∷ []) } ∷ [])
