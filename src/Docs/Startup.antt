-- ===== src/Docs/Startup.antt =====
-- The end of `initNavTree` in docs/doxygen/html/navtree.js: the events load, ready and hashchange, in the
-- order in which they come.
use aosv.Base.{Bool, true, false, List, [], ◌∷◌, ◌++◌, ◌==◌, ltb, if◌then◌else◌, length}
use aosv.Base.Text.{codes}
use aosv.Docs.Text.{Text}
use aosv.Docs.Links.{strip_path, strip_path2, path_name, hash_value, hash_url}

-- The arguments of a call of navTo, less the tree.
pub record NavCall : Type 0 where
  pub root : Text
  pub hash : Text
  pub relpath : Text

-- What an event does: `navTo`, `showRoot`, no item is selected any more, the page scrolls to its top.
pub data Action : Type 0 where
  navigates : NavCall → Action
  show_root : Action
  deselect : Action
  scroll_top : Action

-- The page at an event: the location, `animationInProgress`, and whether the item of a link with this end
-- of its class is selected.
pub record Moment : Type 0 where
  pub pathname : Text
  pub hash : Text
  pub animating : Bool
  pub item_selected : Text → Bool

pub data Event : Type 0 where
  loaded : Event
  readied : Moment → Event
  hash_changed : Moment → Event

-- loadTriggered, readyTriggered, the variables loadToRoot, loadUrl and loadRelPath, and whether the
-- handler of hashchange is bound.
pub record Startup : Type 0 where
  pub load_triggered : Bool
  pub ready_triggered : Bool
  pub saved : NavCall
  pub bound : Bool

abbrev pub new_startup : Startup
new_startup = record {
  load_triggered = false;
  ready_triggered = false;
  saved = record { root = []; hash = []; relpath = [] };
  bound = false;
}

-- `clslink.replace(/</g,'\\3c ')`
unfoldable pub escape_less : Text → Text
escape_less [] = []
escape_less (c ∷ s) = (if c == b'<' then codes "\\3c " else c ∷ []) ++ escape_less s

unfoldable pub on_load : Startup → Startup × List Action
on_load s =
    let t = record s { load_triggered = true } in
    if s.ready_triggered then (t, navigates s.saved ∷ show_root ∷ []) else (t, [])

-- `toroot` and `relpath` are the arguments of initNavTree.
module _ (toroot relpath : Text) where
  abbrev pub call_at : Moment → NavCall
  call_at m = record { root = toroot; hash = hash_url m.hash; relpath = relpath }

  unfoldable pub on_ready : Moment → Startup → Startup × List Action
  unfolding hash_url
  on_ready m s =
      if s.load_triggered
      then (record s { bound = true }, navigates (call_at m) ∷ show_root ∷ [])
      else (record s { ready_triggered = true; saved = call_at m; bound = true }, [])

  -- The location has a hash.
  unfoldable pub follow_hash : Moment → List Action
  unfolding hash_value hash_url path_name strip_path strip_path2 escape_less
  follow_hash m =
      let class_link = strip_path (path_name m.pathname) ++ (b':' ∷ hash_value m.hash) in
      let shown = navigates (record {
        root = strip_path2 (path_name m.pathname);
        hash = hash_url m.hash;
        relpath = relpath;
      }) in
      if m.item_selected (escape_less class_link) then shown ∷ [] else deselect ∷ shown ∷ []

  unfoldable pub on_hash_change : Moment → List Action
  unfolding follow_hash
  on_hash_change m =
      if ltb 1 (length m.hash)
      then follow_hash m
      else if m.animating
      then []
      else scroll_top ∷ deselect ∷ navigates (call_at m) ∷ []

  unfoldable pub on_event : Event → Startup → Startup × List Action
  unfolding on_load on_ready on_hash_change
  on_event loaded s = on_load s
  on_event (readied m) s = on_ready m s
  on_event (hash_changed m) s = (s, if s.bound then on_hash_change m else [])

  unfoldable pub run_events : List Event → Startup → Startup × List Action
  unfolding on_event
  run_events [] s = (s, [])
  run_events (e ∷ events) s =
      let (t, now) = on_event e s in let (u, later) = run_events events t in (u, now ++ later)
