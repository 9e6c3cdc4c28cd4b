-- ===== src/Docs/Walk.antt =====
-- `FindChildElement`, `Toggle`, `NavNext` and `NavPrev` of SearchResults in
-- docs/doxygen/html/search/search.js. They read one document, that of the results.
use aosv.Base.{
  ℕ, zero, suc, Bool, true, false, ◌&&◌, ◌||◌, ◌++◌, Option, none, some, ◌==◌, if◌then◌else◌,
}
use aosv.Base.Atomic.{ℤ, increment, decrement}
use aosv.Base.Text.{codes, same_text}
use aosv.Kernel.Run.{done, out_of_fuel, M, pure, ◌>>=◌}
use aosv.Docs.Text.{Text, int_text}
use aosv.Docs.Dom.{Dom, show_as, shown_as, non_null}

abbrev pub is_div : Dom → ℕ → Bool
is_div d e = same_text (d.node_name e) (codes "DIV")

-- `element.nodeName == 'DIV' && element.className == 'SRChildren'`
abbrev pub is_children : Dom → ℕ → Bool
is_children d e = is_div d e && same_text (d.class_name e) (codes "SRChildren")

abbrev pub is_some : {A : Type 0} → Option A → Bool
is_some none = false
is_some (some _) = true

-- The inner loop: up to the first ancestor with a next sibling, or to `root`.
unfoldable pub climb : ℕ → ℕ → ℕ → M Dom (Option ℕ)
climb zero root e d = out_of_fuel
climb (suc fuel) root e d = elim (d.parent e) [
  | none ↦ done none d
  | some p ↦ elim ((p == root) || is_some (d.next_sibling p)) [
    | true ↦ done (some p) d
    | false ↦ climb fuel root p d
  ]
]

-- What follows the inner loop.
abbrev pub sibling_of : ℕ → Option ℕ → M Dom (Option ℕ)
sibling_of root none d = done none d
sibling_of root (some e) d = elim (e == root) [
  | true ↦ done (some e) d
  | false ↦ done (d.next_sibling e) d
]

-- The step of the outer loop.
unfoldable pub advance : ℕ → ℕ → ℕ → M Dom (Option ℕ)
unfolding climb
advance fuel root e d = elim (is_div d e && is_some (d.first_child e)) [
  | true ↦ done (d.first_child e) d
  | false ↦ elim (d.next_sibling e) [
    | some n ↦ done (some n) d
    | none ↦ (climb fuel root e >>= sibling_of root) d
  ]
]

unfoldable pub walk : ℕ → ℕ → Option ℕ → M Dom (Option ℕ)
unfolding advance
walk zero root e d = out_of_fuel
walk (suc fuel) root none d = done none d
walk (suc fuel) root (some e) d = elim (e == root) [
  | true ↦ done none d
  | false ↦ elim (is_children d e) [
    | true ↦ done (some e) d
    | false ↦ (advance fuel root e >>= walk fuel root) d
  ]
]

unfoldable pub find_child_element : ℕ → Text → M Dom (Option ℕ)
unfolding walk non_null
find_child_element fuel id d =
    (do
      parent_element ← non_null (d.by_id id)
      walk fuel parent_element (d.first_child parent_element))
      d

unfoldable pub toggle : ℕ → Text → M Dom (Unit {0})
unfolding find_child_element
toggle fuel id = do
  element ← find_child_element fuel id
  elim element [
    | none ↦ pure tt
    | some e ↦ λ d.
        done tt (show_as e (if shown_as d e (codes "block") then codes "none" else codes "block") d)
  ]

abbrev pub item_name : ℤ → Text
item_name index = codes "Item" ++ int_text index

-- `focusItem.parentNode.parentNode.style.display == 'block'`
unfoldable pub visible_item : ℕ → M Dom Bool
unfolding non_null
visible_item e d =
    (do p ← non_null (d.parent e); q ← non_null (d.parent p); pure (shown_as d q (codes "block"))) d

-- The loops of NavNext and NavPrev, which differ in the step of the index.
unfoldable pub nav_items : (ℤ → ℤ) → ℕ → ℤ → M Dom (Option ℕ)
unfolding visible_item
nav_items step zero index d = out_of_fuel
nav_items step (suc fuel) index d = elim (d.by_id (item_name index)) [
  | none ↦ done none d
  | some e ↦
      (do
        visible ← visible_item e
        elim visible [ true ↦ pure (some e) | false ↦ nav_items step fuel (step index) ])
        d
]

abbrev pub nav_next : ℕ → ℤ → M Dom (Option ℕ)
nav_next = nav_items increment

abbrev pub nav_prev : ℕ → ℤ → M Dom (Option ℕ)
nav_prev = nav_items decrement
