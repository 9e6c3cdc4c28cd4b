-- ===== src/Docs/Position.antt =====
-- `getXPos` and `getYPos` of docs/doxygen/html/search/search.js.
use aosv.Base.{ℕ, zero, suc, true, false, Option, none, some, ◌==◌}
use aosv.Base.Atomic.{ℤ, pos, is}
use aosv.Kernel.Run.{done, out_of_fuel, M}
use aosv.Docs.Text.{◌+ℤ◌}
use aosv.Docs.Dom.{Dom, Browser}
use aosv.Docs.Window.{Window}

-- The loop: up along offsetParent, to the body or the end.
unfoldable pub sum_offsets : (Dom → ℕ → ℤ) → ℕ → Option ℕ → ℤ → M Window ℤ
sum_offsets offset zero item x w = out_of_fuel
sum_offsets offset (suc fuel) none x w = done x w
sum_offsets offset (suc fuel) (some e) x w = elim (e == w.page.body) [
  | true ↦ done x w
  | false ↦ sum_offsets offset fuel (w.page.offset_parent e) (x +ℤ offset w.page e) w
]

module _ (B : Browser) (fuel : ℕ) where
  unfoldable pub get_x_pos : ℕ → M Window ℤ
  unfolding sum_offsets
  get_x_pos item w = elim (is 0 (B.offset_width w.page item)) [
    | true ↦ done (pos 0) w
    | false ↦ sum_offsets B.offset_left fuel (some item) (pos 0) w
  ]

  unfoldable pub get_y_pos : ℕ → M Window ℤ
  unfolding sum_offsets
  get_y_pos item w = elim (is 0 (B.offset_width w.page item)) [
    | true ↦ done (pos 0) w
    | false ↦ sum_offsets B.offset_top fuel (some item) (pos 0) w
  ]
