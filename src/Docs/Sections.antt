-- ===== src/Docs/Sections.antt =====
-- The choice of a section of the search index by keys, in docs/doxygen/html/search/search.js.
use aosv.Base.{
  ℕ, zero, suc, ◌≤◌, ◌≡◌, refl, sym, ap, ◌∙◌, subst, inl, inr, true, false, List, [], ◌∷◌, none,
  some, arith, Bool-cases, Option-cases, ◌==◌, length, if◌then◌else◌,
}
use aosv.Base.Text.{codes, same_text}
use aosv.Kernel.Run.{Run, done, fault, out_of_fuel, M, pure, and_then, ◌>>=◌}
use aosv.Docs.Text.{Text, remove_spaces}
use aosv.Docs.Dom.{Dom, Browser, change, non_null}
use aosv.Docs.Index.{index_sections_with_content}
use aosv.Docs.Window.{Event, Window, element, dom_search_field, get_page, get_box}
use aosv.Docs.Box.{at_index, search, is_select_item}
use aosv.Docs.Keys.{
  count_items, select_item_count, mark_items, bullet, blank, put_page, select_item_set,
  on_select_item, select_key, on_search_select_key,
}

at_index_beyond : (n : ℕ) (l : List Text) (w : Window) → length l ≤ n → at_index n l w ≡ fault
unfolding at_index
at_index_beyond n [] w h = refl
at_index_beyond zero (x ∷ l) w h = absurd (omega arith)
at_index_beyond (suc n) (x ∷ l) w h = at_index_beyond n l w (omega arith)

-- The loop of SelectItemSet ends or faults, and changes the contents of elements only.
abbrev Marks : Dom → Run Dom (Unit {0}) → Type 0
Marks d (done _ t) = t ≡ record d { inner_html = t.inner_html }
Marks d fault = Unit
Marks d out_of_fuel = ⊥

Marks-html :
    (d : Dom) (f : ℕ → Text) (r : Run Dom (Unit {0}))
    → Marks (record d { inner_html = f }) r
    → Marks d r
Marks-html d f (done _ t) h = h
Marks-html d f fault h = h
Marks-html d f out_of_fuel h = h

module _ (id j e : ℕ) (l : List ℕ) (d : Dom) where
  mark_other : is_select_item d e ≡ false → mark_items id j (e ∷ l) d ≡ mark_items id j l d
  unfolding mark_items
  mark_other h = ground arith

  mark_empty :
      is_select_item d e ≡ true → d.first_child e ≡ none → mark_items id j (e ∷ l) d ≡ fault
  unfolding mark_items
  mark_empty h n = ground arith

  mark_item :
      {n : ℕ}
      → is_select_item d e ≡ true
      → d.first_child e ≡ some n
      → mark_items id j (e ∷ l) d
        ≡ mark_items id
            (suc j)
            l
            (record d { inner_html = change d.inner_html n (if j == id then bullet else blank) })
  unfolding mark_items
  mark_item h c = ground arith

mark_items-Marks : (id j : ℕ) (l : List ℕ) (d : Dom) → Marks d (mark_items id j l d)
unfolding mark_items
mark_items-Marks id j [] d = refl
mark_items-Marks id j (e ∷ l) d = elim (Bool-cases (is_select_item d e)) [
  | inr h ↦ subst (Marks d) (sym (mark_other id j e l d h)) (mark_items-Marks id j l d)
  | inl h ↦ elim (Option-cases (d.first_child e)) [
    | inl empty ↦ subst (Marks d) (sym (mark_empty id j e l d h empty)) tt
    | inr (n, below) ↦
        let html = change d.inner_html n (if j == id then bullet else blank) in
        subst (Marks d) (sym (mark_item id j e l d h below)) (
          Marks-html d html (mark_items id (suc j) l (record d { inner_html = html }))
            (mark_items-Marks id (suc j) l (record d { inner_html = html })))
  ]
]

-- What follows on any outcome of the loop.
after-Marks :
    (w : Window) (r : Run Dom (Unit {0})) (k : M Window (Unit {0}))
    → Marks w.page r
    → ((g : ℕ → Text) → k (record w { page = record w.page { inner_html = g } }) ≡ fault)
    → and_then (put_page w r) (λ _. k) ≡ fault
after-Marks w (done _ t) k h f = ap (λ d. k (record w { page = d })) h ∙ f t.inner_html
after-Marks w fault k h f = refl
after-Marks w out_of_fuel k h f = absurd h

module _ (B : Browser) (fuel : ℕ) where
  -- A search beyond the last section uses an undefined property.
  search_beyond :
      (w : Window) {field : ℕ}
      → w.page.by_id (codes "MSearchField") ≡ some field
      → 8 ≤ w.box.search_index
      → search B fuel w ≡ fault
  unfolding search element non_null
  search_beyond w {field} f h =
      rw (f, at_index_beyond w.box.search_index index_sections_with_content _ h) refl

  -- The end of OnSelectItem.
  search_now :
      (w : Window) {field : ℕ}
      → w.page.by_id (codes "MSearchField") ≡ some field
      → same_text (remove_spaces (w.page.value field)) [] ≡ false
      → w.box.search_active ≡ true
      → 8 ≤ w.box.search_index
      → (do
        field ← dom_search_field
        d ← get_page
        b ← get_box
        elim (same_text (remove_spaces (d.value field)) []) [
          | true ↦ pure tt
          | false ↦ elim b.search_active [ true ↦ search B fuel | false ↦ pure tt ]
        ])
          w
        ≡ fault
  unfolding element non_null
  search_now w f v a h = simp (f, v, a) (search_beyond w f h)

  select_beyond :
      (w : Window) (id : ℕ) {win field : ℕ}
      → w.page.by_id (codes "MSearchSelectWindow") ≡ some win
      → w.page.by_id (codes "MSearchField") ≡ some field
      → same_text (remove_spaces (w.page.value field)) [] ≡ false
      → w.box.search_active ≡ true
      → 8 ≤ id
      → on_select_item B fuel id w ≡ fault
  unfolding on_select_item select_item_set element non_null
  select_beyond w id s f v a h = rw s (
      after-Marks (record w { box = record w.box { search_index = id } }) _ _
        (mark_items-Marks id 0 (w.page.child_nodes _) w.page)
        (λ g.
          search_now
            (record w {
              box = record w.box { search_index = id };
              page = record w.page { inner_html = g };
            })
            f v a h))

  down_lem : (w : Window) → select_key B fuel 40 7 8 w ≡ on_select_item B fuel 8 w
  unfolding select_key
  down_lem w = refl

  select_key_lem :
      (e : Event) (w : Window) {win : ℕ}
      → e.key_code ≡ 40
      → w.page.by_id (codes "MSearchSelectWindow") ≡ some win
      → count_items w.page (w.page.child_nodes win) ≡ 8
      → w.box.search_index ≡ 7
      → on_search_select_key B fuel e w ≡ and_then (select_key B fuel 40 7 8 w) (λ _. pure false)
  unfolding on_search_select_key select_item_count element non_null
  select_key_lem e w k s count index = simp (k, s, count, index) refl

  -- Where the page has the list of 8 sections, of which the last is chosen, and the field, the key Down
  -- in an active search with a word ends in an error: the index becomes 8, which has no section.
  pub on_search_select_key-beyond :
      (e : Event) (w : Window) {win field : ℕ}
      → e.key_code ≡ 40
      → w.page.by_id (codes "MSearchSelectWindow") ≡ some win
      → w.page.by_id (codes "MSearchField") ≡ some field
      → count_items w.page (w.page.child_nodes win) ≡ 8
      → w.box.search_index ≡ 7
      → same_text (remove_spaces (w.page.value field)) [] ≡ false
      → w.box.search_active ≡ true
      → on_search_select_key B fuel e w ≡ fault
  on_search_select_key-beyond e w k s f count index v a =
      select_key_lem e w k s count index
      ∙ ap (λ r. and_then r (λ _. pure false))
          (down_lem w ∙ select_beyond w 8 s f v a (omega arith))
