-- ===== src/Docs/Items.antt =====
-- `NavNext` and `NavPrev` of docs/doxygen/html/search/search.js.
use aosv.Base.{
  ℕ, zero, suc, ◌<◌, ◌≡◌, refl, sym, subst, inl, inr, Bool, true, false, Option, none, some, arith,
  Option-cases,
}
use aosv.Base.Atomic.{ℤ}
use aosv.Base.Text.{codes}
use aosv.Kernel.Run.{done, Returns, Returns-mono}
use aosv.Docs.Dom.{Dom, shown_as, non_null}
use aosv.Docs.Walk.{item_name, visible_item, nav_items}

-- Every element that has the name of an item stands in a row.
abbrev pub InRows : Dom → Type 0
InRows d =
    (index : ℤ) (e : ℕ)
    → d.by_id (item_name index) ≡ some e
    → (p : ℕ) × (q : ℕ) × (d.parent e ≡ some p) × (d.parent p ≡ some q)

-- From `index` on by `step`: the first item whose row is shown, or none at the first missing one.
pub data FirstVisible (step : ℤ → ℤ) (d : Dom) : ℤ → Option ℕ → Type 0 where
  missing : (index : ℤ) → d.by_id (item_name index) ≡ none → FirstVisible step d index none
  visible :
      (index : ℤ) (e : ℕ)
      → d.by_id (item_name index) ≡ some e
      → visible_item e d ≡ done true d
      → FirstVisible step d index (some e)
  hidden_row :
      (index : ℤ) (e : ℕ) (r : Option ℕ)
      → d.by_id (item_name index) ≡ some e
      → visible_item e d ≡ done false d
      → FirstVisible step d (step index) r
      → FirstVisible step d index r

abbrev pub iterate : (ℤ → ℤ) → ℕ → ℤ → ℤ
iterate step zero index = index
iterate step (suc n) index = iterate step n (step index)

module _ (step : ℤ → ℤ) (d : Dom) (rows : InRows d) where
  visible_item-done :
      (index : ℤ) (e : ℕ)
      → d.by_id (item_name index) ≡ some e
      → (b : Bool) × (visible_item e d ≡ done b d)
  unfolding visible_item non_null
  visible_item-done index e named =
      let (p, q, up, upper) = rows index e named in (shown_as d q (codes "block"), ground arith)

  nav_missing :
      (fuel : ℕ) (index : ℤ)
      → d.by_id (item_name index) ≡ none
      → nav_items step (suc fuel) index d ≡ done none d
  unfolding nav_items
  nav_missing fuel index h = ground arith

  nav_visible :
      (fuel : ℕ) (index : ℤ) {e : ℕ}
      → d.by_id (item_name index) ≡ some e
      → visible_item e d ≡ done true d
      → nav_items step (suc fuel) index d ≡ done (some e) d
  unfolding nav_items
  nav_visible fuel index h v = ground arith

  nav_hidden :
      (fuel : ℕ) (index : ℤ) {e : ℕ}
      → d.by_id (item_name index) ≡ some e
      → visible_item e d ≡ done false d
      → nav_items step (suc fuel) index d ≡ nav_items step fuel (step index) d
  unfolding nav_items
  nav_hidden fuel index h v = ground arith

  -- Where some later item is missing, the loop ends before it has passed that one, and answers with
  -- the first item on the way whose row is shown; it changes nothing.
  pub nav_items-FirstVisible :
      (n fuel : ℕ) (index : ℤ)
      → d.by_id (item_name (iterate step n index)) ≡ none
      → n < fuel
      → Returns (λ r t. (t ≡ d) × FirstVisible step d index r) (nav_items step fuel index d)
  nav_items-FirstVisible n zero index gone h = absurd (omega arith)
  nav_items-FirstVisible zero (suc fuel) index gone h =
      subst (Returns _) (sym (nav_missing fuel index gone)) (refl, missing index gone)
  nav_items-FirstVisible (suc n) (suc fuel) index gone h =
      elim (Option-cases (d.by_id (item_name index))) [
        | inl none_here ↦
            subst (Returns _) (sym (nav_missing fuel index none_here))
              (refl, missing index none_here)
        | inr (e, named) ↦
            let later = nav_items-FirstVisible n fuel (step index) gone (omega arith) in
            let (b, v) = visible_item-done index e named in shown_or_not e b named v later
      ]
    where
      shown_or_not :
          (e : ℕ) (b : Bool)
          → d.by_id (item_name index) ≡ some e
          → visible_item e d ≡ done b d
          → Returns
              (λ r t. (t ≡ d) × FirstVisible step d (step index) r)
              (nav_items step fuel (step index) d)
          → Returns
              (λ r t. (t ≡ d) × FirstVisible step d index r)
              (nav_items step (suc fuel) index d)
      shown_or_not e true named v later =
          subst (Returns _) (sym (nav_visible fuel index named v)) (refl, visible index e named v)
      shown_or_not e false named v later = subst (Returns _) (sym (nav_hidden fuel index named v)) (
          Returns-mono (λ r t. (t ≡ d) × FirstVisible step d (step index) r)
            (λ r t. (t ≡ d) × FirstVisible step d index r) (nav_items step fuel (step index) d)
            (λ r t (same, first). (same, hidden_row index e r named v first)) later)
