-- ===== src/Docs/Widths.antt =====
-- docs/doxygen/html/resize.js: when the navigation is collapsed, how wide it is, and the cookie.
use aosv.Base.{
  ℕ, ◌+◌, ◌≤◌, ◌<◌, ◌≡◌, ◌⊎◌, inl, inr, refl, sym, ap, ◌∙◌, subst, Bool, true, false, ◌&&◌, not,
  Option, none, some, arith, Bool-cases, leb, ltb, ◌==◌, if◌then◌else◌,
}
use aosv.Base.Atomic.{ℤ, pos}
use aosv.Docs.Text.{◌-ℤ◌}
use aosv.Docs.Resize.{
  Panes, Screen, restore_width, desktop_vp, saved_width, fitting, collapse_expand, follow_width,
  resize_height,
}

-- The variable tells whether there is a navigation to see.
abbrev pub Consistent : Panes → Type 0
Consistent p = p.collapsed ≡ (p.sidenav_width == 0)

module _ (S : Screen) where
  -- A width that the navigation can have, next to the content.
  abbrev pub Fits : Panes → Type 0
  Fits p =
      (p.content_margin ≡ p.sidenav_width + p.bar_width)
      × ((p.sidenav_width ≡ 0)
          ⊎ ((200 ≤ p.sidenav_width)
              × ((p.sidenav_width ≡ 200) ⊎ (p.sidenav_width < S.window_width))))

  fitting_bounds :
      (n : Option ℕ) → (200 ≤ fitting S n) × ((fitting S n ≡ 200) ⊎ (fitting S n < S.window_width))
  fitting_bounds none = (ground arith, inl refl)
  fitting_bounds (some n) = elim (Bool-cases (ltb 200 n && ltb n S.window_width)) [
    | inl h ↦ (ground arith, inr (ground arith))
    | inr h ↦ (ground arith, inl (ground arith))
  ]

  collapse_lem :
      (p : Panes)
      → ltb 0 p.sidenav_width ≡ true
      → collapse_expand S p ≡ record (restore_width 0 p) { collapsed = true }
  unfolding collapse_expand
  collapse_lem p h = rw (h, collapse_expand) refl

  expand_lem :
      (p : Panes)
      → ltb 0 p.sidenav_width ≡ false
      → collapse_expand S p
        ≡ record (restore_width (fitting S (saved_width S p)) p) { collapsed = false }
  unfolding collapse_expand
  expand_lem p h = rw (h, collapse_expand) refl

  -- `collapseExpand` sets the variable and the width together, turns the state over, and gives a width
  -- of 0, of 200, or between 200 and the window's, to which the content's margin is fitted.
  pub collapse_expand-Fits :
      (p : Panes)
      → Consistent (collapse_expand S p)
        × ((collapse_expand S p).collapsed ≡ ltb 0 p.sidenav_width)
        × Fits (collapse_expand S p)
  unfolding restore_width
  collapse_expand-Fits p = elim (Bool-cases (ltb 0 p.sidenav_width)) [
    | inl h ↦ rw (collapse_lem p h, h) (refl, refl, (omega arith, inl refl))
    | inr h ↦
        let (low, high) = fitting_bounds (saved_width S p) in
        rw (expand_lem p h, h) (ground arith, refl, (refl, inr (low, high)))
  ]

  -- Whether the navigation is collapsed after a change of the window's size.
  abbrev pub collapsed_after : Panes → Bool
  collapsed_after p =
      if ltb S.window_width desktop_vp && leb desktop_vp p.collapsed_width
      then true
      else if ltb desktop_vp S.window_width && ltb p.collapsed_width desktop_vp
      then false
      else p.collapsed

  -- What `resizeHeight` does with the width.
  abbrev pub Followed : Panes → Panes → Type 0
  Followed p t = Consistent t × (t.collapsed ≡ collapsed_after p) × (t.jar ≡ p.jar)

  collapse_expand-jar : (p : Panes) → (collapse_expand S p).jar ≡ p.jar
  unfolding collapse_expand restore_width
  collapse_expand-jar p = elim (Bool-cases (ltb 0 p.sidenav_width)) [
    | inl h ↦ ap (λ (t : Panes). t.jar) (collapse_lem p h)
    | inr h ↦ ap (λ (t : Panes). t.jar) (expand_lem p h)
  ]

  -- The two ways to follow the width.
  abbrev turned : Bool → Panes → Panes
  turned true p = if p.collapsed then p else collapse_expand S p
  turned false p = if p.collapsed then collapse_expand S p else p

  abbrev Turned : Bool → Panes → Panes → Type 0
  Turned to p t = Consistent t × (t.collapsed ≡ to) × (t.jar ≡ p.jar)

  collapse_expand-Turned :
      (p : Panes) (to : Bool)
      → Consistent p
      → p.collapsed ≡ not to
      → Turned to p (collapse_expand S p)
  collapse_expand-Turned p to c h =
      let (same, state, _) = collapse_expand-Fits p in
      (same, state ∙ turns to h, collapse_expand-jar p)
    where
      turns : (b : Bool) → p.collapsed ≡ not b → ltb 0 p.sidenav_width ≡ b
      turns true h = ground arith
      turns false h = ground arith

  turned-Turned : (to : Bool) (p : Panes) → Consistent p → Turned to p (turned to p)
  turned-Turned true p c = elim (Bool-cases p.collapsed) [
    | inl h ↦ subst (λ b. Turned true p (if b then p else collapse_expand S p)) (sym h) (c, h, refl)
    | inr h ↦
        subst (λ b. Turned true p (if b then p else collapse_expand S p)) (sym h)
          (collapse_expand-Turned p true c h)
  ]
  turned-Turned false p c = elim (Bool-cases p.collapsed) [
    | inl h ↦
        subst (λ b. Turned false p (if b then collapse_expand S p else p)) (sym h)
          (collapse_expand-Turned p false c h)
    | inr h ↦
        subst (λ b. Turned false p (if b then collapse_expand S p else p)) (sym h) (c, h, refl)
  ]

  follow_width-Followed : (p : Panes) → Consistent p → Followed p (follow_width S p)
  unfolding follow_width
  follow_width-Followed p c =
      elim (Bool-cases (ltb S.window_width desktop_vp && leb desktop_vp p.collapsed_width)) [
        | inl h ↦ rw (h, follow_width) (turned-Turned true p c)
        | inr h ↦
            elim (Bool-cases (ltb desktop_vp S.window_width && ltb p.collapsed_width desktop_vp)) [
              | inl k ↦ rw (h, k, follow_width) (turned-Turned false p c)
              | inr k ↦ rw (h, k, follow_width) (c, refl, refl)
            ]
      ]

  -- The height that is left between the header and the footer.
  abbrev pane_height_of : ℤ
  pane_height_of = (pos S.window_height -ℤ pos S.header_height) -ℤ pos S.footer_height

  resize_same :
      (p : Panes)
      → (S.window_width == p.collapsed_width) ≡ true
      → resize_height S p ≡ record p { pane_height = pane_height_of }
  unfolding resize_height
  resize_same p h = rw (h, resize_height) refl

  resize_other :
      (p : Panes)
      → (S.window_width == p.collapsed_width) ≡ false
      → resize_height S p ≡ record (follow_width S (record p { pane_height = pane_height_of })) {
        collapsed_width = S.window_width;
      }
  unfolding resize_height
  resize_other p h = rw (h, resize_height) refl

  -- Where the variable tells whether there is a navigation, it does after `resizeHeight`; the
  -- navigation is then collapsed if the window has become narrower than 768 from 768 or more, open if
  -- it has become wider than 768 from less than 768, and else as before. The width of the window is remembered, and the cookies stay.
  pub resize_height-Followed :
      (p : Panes)
      → Consistent p
      → Followed p (resize_height S p) × ((resize_height S p).collapsed_width ≡ S.window_width)
  resize_height-Followed p c = elim (Bool-cases (S.window_width == p.collapsed_width)) [
    | inl h ↦ rw (resize_same p h) ((c, ground arith, refl), ground arith)
    | inr h ↦
        rw (resize_other p h)
          (follow_width-Followed (record p { pane_height = pane_height_of }) c, refl)
  ]

-- A navigation that is collapsed, while the variable says so, in a window narrower than 768 stays
-- collapsed when `resizeHeight` runs at the width 768 and then at a larger one.
pub resize_height-through_768 :
    (S T : Screen) (p : Panes)
    → Consistent p
    → p.collapsed ≡ true
    → p.collapsed_width < 768
    → S.window_width ≡ 768
    → 768 < T.window_width
    → (resize_height T (resize_height S p)).collapsed ≡ true
resize_height-through_768 S T p c h narrow same wide =
    let ((d, k, _), w) = resize_height-Followed S p c in
    let ((_, l, _), _) = resize_height-Followed T (resize_height S p) d in l ∙ ground arith
