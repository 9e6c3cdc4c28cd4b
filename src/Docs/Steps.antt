-- ===== src/Docs/Steps.antt =====
-- The steps of the walk of `FindChildElement` in docs/doxygen/html/search/search.js.
use aosv.Base.{ℕ, suc, ◌≡◌, true, false, ◌&&◌, none, some, arith, ◌==◌}
use aosv.Kernel.Run.{done, and_then, ◌>>=◌}
use aosv.Docs.Dom.{Dom}
use aosv.Docs.Walk.{is_div, is_children, is_some, climb, sibling_of, advance, walk}

module _ (d : Dom) (root : ℕ) where
  module _ (m e : ℕ) (other : (e == root) ≡ false) where
    pub walk_found : is_children d e ≡ true → walk (suc m) root (some e) d ≡ done (some e) d
    unfolding walk
    walk_found h = ground arith

    module _ (h : is_children d e ≡ false) where
      pub walk_down :
          {c : ℕ}
          → is_div d e ≡ true
          → d.first_child e ≡ some c
          → walk (suc m) root (some e) d ≡ walk m root (some c) d
      unfolding walk advance
      walk_down div first = ground arith

      pub walk_right :
          {c : ℕ}
          → (is_div d e && is_some (d.first_child e)) ≡ false
          → d.next_sibling e ≡ some c
          → walk (suc m) root (some e) d ≡ walk m root (some c) d
      unfolding walk advance
      walk_right leaf next = ground arith

      pub walk_up :
          (is_div d e && is_some (d.first_child e)) ≡ false
          → d.next_sibling e ≡ none
          → walk (suc m) root (some e) d
            ≡ and_then ((climb m root e >>= sibling_of root) d) (walk m root)
      unfolding walk advance
      walk_up leaf last = ground arith

  pub climb_root : (k e : ℕ) → d.parent e ≡ some root → climb (suc k) root e d ≡ done (some root) d
  unfolding climb
  climb_root k e up = ground arith

  pub climb_next :
      (k e p : ℕ) {c : ℕ}
      → d.parent e ≡ some p
      → d.next_sibling p ≡ some c
      → climb (suc k) root e d ≡ done (some p) d
  unfolding climb
  climb_next k e p up next = ground arith

  pub climb_on :
      (k e p : ℕ)
      → d.parent e ≡ some p
      → (p == root) ≡ false
      → d.next_sibling p ≡ none
      → climb (suc k) root e d ≡ climb k root p d
  unfolding climb
  climb_on k e p up other last = ground arith
