-- ===== src/Docs/Forest.antt =====
-- The elements below an element as a tree, and a search of it.
use aosv.Base.{ℕ, suc, ◌+◌, ◌≡◌, ◌≢◌, refl, true, false, Option, none, some, arith, if◌then◌else◌}
use aosv.Docs.Dom.{Dom}
use aosv.Docs.Walk.{is_div, is_children}

-- An element, its children, and its next siblings.
pub data Forest : Type 0 where
  nil : Forest
  node : ℕ → Forest → Forest → Forest

-- Two rounds for each element are enough.
unfoldable pub rounds : Forest → ℕ
rounds nil = 0
rounds (node e kids rest) = suc (suc (rounds kids + rounds rest))

-- The pointers of the document lead from `o` through these children of `p`.
abbrev pub Linked : Dom → ℕ → Option ℕ → Forest → Type 0
Linked d p o nil = o ≡ none
Linked d p o (node e kids rest) =
    (o ≡ some e)
    × (d.parent e ≡ some p)
    × Linked d e (d.first_child e) kids
    × Linked d p (d.next_sibling e) rest

abbrev pub Avoids : ℕ → Forest → Type 0
Avoids root nil = Unit
Avoids root (node e kids rest) = (e ≢ root) × Avoids root kids × Avoids root rest

abbrev pub or_else : Option ℕ → Option ℕ → Option ℕ
or_else none r = r
or_else (some e) r = some e

-- The first DIV of class SRChildren in document order, below DIV elements only.
unfoldable pub find_in : Dom → Forest → Option ℕ
find_in d nil = none
find_in d (node e kids rest) =
    if is_children d e
    then some e
    else if is_div d e
    then or_else (find_in d kids) (find_in d rest)
    else find_in d rest

pub or_else_assoc : (a b r : Option ℕ) → or_else (or_else a b) r ≡ or_else a (or_else b r)
or_else_assoc none b r = refl
or_else_assoc (some a) b r = refl

module _ (d : Dom) (e : ℕ) (kids rest : Forest) where
  pub find_node_found : is_children d e ≡ true → find_in d (node e kids rest) ≡ some e
  unfolding find_in
  find_node_found h = ground arith

  pub find_node_skip :
      is_children d e ≡ false → is_div d e ≡ false → find_in d (node e kids rest) ≡ find_in d rest
  unfolding find_in
  find_node_skip h k = ground arith

  pub find_node_down :
      is_children d e ≡ false
      → is_div d e ≡ true
      → find_in d (node e kids rest) ≡ or_else (find_in d kids) (find_in d rest)
  unfolding find_in
  find_node_down h k = ground arith
