-- ===== src/Docs/Preorder.antt =====
-- `FindChildElement` of docs/doxygen/html/search/search.js against a search of the tree of elements.

use aosv.Base.{
  ℕ, zero, suc, ◌+◌, ◌≤◌, ◌<◌, ◌≡◌, ◌≢◌, refl, sym, ap, ◌∙◌, subst, inl, inr, false, ◌&&◌, Option,
  none, some, arith, ◌==◌, Bool-cases,
}
use aosv.Kernel.Run.{done, and_then, ◌>>=◌}
use aosv.Docs.Text.{Text}
use aosv.Docs.Dom.{Dom, non_null}
use aosv.Docs.Walk.{is_div, is_children, is_some, climb, sibling_of, walk, find_child_element}
use aosv.Docs.Forest.{
  Forest, nil, node, rounds, Linked, Avoids, or_else, or_else_assoc, find_in, find_node_found,
  find_node_skip, find_node_down,
}
use aosv.Docs.Steps.{walk_found, walk_down, walk_right, walk_up, climb_root, climb_next, climb_on}

module _ (d : Dom) (root : ℕ) where
  -- Climbing from a child of `p` and walking on ends with `r`, with `n` fuel for either.
  abbrev Resumes : ℕ → Option ℕ → ℕ → Type 0
  Resumes p r n =
      (k m e : ℕ)
      → n ≤ k
      → n ≤ m
      → d.parent e ≡ some p
      → and_then ((climb k root e >>= sibling_of root) d) (walk m root) ≡ done r d

  Resumes-root : Resumes root none 1
  unfolding walk
  Resumes-root zero m e h l up = elim h [ ]
  Resumes-root (suc k) zero e h l up = elim l [ ]
  Resumes-root (suc k) (suc m) e h l up = ground (arith, climb_root d root k e up)

  -- The walk over the siblings `f` of `p`, and what comes after them.
  abbrev Finds : Forest → ℕ → Type 0
  Finds f p =
      (m n : ℕ) (o r : Option ℕ)
      → Linked d p o f
      → Resumes p r n
      → n + rounds f ≤ m
      → walk m root o d ≡ done (or_else (find_in d f) r) d

  -- From an element with nothing below it that is looked at.
  rightward :
      (rest : Forest) (e p m n : ℕ) (r : Option ℕ)
      → (rest ≢ nil → Finds rest p)
      → (e == root) ≡ false
      → is_children d e ≡ false
      → (is_div d e && is_some (d.first_child e)) ≡ false
      → d.parent e ≡ some p
      → Linked d p (d.next_sibling e) rest
      → Resumes p r n
      → n + rounds rest ≤ m
      → walk (suc m) root (some e) d ≡ done (or_else (find_in d rest) r) d
  unfolding find_in rounds
  rightward nil e p m n r ih other h leaf up right resume fuel =
      walk_up d root m e other h leaf right ∙ resume m m e (omega arith) (omega arith) up
  rightward (node c ck cr) e p m n r ih other h leaf up right resume fuel =
      walk_right d root m e other h leaf right.0
      ∙ ih node-nil m n (some c) r (refl, right.1, right.2, right.3) resume fuel
    where
      node-nil : node c ck cr ≢ nil
      node-nil q = ground arith

  -- After the children of `e` come its next siblings.
  Resumes-below :
      (rest : Forest) (e p n : ℕ) (r : Option ℕ)
      → (rest ≢ nil → Finds rest p)
      → (e == root) ≡ false
      → d.parent e ≡ some p
      → Linked d p (d.next_sibling e) rest
      → Resumes p r n
      → Resumes e (or_else (find_in d rest) r) (suc (n + rounds rest))
  unfolding find_in rounds
  Resumes-below rest e p n r ih other up right resume zero m c h l below = elim h [ ]
  Resumes-below nil e p n r ih other up right resume (suc k) m c h l below =
      ground (
        arith,
        climb_on d root k c e below other right,
        resume k m e (omega arith) (omega arith) up,
      )
  Resumes-below (node x xk xr) e p n r ih other up right resume (suc k) m c h l below = ground (
    arith,
    climb_next d root k c e below right.0,
    ih node-nil m n (some x) r (refl, right.1, right.2, right.3) resume (omega arith),
  )
    where
      node-nil : node x xk xr ≢ nil
      node-nil q = ground arith

  other_than : (e : ℕ) → e ≢ root → (e == root) ≡ false
  other_than e ne = ground arith

  -- An element without children.
  leaf :
      (rest : Forest) (e p m n : ℕ) (r : Option ℕ)
      → (rest ≢ nil → Finds rest p)
      → (e == root) ≡ false
      → d.first_child e ≡ none
      → d.parent e ≡ some p
      → Linked d p (d.next_sibling e) rest
      → Resumes p r n
      → n + rounds rest ≤ m
      → walk (suc m) root (some e) d ≡ done (or_else (find_in d (node e nil rest)) r) d
  unfolding find_in
  leaf rest e p m n r ih other below up right resume fuel = elim (Bool-cases (is_children d e)) [
    | inl h ↦ ground (arith, walk_found d root m e other h)
    | inr h ↦
        ground (arith, rightward rest e p m n r ih other h (ground arith) up right resume fuel)
  ]

  -- An element with children, of which the first is `c`.
  inner :
      (kids rest : Forest) (e c p m n : ℕ) (r : Option ℕ)
      → (rest ≢ nil → Finds rest p)
      → Finds kids e
      → (e == root) ≡ false
      → d.first_child e ≡ some c
      → d.parent e ≡ some p
      → Linked d e (some c) kids
      → Linked d p (d.next_sibling e) rest
      → Resumes p r n
      → suc (n + rounds rest) + rounds kids ≤ m
      → walk (suc m) root (some e) d ≡ done (or_else (find_in d (node e kids rest)) r) d
  inner kids rest e c p m n r ih down other first up below right resume fuel =
      elim (Bool-cases (is_children d e)) [
        | inl h ↦ walk_found d root m e other h ∙ ground (arith, find_node_found d e kids rest h)
        | inr h ↦ elim (Bool-cases (is_div d e)) [
          | inr k ↦
              rightward rest e p m n r ih other h (ground arith) up right resume (omega arith)
              ∙ ap (λ q. done (or_else q r) d) (sym (find_node_skip d e kids rest h k))
          | inl k ↦
              walk_down d root m e other h k first
              ∙ down m (suc (n + rounds rest)) (some c) (or_else (find_in d rest) r) below
                  (Resumes-below rest e p n r ih other up right resume) fuel
              ∙ ap (λ q. done q d) (sym (or_else_assoc (find_in d kids) (find_in d rest) r))
              ∙ ap (λ q. done (or_else q r) d) (sym (find_node_down d e kids rest h k))
        ]
      ]

  walk-find_in : (f : Forest) (p : ℕ) → Avoids root f → f ≢ nil → Finds f p
  unfolding rounds
  walk-find_in nil p avoids some_node m n o r linked resume fuel = absurd (some_node refl)
  walk-find_in (node e kids rest) p avoids some_node zero n o r linked resume fuel =
      absurd (omega arith)
  walk-find_in (node e nil rest) p (ne, _, ar) some_node (suc m) n o r (here, up, below, right)
        resume fuel =
      subst (λ q. walk (suc m) root q d ≡ done (or_else (find_in d (node e nil rest)) r) d)
        (sym here)
        (leaf rest e p m n r (walk-find_in rest p ar) (other_than e ne) below up right resume
          (omega arith))
  walk-find_in (node e (node c ck cr) rest) p (ne, ak, ar) some_node (suc m) n o r
        (here, up, (first, cup, cdown, cright), right) resume fuel =
      subst
        (λ q. walk (suc m) root q d ≡ done (or_else (find_in d (node e (node c ck cr) rest)) r) d)
        (sym here)
        (inner (node c ck cr) rest e c p m n r (walk-find_in rest p ar)
          (walk-find_in (node c ck cr) e ak (λ q. ground arith)) (other_than e ne) first up
          (refl, cup, cdown, cright) right resume (omega arith))

find_child_element-walk :
    (d : Dom) (id : Text) (fuel : ℕ) {root : ℕ}
    → d.by_id id ≡ some root
    → find_child_element fuel id d ≡ walk fuel root (d.first_child root) d
unfolding find_child_element non_null
find_child_element-walk d id fuel named = ground arith

or_else-none : (a : Option ℕ) → or_else a none ≡ a
or_else-none none = refl
or_else-none (some a) = refl

walk-none :
    (d : Dom) (root fuel : ℕ) (o : Option ℕ)
    → o ≡ none
    → walk (suc fuel) root o d ≡ done (find_in d nil) d
unfolding walk find_in
walk-none d root fuel o e = ground arith

walk_tree :
    (d : Dom) (root fuel : ℕ) (o : Option ℕ) (f : Forest)
    → Linked d root o f
    → Avoids root f
    → suc (rounds f) ≤ fuel
    → walk fuel root o d ≡ done (find_in d f) d
walk_tree d root zero o nil linked avoids h = absurd (omega arith)
walk_tree d root (suc fuel) o nil linked avoids h = walk-none d root fuel o linked
walk_tree d root fuel o (node e kids rest) linked avoids h =
    walk-find_in d root (node e kids rest) root avoids (λ q. ground arith) fuel 1 o none linked
      (Resumes-root d root) (omega arith)
    ∙ ap (λ q. done q d) (or_else-none (find_in d (node e kids rest)))

-- Where the pointers of the document below an element form a tree in which it does not occur itself,
-- `FindChildElement` ends within two rounds for each element and one more, and finds what a search
-- in document order finds, which looks below DIV elements only.
pub find_child_element-find_in :
    (d : Dom) (id : Text) (fuel : ℕ) (f : Forest) {root : ℕ}
    → d.by_id id ≡ some root
    → Linked d root (d.first_child root) f
    → Avoids root f
    → rounds f < fuel
    → find_child_element fuel id d ≡ done (find_in d f) d
find_child_element-find_in d id fuel f {root} named linked avoids h =
    find_child_element-walk d id fuel named
    ∙ walk_tree d root fuel (d.first_child root) f linked avoids h
