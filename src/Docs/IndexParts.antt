-- ===== src/Docs/IndexParts.antt =====
-- The part of the index that `navTo` of docs/doxygen/html/navtree.js uses.
use mathlib.Core.Bool.{false≢true}
use aosv.Base.{
  ℕ, suc, ◌≡◌, refl, sym, ◌∙◌, inl, inr, true, false, List, [], ◌∷◌, arith, Bool-cases,
  if◌then◌else◌,
}
use aosv.Docs.Text.{Text}
use aosv.Docs.Sync.{text_leb, count_below}

text_leb_trans : (s t u : Text) → text_leb s t ≡ true → text_leb t u ≡ true → text_leb s u ≡ true
unfolding text_leb
text_leb_trans [] t u h k = refl
text_leb_trans (x ∷ s) [] u h k = ground arith
text_leb_trans (x ∷ s) (y ∷ t) [] h k = ground arith
text_leb_trans (x ∷ s) (y ∷ t) (z ∷ u) h k = ground (arith, text_leb_trans s t u)

-- In ascending order.
abbrev pub Ascending : List Text → Type 0
Ascending [] = Unit
Ascending (x ∷ []) = Unit
Ascending (x ∷ y ∷ l) = (text_leb x y ≡ true) × Ascending (y ∷ l)

-- The number of all entries up to the address.
unfoldable pub count_all : List Text → Text → ℕ
count_all [] url = 0
count_all (x ∷ rest) url =
    let others = count_all rest url in if text_leb x url then suc others else others

-- Behind an entry that is greater, all are.
count_all-greater :
    (x : Text) (l : List Text) (url : Text)
    → Ascending (x ∷ l)
    → text_leb x url ≡ false
    → count_all l url ≡ 0
unfolding count_all
count_all-greater x [] url a h = refl
count_all-greater x (y ∷ l) url (le, a) h = elim (Bool-cases (text_leb y url)) [
  | inl k ↦ absurd (false≢true (sym h ∙ text_leb_trans x y url le k))
  | inr k ↦ ground (arith, count_all-greater y l url a k)
]

-- In an index in ascending order, the loop of `navTo` passes all entries up to the address, though it
-- stops at the first that is greater.
count_below-count_all :
    (l : List Text) (url : Text) → Ascending l → count_below l url ≡ count_all l url
unfolding count_below count_all
count_below-count_all [] url a = refl
count_below-count_all (x ∷ l) url a = elim (Bool-cases (text_leb x url)) [
  | inl h ↦ ground (arith, count_below-count_all l url (later l a))
  | inr h ↦ ground (arith, count_all-greater x l url a h)
]
  where
    later : (m : List Text) → Ascending (x ∷ m) → Ascending m
    later [] a = tt
    later (y ∷ m) (_, a) = a
