-- ===== src/Docs/FolderNames.antt =====
-- The rows that `toggleFolder` of docs/doxygen/html/dynsections.js takes for the children of a folder.
use aosv.Base.{
  ℕ, ◌+◌, ◌≡◌, refl, ap, ap₂, ◌∙◌, true, ◌&&◌, [], ◌∷◌, ◌++◌, some, arith, leb, if◌then◌else◌,
  drop-append, All,
}
use aosv.Base.Text.{codes, same_text, starts_with, starts_with_append}
use aosv.Docs.Text.{Text}
use aosv.Docs.Match.{is_digit, after_digits}
use aosv.Docs.Folders.{one_number, fold_case, is_child_of}

abbrev pub Digits : Text → Type 0
Digits s = All (λ c. is_digit c ≡ true) s

after_digits_bar : (n rest : Text) → Digits n → after_digits (n ++ (b'_' ∷ rest)) ≡ some rest
unfolding after_digits
after_digits_bar [] rest u = ground arith
after_digits_bar (c ∷ n) rest (h, u) = ground (arith, after_digits_bar n rest u)

one_number-Digits :
    (d : ℕ) (n rest : Text)
    → is_digit d ≡ true
    → Digits n
    → one_number (d ∷ (n ++ (b'_' ∷ rest))) ≡ same_text rest []
unfolding one_number
one_number-Digits d n rest h u = ground (arith, after_digits_bar (d ∷ n) rest (h, u))

fold_case-append : (s t : Text) → fold_case (s ++ t) ≡ fold_case s ++ fold_case t
fold_case-append [] t = refl
fold_case-append (c ∷ s) t =
    ap (λ (r : Text). (if leb b'A' c && leb c b'Z' then c + 32 else c) ∷ r) (fold_case-append s t)

-- A row named "row_", the folder, one number, and a rest: it is a child exactly if there is no rest,
-- so a child of a child is none.
is_child_of-same_text :
    (folder : Text) (d : ℕ) (n rest : Text)
    → is_digit d ≡ true
    → Digits n
    → is_child_of folder (codes "row_" ++ (folder ++ (d ∷ (n ++ (b'_' ∷ rest)))))
      ≡ same_text rest []
unfolding is_child_of
is_child_of-same_text folder d n rest h u =
    ap₂ (λ a b. a && b)
      (ap (starts_with (fold_case key)) (fold_case-append key value)
        ∙ starts_with_append (fold_case key) (fold_case value))
      (ap one_number (drop-append key value) ∙ one_number-Digits d n rest h u)
  where
    key : Text
    key = codes "row_" ++ folder

    value : Text
    value = d ∷ (n ++ (b'_' ∷ rest))
