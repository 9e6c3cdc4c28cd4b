-- ===== src/Docs/Folders.antt =====
-- docs/doxygen/html/dynsections.js, over an interface of jquery.js with the calls that it makes.
use aosv.Base.{
  ℕ, suc, ◌+◌, ◌-◌, Bool, true, false, ◌&&◌, ◌||◌, map, List, [], ◌∷◌, ◌++◌, none, some, leb, ltb,
  ◌==◌, if◌then◌else◌, length, take, drop,
}
use aosv.Base.Text.{codes, starts_with, same_text}
use aosv.Kernel.Run.{done, fault, M, pure, ◌>>◌}
use aosv.Docs.Match.{is_digit, after_digits}
use aosv.Docs.Text.{Text}

-- Elements are numbers, `S` is the document. A selector gives the elements in document order.
pub record JQuery (S : Type 0) : Type 0 where
  pub select : Text → S → List ℕ
  -- nextAll("tr"); find("span") with a class
  pub next_rows : ℕ → S → List ℕ
  pub spans : ℕ → Text → S → List ℕ
  pub id : ℕ → S → Text
  pub src : ℕ → S → Text
  pub is_visible : ℕ → S → Bool
  pub show : ℕ → S → S
  pub hide : ℕ → S → S
  -- css('display', v)
  pub set_display : ℕ → Text → S → S
  pub set_src : ℕ → Text → S → S
  pub html : ℕ → Text → S → S
  pub add_class : ℕ → Text → S → S
  pub remove_class : ℕ → Text → S → S

-- A call on all elements of a selection.
unfoldable pub each {ℓ} : {S : Type ℓ} → (ℕ → S → S) → List ℕ → S → S
each f [] s = s
each f (e ∷ rest) s = each f rest (f e s)

-- `this.id.split('_').length-1`
unfoldable pub count_underscores : Text → ℕ
count_underscores [] = 0
count_underscores (c ∷ s) = let rest = count_underscores s in if c == b'_' then suc rest else rest

-- The elements at the places 0, 2, 4, …
unfoldable mutual
  pub at_even : List ℕ → List ℕ
  at_even [] = []
  at_even (e ∷ rest) = e ∷ at_odd rest

  pub at_odd : List ℕ → List ℕ
  at_odd [] = []
  at_odd (e ∷ rest) = at_even rest

unfoldable pub keep {ℓ} : {A : Type ℓ} → (A → Bool) → List A → List A
keep p [] = []
keep p (x ∷ rest) = let others = keep p rest in if p x then x ∷ others else others

-- `s.substring(0, s.length-n)`
abbrev pub without_end : ℕ → Text → Text
without_end n s = take (length s - n) s

-- `^\d+_$`
unfoldable pub one_number : Text → Bool
unfolding after_digits
one_number [] = false
one_number (c ∷ s) = elim (after_digits (c ∷ s)) [
  | none ↦ false
  | some rest ↦ is_digit c && same_text rest []
]

-- A regular expression with the flag "i" does not tell the case of letters.
abbrev pub fold_case : Text → Text
fold_case s = map (λ c. if leb b'A' c && leb c b'Z' then c + 32 else c) s

-- `id.match(new RegExp('^row_'+folder+'\\d+_$', "i"))`
unfoldable pub is_child_of : Text → Text → Bool
unfolding one_number
is_child_of folder id =
    starts_with (fold_case (codes "row_" ++ folder)) (fold_case id)
    && one_number (drop (length (codes "row_" ++ folder)) id)

module _ {S : Type 0} (Q : JQuery S) where
  abbrev pub any_visible : List ℕ → S → Bool
  any_visible [] s = false
  any_visible (e ∷ rest) s = Q.is_visible e s || any_visible rest s

  -- `x.filter(':first').is(':visible')`
  abbrev pub first_visible : List ℕ → S → Bool
  first_visible [] s = false
  first_visible (e ∷ _) s = Q.is_visible e s

  -- `x.attr('src')`, of which a method is called; the new source is set on all of `x`.
  unfoldable pub change_src : List ℕ → Text → Text → M S (Unit {0})
  change_src [] src new s = fault
  change_src (e ∷ rest) src new s = done tt (each (λ i. Q.set_src i (src ++ new)) (e ∷ rest) s)

  -- `x.attr('src')` of the first element; none is `undefined`.
  abbrev pub src_of : List ℕ → S → Text
  src_of [] s = []
  src_of (e ∷ _) s = Q.src e s

  unfoldable pub toggle_visibility : ℕ → M S Bool
  unfolding each change_src
  toggle_visibility link s =
      let base = Q.id link s in
      let summary = Q.select (b'#' ∷ (base ++ codes "-summary")) s in
      let content = Q.select (b'#' ∷ (base ++ codes "-content")) s in
      let trigger = Q.select (b'#' ∷ (base ++ codes "-trigger")) s in
      let src = src_of trigger s in
      elim (any_visible content s) [
        | true ↦
            (do change_src trigger (without_end 8 src) (codes "closed.png"); pure false)
              (Q.remove_class link (codes "opened")
                (Q.add_class link (codes "closed") (each Q.show summary (each Q.hide content s))))
        | false ↦
            (do change_src trigger (without_end 10 src) (codes "open.png"); pure false)
              (Q.add_class link (codes "opened") (
                Q.remove_class link (codes "closed") (each Q.hide summary (each Q.show content s))))
      ]

  abbrev pub directory_rows : S → List ℕ
  directory_rows s = Q.select (codes "table.directory tr") s

  abbrev pub even : Text
  even = codes "even"

  unfoldable pub update_stripes : S → S
  unfolding each at_even keep
  update_stripes s =
      let rows = directory_rows s in
      let t = each (λ r. Q.remove_class r even) rows s in
      each (λ r. Q.add_class r even) (at_even (keep (λ r. Q.is_visible r t) rows)) t

  -- The icon and the arrow of a row, named by what is behind "row".
  abbrev pub parts_of : Text → Text → S → List ℕ
  parts_of prefix id s = Q.select (b'#' ∷ (prefix ++ drop 3 id)) s

  abbrev pub open_icon : Text
  open_icon = codes "iconfopen"

  abbrev pub closed_icon : Text
  closed_icon = codes "iconfclosed"

  -- `removeClass('iconfopen iconfclosed').addClass(name)`, and the arrow
  unfoldable pub mark_row : Text → Text → Text → S → S
  unfolding each
  mark_row id icon arrow s =
      let icons = parts_of (codes "img") id s in
      let arrows = parts_of (codes "arr") id s in
      each (λ a. Q.html a arrow) arrows
        (each
          (λ i t. Q.add_class i icon (Q.remove_class i closed_icon (Q.remove_class i open_icon t)))
          icons s)

  -- The depth of a row is the number of bars in its name, less one.
  unfoldable pub set_level : ℕ → ℕ → S → S
  unfolding mark_row count_underscores
  set_level level row s =
      let id = Q.id row s in
      let depth = count_underscores id in
      elim (ltb depth (level + 1)) [
        | true ↦ Q.show row (mark_row id open_icon (codes "&#9660;") s)
        | false ↦ elim (depth == level + 1) [
          | true ↦ Q.show row (mark_row id closed_icon (codes "&#9658;") s)
          | false ↦ Q.hide row s
        ]
      ]

  unfoldable pub toggle_level : ℕ → S → S
  unfolding set_level update_stripes
  toggle_level level s = update_stripes (each (set_level level) (directory_rows s) s)

  -- The spans of a row: its icon from one class to the other, and its arrow.
  unfoldable pub turn_row : Text → Text → Text → ℕ → S → S
  turn_row from to arrow row s =
      each (λ a. Q.html a arrow) (Q.spans row (codes "arrow") s)
        (each (λ i t. Q.add_class i to (Q.remove_class i from t)) (Q.spans row from s) s)

  abbrev pub rows_after : List ℕ → S → List ℕ
  rows_after [] s = []
  rows_after (e ∷ _) s = Q.next_rows e s

  unfoldable pub hide_folder : Text → List ℕ → List ℕ → S → S
  unfolding turn_row
  hide_folder folder current rows s =
      let t = each (turn_row open_icon closed_icon (codes "&#9658;")) current s in
      each Q.hide (keep (λ r. starts_with (codes "row_" ++ folder) (Q.id r t)) rows) t

  unfoldable pub show_folder : List ℕ → List ℕ → S → S
  unfolding turn_row
  show_folder current children s = each Q.show children (
      each (turn_row open_icon closed_icon (codes "&#9658;")) children
        (each (turn_row closed_icon open_icon (codes "&#9660;")) current s))

  unfoldable pub toggle_folder : Text → S → S
  unfolding hide_folder show_folder update_stripes is_child_of
  toggle_folder folder s =
      let current = Q.select (codes "#row_" ++ folder) s in
      let rows = rows_after current s in
      let children = keep (λ r. is_child_of folder (Q.id r s)) rows in
      update_stripes (elim (first_visible children s) [
        | true ↦ hide_folder folder current rows s
        | false ↦ show_folder current children s
      ])

  unfoldable pub toggle_inherit : Text → M S (Unit {0})
  unfolding each change_src
  toggle_inherit id s =
      let rows = Q.select (codes "tr.inherit." ++ id) s in
      let img = Q.select (codes "tr.inherit_header." ++ (id ++ codes " img")) s in
      let src = src_of img s in
      elim (first_visible rows s) [
        | true ↦
            change_src img (without_end 8 src) (codes "closed.png")
              (each (λ r. Q.set_display r (codes "none")) rows s)
        | false ↦
            change_src img (without_end 10 src) (codes "open.png")
              (each (λ r. Q.set_display r (codes "table-row")) rows s)
      ]
