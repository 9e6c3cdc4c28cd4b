-- ===== src/Docs/Found.antt =====
-- The classes that `newNode` of docs/doxygen/html/navtree.js gives to links, and those that
-- `selectAndHighlight` looks for.
use aosv.Base.{
  ℕ, ◌≡◌, ◌≢◌, refl, sym, ap, ◌∙◌, subst, Bool, true, false, map, List, [], ◌∷◌, ◌++◌, none, All,
  arith, if◌then◌else◌,
}
use aosv.Base.Text.{same_text_refl}
use aosv.Docs.Text.{Text}
use aosv.Docs.Links.{last_slash, strip_path, path_name, colon_for_hash, split_link, node_link}
use aosv.Docs.Highlight.{ends_with, sought, any, select_and_highlight}

abbrev Without : ℕ → Text → Type 0
Without i s = All (λ c. c ≢ i) s

colon_for_hash-append :
    (page anchor : Text)
    → Without b'#' page
    → colon_for_hash (page ++ (b'#' ∷ anchor)) ≡ page ++ (b':' ∷ anchor)
unfolding colon_for_hash
colon_for_hash-append [] anchor u = refl
colon_for_hash-append (c ∷ page) anchor (ne, u) =
    ground (arith, colon_for_hash-append page anchor u)

last_slash-Without : (s : Text) → Without b'/' s → last_slash s ≡ none
unfolding last_slash
last_slash-Without [] u = refl
last_slash-Without (c ∷ s) (ne, u) = ground (arith, last_slash-Without s u)

strip_path-Without : (s : Text) → Without b'/' s → strip_path s ≡ s
unfolding strip_path
strip_path-Without s u = ground (arith, last_slash-Without s u)

Without-append : (i : ℕ) (s t : Text) → Without i s → Without i t → Without i (s ++ t)
Without-append i [] t u v = v
Without-append i (c ∷ s) t (ne, u) v = (ne, Without-append i s t u v)

class_name_lem :
    (relpath pathname given : Text)
    → (node_link relpath pathname given).class_name
      ≡ strip_path (colon_for_hash (split_link relpath given).1)
unfolding node_link
class_name_lem relpath pathname given = ground arith

split_link_own :
    (relpath : Text) (c : ℕ) (s : Text)
    → c ≢ b'^'
    → split_link relpath (c ∷ s) ≡ (relpath ++ (c ∷ s), c ∷ s)
split_link_own relpath c s other = ground (arith, other)

node_link-class_name :
    (relpath pathname : Text) (c : ℕ) (page anchor : Text)
    → c ≢ b'^'
    → Without b'#' (c ∷ page)
    → Without b'/' (c ∷ page)
    → Without b'/' anchor
    → (node_link relpath pathname (c ∷ (page ++ (b'#' ∷ anchor)))).class_name
      ≡ c ∷ (page ++ (b':' ∷ anchor))
node_link-class_name relpath pathname c page anchor other no_hash no_slash plain =
    class_name_lem relpath pathname (c ∷ (page ++ (b'#' ∷ anchor)))
    ∙ ap (λ l. strip_path (colon_for_hash l.1))
        (split_link_own relpath c (page ++ (b'#' ∷ anchor)) other)
    ∙ ap strip_path (colon_for_hash-append (c ∷ page) anchor no_hash)
    ∙ strip_path-Without (c ∷ (page ++ (b':' ∷ anchor)))
        (Without-append b'/' (c ∷ page) (b':' ∷ anchor) no_slash (λ q. omega arith, plain))

ends_with_refl : (s : Text) → ends_with s s ≡ true
unfolding ends_with
ends_with_refl [] = same_text_refl []
ends_with_refl (c ∷ s) = ground (arith, same_text_refl (c ∷ s))

any_middle : (before behind : List Bool) → any (before ++ (true ∷ behind)) ≡ true
any_middle [] behind = refl
any_middle (true ∷ before) behind = refl
any_middle (false ∷ before) behind = any_middle before behind

map-append : (f : Text → Bool) (a b : List Text) → map f (a ++ b) ≡ map f a ++ map f b
map-append f [] b = refl
map-append f (x ∷ a) b = ap (λ t. f x ∷ t) (map-append f a b)

select_middle :
    (before behind : List Text) (name pathname : Text) (has_node : Bool) (h : ℕ) (hash : Text)
    → ends_with (sought pathname (h ∷ hash)) name ≡ true
    → select_and_highlight (before ++ (name ∷ behind)) pathname (h ∷ hash) has_node ≡ (
      map (ends_with (sought pathname (h ∷ hash))) before
          ++ (true ∷ map (ends_with (sought pathname (h ∷ hash))) behind),
      false,
    )
unfolding select_and_highlight
select_middle before behind name pathname has_node h hash fits =
    let f = ends_with (sought pathname (h ∷ hash)) in
    let found : map f (before ++ (name ∷ behind)) ≡ map f before ++ (true ∷ map f behind) =
      map-append f before (name ∷ behind) ∙ ap (λ b. map f before ++ (b ∷ map f behind)) fits in
    ap (λ l. if any l then (l, false) else (l, has_node)) found
    ∙ ap
        (λ b.
          if b
          then (map f before ++ (true ∷ map f behind), false)
          else (map f before ++ (true ∷ map f behind), has_node))
        (any_middle (map f before) (map f behind))

-- An entry with a link to an anchor, whose address has no further '#' or '/' and does not start with '^':
-- on the page of that address, with the anchor as its hash, the item of the entry is selected, wherever
-- it stands among the items, and the item of the node is not selected in its place.
pub select_and_highlight-node_link :
    (before behind : List Text) (relpath at pathname : Text) (has_node : Bool) (c : ℕ)
    (page anchor : Text)
    → c ≢ b'^'
    → Without b'#' (c ∷ page)
    → Without b'/' (c ∷ page)
    → Without b'/' anchor
    → strip_path (path_name pathname) ≡ c ∷ page
    → select_and_highlight
        (before ++ ((node_link relpath at (c ∷ (page ++ (b'#' ∷ anchor)))).class_name ∷ behind))
        pathname
        (b'#' ∷ anchor)
        has_node
      ≡ (
        map (ends_with (sought pathname (b'#' ∷ anchor))) before
            ++ (true ∷ map (ends_with (sought pathname (b'#' ∷ anchor))) behind),
        false,
      )
select_and_highlight-node_link before behind relpath at pathname has_node c page anchor other
      no_hash no_slash plain here =
    let name = (node_link relpath at (c ∷ (page ++ (b'#' ∷ anchor)))).class_name in
    let same : sought pathname (b'#' ∷ anchor) ≡ name =
      ap (λ t. t ++ (b':' ∷ anchor)) here
      ∙ sym (node_link-class_name relpath at c page anchor other no_hash no_slash plain) in
    select_middle before behind name pathname has_node b'#' anchor
      (subst (λ t. ends_with t name ≡ true) (sym same) (ends_with_refl name))
