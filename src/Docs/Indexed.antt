-- ===== src/Docs/Indexed.antt =====
-- `navTo` and `gotoNode` of docs/doxygen/html/navtree.js on the data of navtreedata.js and
-- navtreeindex0.js.
use aosv.Base.{
  ℕ, ◌≡◌, ◌⊎◌, refl, sym, subst, inl, inr, Bool, true, false, ◌&&◌, ◌||◌, List, [], ◌∷◌, ◌++◌,
  Option, none, some, arith, Bool-cases,
}
use aosv.Base.Text.{codes, same_text, same_text_sound}
use aosv.Docs.Text.{Text}
use aosv.Docs.Sync.{Sync, text_leb, chosen, cached_link, is_line, count_below, nav_to}
use aosv.Docs.Navigate.{first_link, goto_target, navigate}
use aosv.Docs.Tree.{
  Node, show_node, goto_node, breadcrumbs, init_node, expand_node, new_nodes, node_at, put_at,
  show_last,
}
use aosv.Docs.Links.{data_name, strip_path, last_slash}
use aosv.Docs.TreeData.Root.{navtree, navtreeindex}
use aosv.Docs.TreeData.IndexStart.{navtreeindex0_start}
use aosv.Docs.TreeData.IndexRest.{navtreeindex0_rest}
use aosv.Docs.TreeData.Variables.{lookup, variables, navtreeindex0, sub_indices}

-- `showNode` ends without an error and hands the entry with this link to `selectAndHighlight`.
abbrev pub Selects : Text → Option (Node × Option Text) → Type 0
Selects url none = ⊥
Selects url (some (n, none)) = ⊥
Selects url (some (n, some link)) = link ≡ url

selects : Text → Option (Node × Option Text) → Bool
selects url none = false
selects url (some (n, none)) = false
selects url (some (n, some link)) = same_text link url

selects-Selects :
    (url : Text) (r : Option (Node × Option Text)) → selects url r ≡ true → Selects url r
unfolding selects
selects-Selects url none h = ground arith
selects-Selects url (some (n, none)) h = ground arith
selects-Selects url (some (n, some link)) h = same_text_sound link url h

-- The address that the index leads to the root of the tree, which has another link.
abbrev pub pages_html : Text
pages_html = codes "pages.html"

shown : Bool → List ℕ → Option (Node × Option Text)
shown start_page crumbs = show_node variables start_page 0 crumbs (init_node navtree)

leads_to : Text → List ℕ → Bool
unfolding selects shown
leads_to url crumbs =
    same_text url pages_html
    || (selects url (shown false crumbs) && selects url (shown true crumbs))

all_pairs : (Text → List ℕ → Bool) → List (Text × List ℕ) → Bool
all_pairs test [] = true
all_pairs test ((url, crumbs) ∷ rest) = test url crumbs && all_pairs test rest

start_leads : all_pairs leads_to navtreeindex0_start ≡ true
unfolding all_pairs leads_to selects shown show_node expand_node new_nodes node_at put_at show_last
    variables lookup data_name strip_path last_slash same_text
start_leads = refl

rest_leads : all_pairs leads_to navtreeindex0_rest ≡ true
unfolding all_pairs leads_to selects shown show_node expand_node new_nodes node_at put_at show_last
    variables lookup data_name strip_path last_slash same_text
rest_leads = refl

all_pairs-append :
    (test : Text → List ℕ → Bool) (a b : List (Text × List ℕ))
    → all_pairs test a ≡ true
    → all_pairs test b ≡ true
    → all_pairs test (a ++ b) ≡ true
unfolding all_pairs
all_pairs-append test [] b h k = k
all_pairs-append test ((url, crumbs) ∷ a) b h k = ground (arith, all_pairs-append test a b)

lookup-all_pairs :
    (test : Text → List ℕ → Bool) (l : List (Text × List ℕ)) (url : Text) (crumbs : List ℕ)
    → all_pairs test l ≡ true
    → lookup l url ≡ some crumbs
    → test url crumbs ≡ true
unfolding all_pairs lookup
lookup-all_pairs test [] url crumbs h k = ground arith
lookup-all_pairs test ((key, c) ∷ l) url crumbs h k =
    go (lookup l url) refl (lookup-all_pairs test l url crumbs (ground arith))
  where
    go :
        (o : Option (List ℕ))
        → lookup l url ≡ o
        → (lookup l url ≡ some crumbs → test url crumbs ≡ true)
        → test url crumbs ≡ true
    go (some b) e later = later (ground (arith, e, k))
    go none e later = elim (Bool-cases (same_text key url)) [
      | inl q ↦ subst (λ t. test t crumbs ≡ true) (same_text_sound key url q) (ground (arith, e, k))
      | inr q ↦ absurd (ground (arith, e, k, q))
    ]

leads_to-Selects :
    (url : Text) (crumbs : List ℕ) (start_page : Bool)
    → leads_to url crumbs ≡ true
    → same_text url pages_html ≡ false
    → Selects url (show_node variables start_page 0 crumbs (init_node navtree))
unfolding leads_to shown
leads_to-Selects url crumbs false h k =
    selects-Selects url (show_node variables false 0 crumbs (init_node navtree)) (ground arith)
leads_to-Selects url crumbs true h k =
    selects-Selects url (show_node variables true 0 crumbs (init_node navtree)) (ground arith)

-- The entry of the index that `gotoNode` takes for a page and its hash: that of the address, or else that
-- of the page.
abbrev pub Indexed : List (Text × List ℕ) → Text → Text → Text → List ℕ → Type 0
Indexed index root hash url crumbs =
    ((lookup index (root ++ hash) ≡ some crumbs) × (root ++ hash ≡ url))
    ⊎ ((lookup index (root ++ hash) ≡ none) × ((lookup index root ≡ some crumbs) × (root ≡ url)))

breadcrumbs-Indexed :
    (index : List (Text × List ℕ)) (root hash url : Text) (crumbs : List ℕ)
    → Indexed index root hash url crumbs
    → breadcrumbs (lookup index) root hash ≡ crumbs
breadcrumbs-Indexed index root hash url crumbs (inl (found, _)) = ground (arith, found)
breadcrumbs-Indexed index root hash url crumbs (inr (missing, (found, _))) =
    ground (arith, missing, found)

lookup-Indexed :
    (index : List (Text × List ℕ)) (root hash url : Text) (crumbs : List ℕ)
    → Indexed index root hash url crumbs
    → lookup index url ≡ some crumbs
lookup-Indexed index root hash url crumbs (inl (found, at)) =
    subst (λ t. lookup index t ≡ some crumbs) at found
lookup-Indexed index root hash url crumbs (inr (_, (found, at))) =
    subst (λ t. lookup index t ≡ some crumbs) at found

goto_node-Selects :
    (start_page : Bool) (root hash url : Text) (crumbs : List ℕ)
    → Indexed navtreeindex0 root hash url crumbs
    → same_text url pages_html ≡ false
    → Selects url
        (goto_node variables start_page (lookup navtreeindex0) root hash (init_node navtree))
unfolding goto_node
goto_node-Selects start_page root hash url crumbs indexed other =
    subst (λ c. Selects url (show_node variables start_page 0 c (init_node navtree)))
      (sym (breadcrumbs-Indexed navtreeindex0 root hash url crumbs indexed))
      (leads_to-Selects url crumbs start_page
        (lookup-all_pairs leads_to navtreeindex0 url crumbs
          (all_pairs-append leads_to navtreeindex0_start navtreeindex0_rest start_leads rest_leads)
          (lookup-Indexed navtreeindex0 root hash url crumbs indexed))
        other)

-- No address of the index is before the first one.
in_order : all_pairs (λ url crumbs. text_leb (codes "annotated.html") url) navtreeindex0 ≡ true
unfolding all_pairs text_leb
in_order = refl

text_leb-append : (s t u : Text) → text_leb s t ≡ true → text_leb s (t ++ u) ≡ true
unfolding text_leb
text_leb-append [] t u h = refl
text_leb-append (x ∷ s) [] u h = ground arith
text_leb-append (x ∷ s) (y ∷ t) u h = ground (arith, text_leb-append s t u)

Indexed-text_leb :
    (root hash url : Text) (crumbs : List ℕ)
    → Indexed navtreeindex0 root hash url crumbs
    → text_leb (codes "annotated.html") (root ++ hash) ≡ true
Indexed-text_leb root hash url crumbs (inl (found, _)) =
    lookup-all_pairs (λ t c. text_leb (codes "annotated.html") t) navtreeindex0 (root ++ hash)
      crumbs in_order found
Indexed-text_leb root hash url crumbs (inr (_, (found, _))) =
    text_leb-append (codes "annotated.html") root hash (
      lookup-all_pairs (λ t c. text_leb (codes "annotated.html") t) navtreeindex0 root crumbs
        in_order found)

nav_to-first :
    (x first : Text) (s : Sync) (given given_hash root hash : Text)
    → chosen (cached_link s) given given_hash ≡ (root, hash)
    → is_line hash ≡ false
    → text_leb x (root ++ hash) ≡ true
    → nav_to (x ∷ []) first s given given_hash ≡ record { sub_index = 0; root = root; hash = hash }
unfolding nav_to count_below
nav_to-first x first s given given_hash root hash at no_line le = ground (arith, at, no_line, le)

-- On the data of the pages, `navTo` with an address that the index has, which is the link that is kept
-- or else the arguments, and has no line number, ends without an error, on start pages and others, and
-- hands the entry whose link is that address to `selectAndHighlight`; the address of a page stands in
-- for one below it that the index does not have. The address is not `pages.html`.
pub navigate-Selects :
    (start_page : Bool) (s : Sync) (given given_hash root hash url : Text) (crumbs : List ℕ)
    → chosen (cached_link s) given given_hash ≡ (root, hash)
    → is_line hash ≡ false
    → Indexed navtreeindex0 root hash url crumbs
    → same_text url pages_html ≡ false
    → Selects url (
        navigate variables navtree navtreeindex sub_indices start_page s given given_hash
          (init_node navtree))
unfolding navigate goto_target
navigate-Selects start_page s given given_hash root hash url crumbs chosen_link no_line indexed
      other =
    subst (λ t. Selects url (goto_target variables sub_indices start_page t (init_node navtree)))
      (sym (
        nav_to-first (codes "annotated.html") (first_link navtree) s given given_hash root hash
          chosen_link no_line (Indexed-text_leb root hash url crumbs indexed)))
      (goto_node-Selects start_page root hash url crumbs indexed other)
