-- ===== src/Docs/Menu.antt =====
-- `makeTree` of docs/doxygen/html/menu.js: the list of links of a menu.
use aosv.Base.{[], ◌++◌}
use aosv.Base.Text.{codes}
use aosv.Docs.Text.{Text}

-- An entry has a text and an address, and may have a field `children`.
mutual
  pub data Item : Type 0 where
    item : Text → Text → Children → Item

  pub data Children : Type 0 where
    absent : Children
    children : Items → Children

  pub data Items : Type 0 where
    nil : Items
    cons : Item → Items → Items

abbrev link_of : Text → Text → Text → Text
link_of rel_path text url =
    codes "<li><a href=\"" ++ (rel_path ++ (url ++ (codes "\">" ++ (text ++ codes "</a>"))))

unfoldable mutual
  pub make_tree : Text → Children → Text
  make_tree rel_path absent = []
  make_tree rel_path (children l) = codes "<ul>" ++ (make_items rel_path l ++ codes "</ul>")

  pub make_items : Text → Items → Text
  make_items rel_path nil = []
  make_items rel_path (cons x rest) = make_item rel_path x ++ make_items rel_path rest

  pub make_item : Text → Item → Text
  make_item rel_path (item text url l) =
      link_of rel_path text url ++ (make_tree rel_path l ++ codes "</li>")
