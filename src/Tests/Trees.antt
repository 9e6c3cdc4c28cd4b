-- ===== src/Tests/Trees.antt =====
-- The tree of the documentation's pages at inputs that meet the hypotheses of its theorems.
use aosv.Base.{◌≡◌, refl, inr, true, false, map, [], ◌∷◌, ◌++◌}
use aosv.Base.Text.{codes, same_text}
use aosv.Docs.Text.{Text}
use aosv.Docs.Startup.{
  Moment, navigates, show_root, loaded, readied, hash_changed, new_startup, call_at, run_events,
}
use aosv.Docs.Sync.{cached_link}
use aosv.Docs.Tree.{init_node}
use aosv.Docs.Navigate.{navigate}
use aosv.Docs.TreeData.Root.{navtree, navtreeindex}
use aosv.Docs.TreeData.Variables.{lookup, variables, sub_indices}
use aosv.Docs.Orders.{change_actions, run_events-orders}
use aosv.Docs.Indexed.{Selects, navigate-Selects}
use aosv.Tests.Website.{button}

abbrev at_hash : Text → Moment
at_hash hash = record {
  pathname = codes "/docs/index.html";
  hash = hash;
  animating = false;
  item_selected = λ link. true;
}

-- One change of the hash between the two events, and one behind them.
run_events-orders_example :
    ((run_events
        (codes "index.html")
        []
        (map hash_changed []
          ++ (loaded
              ∷ (map hash_changed (at_hash (codes "#a1") ∷ [])
                  ++ (readied (at_hash []) ∷ map hash_changed (at_hash (codes "#a2") ∷ [])))))
        new_startup).1
      ≡ navigates (call_at (codes "index.html") [] (at_hash []))
        ∷ show_root
        ∷ change_actions (codes "index.html") [] (at_hash (codes "#a2") ∷ []))
    × ((run_events
          (codes "index.html")
          []
          (map hash_changed []
            ++ (readied (at_hash [])
                ∷ (map hash_changed (at_hash (codes "#a1") ∷ [])
                    ++ (loaded ∷ map hash_changed (at_hash (codes "#a2") ∷ [])))))
          new_startup).1
        ≡ change_actions (codes "index.html") [] (at_hash (codes "#a1") ∷ [])
          ++ (navigates (call_at (codes "index.html") [] (at_hash []))
              ∷ show_root
              ∷ change_actions (codes "index.html") [] (at_hash (codes "#a2") ∷ [])))
run_events-orders_example =
    run_events-orders (codes "index.html") [] [] (at_hash (codes "#a1") ∷ [])
      (at_hash (codes "#a2") ∷ []) (at_hash [])

-- The page is in the index, the anchor on it is not.
navigate-Selects_example : Selects (codes "structsession.html") (
    navigate variables navtree navtreeindex sub_indices false button
      (codes "structsession.html")
      (codes "#details")
      (init_node navtree))
unfolding lookup same_text cached_link
navigate-Selects_example =
    navigate-Selects false button (codes "structsession.html") (codes "#details")
      (codes "structsession.html") (codes "#details") (codes "structsession.html") (1 ∷ 0 ∷ 3 ∷ [])
      refl refl (inr (refl, (refl, refl))) refl
