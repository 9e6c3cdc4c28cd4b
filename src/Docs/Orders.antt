-- ===== src/Docs/Orders.antt =====
-- The orders of the events in docs/doxygen/html/navtree.js.
use mathlib.Core.List.{append_assoc}
use aosv.Base.{◌≡◌, refl, sym, ap, ◌∙◌, true, false, map, List, [], ◌∷◌, ◌++◌}
use aosv.Docs.Text.{Text}
use aosv.Docs.Startup.{
  Action, navigates, show_root, Moment, Event, loaded, readied, hash_changed, Startup, new_startup,
  call_at, on_load, on_ready, on_hash_change, on_event, run_events,
}

module _ (toroot relpath : Text) where
  -- What the changes of the hash do, one after the other.
  abbrev pub change_actions : List Moment → List Action
  change_actions [] = []
  change_actions (m ∷ changes) = on_hash_change toroot relpath m ++ change_actions changes

  -- Before the handler is bound, changes do nothing.
  run_unbound :
      (changes : List Moment) (events : List Event) (s : Startup)
      → s.bound ≡ false
      → run_events toroot relpath (map hash_changed changes ++ events) s
        ≡ run_events toroot relpath events s
  unfolding run_events on_event
  run_unbound [] events s h = refl
  run_unbound (m ∷ changes) events s h = simp (h) (run_unbound changes events s h)

  run_bound :
      (changes : List Moment) (events : List Event) (s : Startup)
      → s.bound ≡ true
      → (run_events toroot relpath (map hash_changed changes ++ events) s).1
        ≡ change_actions changes ++ (run_events toroot relpath events s).1
  unfolding run_events on_event
  run_bound [] events s h = refl
  run_bound (m ∷ changes) events s h = simp (h) (
      ap (λ t. on_hash_change toroot relpath m ++ t) (run_bound changes events s h)
      ∙ sym (
          append_assoc (on_hash_change toroot relpath m) (change_actions changes)
            (run_events toroot relpath events s).1))

  run_changes :
      (changes : List Moment) (s : Startup)
      → s.bound ≡ true
      → (run_events toroot relpath (map hash_changed changes) s).1 ≡ change_actions changes
  unfolding run_events on_event
  run_changes [] s h = refl
  run_changes (m ∷ changes) s h =
      simp (h) (ap (λ t. on_hash_change toroot relpath m ++ t) (run_changes changes s h))

  -- In both orders of load and ready, with changes of the hash before, between and behind them: the two
  -- together call navTo once, and showRoot behind it, with the root of the page and the hash that it had
  -- at ready. Changes before ready do nothing; those behind it do their own, also those that come before
  -- the call where ready is first.
  pub run_events-orders :
      (before between behind : List Moment) (m : Moment)
      → ((run_events toroot relpath
            (map hash_changed before
              ++ (loaded ∷ (map hash_changed between ++ (readied m ∷ map hash_changed behind))))
            new_startup).1
          ≡ navigates (call_at toroot relpath m) ∷ show_root ∷ change_actions behind)
        × ((run_events toroot relpath
              (map hash_changed before
                ++ (readied m ∷ (map hash_changed between ++ (loaded ∷ map hash_changed behind))))
              new_startup).1
            ≡ change_actions between
              ++ (navigates (call_at toroot relpath m) ∷ show_root ∷ change_actions behind))
  unfolding run_events on_event on_load on_ready
  run_events-orders before between behind m =
      let after_load = record new_startup { load_triggered = true } in
      let after_ready = record new_startup {
        ready_triggered = true;
        saved = call_at toroot relpath m;
        bound = true;
      } in
      (
        ap (λ r. r.1)
              (run_unbound before
                  (loaded ∷ (map hash_changed between ++ (readied m ∷ map hash_changed behind)))
                  new_startup refl
                ∙ run_unbound between (readied m ∷ map hash_changed behind) after_load refl)
            ∙ ap (λ t. navigates (call_at toroot relpath m) ∷ show_root ∷ t)
                (run_changes behind (record after_load { bound = true }) refl),
        ap (λ r. r.1)
              (run_unbound before
                (readied m ∷ (map hash_changed between ++ (loaded ∷ map hash_changed behind)))
                new_startup refl)
            ∙ run_bound between (loaded ∷ map hash_changed behind) after_ready refl
            ∙ ap
                (λ t.
                  change_actions between ++ (navigates (call_at toroot relpath m) ∷ show_root ∷ t))
                (run_changes behind (record after_ready { load_triggered = true }) refl),
      )
