-- ===== src/Manager/Fresh.antt =====
-- `init_session` of kmodule/session_manager.c on a file that has no session.
use aosv.Base.{
  ℕ, suc, ◌≡◌, refl, sym, ap, ap₂, ◌∙◌, subst, false, true, List, [], ◌∷◌, none, some, arith, All,
}
use aosv.Base.Atomic.{is, pos, increment}
use aosv.Base.Text.{FilePath}
use aosv.Kernel.{Kernel, Result, ok, err}
use aosv.Kernel.Run.{
  Run, done, fault, out_of_fuel, M, pure, ◌>>=◌, ◌>>◌, and_then, Returns, Returns-mono,
}
use aosv.Session.{
  lift_, Session, Sys, write, write_self, write_write, write_restores, load, load_string_lem,
  update, free, with_memory,
}
use aosv.Info.{add_session_info}
use aosv.Manager.Files.{no_fd, original_flags, open_file}
use aosv.Manager.Find.{Live, first_match, search_session-first_match}
use aosv.Manager.CopyEnds.{same_then}
use aosv.Manager.Join.{open_file-SameSys}
use aosv.Manager.Open.{
  new_session, invalidate, remove_address, link_new, unlink, insert_session, place_session,
  open_original, init_session,
}
use aosv.Info.Publish.{published, with_info, Published, add_session_info-Published}

Live-world :
    {W : Type 0} (s : Sys W) (w : W) (l : List ℕ)
    → All (Live s) l
    → All (Live (record s { world = w })) l
Live-world s w [] h = tt
Live-world s w (a ∷ l) (x, h) =
    (record { object = x.object; name = x.name; at = x.at; named = x.named }, Live-world s w l h)

module _ {W : Type 0} where
  -- The state with the new session, on the file `f`.
  abbrev pub placed : FilePath → ℕ → ℕ → W → Sys W → Sys W
  placed path p f w s = record s {
    world = w;
    cell = write s.cell s.next (some (with_info (published path) (new_session f p)));
    next = suc s.next;
    sessions = s.next ∷ s.sessions;
    dev_kref = increment s.dev_kref;
  }

  -- The outcome of `init_session`: a new session at the head of the list; or an error, and neither
  -- the sessions nor their names have changed.
  abbrev pub Placed : FilePath → ℕ → Sys W → Result ℕ → Sys W → Type 0
  Placed path p s (ok a) t = (f : ℕ) × (a ≡ s.next) × (t ≡ placed path p f t.world s)
  Placed path p s (err _) t = t ≡ record s { world = t.world; next = t.next; dev_kref = t.dev_kref }

module _ {W : Type 0} (K : Kernel W) where
  -- The end of `init_session` after an error of `add_session_info`.
  abbrev roll_back : ℕ → ℕ → ℕ → M (Sys W) (Result ℕ)
  roll_back a f e = do
    update a invalidate
    unlink a
    lift_ (K.filp_close f)
    y ← load a
    elim (is 1 y.refcount) [ true ↦ free a | false ↦ pure tt ]
    pure (err e)

  roll_back_lem :
      (a f e : ℕ) (t : Sys W) {y : Session}
      → t.cell a ≡ some y
      → y.refcount ≡ pos 1
      → roll_back a f e t
        ≡ done (err e) (record t {
          world = K.filp_close f t.world;
          sessions = remove_address a t.sessions;
          cell = write t.cell a none;
        })
  unfolding update load free unlink
  roll_back_lem a f e t {y} at one = ground (
    arith,
    write_self t.cell a (some (invalidate y)),
    write_write t.cell a (some (invalidate y)) none,
  )

  remove_head : (a : ℕ) (rest : List ℕ) → remove_address a (a ∷ rest) ≡ rest
  remove_head a rest = ground arith

  insert_session-Placed :
      (path : FilePath) (p f : ℕ) (s : Sys W)
      → s.cell s.next ≡ none
      → Returns (Placed path p s) (insert_session K path p f s)
  unfolding insert_session link_new unlink
  insert_session-Placed path p f s unused =
      go (add_session_info K path s.next s1)
        (add_session_info-Published K path s.next s1 (write_self s.cell s.next _))
    where
      x : Session
      x = new_session f p

      s1 : Sys W
      s1 = record s {
        cell = write s.cell s.next (some x);
        next = suc s.next;
        sessions = s.next ∷ s.sessions;
      }

      go :
          (r : Run (Sys W) (Result (Unit {0})))
          → Returns (Published path s.next x s1) r
          → Returns (Placed path p s) (
              and_then r λ res. elim res as (λ _. M (Sys W) (Result ℕ)) [
                | ok _ ↦ pure (ok s.next)
                | err e ↦ roll_back s.next f e
              ])
      go (done (ok _) t) h = (
        f,
        refl,
        h
            ∙ ap (λ c. record s1 { world = t.world; cell = c; dev_kref = increment s.dev_kref })
                (write_write s.cell s.next _ _),
      )
      go (done (err e) t) (i, h) =
          let y = with_info i x in
          let t' : Sys W = record s1 {
            world = t.world;
            cell = write s1.cell s.next (some y);
            dev_kref = t.dev_kref;
          } in
          subst (λ u. Returns (Placed path p s) (roll_back s.next f e u)) (sym h)
            (rw (roll_back_lem s.next f e t' (write_self s1.cell s.next (some y)) refl) (
              ap₂ (λ c l. record t' { world = K.filp_close f t.world; cell = c; sessions = l })
                (write_write s1.cell s.next (some y) none
                  ∙ write_restores s.cell s.next (some x) none unused)
                (remove_head s.next s.sessions)))
      go fault h = absurd h
      go out_of_fuel h = absurd h

  Placed-world :
      (path : FilePath) (p : ℕ) (s : Sys W) (w : W) (r : Result ℕ) (t : Sys W)
      → Placed path p (record s { world = w }) r t
      → Placed path p s r t
  Placed-world path p s w (ok a) t h = h
  Placed-world path p s w (err e) t h = h

  -- Where the original file cannot be opened, nothing changes; where it can, the search under the
  -- lock finds nothing.
  place_session-Placed :
      (path : FilePath) (p : ℕ) (opened : Result ℕ × Result ℕ) (s : Sys W)
      → s.strings p ≡ some path
      → All (Live s) s.sessions
      → first_match path s.cell s.strings s.sessions ≡ none
      → s.cell s.next ≡ none
      → Returns (Placed path p s) (place_session K path p opened s)
  unfolding place_session
  place_session-Placed path p (fd, err e) s named live new unused = refl
  place_session-Placed path p (fd, ok f) s named live new unused =
      rw (search_session-first_match s p no_fd no_fd path named live, new)
        (insert_session-Placed path p f s unused)

  open_original-Placed :
      (path : FilePath) (p flags mode : ℕ) (s : Sys W)
      → s.strings p ≡ some path
      → All (Live s) s.sessions
      → first_match path s.cell s.strings s.sessions ≡ none
      → s.cell s.next ≡ none
      → Returns (Placed path p s) (open_original K p flags mode s)
  unfolding open_original
  open_original-Placed path p flags mode s named live new unused = rw (load_string_lem p s named) (
      same_then (Placed path p s) (open_file K path (original_flags flags) mode false s) _ s
        (open_file-SameSys K path (original_flags flags) mode false s)
        λ opened w.
          Returns-mono (Placed path p (record s { world = w })) (Placed path p s)
            (place_session K path p opened (record s { world = w }))
            (λ r t h. Placed-world path p s w r t h)
            (place_session-Placed path p opened (record s { world = w }) named
              (Live-world s w s.sessions live) new unused))

  with_memory-Placed :
      (m : M (Sys W) (Result ℕ)) (path : FilePath) (p : ℕ) (s : Sys W)
      → ((w : W) → Returns (Placed path p s) (m (record s { world = w })))
      → Returns (Placed path p s) (with_memory K m s)
  unfolding with_memory
  with_memory-Placed m path p s f = ground (arith, f (K.kmalloc s.world).1)

  -- On a file that no valid session in the list is for, while every listed session and its name are
  -- allocated and the next address is unused: `init_session` ends. On success a new valid session
  -- with one user and a folder in SysFS stands at the head of the list, and all else is as before;
  -- on an error the sessions, their names and the list are as before.
  pub init_session-Placed :
      (p flags mode : ℕ) (s : Sys W) {path : FilePath}
      → s.strings p ≡ some path
      → All (Live s) s.sessions
      → first_match path s.cell s.strings s.sessions ≡ none
      → s.cell s.next ≡ none
      → Returns (Placed path p s) (init_session K p flags mode s)
  unfolding init_session
  init_session-Placed p flags mode s {path} named live new unused =
      with_memory-Placed (with_memory K (open_original K p flags mode)) path p s λ w.
        Returns-mono (Placed path p (record s { world = w })) (Placed path p s)
          (with_memory K (open_original K p flags mode) (record s { world = w }))
          (λ r t h. Placed-world path p s w r t h)
          (with_memory-Placed (open_original K p flags mode) path p (record s { world = w })
            λ v.
              Returns-mono (Placed path p (record s { world = v }))
                (Placed path p (record s { world = w }))
                (open_original K p flags mode (record s { world = v }))
                (λ r t h. Placed-world path p (record s { world = w }) v r t h)
                (open_original-Placed path p flags mode (record s { world = v }) named
                  (Live-world s v s.sessions live) new unused))
