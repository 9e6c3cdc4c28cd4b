-- ===== src/Manager/Join.antt =====
-- `create_incarnation` of kmodule/session_manager.c on all its branches.
use Prim.Native.Nat.{bit_or}
use aosv.Base.{ℕ, ◌≡◌, refl, sym, ap, ◌∙◌, subst, Bool, true, some, arith, length, ◌≤◌, ◌<◌}
use aosv.Base.Atomic.{increment}
use aosv.Base.Text.{FilePath}
use aosv.Kernel.{Kernel, Result, ok, err}
use aosv.Kernel.Errno.{enomem}
use aosv.Kernel.Run.{Run, done, fault, out_of_fuel, M, and_then, Returns, Returns-mono}
use aosv.Session.{
  Incarnation, Session, Sys, write, write_self, write_write, load_lem, load_string_lem, with_memory,
  update_lem,
}
use aosv.Info.{gain, map_info, incarnation_attr, add_incarnation_info}
use aosv.Info.Counters.{sysfs_answer, Added, add_incarnation_info-Added, with_attr}
use aosv.Manager.Files.{o_creat, open_file}
use aosv.Manager.Copy.{Content, Reads}
use aosv.Manager.CopyEnds.{SameSys, same_then, CopyReturns, copy_file-CopyReturns}
use aosv.Manager.Open.{
  with_incarnation, copy_original, new_incarnation, list_incarnation, incarnation_path,
  fill_incarnation, start_incarnation, open_incarnation, check_session, create_incarnation,
}

-- The status of an incarnation that SysFS has refused is the error.
abbrev Refused : Result (Unit {0}) → Incarnation → Type 0
Refused (ok _) i = Unit
Refused (err e) i = i.status ≡ e

-- The outcome of the last steps: a new incarnation at the head of the list of `y`.
abbrev Listed :
    {W : Type 0}
    → ℕ
    → FilePath
    → Result (Unit {0})
    → Session
    → Sys W
    → Result Incarnation
    → Sys W
    → Type 0
Listed a attr_name added y s r t =
    (i : Incarnation) × (r ≡ ok i)
    × (i.attr_name ≡ attr_name)
    × Refused added i
    × (t ≡ record s { world = t.world; cell = write s.cell a (some (with_incarnation i y)) })

-- With the answer of memory and SysFS: the new incarnation `i` stands at the head of the session's list;
-- it is counted in SysFS and in `sessions_num`, or it has the error for its status and is not counted.
abbrev pub Counted :
    {W : Type 0} → Result (Unit {0}) → ℕ → Session → Sys W → Incarnation → Sys W → Type 0
Counted (ok _) a x s i t = t ≡ record s {
  world = t.world;
  sessions_num = increment s.sessions_num;
  cell = write s.cell a (some (with_incarnation i (map_info gain x)));
}
Counted (err e) a x s i t =
    (i.status ≡ e)
    × (t ≡ record s { world = t.world; cell = write s.cell a (some (with_incarnation i x)) })

-- On failure nothing changes. On success there is a new incarnation, counted exactly if memory and SysFS
-- granted its file in the world `v` in which it was asked for.
abbrev pub Joined :
    {W : Type 0} → Kernel W → ℕ → Session → Sys W → Result Incarnation → Sys W → Type 0
Joined K a x s (err _) t = SameSys s t
Joined {W} K a x s (ok i) t = (v : W) × Counted (sysfs_answer K x i.attr_name v) a x s i t

Counted-world :
    {W : Type 0} (r : Result (Unit {0})) (a : ℕ) (x : Session) (s : Sys W) (w : W) (i : Incarnation)
    (t : Sys W)
    → Counted r a x (record s { world = w }) i t
    → Counted r a x s i t
Counted-world (ok _) a x s w i t h = h
Counted-world (err e) a x s w i t h = h

-- What is joined does not depend on the world before.
Joined-world :
    {W : Type 0} (K : Kernel W) (a : ℕ) (x : Session) (s : Sys W) (w : W) (r : Result Incarnation)
    (t : Sys W)
    → Joined K a x (record s { world = w }) r t
    → Joined K a x s r t
Joined-world K a x s w (err e) t h = h
Joined-world K a x s w (ok i) t (v, h) =
    (v, Counted-world (sysfs_answer K x i.attr_name v) a x s w i t h)

module _ {W : Type 0} (K : Kernel W) where
  pub open_file-SameSys :
      (path : FilePath) (flags mode : ℕ) (fd_needed : Bool) (s : Sys W)
      → Returns (λ _ t. SameSys s t) (open_file K path flags mode fd_needed s)
  unfolding open_file
  open_file-SameSys path flags mode fd_needed s = ground arith

  incarnation_path-SameSys :
      (path : FilePath) (pid : ℕ) (s : Sys W)
      → Returns (λ _ t. SameSys s t) (incarnation_path K path pid s)
  unfolding incarnation_path
  incarnation_path-SameSys path pid s = ground arith

  copy_original-SameSys :
      (fuel src dst : ℕ) (added : Result (Unit {0})) (s : Sys W)
      → CopyReturns K fuel src
      → Returns (λ _ t. SameSys s t) (copy_original K fuel src dst added s)
  unfolding copy_original
  copy_original-SameSys fuel src dst (ok _) s copies = copies dst s
  copy_original-SameSys fuel src dst (err e) s copies = refl

  list_incarnation-done :
      (fuel a pid : ℕ) (name : FilePath) (fd file : ℕ) (added : Result (Unit {0})) (s : Sys W)
      {y : Session}
      → s.cell a ≡ some y
      → CopyReturns K fuel y.file
      → Returns
          (Listed a (incarnation_attr pid fd) added y s)
          (list_incarnation K fuel a pid name fd file added s)
  unfolding list_incarnation copy_original
  list_incarnation-done fuel a pid name fd file (ok u) s {y} at copies = rw (load_lem a s at) (
      same_then _ (copy_original K fuel y.file file (ok u) s) _ s
        (copy_original-SameSys fuel y.file file (ok u) s copies)
        λ res w.
          let i = new_incarnation pid name fd file res in
          rw (update_lem a (with_incarnation i) (record s { world = w }) at)
            (i, refl, refl, tt, refl))
  list_incarnation-done fuel a pid name fd file (err e) s {y} at copies =
      let i = new_incarnation pid name fd file (err e) in
      rw (load_lem a s at, update_lem a (with_incarnation i) s at) (i, refl, refl, refl, refl)

  fill_incarnation-Joined :
      (fuel a pid : ℕ) (name : FilePath) (fd file : ℕ) (s : Sys W) {x : Session}
      → s.cell a ≡ some x
      → CopyReturns K fuel x.file
      → Returns (Joined K a x s) (fill_incarnation K fuel a pid name fd file s)
  unfolding fill_incarnation
  fill_incarnation-Joined fuel a pid name fd file s {x} at copies =
      go (add_incarnation_info K a pid fd s) (add_incarnation_info-Added K a pid fd x s at)
    where
      listed : Result (Unit {0}) → Sys W → Run (Sys W) (Result Incarnation)
      listed = list_incarnation K fuel a pid name fd file

      joined :
          (i : Incarnation) (added : Result (Unit {0})) (t : Sys W)
          → sysfs_answer K x (incarnation_attr pid fd) s.world ≡ added
          → i.attr_name ≡ incarnation_attr pid fd
          → Counted added a x s i t
          → Joined K a x s (ok i) t
      joined i added t answer named counted = (
        s.world,
        subst (λ q. Counted q a x s i t) (sym (ap (λ n. sysfs_answer K x n s.world) named ∙ answer))
            counted,
      )

      go :
          (r : Run (Sys W) (Result (Unit {0})))
          → Returns (Added K a (incarnation_attr pid fd) x s) r
          → Returns (Joined K a x s) (and_then r listed)
      go (done (ok o) t) (answer, h) =
          let s' = with_attr K a x t.world s in
          let y = map_info gain x in
          subst (λ u. Returns (Joined K a x s) (listed (ok o) u)) (sym h)
            (Returns-mono (Listed a (incarnation_attr pid fd) (ok o) y s') (Joined K a x s)
              (listed (ok o) s')
              (λ r u (i, e, named, _, f).
                subst (λ q. Joined K a x s q u) (sym e)
                  (joined i (ok o) u answer named (
                    f
                    ∙ ap (λ c. record s' { world = u.world; cell = c })
                        (write_write s.cell a _ _))))
              (list_incarnation-done fuel a pid name fd file (ok o) s'
                (write_self s.cell a (some y)) copies))
      go (done (err e) t) (answer, h) =
          let s' = record s { world = t.world } in
          subst (λ u. Returns (Joined K a x s) (listed (err e) u)) (sym h)
            (Returns-mono (Listed a (incarnation_attr pid fd) (err e) x s') (Joined K a x s)
              (listed (err e) s')
              (λ r u (i, q, named, status, f).
                subst (λ z. Joined K a x s z u) (sym q)
                  (joined i (err e) u answer named (status, f)))
              (list_incarnation-done fuel a pid name fd file (err e) s' at copies))
      go fault h = absurd h
      go out_of_fuel h = absurd h

  start_incarnation-Joined :
      (fuel a pid : ℕ) (name : FilePath) (opened : Result ℕ × Result ℕ) (s : Sys W) {x : Session}
      → s.cell a ≡ some x
      → CopyReturns K fuel x.file
      → Returns (Joined K a x s) (start_incarnation K fuel a pid name opened s)
  unfolding start_incarnation
  start_incarnation-Joined fuel a pid name (err e, file) s at copies = refl
  start_incarnation-Joined fuel a pid name (ok fd, err e) s at copies = refl
  start_incarnation-Joined fuel a pid name (ok fd, ok file) s at copies =
      fill_incarnation-Joined fuel a pid name fd file s at copies

  open_incarnation-Joined :
      (fuel a pathname flags pid mode : ℕ) (s : Sys W) {x : Session} {path : FilePath}
      → s.cell a ≡ some x
      → s.strings pathname ≡ some path
      → CopyReturns K fuel x.file
      → Returns (Joined K a x s) (open_incarnation K fuel a pathname flags pid mode s)
  unfolding open_incarnation
  open_incarnation-Joined fuel a pathname flags pid mode s {x} {path} at named copies =
      rw (load_string_lem pathname s named) (
        same_then (Joined K a x s) (incarnation_path K path pid s) _ s
          (incarnation_path-SameSys path pid s)
          λ name w.
            let s1 : Sys W = record s { world = w } in
            same_then (Joined K a x s) (open_file K name (bit_or flags o_creat) mode true s1) _ s1
              (open_file-SameSys name (bit_or flags o_creat) mode true s1)
              λ opened v.
                Returns-mono (Joined K a x (record s1 { world = v })) (Joined K a x s)
                  (start_incarnation K fuel a pid name opened (record s1 { world = v }))
                  (Joined-world K a x s v)
                  (start_incarnation-Joined fuel a pid name opened (record s1 { world = v }) at
                    copies))

  check_session-valid :
      (fuel a flags pid mode : ℕ) (s : Sys W) {x : Session}
      → s.cell a ≡ some x
      → x.valid ≡ true
      → check_session K fuel a flags pid mode s
        ≡ open_incarnation K fuel a x.pathname flags pid mode s
  unfolding check_session
  check_session-valid fuel a flags pid mode s at valid = rw (load_lem a s at, valid)

  with_memory-Joined :
      (m : M (Sys W) (Result Incarnation)) (a : ℕ) (x : Session) (s t : Sys W)
      → Joined K a x s (err enomem) (record t { world = (K.kmalloc t.world).1 })
      → ((w : W) → Returns (Joined K a x s) (m (record t { world = w })))
      → Returns (Joined K a x s) (with_memory K m t)
  unfolding with_memory
  with_memory-Joined m a x s t none_left f = ground (arith, f (K.kmalloc t.world).1)

  pub create_incarnation-copies :
      (fuel a flags pid mode : ℕ) (s : Sys W) {x : Session} {path : FilePath}
      → s.cell a ≡ some x
      → s.strings x.pathname ≡ some path
      → x.valid ≡ true
      → CopyReturns K fuel x.file
      → Returns (Joined K a x s) (create_incarnation K fuel a flags pid mode s)
  unfolding create_incarnation
  create_incarnation-copies fuel a flags pid mode s {x} {path} at named valid copies =
      with_memory-Joined (with_memory K (check_session K fuel a flags pid mode)) a x s s refl λ w.
        with_memory-Joined (check_session K fuel a flags pid mode) a x s (record s { world = w })
          refl
          λ v.
            subst (Returns (Joined K a x s))
              (sym (check_session-valid fuel a flags pid mode (record s { world = v }) at valid))
              (Returns-mono (Joined K a x (record s { world = v })) (Joined K a x s)
                (open_incarnation K fuel a x.pathname flags pid mode (record s { world = v }))
                (Joined-world K a x s v)
                (open_incarnation-Joined fuel a x.pathname flags pid mode (record s { world = v })
                  at named copies))

  -- On every branch over a valid session whose name is allocated and whose original file is regular
  -- and never longer than `n` bytes, `n` less than the fuel: it ends; an error changes nothing but
  -- the kernel around the manager; a success lists one incarnation more, which is counted in SysFS and
  -- in `sessions_num` exactly if memory and SysFS granted its file, and else has the error for its status.
  pub create_incarnation-Joined :
      (content : Content W) (n fuel a flags pid mode : ℕ) (s : Sys W) {x : Session}
      {path : FilePath}
      → s.cell a ≡ some x
      → s.strings x.pathname ≡ some path
      → x.valid ≡ true
      → Reads K content x.file
      → ((w : W) → length (content x.file w) ≤ n)
      → n < fuel
      → Returns (Joined K a x s) (create_incarnation K fuel a flags pid mode s)
  create_incarnation-Joined content n fuel a flags pid mode s {x} at named valid reads bounded h =
      create_incarnation-copies fuel a flags pid mode s at named valid
        (copy_file-CopyReturns K content x.file n reads bounded fuel h)
