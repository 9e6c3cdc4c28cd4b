-- ===== src/Info/Publish.antt =====
-- `add_session_info` of kmodule/session_info.c on all its branches.
use aosv.Base.{ℕ, ◌≡◌, refl, sym, ap, fun_ext, Bool, false, true, [], Option, some, arith}
use aosv.Base.Atomic.{ℤ, pos, increment, decrement}
use aosv.Base.Text.{FilePath}
use aosv.Kernel.{Kernel, Result, ok, err}
use aosv.Kernel.Errno.{enomem}
use aosv.Kernel.Run.{M, pure, ◌>>=◌, ◌>>◌, Returns}
use aosv.Session.{
  lift, lift_, modify, SessInfo, Session, Sys, Memory, write, write_self, write_write, update,
  update_lem,
}
use aosv.Info.{format_name, inc_num_name, map_info, publish_folder, add_session_info}

write_same : {A : Type 0} (m : Memory A) (p : ℕ) (v : Option A) → m p ≡ v → write m p v ≡ m
unfolding write
write_same m p v e = fun_ext λ q. ground arith

-- The information on a session that has just been published.
abbrev pub published : FilePath → SessInfo
published path = record { kref = pos 1; f_name = format_name path; inc_num = pos 0 }

abbrev pub with_info : SessInfo → Session → Session
with_info i x = record x { info = i }

module _ {W : Type 0} where
  -- What `add_session_info` leaves: the information and one reference more to the device's kobject;
  -- or an error, and only the information of the session and that reference count may differ.
  abbrev pub Published : FilePath → ℕ → Session → Sys W → Result (Unit {0}) → Sys W → Type 0
  Published path a x s (ok _) t = t ≡ record s {
    world = t.world;
    cell = write s.cell a (some (with_info (published path) x));
    dev_kref = increment s.dev_kref;
  }
  Published path a x s (err _) t =
      (i : SessInfo) × (t ≡ record s {
        world = t.world;
        cell = write s.cell a (some (with_info i x));
        dev_kref = t.dev_kref;
      })

module _ {W : Type 0} (K : Kernel W) where
  -- The end of `publish_folder`, after an error of `sysfs_create_file`.
  withdraw-Published :
      (path : FilePath) (a e : ℕ) (w : W) (s : Sys W) (x : Session)
      → Returns (Published path a x s) (
          (do
            update a (map_info λ i. record i { f_name = [] })
            lift_ (K.kobject_del (format_name path))
            modify (λ s. record s { dev_kref = decrement s.dev_kref })
            pure (err e))
            (record s {
              world = w;
              cell = write s.cell a (some (with_info (published path) x));
              dev_kref = increment s.dev_kref;
            }))
  withdraw-Published path a e w s x =
      let m = write s.cell a (some (with_info (published path) x)) in
      rw
        (update_lem a (map_info λ i. record i { f_name = [] })
          (record s { world = w; cell = m; dev_kref = increment s.dev_kref })
          (write_self s.cell a (some (with_info (published path) x))))
        (
          record (published path) { f_name = [] },
          ap
              (λ c. record s {
                world = K.kobject_del (format_name path) w;
                cell = c;
                dev_kref = decrement (increment s.dev_kref);
              })
              (write_write s.cell a _ _),
        )

  publish_folder-Published :
      (path : FilePath) (a : ℕ) (s : Sys W) {x : Session}
      → s.cell a ≡ some x
      → Returns (Published path a x s) (publish_folder K (format_name path) a s)
  unfolding publish_folder
  publish_folder-Published path a s {x} at =
      let s1 : Sys W = record s { dev_kref = increment s.dev_kref } in
      let (r, w) = K.sysfs_create_file (format_name path) inc_num_name s.world in
      rw (update_lem a (map_info (λ i. published path)) s1 at) (answered r w)
    where
      answered :
          (r : Result (Unit {0})) (w : W)
          → Returns (Published path a x s) (
              (elim r as (λ _. M (Sys W) (Result (Unit {0}))) [
                | ok _ ↦ pure (ok tt)
                | err e ↦ do
                  update a (map_info λ i. record i { f_name = [] })
                  lift_ (K.kobject_del (format_name path))
                  modify (λ s. record s { dev_kref = decrement s.dev_kref })
                  pure (err e)
              ])
                (record s {
                  world = w;
                  cell = write s.cell a (some (with_info (published path) x));
                  dev_kref = increment s.dev_kref;
                }))
      answered (ok _) w = refl
      answered (err e) w = withdraw-Published path a e w s x

  pub add_session_info-Published :
      (path : FilePath) (a : ℕ) (s : Sys W) {x : Session}
      → s.cell a ≡ some x
      → Returns (Published path a x s) (add_session_info K path a s)
  unfolding add_session_info
  add_session_info-Published path a s {x} at = granted (K.kmalloc s.world).0 (K.kmalloc s.world).1
    where
      unchanged :
          (w : W) (d : ℤ)
          → record s { world = w; dev_kref = d } ≡ record s {
            world = w;
            cell = write s.cell a (some (with_info x.info x));
            dev_kref = d;
          }
      unchanged w d =
          ap (λ c. record s { world = w; cell = c; dev_kref = d }) (sym (write_same s.cell a _ at))

      made :
          (b : Bool) (w : W)
          → Returns (Published path a x s) (
              (elim b as (λ _. M (Sys W) (Result (Unit {0}))) [
                | true ↦ publish_folder K (format_name path) a
                | false ↦ do
                  modify (λ s. record s { dev_kref = decrement s.dev_kref })
                  pure (err enomem)
              ])
                (record s { world = w }))
      made true w = publish_folder-Published path a (record s { world = w }) at
      made false w = (x.info, unchanged w (decrement s.dev_kref))

      granted :
          (b : Bool) (w : W)
          → Returns (Published path a x s) (
              (elim b as (λ _. M (Sys W) (Result (Unit {0}))) [
                | false ↦ pure (err enomem)
                | true ↦ do
                  got ← lift (K.kobject_create_and_add (format_name path))
                  elim got [
                    | true ↦ publish_folder K (format_name path) a
                    | false ↦ do
                      modify (λ s. record s { dev_kref = decrement s.dev_kref })
                      pure (err enomem)
                  ]
              ])
                (record s { world = w }))
      granted false w = (x.info, unchanged w s.dev_kref)
      granted true w = let (b, v) = K.kobject_create_and_add (format_name path) w in made b v
