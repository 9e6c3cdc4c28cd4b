-- ===== src/Manager/Copy.antt =====
-- What `copy_file` of kmodule/session_manager.c does to the two files, over a kernel whose regular
-- files read and write as documented. `content f w` is the content of the file behind `f`.
use mathlib.Core.List.{append_assoc}
use aosv.Base.{
  ℕ, zero, suc, ◌+◌, ◌-◌, ◌≤◌, ◌<◌, ◌≡◌, refl, sym, ap, ap₂, ◌∙◌, ◌≢◌, true, List, [], ◌∷◌, ◌++◌,
  arith, length, take, drop, length-append, take-append-drop, take-append_length,
  drop-append_length, drop-drop, length-drop,
}
use aosv.Base.Text.{FilePath}
use aosv.Kernel.{Kernel, Result, ok, err}
use aosv.Kernel.Run.{Run, done, fault, out_of_fuel, Returns, Returns-mono}
use aosv.Session.{Sys}
use aosv.Manager.Files.{data_dim, copy_loop, copy_file}

abbrev pub Content : Type 0 → Type 0
Content W = ℕ → W → List ℕ

-- A read takes some of what is left, at most `n` bytes, and none only at the end of the file.
pub record Reads {W : Type 0} (K : Kernel W) (content : Content W) (f : ℕ) : Type 0 where
  pub amount : ℕ → ℕ → W → ℕ
  pub amount_le : (n off : ℕ) (w : W) → amount n off w ≤ n
  pub progress : (n off : ℕ) (w : W) → 0 < n → 0 < amount n off w
  pub read :
      (n off : ℕ) (w : W)
      → K.kernel_read f n off w ≡ (ok (take (amount n off w) (drop off (content f w))), w)

-- A write inside the file or at its end stores all its bytes, and touches no other file.
pub record Writes {W : Type 0} (K : Kernel W) (content : Content W) (f : ℕ) : Type 0 where
  pub after : List ℕ → ℕ → W → W
  pub write :
      (bytes : List ℕ) (off : ℕ) (w : W)
      → off ≤ length (content f w)
      → K.kernel_write f bytes off w ≡ (ok (length bytes), after bytes off w)
  pub written :
      (bytes : List ℕ) (off : ℕ) (w : W)
      → off ≤ length (content f w)
      → content f (after bytes off w)
        ≡ take off (content f w) ++ (bytes ++ drop (off + length bytes) (content f w))
  pub others :
      (bytes : List ℕ) (off : ℕ) (w : W) (g : ℕ)
      → g ≢ f
      → content g (after bytes off w) ≡ content g w

-- Allocations, SysFS, the clock and descriptors touch no regular file.
pub record KeepsFiles {W : Type 0} (K : Kernel W) (content : Content W) : Type 0 where
  pub kmalloc : (f : ℕ) (w : W) → content f (K.kmalloc w).1 ≡ content f w
  pub sysfs_create_file :
      (f : ℕ) (d n : FilePath) (w : W) → content f (K.sysfs_create_file d n w).1 ≡ content f w
  pub sysfs_remove_file :
      (f : ℕ) (d n : FilePath) (w : W) → content f (K.sysfs_remove_file d n w) ≡ content f w
  pub kobject_del : (f : ℕ) (d : FilePath) (w : W) → content f (K.kobject_del d w) ≡ content f w
  pub ktime_get_real : (f : ℕ) (w : W) → content f (K.ktime_get_real w).1 ≡ content f w
  pub filp_close : (f g : ℕ) (w : W) → content f (K.filp_close g w) ≡ content f w

-- The outcome: nothing changes but the world, where `dst` is the copy of `data` over `old`.
pub record Copied {W : Type 0} (content : Content W) (dst : ℕ) (bytes old : List ℕ) (s : Sys W)
    (r : Result (Unit {0})) (t : Sys W) : Type 0 where
  pub result : r ≡ ok tt
  pub copy : content dst t.world ≡ bytes ++ drop (length bytes) old
  pub others : (g : ℕ) → g ≢ dst → content g t.world ≡ content g s.world
  pub frame : t ≡ record s { world = t.world }

-- An error of a read or of a write ends the loop, and is its result.
pub copy_read_error :
    {W : Type 0} (K : Kernel W) (fuel src dst offw : ℕ) {offr e : ℕ} {v : W} (s : Sys W)
    → K.kernel_read src data_dim offr s.world ≡ (err e, v)
    → copy_loop K (suc fuel) src dst offr offw s ≡ done (err e) (record s { world = v })
unfolding copy_loop
copy_read_error K fuel src dst offw s r = rw r

pub copy_write_error :
    {W : Type 0} (K : Kernel W) (fuel src dst : ℕ) {offr offw e : ℕ} {bytes : List ℕ} {v w : W}
    (s : Sys W)
    → K.kernel_read src data_dim offr s.world ≡ (ok bytes, v)
    → K.kernel_write dst bytes offw v ≡ (err e, w)
    → copy_loop K (suc fuel) src dst offr offw s ≡ done (err e) (record s { world = w })
unfolding copy_loop
copy_write_error K fuel src dst s r p = rw (r, p)

-- A round that reads nothing is the last.
pub copy_last :
    {W : Type 0} (K : Kernel W) (fuel src dst : ℕ) {offr offw n : ℕ} {v w : W} (s : Sys W)
    → K.kernel_read src data_dim offr s.world ≡ (ok [], v)
    → K.kernel_write dst [] offw v ≡ (ok n, w)
    → copy_loop K (suc fuel) src dst offr offw s ≡ done (ok tt) (record s { world = w })
unfolding copy_loop
copy_last K fuel src dst s r p = rw (r, p)

-- Any other goes on behind what it has read and written.
pub copy_round :
    {W : Type 0} (K : Kernel W) (fuel src dst : ℕ) {offr offw n b : ℕ} {rest : List ℕ} {v w : W}
    (s : Sys W)
    → K.kernel_read src data_dim offr s.world ≡ (ok (b ∷ rest), v)
    → K.kernel_write dst (b ∷ rest) offw v ≡ (ok n, w)
    → copy_loop K (suc fuel) src dst offr offw s
      ≡ copy_loop K fuel src dst (offr + length (b ∷ rest)) (offw + n) (record s { world = w })
unfolding copy_loop
copy_round K fuel src dst s r p = rw (r, p)

-- One write of the loop, on lists.
overwrite_next :
    (pre bytes old : List ℕ)
    → take (length pre) (pre ++ drop (length pre) old)
        ++ (bytes ++ drop (length pre + length bytes) (pre ++ drop (length pre) old))
      ≡ (pre ++ bytes) ++ drop (length (pre ++ bytes)) old
overwrite_next pre bytes old =
    let rest : List ℕ = drop (length pre) old in
    let tail : drop (length pre + length bytes) (pre ++ rest) ≡ drop (length (pre ++ bytes)) old =
      sym (drop-drop (length pre) (length bytes) (pre ++ rest))
      ∙ ap (drop (length bytes)) (drop-append_length pre rest)
      ∙ drop-drop (length pre) (length bytes) old
      ∙ ap (λ n. drop n old) (sym (length-append pre bytes)) in
    rw (take-append_length pre rest, tail, append_assoc)

take-nil : (n : ℕ) → ◌≡◌ {A = List ℕ} (take n []) []
take-nil zero = refl
take-nil (suc n) = refl

take_cons : (m x : ℕ) (suf : List ℕ) → 0 < m → take m (x ∷ suf) ≡ x ∷ take (m - 1) suf
take_cons zero x suf h = elim h [ ]
take_cons (suc m) x suf h = ap (λ k. x ∷ take k suf) (omega arith)

module _ {W : Type 0} (K : Kernel W) (content : Content W) (src dst : ℕ)
    (reads : Reads K content src) (writes : Writes K content dst) (apart : src ≢ dst) where
  read_chunk :
      (pre suf : List ℕ) (w : W)
      → content src w ≡ pre ++ suf
      → K.kernel_read src data_dim (length pre) w
        ≡ (ok (take (reads.amount data_dim (length pre) w) suf), w)
  read_chunk pre suf w e =
      reads.read data_dim (length pre) w
      ∙ ap (λ (c : List ℕ). (ok (take (reads.amount data_dim (length pre) w) c), w))
          (ap (drop (length pre)) e ∙ drop-append_length pre suf)

  write_chunk :
      (pre suf bytes old : List ℕ) (w : W)
      → content src w ≡ pre ++ suf
      → content dst w ≡ pre ++ drop (length pre) old
      → (K.kernel_write dst bytes (length pre) w
          ≡ (ok (length bytes), writes.after bytes (length pre) w))
        × (content src (writes.after bytes (length pre) w) ≡ pre ++ suf)
        × (content dst (writes.after bytes (length pre) w)
            ≡ (pre ++ bytes) ++ drop (length (pre ++ bytes)) old)
  write_chunk pre suf bytes old w e d =
      let fits : length pre ≤ length (content dst w) =
        omega (arith, ap length d, length-append pre (drop (length pre) old)) in
      (
        writes.write bytes (length pre) w fits,
        writes.others bytes (length pre) w src apart ∙ e,
        writes.written bytes (length pre) w fits
            ∙ ap
                (λ (c : List ℕ).
                  take (length pre) c ++ (bytes ++ drop (length pre + length bytes) c))
                d
            ∙ overwrite_next pre bytes old,
      )

  copy_loop-Copied :
      (fuel : ℕ) (pre suf old : List ℕ) (s : Sys W)
      → content src s.world ≡ pre ++ suf
      → content dst s.world ≡ pre ++ drop (length pre) old
      → length suf < fuel
      → Returns
          (Copied content dst (pre ++ suf) old s)
          (copy_loop K fuel src dst (length pre) (length pre) s)
  copy_loop-Copied zero pre suf old s e d h = absurd (omega arith)
  copy_loop-Copied (suc fuel) pre [] old s e d h =
      let (wrote, _, content') = write_chunk pre [] [] old s.world e d in
      rw
        (copy_last K fuel src dst s (read_chunk pre [] s.world e ∙ ap none_left (take-nil _)) wrote)
        (record {
          result = refl;
          copy = content' ∙ ap (λ p. p ++ drop (length p) old) refl;
          others = λ g ne. writes.others [] (length pre) s.world g ne;
          frame = refl;
        })
    where
      none_left : List ℕ → Result (List ℕ) × W
      none_left c = (ok c, s.world)
  copy_loop-Copied (suc fuel) pre (x ∷ suf) old s e d h =
      let m : ℕ = reads.amount data_dim (length pre) s.world in
      let some_read : 0 < m = reads.progress data_dim (length pre) s.world (omega arith) in
      let bytes : List ℕ = x ∷ take (m - 1) suf in
      let split : pre ++ x ∷ suf ≡ (pre ++ bytes) ++ drop (m - 1) suf =
        rw (append_assoc, take-append-drop) in
      let (wrote, e', d') = write_chunk pre (x ∷ suf) bytes old s.world e d in
      rw
        (
          copy_round K fuel src dst s
              (read_chunk pre (x ∷ suf) s.world e ∙ ap read_part (take_cons m x suf some_read))
              wrote,
          ← length-append pre bytes,
          split,
        )
        (Returns-mono _ _ _ (λ r t c. Copied-earlier c)
          (copy_loop-Copied fuel (pre ++ bytes) (drop (m - 1) suf) old
            (record s { world = writes.after bytes (length pre) s.world }) (e' ∙ split) d'
            (omega (arith, length-drop (m - 1) suf))))
    where
      read_part : List ℕ → Result (List ℕ) × W
      read_part c = (ok c, s.world)

      Copied-earlier :
          {bytes all : List ℕ} {r : Result (Unit {0})} {t : Sys W}
          → Copied content dst all old
              (record s { world = writes.after bytes (length pre) s.world })
              r
              t
          → Copied content dst all old s r t
      Copied-earlier {bytes} c = record {
        result = c.result;
        copy = c.copy;
        others = λ g ne. c.others g ne ∙ writes.others bytes (length pre) s.world g ne;
        frame = c.frame;
      }

-- With a kernel that grants the allocation and whose files work, `copy_file` ends within as many
-- rounds as the source has bytes, and one more. It reports success; the source's bytes stand at the
-- head of the destination, behind them what the destination had beyond that length; no other file
-- and no session changes.
pub copy_file-Copied :
    {W : Type 0} (K : Kernel W) (content : Content W) (src dst fuel : ℕ) (s : Sys W)
    → Reads K content src
    → Writes K content dst
    → KeepsFiles K content
    → src ≢ dst
    → (K.kmalloc s.world).0 ≡ true
    → length (content src s.world) < fuel
    → Returns
        (Copied content dst (content src s.world) (content dst s.world) s)
        (copy_file K fuel src dst s)
unfolding copy_file
copy_file-Copied K content src dst fuel s reads writes keeps apart got h =
    let s' : Sys _ = record s { world = (K.kmalloc s.world).1 } in
    rw got (
      Returns-mono (Copied content dst (content src s.world) (content dst s.world) s')
        (Copied content dst (content src s.world) (content dst s.world) s)
        (copy_loop K fuel src dst 0 0 s')
        (λ r t c. record {
          result = c.result;
          copy = c.copy;
          others = λ g ne. c.others g ne ∙ keeps.kmalloc g s.world;
          frame = c.frame;
        })
        (copy_loop-Copied K content src dst reads writes apart fuel [] (content src s.world)
          (content dst s.world) s' (keeps.kmalloc src s.world) (keeps.kmalloc dst s.world) h))

-- The same as an equation, for the callers.
pub copy_file-done :
    {W : Type 0} (K : Kernel W) (content : Content W) (src dst fuel : ℕ) (s : Sys W)
    → Reads K content src
    → Writes K content dst
    → KeepsFiles K content
    → src ≢ dst
    → (K.kmalloc s.world).0 ≡ true
    → length (content src s.world) < fuel
    → (w : W) × (copy_file K fuel src dst s ≡ done (ok tt) (record s { world = w }))
      × (content dst w
          ≡ content src s.world ++ drop (length (content src s.world)) (content dst s.world))
      × ((g : ℕ) → g ≢ dst → content g w ≡ content g s.world)
copy_file-done {W} K content src dst fuel s reads writes keeps apart got h =
    from (copy_file K fuel src dst s)
      (copy_file-Copied K content src dst fuel s reads writes keeps apart got h)
  where
    from :
        (r : Run (Sys W) (Result (Unit {0})))
        → Returns (Copied content dst (content src s.world) (content dst s.world) s) r
        → (w : W) × (r ≡ done (ok tt) (record s { world = w }))
          × (content dst w
              ≡ content src s.world ++ drop (length (content src s.world)) (content dst s.world))
          × ((g : ℕ) → g ≢ dst → content g w ≡ content g s.world)
    from (done r t) c = (t.world, ap₂ done c.result c.frame, c.copy, c.others)
    from fault c = absurd c
    from out_of_fuel c = absurd c
