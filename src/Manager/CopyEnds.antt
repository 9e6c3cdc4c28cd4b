-- ===== src/Manager/CopyEnds.antt =====
-- The end of `copy_file` of kmodule/session_manager.c on all its branches, where nothing is known of
-- the file that it writes.
use aosv.Base.{
  ℕ, zero, suc, ◌+◌, ◌≤◌, ◌<◌, ◌≡◌, refl, sym, ap, ◌∙◌, subst, List, [], ◌∷◌, arith, length, take,
  drop, length-take_le, length-drop,
}
use aosv.Kernel.{Kernel, Result, ok, err}
use aosv.Kernel.Run.{Run, done, fault, out_of_fuel, M, and_then, Returns}
use aosv.Session.{Sys}
use aosv.Manager.Files.{data_dim, copy_loop, copy_file}
use aosv.Manager.Copy.{Content, Reads, copy_last, copy_round, copy_read_error, copy_write_error}

-- Only the rest of the kernel has changed.
abbrev pub SameSys : {W : Type 0} → Sys W → Sys W → Type 0
SameSys s t = t ≡ record s { world = t.world }

module _ {W A B : Type 0} where
  pub same_then :
      (Q : B → Sys W → Type 0) (r : Run (Sys W) A) (k : A → M (Sys W) B) (s : Sys W)
      → Returns (λ _ t. SameSys s t) r
      → ((a : A) (w : W) → Returns Q (k a (record s { world = w })))
      → Returns Q (and_then r k)
  same_then Q (done a t) k s h f = subst (λ u. Returns Q (k a u)) (sym h) (f a t.world)
  same_then Q fault k s h f = absurd h
  same_then Q out_of_fuel k s h f = absurd h

-- A copy out of `src` ends, whatever it meets.
abbrev pub CopyReturns : {W : Type 0} → Kernel W → ℕ → ℕ → Type 0
CopyReturns {W} K fuel src =
    (dst : ℕ) (s : Sys W) → Returns (λ _ t. SameSys s t) (copy_file K fuel src dst s)

module _ {W : Type 0} (K : Kernel W) (content : Content W) (src n : ℕ) (reads : Reads K content src)
    (bounded : (w : W) → length (content src w) ≤ n) where
  read_in_file :
      {off : ℕ} {bytes : List ℕ} {v w : W}
      → off ≤ n
      → K.kernel_read src data_dim off w ≡ (ok bytes, v)
      → off + length bytes ≤ n
  read_in_file {off} {bytes} {v} {w} h r =
      let m = reads.amount data_dim off w in
      let e : bytes ≡ take m (drop off (content src w)) =
        ap bytes_of (sym r ∙ reads.read data_dim off w) in
      omega (
        arith,
        ap length e,
        length-take_le m (drop off (content src w)),
        length-drop off (content src w),
        bounded w,
      )
    where
      bytes_of : Result (List ℕ) × W → List ℕ
      bytes_of (ok b, _) = b
      bytes_of (err _, _) = []

  copy_loop-SameSys :
      (fuel dst offr offw : ℕ) (s : Sys W)
      → offr ≤ n
      → n < fuel + offr
      → Returns (λ _ t. SameSys s t) (copy_loop K fuel src dst offr offw s)
  copy_loop-SameSys zero dst offr offw s h k = absurd (omega arith)
  copy_loop-SameSys (suc fuel) dst offr offw s h k =
      go (K.kernel_read src data_dim offr s.world).0 _ refl
        (λ a b w. copy_loop-SameSys fuel dst a b (record s { world = w }))
    where
      P : Run (Sys W) (Result (Unit {0})) → Type 0
      P = Returns (λ _ t. SameSys s t)

      Rest : Type 0
      Rest =
          (a b : ℕ) (u : W)
          → a ≤ n
          → n < fuel + a
          → P (copy_loop K fuel src dst a b (record s { world = u }))

      wrote :
          (bytes : List ℕ) (v : W) (y : Result ℕ) (w : W)
          → K.kernel_read src data_dim offr s.world ≡ (ok bytes, v)
          → K.kernel_write dst bytes offw v ≡ (y, w)
          → Rest
          → P (copy_loop K (suc fuel) src dst offr offw s)
      wrote bytes v (err e) w r q ih = subst P (sym (copy_write_error K fuel src dst s r q)) refl
      wrote [] v (ok m) w r q ih = subst P (sym (copy_last K fuel src dst s r q)) refl
      wrote (b ∷ rest) v (ok m) w r q ih =
          subst P (sym (copy_round K fuel src dst s r q))
            (ih _ _ w (read_in_file h r) (omega arith))

      go :
          (x : Result (List ℕ)) (v : W)
          → K.kernel_read src data_dim offr s.world ≡ (x, v)
          → Rest
          → P (copy_loop K (suc fuel) src dst offr offw s)
      go (err e) v r ih = subst P (sym (copy_read_error K fuel src dst offw s r)) refl
      go (ok bytes) v r ih = wrote bytes v (K.kernel_write dst bytes offw v).0 _ r refl ih

  -- No copy out of a file that never has more than `n` bytes takes more than `n + 1` rounds.
  pub copy_file-CopyReturns : (fuel : ℕ) → n < fuel → CopyReturns K fuel src
  unfolding copy_file
  copy_file-CopyReturns fuel h dst s = ground (
    arith,
    copy_loop-SameSys fuel dst 0 0 (record s { world = (K.kmalloc s.world).1 }) (omega arith)
        (omega arith),
  )
