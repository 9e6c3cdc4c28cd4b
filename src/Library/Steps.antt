-- ===== src/Library/Steps.antt =====
-- The single steps of the calls of shared_lib/libsessionfs.c.
use aosv.Base.{◌≡◌, ap, true, false, arith, leb, length}
use aosv.Base.Text.{FilePath}
use aosv.Kernel.Run.{Run, done, M, and_then}
use aosv.Library.Process.{Libc, Process, malloc, malloc_zeroed, in_buffer}

pub and_then-done :
    {S A B : Type 0} {r : Run S A} (k : A → M S B) {a : A} {s : S}
    → r ≡ done a s
    → and_then r k ≡ k a s
and_then-done k e = ap (λ r. and_then r k) e

module _ {W : Type 0} (L : Libc W) where
  -- Memory is granted.
  abbrev pub Grants : Type 0
  Grants = (w : W) → L.malloc w ≡ (true, w)

  pub malloc-Grants : (p : Process W) → Grants → malloc L p ≡ done true p
  unfolding malloc
  malloc-Grants p grants = ap (λ x. done x.0 (record p { world = x.1 })) (grants p.world)

  pub malloc_zeroed-Grants : (p : Process W) → Grants → malloc_zeroed L p ≡ done tt p
  unfolding malloc_zeroed
  malloc_zeroed-Grants p grants = and_then-done _ (malloc-Grants p grants)

  pub in_buffer_fits :
      (path : FilePath) (p : Process W)
      → leb L.path_max (length path) ≡ false
      → in_buffer L path p ≡ done path p
  unfolding in_buffer
  in_buffer_fits path p fits = ground (arith, fits)
