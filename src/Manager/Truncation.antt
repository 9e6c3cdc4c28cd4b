-- ===== src/Manager/Truncation.antt =====
-- `copy_file` of kmodule/session_manager.c over a longer file.
use mathlib.Core.List.{append-nil}
use aosv.Base.{
  ℕ, ◌≤◌, ◌<◌, ◌≡◌, ◌≢◌, ◌↔◌, ap, sym, ◌∙◌, true, List, ◌++◌, arith, length, drop, length-append,
  length-drop, drop_beyond,
}
use aosv.Kernel.{Kernel}
use aosv.Kernel.Run.{Returns, Returns-mono}
use aosv.Session.{Sys}
use aosv.Manager.Files.{copy_file}
use aosv.Manager.Copy.{Content, Reads, Writes, KeepsFiles, Copied, copy_file-Copied}

tail_empty :
    (bytes old : List ℕ) → (bytes ++ drop (length bytes) old ≡ bytes) ↔ (length old ≤ length bytes)
tail_empty bytes old = (
  λ e. omega (
    arith,
    ap length e,
    length-append bytes (drop (length bytes) old),
    length-drop (length bytes) old,
  ),
  λ h. ap (λ t. bytes ++ t) (drop_beyond (length bytes) old h) ∙ append-nil bytes,
)

-- On regular files, where the allocation succeeds and the fuel exceeds the source's length:
-- `copy_file` ends, and the destination then has the source's content exactly if it was not
-- longer than the source before.
pub copy_file-exact :
    {W : Type 0} (K : Kernel W) (content : Content W) (src dst fuel : ℕ) (s : Sys W)
    → Reads K content src
    → Writes K content dst
    → KeepsFiles K content
    → src ≢ dst
    → (K.kmalloc s.world).0 ≡ true
    → length (content src s.world) < fuel
    → Returns
        (λ r t.
          (content dst t.world ≡ content src s.world)
          ↔ (length (content dst s.world) ≤ length (content src s.world)))
        (copy_file K fuel src dst s)
copy_file-exact {W} K content src dst fuel s reads writes keeps apart got h =
    let bytes = content src s.world in
    let old = content dst s.world in
    Returns-mono (Copied content dst bytes old s)
      (λ r t. (content dst t.world ≡ bytes) ↔ (length old ≤ length bytes))
      (copy_file K fuel src dst s)
      (λ r t c.
        let (there, back) = tail_empty bytes old in
        (λ e. there (sym c.copy ∙ e), λ k. c.copy ∙ back k))
      (copy_file-Copied K content src dst fuel s reads writes keeps apart got h)
