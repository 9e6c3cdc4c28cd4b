-- ===== src/Library/Names.antt =====
-- The names of incarnations: made by `create_incarnation` of kmodule/session_manager.c, recognised by
-- `close` of shared_lib/libsessionfs.c.
use aosv.Base.{ℕ, ◌≢◌, ◌∷◌, ◌++◌, All}
use aosv.Base.Text.{FilePath, codes, decimal}
use aosv.Kernel.{Kernel}

abbrev HasNo : ℕ → FilePath → Type 0
HasNo i s = All (λ c. c ≢ i) s

-- "_incarnation_%d" without the last '_'.
abbrev tag_start : ℕ → FilePath
tag_start pid = codes "incarnation_" ++ decimal pid

abbrev full_name : FilePath → ℕ → ℕ → FilePath
full_name path pid now = path ++ (codes "_incarnation_" ++ (decimal pid ++ (b'_' ∷ decimal now)))

-- The name where the full one is too long.
abbrev var_tmp_name : ℕ → ℕ → FilePath
var_tmp_name pid now = codes "/var/tmp/" ++ (decimal pid ++ (b'_' ∷ decimal now))
