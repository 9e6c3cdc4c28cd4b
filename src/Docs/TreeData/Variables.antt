-- ===== src/Docs/TreeData/Variables.antt =====
-- The variables that the scripts of the tree define, and the whole index.
use aosv.Base.{ℕ, zero, suc, List, [], ◌∷◌, ◌++◌, Option, none, some, if◌then◌else◌}
use aosv.Base.Text.{codes, same_text}
use aosv.Docs.Text.{Text}
use aosv.Docs.Tree.{Entries}
use aosv.Docs.Links.{data_name}
use aosv.Docs.TreeData.Structs.{
  device_sessionfs_8h_structsess_params, session_types_8h_structincarnation,
  session_types_8h_structsess_info, session_types_8h_structsession,
  session_types_8h_structsession_rcu, structincarnation, structsess_info, structsess_params,
  structsession, structsession_rcu,
}
use aosv.Docs.TreeData.Folders.{
  annotated_dup, dir_68267d1309a1af8e8297ef4c3efbcdba, dir_a63cefe7e6d9ee66e2cf48f8da64a394,
  dir_b6e26c987379c818ae1a7be6334a2c88, dir_ea2db1c5c9ef405bfa9ccf9d4f68ec9b, files_dup,
}
use aosv.Docs.TreeData.Module.{
  device_sessionfs_8c, device_sessionfs_8h, device_sessionfs_mod_8h, module_8c,
}
use aosv.Docs.TreeData.Sessions.{
  session_info_8c, session_info_8h, session_manager_8c, session_manager_8h,
}
use aosv.Docs.TreeData.Programs.{libsessionfs_8c, libsessionfs_8h, userspace_test_8c}
use aosv.Docs.TreeData.IndexStart.{navtreeindex0_start}
use aosv.Docs.TreeData.IndexRest.{navtreeindex0_rest}

-- The value of a key; the last one counts where a key stands twice, as "index.html" does in the index.
unfoldable pub lookup : {A : Type 0} → List (Text × A) → Text → Option A
lookup [] key = none
lookup ((k, a) ∷ rest) key = elim (lookup rest key) [
  | some b ↦ some b
  | none ↦ if same_text k key then some a else none
]

abbrev scripts : List (Text × Entries)
scripts =
    (codes "device__sessionfs_8h_structsess__params", device_sessionfs_8h_structsess_params)
    ∷ (codes "session__types_8h_structincarnation", session_types_8h_structincarnation)
    ∷ (codes "session__types_8h_structsess__info", session_types_8h_structsess_info)
    ∷ (codes "session__types_8h_structsession", session_types_8h_structsession)
    ∷ (codes "session__types_8h_structsession__rcu", session_types_8h_structsession_rcu)
    ∷ (codes "structincarnation", structincarnation)
    ∷ (codes "structsess__info", structsess_info)
    ∷ (codes "structsess__params", structsess_params)
    ∷ (codes "structsession", structsession)
    ∷ (codes "structsession__rcu", structsession_rcu)
    ∷ (codes "annotated_dup", annotated_dup)
    ∷ (codes "dir_68267d1309a1af8e8297ef4c3efbcdba", dir_68267d1309a1af8e8297ef4c3efbcdba)
    ∷ (codes "dir_a63cefe7e6d9ee66e2cf48f8da64a394", dir_a63cefe7e6d9ee66e2cf48f8da64a394)
    ∷ (codes "dir_b6e26c987379c818ae1a7be6334a2c88", dir_b6e26c987379c818ae1a7be6334a2c88)
    ∷ (codes "dir_ea2db1c5c9ef405bfa9ccf9d4f68ec9b", dir_ea2db1c5c9ef405bfa9ccf9d4f68ec9b)
    ∷ (codes "files_dup", files_dup)
    ∷ (codes "device__sessionfs_8c", device_sessionfs_8c)
    ∷ (codes "device__sessionfs_8h", device_sessionfs_8h)
    ∷ (codes "device__sessionfs__mod_8h", device_sessionfs_mod_8h)
    ∷ (codes "module_8c", module_8c)
    ∷ (codes "session__info_8c", session_info_8c)
    ∷ (codes "session__info_8h", session_info_8h)
    ∷ (codes "session__manager_8c", session_manager_8c)
    ∷ (codes "session__manager_8h", session_manager_8h)
    ∷ (codes "libsessionfs_8c", libsessionfs_8c)
    ∷ (codes "libsessionfs_8h", libsessionfs_8h)
    ∷ (codes "userspace__test_8c", userspace_test_8c)
    ∷ []

-- The variable that `getData` evaluates, once its script is there.
unfoldable pub variables : Text → Option Entries
unfolding lookup data_name
variables var_name = lookup scripts (data_name var_name)

abbrev pub navtreeindex0 : List (Text × List ℕ)
navtreeindex0 = navtreeindex0_start ++ navtreeindex0_rest

-- The one part of the index.
abbrev pub sub_indices : ℕ → Option (Text → Option (List ℕ))
sub_indices zero = some (lookup navtreeindex0)
sub_indices (suc i) = none
