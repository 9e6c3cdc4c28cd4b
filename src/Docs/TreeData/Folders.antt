-- ===== src/Docs/TreeData/Folders.antt =====
-- The folders, and the lists of files and structures: dir_*.js, files_dup.js and annotated_dup.js of
-- docs/doxygen/html.
use aosv.Base.{[], ◌∷◌}
use aosv.Base.Text.{codes}
use aosv.Docs.Tree.{Entries, variable, listed}
use aosv.Docs.TreeData.Listing.{listing}

abbrev pub annotated_dup : Entries
annotated_dup = listing (
    (codes "incarnation", codes "structincarnation.html", variable (codes "structincarnation"))
    ∷ (codes "sess_info", codes "structsess__info.html", variable (codes "structsess__info"))
    ∷ (codes "sess_params", codes "structsess__params.html", variable (codes "structsess__params"))
    ∷ (codes "session", codes "structsession.html", variable (codes "structsession"))
    ∷ (codes "session_rcu", codes "structsession__rcu.html", variable (codes "structsession__rcu"))
    ∷ [])

abbrev pub dir_68267d1309a1af8e8297ef4c3efbcdba : Entries
dir_68267d1309a1af8e8297ef4c3efbcdba = listing (
    (
      codes "demo",
      codes "dir_ea2db1c5c9ef405bfa9ccf9d4f68ec9b.html",
      variable (codes "dir_ea2db1c5c9ef405bfa9ccf9d4f68ec9b"),
    )
    ∷ (
      codes "kmodule",
      codes "dir_b6e26c987379c818ae1a7be6334a2c88.html",
      variable (codes "dir_b6e26c987379c818ae1a7be6334a2c88"),
    )
    ∷ (
      codes "shared_lib",
      codes "dir_a63cefe7e6d9ee66e2cf48f8da64a394.html",
      variable (codes "dir_a63cefe7e6d9ee66e2cf48f8da64a394"),
    )
    ∷ [])

abbrev pub dir_a63cefe7e6d9ee66e2cf48f8da64a394 : Entries
dir_a63cefe7e6d9ee66e2cf48f8da64a394 = listing (
    (codes "libsessionfs.c", codes "libsessionfs_8c.html", variable (codes "libsessionfs_8c"))
    ∷ (codes "libsessionfs.h", codes "libsessionfs_8h.html", variable (codes "libsessionfs_8h"))
    ∷ [])

abbrev pub dir_b6e26c987379c818ae1a7be6334a2c88 : Entries
dir_b6e26c987379c818ae1a7be6334a2c88 = listing (
    (
      codes "device_sessionfs.c",
      codes "device__sessionfs_8c.html",
      variable (codes "device__sessionfs_8c"),
    )
    ∷ (
      codes "device_sessionfs.h",
      codes "device__sessionfs_8h.html",
      variable (codes "device__sessionfs_8h"),
    )
    ∷ (
      codes "device_sessionfs_mod.h",
      codes "device__sessionfs__mod_8h.html",
      variable (codes "device__sessionfs__mod_8h"),
    )
    ∷ (codes "module.c", codes "module_8c.html", variable (codes "module_8c"))
    ∷ (codes "session_info.c", codes "session__info_8c.html", variable (codes "session__info_8c"))
    ∷ (codes "session_info.h", codes "session__info_8h.html", variable (codes "session__info_8h"))
    ∷ (
      codes "session_manager.c",
      codes "session__manager_8c.html",
      variable (codes "session__manager_8c"),
    )
    ∷ (
      codes "session_manager.h",
      codes "session__manager_8h.html",
      variable (codes "session__manager_8h"),
    )
    ∷ (
      codes "session_types.h",
      codes "session__types_8h.html",
      listed (
          listing (
            (
              codes "incarnation",
              codes "structincarnation.html",
              variable (codes "structincarnation"),
            )
            ∷ (
              codes "sess_info",
              codes "structsess__info.html",
              variable (codes "structsess__info"),
            )
            ∷ (codes "session", codes "structsession.html", variable (codes "structsession"))
            ∷ (
              codes "session_rcu",
              codes "structsession__rcu.html",
              variable (codes "structsession__rcu"),
            )
            ∷ [])),
    )
    ∷ [])

abbrev pub dir_ea2db1c5c9ef405bfa9ccf9d4f68ec9b : Entries
dir_ea2db1c5c9ef405bfa9ccf9d4f68ec9b = listing (
    (
      codes "userspace_test.c",
      codes "userspace__test_8c.html",
      variable (codes "userspace__test_8c"),
    )
    ∷ [])

abbrev pub files_dup : Entries
files_dup = listing (
    (
      codes "src",
      codes "dir_68267d1309a1af8e8297ef4c3efbcdba.html",
      variable (codes "dir_68267d1309a1af8e8297ef4c3efbcdba"),
    )
    ∷ [])
