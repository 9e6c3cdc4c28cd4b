-- ===== src/Docs/TreeData/Programs.antt =====
-- The files of the library and of the test program: libsessionfs_8*.js and userspace__test_8c.js of
-- docs/doxygen/html.
use aosv.Base.{[], ◌∷◌}
use aosv.Base.Text.{codes}
use aosv.Docs.Tree.{Entries, absent}
use aosv.Docs.TreeData.Listing.{listing}

abbrev pub libsessionfs_8c : Entries
libsessionfs_8c = listing (
    (codes "_GNU_SOURCE", codes "libsessionfs_8c.html#a369266c24eacffb87046522897a570d5", absent)
    ∷ (codes "DEV_PATH", codes "libsessionfs_8c.html#a671e6b4489b01d7f3c63372b1b89b232", absent)
    ∷ (
      codes "orig_close_type",
      codes "libsessionfs_8c.html#afd57398a9a2356f13cf5663553ddaf1e",
      absent,
    )
    ∷ (
      codes "orig_open_type",
      codes "libsessionfs_8c.html#a0858694d5a3751a361201f9bef715a9c",
      absent,
    )
    ∷ (
      codes "__attribute__",
      codes "libsessionfs_8c.html#a9ed16867a9394d9ccf1132194edae298",
      absent,
    )
    ∷ (codes "close", codes "libsessionfs_8c.html#aafbcde67669a1b96577e735ddebd8634", absent)
    ∷ (
      codes "device_shutdown",
      codes "libsessionfs_8c.html#a90056fe0af1a3324f823b6d9424a1824",
      absent,
    )
    ∷ (
      codes "get_sess_path",
      codes "libsessionfs_8c.html#a4b449d2d0c21aa6c56e395ed6b302e94",
      absent,
    )
    ∷ (codes "open", codes "libsessionfs_8c.html#a079d60801c18155ac2ec1707b56867fb", absent)
    ∷ (
      codes "write_sess_path",
      codes "libsessionfs_8c.html#adda2f64738511a6b0b415abb239c83b9",
      absent,
    )
    ∷ (codes "orig_close", codes "libsessionfs_8c.html#a798c4efbbbfe1f6f4567f14b9e362382", absent)
    ∷ (codes "orig_open", codes "libsessionfs_8c.html#a0098a24291249185933b54ee419ddaae", absent)
    ∷ [])

abbrev pub libsessionfs_8h : Entries
libsessionfs_8h = listing (
    (
      codes "device_shutdown",
      codes "libsessionfs_8h.html#a90056fe0af1a3324f823b6d9424a1824",
      absent,
    )
    ∷ (
      codes "get_sess_path",
      codes "libsessionfs_8h.html#a4b449d2d0c21aa6c56e395ed6b302e94",
      absent,
    )
    ∷ (
      codes "write_sess_path",
      codes "libsessionfs_8h.html#adda2f64738511a6b0b415abb239c83b9",
      absent,
    )
    ∷ [])

abbrev pub userspace_test_8c : Entries
userspace_test_8c = listing (
    (
      codes "DEFAULT_PERM",
      codes "userspace__test_8c.html#ae93be9f917eb7dbc1863a710f7a7b0bc",
      absent,
    )
    ∷ (
      codes "change_sess_path",
      codes "userspace__test_8c.html#a8fb0a3225a9c074550158687a7f46cb2",
      absent,
    )
    ∷ (codes "fork_test", codes "userspace__test_8c.html#afa4dca6f8131bb0e05d21abae9f807d1", absent)
    ∷ (codes "func_test", codes "userspace__test_8c.html#a1de5516a7893ff3ea277a8c976417bd7", absent)
    ∷ (codes "main", codes "userspace__test_8c.html#a3c04138a5bfe5d72780bb7e82a18e627", absent)
    ∷ (
      codes "sess_change_test",
      codes "userspace__test_8c.html#a4c29ab7f6b8f2458ef512e767c260daf",
      absent,
    )
    ∷ [])
