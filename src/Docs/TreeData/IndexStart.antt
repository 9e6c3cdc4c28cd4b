-- ===== src/Docs/TreeData/IndexStart.antt =====
-- docs/doxygen/html/navtreeindex0.js, the first half: the places of the addresses in the tree.
use aosv.Base.{ℕ, List, [], ◌∷◌}
use aosv.Base.Text.{codes}
use aosv.Docs.Text.{Text}

abbrev pub navtreeindex0_start : List (Text × List ℕ)
navtreeindex0_start =
    (codes "annotated.html", 1 ∷ 0 ∷ [])
    ∷ (codes "classes.html", 1 ∷ 1 ∷ [])
    ∷ (codes "device__sessionfs_8c.html", 2 ∷ 0 ∷ 0 ∷ 1 ∷ 0 ∷ [])
    ∷ (
      codes "device__sessionfs_8c.html#a05060cdcff0a75b56ac633165c824f1f",
      2 ∷ 0 ∷ 0 ∷ 1 ∷ 0 ∷ 14 ∷ [],
    )
    ∷ (
      codes "device__sessionfs_8c.html#a0795adbd1769bd5aa787af11b811c556",
      2 ∷ 0 ∷ 0 ∷ 1 ∷ 0 ∷ 15 ∷ [],
    )
    ∷ (
      codes "device__sessionfs_8c.html#a17d464f6af03df59ad31c4573d0ab986",
      2 ∷ 0 ∷ 0 ∷ 1 ∷ 0 ∷ 4 ∷ [],
    )
    ∷ (
      codes "device__sessionfs_8c.html#a2d6bff2892b490d459e42974bfd4be12",
      2 ∷ 0 ∷ 0 ∷ 1 ∷ 0 ∷ 5 ∷ [],
    )
    ∷ (
      codes "device__sessionfs_8c.html#a4be514d9f1ccca772b15a5e8276c0c01",
      2 ∷ 0 ∷ 0 ∷ 1 ∷ 0 ∷ 7 ∷ [],
    )
    ∷ (
      codes "device__sessionfs_8c.html#a4f3fa11e6bd83d4af980010de40fbdae",
      2 ∷ 0 ∷ 0 ∷ 1 ∷ 0 ∷ 1 ∷ [],
    )
    ∷ (
      codes "device__sessionfs_8c.html#a569cfaa35009e80bc8a86dcf868e9e2a",
      2 ∷ 0 ∷ 0 ∷ 1 ∷ 0 ∷ 12 ∷ [],
    )
    ∷ (
      codes "device__sessionfs_8c.html#a72e3cac371d57c08b7a62d2cb9e13fb3",
      2 ∷ 0 ∷ 0 ∷ 1 ∷ 0 ∷ 3 ∷ [],
    )
    ∷ (
      codes "device__sessionfs_8c.html#a7af4c558aec9e65fa23bd24be6a19010",
      2 ∷ 0 ∷ 0 ∷ 1 ∷ 0 ∷ 0 ∷ [],
    )
    ∷ (
      codes "device__sessionfs_8c.html#a86711996bfb8c8c9183a4c3307f5eee6",
      2 ∷ 0 ∷ 0 ∷ 1 ∷ 0 ∷ 9 ∷ [],
    )
    ∷ (
      codes "device__sessionfs_8c.html#a88bd4adb20dc9040ae78f5b4036b61ab",
      2 ∷ 0 ∷ 0 ∷ 1 ∷ 0 ∷ 6 ∷ [],
    )
    ∷ (
      codes "device__sessionfs_8c.html#a8ab23f5c031b69df871df61635ae3433",
      2 ∷ 0 ∷ 0 ∷ 1 ∷ 0 ∷ 11 ∷ [],
    )
    ∷ (
      codes "device__sessionfs_8c.html#a9af67eda7c8791e6f01c28baed4b892e",
      2 ∷ 0 ∷ 0 ∷ 1 ∷ 0 ∷ 13 ∷ [],
    )
    ∷ (
      codes "device__sessionfs_8c.html#a9b74fe6d4d3e403eb54f84a6310bfbf8",
      2 ∷ 0 ∷ 0 ∷ 1 ∷ 0 ∷ 16 ∷ [],
    )
    ∷ (
      codes "device__sessionfs_8c.html#ac7ee6e3825fe5ac77a75a42e4da28843",
      2 ∷ 0 ∷ 0 ∷ 1 ∷ 0 ∷ 8 ∷ [],
    )
    ∷ (
      codes "device__sessionfs_8c.html#acf6a82c73e7a9d99293d9ce0b8837faf",
      2 ∷ 0 ∷ 0 ∷ 1 ∷ 0 ∷ 10 ∷ [],
    )
    ∷ (
      codes "device__sessionfs_8c.html#ad510090960213c39707943136cd28a32",
      2 ∷ 0 ∷ 0 ∷ 1 ∷ 0 ∷ 2 ∷ [],
    )
    ∷ (
      codes "device__sessionfs_8c.html#ade57e23a26963004ebf1cbcc05b825ed",
      2 ∷ 0 ∷ 0 ∷ 1 ∷ 0 ∷ 17 ∷ [],
    )
    ∷ (codes "device__sessionfs_8h.html", 2 ∷ 0 ∷ 0 ∷ 1 ∷ 1 ∷ [])
    ∷ (
      codes "device__sessionfs_8h.html#a0e1fd8673bffdf4a406b5c119e542bdd",
      2 ∷ 0 ∷ 0 ∷ 1 ∷ 1 ∷ 9 ∷ [],
    )
    ∷ (
      codes "device__sessionfs_8h.html#a572282928d464e8d81b724eefce60509",
      2 ∷ 0 ∷ 0 ∷ 1 ∷ 1 ∷ 11 ∷ [],
    )
    ∷ (
      codes "device__sessionfs_8h.html#a5f5a2c9450ebc584b4fe743c6b1a280b",
      2 ∷ 0 ∷ 0 ∷ 1 ∷ 1 ∷ 2 ∷ [],
    )
    ∷ (
      codes "device__sessionfs_8h.html#a6100134634836ba2329f3da20696ff46",
      2 ∷ 0 ∷ 0 ∷ 1 ∷ 1 ∷ 10 ∷ [],
    )
    ∷ (
      codes "device__sessionfs_8h.html#a7308a2976243cacd2a6e67cf778b6bac",
      2 ∷ 0 ∷ 0 ∷ 1 ∷ 1 ∷ 3 ∷ [],
    )
    ∷ (
      codes "device__sessionfs_8h.html#a79f2713d570c7065f61a160134ea765b",
      2 ∷ 0 ∷ 0 ∷ 1 ∷ 1 ∷ 1 ∷ [],
    )
    ∷ (
      codes "device__sessionfs_8h.html#a93883829481d6ee1889e1d112de35539",
      2 ∷ 0 ∷ 0 ∷ 1 ∷ 1 ∷ 6 ∷ [],
    )
    ∷ (
      codes "device__sessionfs_8h.html#aaf4f74a739a2b934f13ece487d9760d9",
      2 ∷ 0 ∷ 0 ∷ 1 ∷ 1 ∷ 5 ∷ [],
    )
    ∷ (
      codes "device__sessionfs_8h.html#abb7e01390a965ee816c314ea918552d1",
      2 ∷ 0 ∷ 0 ∷ 1 ∷ 1 ∷ 8 ∷ [],
    )
    ∷ (
      codes "device__sessionfs_8h.html#ac39fa745d11d96b545af1516acfbf5cc",
      2 ∷ 0 ∷ 0 ∷ 1 ∷ 1 ∷ 4 ∷ [],
    )
    ∷ (
      codes "device__sessionfs_8h.html#ae2ad458a991106f7ca77b27d255735ca",
      2 ∷ 0 ∷ 0 ∷ 1 ∷ 1 ∷ 7 ∷ [],
    )
    ∷ (codes "device__sessionfs__mod_8h.html", 2 ∷ 0 ∷ 0 ∷ 1 ∷ 2 ∷ [])
    ∷ (
      codes "device__sessionfs__mod_8h.html#a88bd4adb20dc9040ae78f5b4036b61ab",
      2 ∷ 0 ∷ 0 ∷ 1 ∷ 2 ∷ 0 ∷ [],
    )
    ∷ (
      codes "device__sessionfs__mod_8h.html#ac7ee6e3825fe5ac77a75a42e4da28843",
      2 ∷ 0 ∷ 0 ∷ 1 ∷ 2 ∷ 1 ∷ [],
    )
    ∷ (
      codes "device__sessionfs__mod_8h.html#ade57e23a26963004ebf1cbcc05b825ed",
      2 ∷ 0 ∷ 0 ∷ 1 ∷ 2 ∷ 2 ∷ [],
    )
    ∷ (codes "dir_68267d1309a1af8e8297ef4c3efbcdba.html", 2 ∷ 0 ∷ 0 ∷ [])
    ∷ (codes "dir_a63cefe7e6d9ee66e2cf48f8da64a394.html", 2 ∷ 0 ∷ 0 ∷ 2 ∷ [])
    ∷ (codes "dir_b6e26c987379c818ae1a7be6334a2c88.html", 2 ∷ 0 ∷ 0 ∷ 1 ∷ [])
    ∷ (codes "dir_ea2db1c5c9ef405bfa9ccf9d4f68ec9b.html", 2 ∷ 0 ∷ 0 ∷ 0 ∷ [])
    ∷ (codes "files.html", 2 ∷ 0 ∷ [])
    ∷ (codes "globals.html", 2 ∷ 1 ∷ 0 ∷ [])
    ∷ (codes "globals_defs.html", 2 ∷ 1 ∷ 4 ∷ [])
    ∷ (codes "globals_func.html", 2 ∷ 1 ∷ 1 ∷ [])
    ∷ (codes "globals_type.html", 2 ∷ 1 ∷ 3 ∷ [])
    ∷ (codes "globals_vars.html", 2 ∷ 1 ∷ 2 ∷ [])
    ∷ (codes "index.html", [])
    ∷ (codes "index.html", 0 ∷ [])
    ∷ (codes "index.html#autotoc_md0", 0 ∷ 0 ∷ [])
    ∷ (codes "index.html#autotoc_md1", 0 ∷ 1 ∷ [])
    ∷ (codes "index.html#autotoc_md10", 0 ∷ 2 ∷ 1 ∷ 1 ∷ [])
    ∷ (codes "index.html#autotoc_md11", 0 ∷ 2 ∷ 1 ∷ 2 ∷ [])
    ∷ (codes "index.html#autotoc_md12", 0 ∷ 2 ∷ 1 ∷ 3 ∷ [])
    ∷ (codes "index.html#autotoc_md13", 0 ∷ 3 ∷ [])
    ∷ (codes "index.html#autotoc_md14", 0 ∷ 4 ∷ [])
    ∷ (codes "index.html#autotoc_md2", 0 ∷ 2 ∷ [])
    ∷ (codes "index.html#autotoc_md3", 0 ∷ 2 ∷ 0 ∷ [])
    ∷ (codes "index.html#autotoc_md4", 0 ∷ 2 ∷ 0 ∷ 0 ∷ [])
    ∷ (codes "index.html#autotoc_md5", 0 ∷ 2 ∷ 0 ∷ 1 ∷ [])
    ∷ (codes "index.html#autotoc_md6", 0 ∷ 2 ∷ 0 ∷ 2 ∷ [])
    ∷ (codes "index.html#autotoc_md7", 0 ∷ 2 ∷ 0 ∷ 3 ∷ [])
    ∷ (codes "index.html#autotoc_md8", 0 ∷ 2 ∷ 1 ∷ [])
    ∷ (codes "index.html#autotoc_md9", 0 ∷ 2 ∷ 1 ∷ 0 ∷ [])
    ∷ (codes "libsessionfs_8c.html", 2 ∷ 0 ∷ 0 ∷ 2 ∷ 0 ∷ [])
    ∷ (codes "libsessionfs_8c.html#a0098a24291249185933b54ee419ddaae", 2 ∷ 0 ∷ 0 ∷ 2 ∷ 0 ∷ 11 ∷ [])
    ∷ (codes "libsessionfs_8c.html#a079d60801c18155ac2ec1707b56867fb", 2 ∷ 0 ∷ 0 ∷ 2 ∷ 0 ∷ 8 ∷ [])
    ∷ (codes "libsessionfs_8c.html#a0858694d5a3751a361201f9bef715a9c", 2 ∷ 0 ∷ 0 ∷ 2 ∷ 0 ∷ 3 ∷ [])
    ∷ (codes "libsessionfs_8c.html#a369266c24eacffb87046522897a570d5", 2 ∷ 0 ∷ 0 ∷ 2 ∷ 0 ∷ 0 ∷ [])
    ∷ (codes "libsessionfs_8c.html#a4b449d2d0c21aa6c56e395ed6b302e94", 2 ∷ 0 ∷ 0 ∷ 2 ∷ 0 ∷ 7 ∷ [])
    ∷ (codes "libsessionfs_8c.html#a671e6b4489b01d7f3c63372b1b89b232", 2 ∷ 0 ∷ 0 ∷ 2 ∷ 0 ∷ 1 ∷ [])
    ∷ (codes "libsessionfs_8c.html#a798c4efbbbfe1f6f4567f14b9e362382", 2 ∷ 0 ∷ 0 ∷ 2 ∷ 0 ∷ 10 ∷ [])
    ∷ (codes "libsessionfs_8c.html#a90056fe0af1a3324f823b6d9424a1824", 2 ∷ 0 ∷ 0 ∷ 2 ∷ 0 ∷ 6 ∷ [])
    ∷ (codes "libsessionfs_8c.html#a9ed16867a9394d9ccf1132194edae298", 2 ∷ 0 ∷ 0 ∷ 2 ∷ 0 ∷ 4 ∷ [])
    ∷ (codes "libsessionfs_8c.html#aafbcde67669a1b96577e735ddebd8634", 2 ∷ 0 ∷ 0 ∷ 2 ∷ 0 ∷ 5 ∷ [])
    ∷ (codes "libsessionfs_8c.html#adda2f64738511a6b0b415abb239c83b9", 2 ∷ 0 ∷ 0 ∷ 2 ∷ 0 ∷ 9 ∷ [])
    ∷ (codes "libsessionfs_8c.html#afd57398a9a2356f13cf5663553ddaf1e", 2 ∷ 0 ∷ 0 ∷ 2 ∷ 0 ∷ 2 ∷ [])
    ∷ (codes "libsessionfs_8h.html", 2 ∷ 0 ∷ 0 ∷ 2 ∷ 1 ∷ [])
    ∷ (codes "libsessionfs_8h.html#a4b449d2d0c21aa6c56e395ed6b302e94", 2 ∷ 0 ∷ 0 ∷ 2 ∷ 1 ∷ 1 ∷ [])
    ∷ (codes "libsessionfs_8h.html#a90056fe0af1a3324f823b6d9424a1824", 2 ∷ 0 ∷ 0 ∷ 2 ∷ 1 ∷ 0 ∷ [])
    ∷ (codes "libsessionfs_8h.html#adda2f64738511a6b0b415abb239c83b9", 2 ∷ 0 ∷ 0 ∷ 2 ∷ 1 ∷ 2 ∷ [])
    ∷ (codes "module_8c.html", 2 ∷ 0 ∷ 0 ∷ 1 ∷ 3 ∷ [])
    ∷ (codes "module_8c.html#a02b2f06e7d71fe8091a239b25581c533", 2 ∷ 0 ∷ 0 ∷ 1 ∷ 3 ∷ 2 ∷ [])
    ∷ (codes "module_8c.html#a1c2693409bb7ab402af83adf6dbffbf3", 2 ∷ 0 ∷ 0 ∷ 1 ∷ 3 ∷ 6 ∷ [])
    ∷ (codes "module_8c.html#a6f6010771c68300354a881776abb2bad", 2 ∷ 0 ∷ 0 ∷ 1 ∷ 3 ∷ 0 ∷ [])
    ∷ (codes "module_8c.html#a72273bbc9a0083e411213b8cf3551ae8", 2 ∷ 0 ∷ 0 ∷ 1 ∷ 3 ∷ 1 ∷ [])
    ∷ (codes "module_8c.html#a94716498ea965ce9e6e3bc9163843b65", 2 ∷ 0 ∷ 0 ∷ 1 ∷ 3 ∷ 7 ∷ [])
    ∷ (codes "module_8c.html#ab0040cb13370497aefd8e368f1c49faa", 2 ∷ 0 ∷ 0 ∷ 1 ∷ 3 ∷ 3 ∷ [])
    ∷ (codes "module_8c.html#abd810a6f947c3b87a782a9aad746eef3", 2 ∷ 0 ∷ 0 ∷ 1 ∷ 3 ∷ 9 ∷ [])
    ∷ (codes "module_8c.html#ac29862a943adba3784f5d4b564ee8168", 2 ∷ 0 ∷ 0 ∷ 1 ∷ 3 ∷ 5 ∷ [])
    ∷ (codes "module_8c.html#ad94b36675e7eb067ea3ce6ff9e244a44", 2 ∷ 0 ∷ 0 ∷ 1 ∷ 3 ∷ 4 ∷ [])
    ∷ (codes "module_8c.html#af4b79167ea5472e999750f3f28dd0f74", 2 ∷ 0 ∷ 0 ∷ 1 ∷ 3 ∷ 8 ∷ [])
    ∷ (codes "pages.html", [])
    ∷ []
