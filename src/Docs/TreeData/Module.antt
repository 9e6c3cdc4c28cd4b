-- ===== src/Docs/TreeData/Module.antt =====
-- The files of the device and of the module: device__*_8*.js and module_8c.js of docs/doxygen/html.
use aosv.Base.{[], ◌∷◌}
use aosv.Base.Text.{codes}
use aosv.Docs.Tree.{Entries, absent, variable}
use aosv.Docs.TreeData.Listing.{listing}

abbrev pub device_sessionfs_8c : Entries
device_sessionfs_8c = listing (
    (
      codes "DEFAULT_SESS_PATH",
      codes "device__sessionfs_8c.html#a7af4c558aec9e65fa23bd24be6a19010",
      absent,
    )
    ∷ (
      codes "DEVICE_DISABLED",
      codes "device__sessionfs_8c.html#a4f3fa11e6bd83d4af980010de40fbdae",
      absent,
    )
    ∷ (codes "PATH_OK", codes "device__sessionfs_8c.html#ad510090960213c39707943136cd28a32", absent)
    ∷ (
      codes "device_ioctl",
      codes "device__sessionfs_8c.html#a72e3cac371d57c08b7a62d2cb9e13fb3",
      absent,
    )
    ∷ (
      codes "device_read",
      codes "device__sessionfs_8c.html#a17d464f6af03df59ad31c4573d0ab986",
      absent,
    )
    ∷ (
      codes "device_write",
      codes "device__sessionfs_8c.html#a2d6bff2892b490d459e42974bfd4be12",
      absent,
    )
    ∷ (
      codes "init_device",
      codes "device__sessionfs_8c.html#a88bd4adb20dc9040ae78f5b4036b61ab",
      absent,
    )
    ∷ (
      codes "path_check",
      codes "device__sessionfs_8c.html#a4be514d9f1ccca772b15a5e8276c0c01",
      absent,
    )
    ∷ (
      codes "release_device",
      codes "device__sessionfs_8c.html#ac7ee6e3825fe5ac77a75a42e4da28843",
      absent,
    )
    ∷ (
      codes "sessionfs_devnode",
      codes "device__sessionfs_8c.html#a86711996bfb8c8c9183a4c3307f5eee6",
      absent,
    )
    ∷ (codes "dev", codes "device__sessionfs_8c.html#acf6a82c73e7a9d99293d9ce0b8837faf", absent)
    ∷ (
      codes "dev_class",
      codes "device__sessionfs_8c.html#a8ab23f5c031b69df871df61635ae3433",
      absent,
    )
    ∷ (
      codes "dev_lock",
      codes "device__sessionfs_8c.html#a569cfaa35009e80bc8a86dcf868e9e2a",
      absent,
    )
    ∷ (codes "dev_ops", codes "device__sessionfs_8c.html#a9af67eda7c8791e6f01c28baed4b892e", absent)
    ∷ (
      codes "device_status",
      codes "device__sessionfs_8c.html#a05060cdcff0a75b56ac633165c824f1f",
      absent,
    )
    ∷ (
      codes "path_len",
      codes "device__sessionfs_8c.html#a0795adbd1769bd5aa787af11b811c556",
      absent,
    )
    ∷ (
      codes "refcount",
      codes "device__sessionfs_8c.html#a9b74fe6d4d3e403eb54f84a6310bfbf8",
      absent,
    )
    ∷ (
      codes "sess_path",
      codes "device__sessionfs_8c.html#ade57e23a26963004ebf1cbcc05b825ed",
      absent,
    )
    ∷ [])

abbrev pub device_sessionfs_8h : Entries
device_sessionfs_8h = listing (
    (codes "sess_params", codes "structsess__params.html", variable (codes "structsess__params"))
    ∷ (
      codes "CLASS_NAME",
      codes "device__sessionfs_8h.html#a79f2713d570c7065f61a160134ea765b",
      absent,
    )
    ∷ (
      codes "DEVICE_NAME",
      codes "device__sessionfs_8h.html#a5f5a2c9450ebc584b4fe743c6b1a280b",
      absent,
    )
    ∷ (
      codes "IOCTL_CLOSE_SESSION",
      codes "device__sessionfs_8h.html#a7308a2976243cacd2a6e67cf778b6bac",
      absent,
    )
    ∷ (
      codes "IOCTL_DEVICE_SHUTDOWN",
      codes "device__sessionfs_8h.html#ac39fa745d11d96b545af1516acfbf5cc",
      absent,
    )
    ∷ (
      codes "IOCTL_OPEN_SESSION",
      codes "device__sessionfs_8h.html#aaf4f74a739a2b934f13ece487d9760d9",
      absent,
    )
    ∷ (
      codes "IOCTL_SEQ_CLOSE",
      codes "device__sessionfs_8h.html#a93883829481d6ee1889e1d112de35539",
      absent,
    )
    ∷ (
      codes "IOCTL_SEQ_OPEN",
      codes "device__sessionfs_8h.html#ae2ad458a991106f7ca77b27d255735ca",
      absent,
    )
    ∷ (
      codes "IOCTL_SEQ_SHUTDOWN",
      codes "device__sessionfs_8h.html#abb7e01390a965ee816c314ea918552d1",
      absent,
    )
    ∷ (
      codes "MAJOR_NUM",
      codes "device__sessionfs_8h.html#a0e1fd8673bffdf4a406b5c119e542bdd",
      absent,
    )
    ∷ (codes "O_SESS", codes "device__sessionfs_8h.html#a6100134634836ba2329f3da20696ff46", absent)
    ∷ (
      codes "VALID_SESS",
      codes "device__sessionfs_8h.html#a572282928d464e8d81b724eefce60509",
      absent,
    )
    ∷ [])

abbrev pub device_sessionfs_mod_8h : Entries
device_sessionfs_mod_8h = listing (
    (
      codes "init_device",
      codes "device__sessionfs__mod_8h.html#a88bd4adb20dc9040ae78f5b4036b61ab",
      absent,
    )
    ∷ (
      codes "release_device",
      codes "device__sessionfs__mod_8h.html#ac7ee6e3825fe5ac77a75a42e4da28843",
      absent,
    )
    ∷ (
      codes "sess_path",
      codes "device__sessionfs__mod_8h.html#ade57e23a26963004ebf1cbcc05b825ed",
      absent,
    )
    ∷ [])

abbrev pub module_8c : Entries
module_8c = listing (
    (codes "MODULE_AUTHOR", codes "module_8c.html#a6f6010771c68300354a881776abb2bad", absent)
    ∷ (codes "MODULE_DESCRIPTION", codes "module_8c.html#a72273bbc9a0083e411213b8cf3551ae8", absent)
    ∷ (codes "module_exit", codes "module_8c.html#a02b2f06e7d71fe8091a239b25581c533", absent)
    ∷ (codes "module_init", codes "module_8c.html#ab0040cb13370497aefd8e368f1c49faa", absent)
    ∷ (codes "MODULE_LICENSE", codes "module_8c.html#ad94b36675e7eb067ea3ce6ff9e244a44", absent)
    ∷ (codes "module_param", codes "module_8c.html#ac29862a943adba3784f5d4b564ee8168", absent)
    ∷ (codes "MODULE_PARM_DESC", codes "module_8c.html#a1c2693409bb7ab402af83adf6dbffbf3", absent)
    ∷ (codes "MODULE_VERSION", codes "module_8c.html#a94716498ea965ce9e6e3bc9163843b65", absent)
    ∷ (codes "sessionFS_load", codes "module_8c.html#af4b79167ea5472e999750f3f28dd0f74", absent)
    ∷ (codes "sessionFS_unload", codes "module_8c.html#abd810a6f947c3b87a782a9aad746eef3", absent)
    ∷ [])
