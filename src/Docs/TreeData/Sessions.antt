-- ===== src/Docs/TreeData/Sessions.antt =====
-- The files of the sessions: session__*_8c.js and session__*_8h.js of docs/doxygen/html.
use aosv.Base.{[], ◌∷◌}
use aosv.Base.Text.{codes}
use aosv.Docs.Tree.{Entries, absent}
use aosv.Docs.TreeData.Listing.{listing}

abbrev pub session_info_8c : Entries
session_info_8c = listing (
    (codes "KERN_OBJ_PERM", codes "session__info_8c.html#a443e3ab0b14a0e826e4e047af34cabf5", absent)
    ∷ (
      codes "active_incarnations_num_show",
      codes "session__info_8c.html#a6e1507e9b7ff0a2d7eae6e9db7a6a41a",
      absent,
    )
    ∷ (
      codes "active_sessions_num_show",
      codes "session__info_8c.html#acb5f6989617e37df8899d4ff5e12051e",
      absent,
    )
    ∷ (
      codes "add_incarnation_info",
      codes "session__info_8c.html#a05e60807f715e0eee172cc7f4f58aec7",
      absent,
    )
    ∷ (
      codes "add_session_info",
      codes "session__info_8c.html#a5c06075650f0014909ac3ed682ff71aa",
      absent,
    )
    ∷ (codes "init_info", codes "session__info_8c.html#a312e0fdf08fa3f8c529ac615d7688727", absent)
    ∷ (
      codes "proc_name_show",
      codes "session__info_8c.html#af9d987f87f3c55859d5f3712989a8ac7",
      absent,
    )
    ∷ (
      codes "release_info",
      codes "session__info_8c.html#a8f45995b8b183511354096a9c2063d8d",
      absent,
    )
    ∷ (
      codes "remove_incarnation_info",
      codes "session__info_8c.html#a49532cff908aa827fb90e1d4e3dcd2b0",
      absent,
    )
    ∷ (
      codes "remove_session_info",
      codes "session__info_8c.html#af00564d2a553b340f5c6a028eec867c1",
      absent,
    )
    ∷ (codes "dev_kobj", codes "session__info_8c.html#a19aa300cfa380f18e8e12a19a4beb515", absent)
    ∷ (codes "kattr", codes "session__info_8c.html#a96baf900f57fd912e3c3fd6619d4eefd", absent)
    ∷ (
      codes "sessions_num",
      codes "session__info_8c.html#a7bde0d05ae26eff4674466c5e0f30a24",
      absent,
    )
    ∷ [])

abbrev pub session_info_8h : Entries
session_info_8h = listing (
    (
      codes "ATTR_GROUP_NAME",
      codes "session__info_8h.html#a8153988384d02453588c6cd9055e6358",
      absent,
    )
    ∷ (
      codes "SESS_KOBJ_NAME",
      codes "session__info_8h.html#a0f43cb2830ec9b02f84848be14a707ec",
      absent,
    )
    ∷ (
      codes "add_incarnation_info",
      codes "session__info_8h.html#a05e60807f715e0eee172cc7f4f58aec7",
      absent,
    )
    ∷ (
      codes "add_session_info",
      codes "session__info_8h.html#a5c06075650f0014909ac3ed682ff71aa",
      absent,
    )
    ∷ (codes "init_info", codes "session__info_8h.html#a312e0fdf08fa3f8c529ac615d7688727", absent)
    ∷ (
      codes "release_info",
      codes "session__info_8h.html#a8f45995b8b183511354096a9c2063d8d",
      absent,
    )
    ∷ (
      codes "remove_incarnation_info",
      codes "session__info_8h.html#a49532cff908aa827fb90e1d4e3dcd2b0",
      absent,
    )
    ∷ (
      codes "remove_session_info",
      codes "session__info_8h.html#af00564d2a553b340f5c6a028eec867c1",
      absent,
    )
    ∷ [])

abbrev pub session_manager_8c : Entries
session_manager_8c = listing (
    (codes "DATA_DIM", codes "session__manager_8c.html#a68c0ab1dd55579ffd14f86b660773248", absent)
    ∷ (
      codes "DEFAULT_PERM",
      codes "session__manager_8c.html#ae93be9f917eb7dbc1863a710f7a7b0bc",
      absent,
    )
    ∷ (
      codes "MANAGER_EMPTY",
      codes "session__manager_8c.html#a91921ad939cc0735cd98abf327aa9eae",
      absent,
    )
    ∷ (codes "NO_FD", codes "session__manager_8c.html#aa071d9c19b2a41c3c4efe8d803d74a24", absent)
    ∷ (codes "NO_PID", codes "session__manager_8c.html#ad40327c746e8ef715109d9b9257eb991", absent)
    ∷ (
      codes "OVERWRITE_ORIG",
      codes "session__manager_8c.html#a84e60a710f82dcfbc7f311e7787afedb",
      absent,
    )
    ∷ (
      codes "VALID_NODE",
      codes "session__manager_8c.html#a555d7056ccbb35a92c11165f1e82c406",
      absent,
    )
    ∷ (
      codes "clean_manager",
      codes "session__manager_8c.html#a96edb8992f8537a88c79b896b45d47c2",
      absent,
    )
    ∷ (
      codes "close_session",
      codes "session__manager_8c.html#a1594b401bd3a9bb39decd88759bfbebd",
      absent,
    )
    ∷ (
      codes "copy_file",
      codes "session__manager_8c.html#a8c0e032011c18f8eb45eaa72a9a656d6",
      absent,
    )
    ∷ (
      codes "create_incarnation",
      codes "session__manager_8c.html#a2c676ca524171b7f600b7f0189266167",
      absent,
    )
    ∷ (
      codes "create_session",
      codes "session__manager_8c.html#ae86586f2293bf35b1b57be58af0b9588",
      absent,
    )
    ∷ (
      codes "delete_incarnation",
      codes "session__manager_8c.html#a18273cf2fcf61730e36b611412c0700d",
      absent,
    )
    ∷ (
      codes "delete_session",
      codes "session__manager_8c.html#a018bae728d08b5091b906f491019b6c6",
      absent,
    )
    ∷ (
      codes "delete_session_rcu",
      codes "session__manager_8c.html#a34e2a89cc6c7c38749c5da0ef5c18fd8",
      absent,
    )
    ∷ (
      codes "init_manager",
      codes "session__manager_8c.html#abd67495092f6edf4b7e5b6ae94be3154",
      absent,
    )
    ∷ (
      codes "init_session",
      codes "session__manager_8c.html#abe3ac55880f2af28017214c50a38d487",
      absent,
    )
    ∷ (
      codes "open_file",
      codes "session__manager_8c.html#a2dd653e4fa6e0dd5f0b4ea3d697679d8",
      absent,
    )
    ∷ (
      codes "search_session",
      codes "session__manager_8c.html#abe5de8d0745f9cc09c02191e1818001f",
      absent,
    )
    ∷ (codes "sessions", codes "session__manager_8c.html#a16d321e233eeb27c5fa65d1b7519477e", absent)
    ∷ (
      codes "sessions_lock",
      codes "session__manager_8c.html#a8969353f4c2bc47763ade4fc6cf466dc",
      absent,
    )
    ∷ [])

abbrev pub session_manager_8h : Entries
session_manager_8h = listing (
    (
      codes "clean_manager",
      codes "session__manager_8h.html#a96edb8992f8537a88c79b896b45d47c2",
      absent,
    )
    ∷ (
      codes "close_session",
      codes "session__manager_8h.html#a1594b401bd3a9bb39decd88759bfbebd",
      absent,
    )
    ∷ (
      codes "create_session",
      codes "session__manager_8h.html#ae86586f2293bf35b1b57be58af0b9588",
      absent,
    )
    ∷ (
      codes "init_manager",
      codes "session__manager_8h.html#abd67495092f6edf4b7e5b6ae94be3154",
      absent,
    )
    ∷ [])
