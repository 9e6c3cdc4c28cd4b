-- ===== src/Docs/TreeData/Structs.antt =====
-- The fields of the structures: struct*.js and session__types_8h_struct*.js, and
-- device__sessionfs_8h_structsess__params.js of docs/doxygen/html.
use aosv.Base.{[], ◌∷◌}
use aosv.Base.Text.{codes}
use aosv.Docs.Tree.{Entries, absent}
use aosv.Docs.TreeData.Listing.{listing}

abbrev pub device_sessionfs_8h_structsess_params : Entries
device_sessionfs_8h_structsess_params = listing (
    (codes "filedes", codes "device__sessionfs_8h.html#aa7f24343e36731ea07c1b61834830088", absent)
    ∷ (codes "flags", codes "device__sessionfs_8h.html#a086078262b40656aaf1c268f1a983bd9", absent)
    ∷ (codes "mode", codes "device__sessionfs_8h.html#ad420981c455a074bb154cd799db1bc41", absent)
    ∷ (
      codes "orig_path",
      codes "device__sessionfs_8h.html#af94880fc828bd7a5843693e45c6d2d41",
      absent,
    )
    ∷ (codes "pid", codes "device__sessionfs_8h.html#af69db0245dad41843ce30acd5c768794", absent)
    ∷ (codes "valid", codes "device__sessionfs_8h.html#aa1c99acd08c968b0c5ab724a3dae820c", absent)
    ∷ [])

abbrev pub session_types_8h_structincarnation : Entries
session_types_8h_structincarnation = listing (
    (codes "file", codes "session__types_8h.html#a10e5ad6e6819f6a90abdf52c24ba4c01", absent)
    ∷ (codes "filedes", codes "session__types_8h.html#ad96556cfc9b3314e251d09fa150cbf0b", absent)
    ∷ (codes "inc_attr", codes "session__types_8h.html#a64377e5368b0ada789b091910c403c8d", absent)
    ∷ (codes "node", codes "session__types_8h.html#a21f5193ddd90bfff28114d5be7c9d256", absent)
    ∷ (codes "owner_pid", codes "session__types_8h.html#a0ba77e63c7fda35693bd67932b397055", absent)
    ∷ (codes "pathname", codes "session__types_8h.html#ab19aa05f8ea70ba4317d6ef72ee5b34a", absent)
    ∷ (codes "status", codes "session__types_8h.html#a29361be4cd3d292f355227fa97b57374", absent)
    ∷ [])

abbrev pub session_types_8h_structsess_info : Entries
session_types_8h_structsess_info = listing (
    (codes "f_name", codes "session__types_8h.html#a4c7dcf14fefdcf13ae0e7a34c7392a28", absent)
    ∷ (codes "inc_num", codes "session__types_8h.html#a83f7470b0cccbf0a6c4f443d11bf8c74", absent)
    ∷ (
      codes "inc_num_attr",
      codes "session__types_8h.html#af8c108ec062c4200ba775fb5ebe2b4e7",
      absent,
    )
    ∷ (codes "kobj", codes "session__types_8h.html#a4883fbdf220499507bcddaa21c85c3e5", absent)
    ∷ [])

abbrev pub session_types_8h_structsession : Entries
session_types_8h_structsession = listing (
    (codes "file", codes "session__types_8h.html#a24f01a68ed0599d283d7735d8498a999", absent)
    ∷ (
      codes "incarnations",
      codes "session__types_8h.html#ae04abfc72ccb9cdbf602da1aabc62ee3",
      absent,
    )
    ∷ (codes "info", codes "session__types_8h.html#aa85ae05e75ad4a5db9f71d277ba9513f", absent)
    ∷ (codes "pathname", codes "session__types_8h.html#a4a4057f4e6e00f7754ccceacd51866fd", absent)
    ∷ (codes "rcu_node", codes "session__types_8h.html#ab6de9ac500323e4b43dada84338d198a", absent)
    ∷ (codes "refcount", codes "session__types_8h.html#aa4c3711c206df7296ece141cede4634a", absent)
    ∷ (codes "sess_lock", codes "session__types_8h.html#a9fcf22e674ae75a93cfe03c17465640e", absent)
    ∷ (codes "valid", codes "session__types_8h.html#aedbd0c7b9ad22287187075e36259c35d", absent)
    ∷ [])

abbrev pub session_types_8h_structsession_rcu : Entries
session_types_8h_structsession_rcu = listing (
    (codes "list_node", codes "session__types_8h.html#a009e0627a1ff06be0d303adeb6e3c8eb", absent)
    ∷ (codes "rcu_head", codes "session__types_8h.html#af8c6648b7538d06a97b59003d439dd9e", absent)
    ∷ (codes "session", codes "session__types_8h.html#afd75fa89e8459f237b3b196e992bb6e3", absent)
    ∷ [])

abbrev pub structincarnation : Entries
structincarnation = listing (
    (codes "file", codes "structincarnation.html#a10e5ad6e6819f6a90abdf52c24ba4c01", absent)
    ∷ (codes "filedes", codes "structincarnation.html#ad96556cfc9b3314e251d09fa150cbf0b", absent)
    ∷ (codes "inc_attr", codes "structincarnation.html#a64377e5368b0ada789b091910c403c8d", absent)
    ∷ (codes "node", codes "structincarnation.html#a21f5193ddd90bfff28114d5be7c9d256", absent)
    ∷ (codes "owner_pid", codes "structincarnation.html#a0ba77e63c7fda35693bd67932b397055", absent)
    ∷ (codes "pathname", codes "structincarnation.html#ab19aa05f8ea70ba4317d6ef72ee5b34a", absent)
    ∷ (codes "status", codes "structincarnation.html#a29361be4cd3d292f355227fa97b57374", absent)
    ∷ [])

abbrev pub structsess_info : Entries
structsess_info = listing (
    (codes "f_name", codes "structsess__info.html#a4c7dcf14fefdcf13ae0e7a34c7392a28", absent)
    ∷ (codes "inc_num", codes "structsess__info.html#a83f7470b0cccbf0a6c4f443d11bf8c74", absent)
    ∷ (
      codes "inc_num_attr",
      codes "structsess__info.html#af8c108ec062c4200ba775fb5ebe2b4e7",
      absent,
    )
    ∷ (codes "kobj", codes "structsess__info.html#a4883fbdf220499507bcddaa21c85c3e5", absent)
    ∷ [])

abbrev pub structsess_params : Entries
structsess_params = listing (
    (codes "filedes", codes "structsess__params.html#aa7f24343e36731ea07c1b61834830088", absent)
    ∷ (codes "flags", codes "structsess__params.html#a086078262b40656aaf1c268f1a983bd9", absent)
    ∷ (codes "mode", codes "structsess__params.html#ad420981c455a074bb154cd799db1bc41", absent)
    ∷ (codes "orig_path", codes "structsess__params.html#af94880fc828bd7a5843693e45c6d2d41", absent)
    ∷ (codes "pid", codes "structsess__params.html#af69db0245dad41843ce30acd5c768794", absent)
    ∷ (codes "valid", codes "structsess__params.html#aa1c99acd08c968b0c5ab724a3dae820c", absent)
    ∷ [])

abbrev pub structsession : Entries
structsession = listing (
    (codes "file", codes "structsession.html#a24f01a68ed0599d283d7735d8498a999", absent)
    ∷ (codes "incarnations", codes "structsession.html#ae04abfc72ccb9cdbf602da1aabc62ee3", absent)
    ∷ (codes "info", codes "structsession.html#aa85ae05e75ad4a5db9f71d277ba9513f", absent)
    ∷ (codes "pathname", codes "structsession.html#a4a4057f4e6e00f7754ccceacd51866fd", absent)
    ∷ (codes "rcu_node", codes "structsession.html#ab6de9ac500323e4b43dada84338d198a", absent)
    ∷ (codes "refcount", codes "structsession.html#aa4c3711c206df7296ece141cede4634a", absent)
    ∷ (codes "sess_lock", codes "structsession.html#a9fcf22e674ae75a93cfe03c17465640e", absent)
    ∷ (codes "valid", codes "structsession.html#aedbd0c7b9ad22287187075e36259c35d", absent)
    ∷ [])

abbrev pub structsession_rcu : Entries
structsession_rcu = listing (
    (codes "list_node", codes "structsession__rcu.html#a009e0627a1ff06be0d303adeb6e3c8eb", absent)
    ∷ (codes "rcu_head", codes "structsession__rcu.html#af8c6648b7538d06a97b59003d439dd9e", absent)
    ∷ (codes "session", codes "structsession__rcu.html#afd75fa89e8459f237b3b196e992bb6e3", absent)
    ∷ [])
