-- ===== src/Docs/TreeData/IndexRest.antt =====
-- docs/doxygen/html/navtreeindex0.js, the second half: the places of the addresses in the tree.
use aosv.Base.{ℕ, List, [], ◌∷◌}
use aosv.Base.Text.{codes}
use aosv.Docs.Text.{Text}

abbrev pub navtreeindex0_rest : List (Text × List ℕ)
navtreeindex0_rest =
    (codes "session__info_8c.html", 2 ∷ 0 ∷ 0 ∷ 1 ∷ 4 ∷ [])
    ∷ (codes "session__info_8c.html#a05e60807f715e0eee172cc7f4f58aec7", 2 ∷ 0 ∷ 0 ∷ 1 ∷ 4 ∷ 3 ∷ [])
    ∷ (codes "session__info_8c.html#a19aa300cfa380f18e8e12a19a4beb515", 2 ∷ 0 ∷ 0 ∷ 1 ∷ 4 ∷ 10 ∷ [])
    ∷ (codes "session__info_8c.html#a312e0fdf08fa3f8c529ac615d7688727", 2 ∷ 0 ∷ 0 ∷ 1 ∷ 4 ∷ 5 ∷ [])
    ∷ (codes "session__info_8c.html#a443e3ab0b14a0e826e4e047af34cabf5", 2 ∷ 0 ∷ 0 ∷ 1 ∷ 4 ∷ 0 ∷ [])
    ∷ (codes "session__info_8c.html#a49532cff908aa827fb90e1d4e3dcd2b0", 2 ∷ 0 ∷ 0 ∷ 1 ∷ 4 ∷ 8 ∷ [])
    ∷ (codes "session__info_8c.html#a5c06075650f0014909ac3ed682ff71aa", 2 ∷ 0 ∷ 0 ∷ 1 ∷ 4 ∷ 4 ∷ [])
    ∷ (codes "session__info_8c.html#a6e1507e9b7ff0a2d7eae6e9db7a6a41a", 2 ∷ 0 ∷ 0 ∷ 1 ∷ 4 ∷ 1 ∷ [])
    ∷ (codes "session__info_8c.html#a7bde0d05ae26eff4674466c5e0f30a24", 2 ∷ 0 ∷ 0 ∷ 1 ∷ 4 ∷ 12 ∷ [])
    ∷ (codes "session__info_8c.html#a8f45995b8b183511354096a9c2063d8d", 2 ∷ 0 ∷ 0 ∷ 1 ∷ 4 ∷ 7 ∷ [])
    ∷ (codes "session__info_8c.html#a96baf900f57fd912e3c3fd6619d4eefd", 2 ∷ 0 ∷ 0 ∷ 1 ∷ 4 ∷ 11 ∷ [])
    ∷ (codes "session__info_8c.html#acb5f6989617e37df8899d4ff5e12051e", 2 ∷ 0 ∷ 0 ∷ 1 ∷ 4 ∷ 2 ∷ [])
    ∷ (codes "session__info_8c.html#af00564d2a553b340f5c6a028eec867c1", 2 ∷ 0 ∷ 0 ∷ 1 ∷ 4 ∷ 9 ∷ [])
    ∷ (codes "session__info_8c.html#af9d987f87f3c55859d5f3712989a8ac7", 2 ∷ 0 ∷ 0 ∷ 1 ∷ 4 ∷ 6 ∷ [])
    ∷ (codes "session__info_8h.html", 2 ∷ 0 ∷ 0 ∷ 1 ∷ 5 ∷ [])
    ∷ (codes "session__info_8h.html#a05e60807f715e0eee172cc7f4f58aec7", 2 ∷ 0 ∷ 0 ∷ 1 ∷ 5 ∷ 2 ∷ [])
    ∷ (codes "session__info_8h.html#a0f43cb2830ec9b02f84848be14a707ec", 2 ∷ 0 ∷ 0 ∷ 1 ∷ 5 ∷ 1 ∷ [])
    ∷ (codes "session__info_8h.html#a312e0fdf08fa3f8c529ac615d7688727", 2 ∷ 0 ∷ 0 ∷ 1 ∷ 5 ∷ 4 ∷ [])
    ∷ (codes "session__info_8h.html#a49532cff908aa827fb90e1d4e3dcd2b0", 2 ∷ 0 ∷ 0 ∷ 1 ∷ 5 ∷ 6 ∷ [])
    ∷ (codes "session__info_8h.html#a5c06075650f0014909ac3ed682ff71aa", 2 ∷ 0 ∷ 0 ∷ 1 ∷ 5 ∷ 3 ∷ [])
    ∷ (codes "session__info_8h.html#a8153988384d02453588c6cd9055e6358", 2 ∷ 0 ∷ 0 ∷ 1 ∷ 5 ∷ 0 ∷ [])
    ∷ (codes "session__info_8h.html#a8f45995b8b183511354096a9c2063d8d", 2 ∷ 0 ∷ 0 ∷ 1 ∷ 5 ∷ 5 ∷ [])
    ∷ (codes "session__info_8h.html#af00564d2a553b340f5c6a028eec867c1", 2 ∷ 0 ∷ 0 ∷ 1 ∷ 5 ∷ 7 ∷ [])
    ∷ (codes "session__manager_8c.html", 2 ∷ 0 ∷ 0 ∷ 1 ∷ 6 ∷ [])
    ∷ (
      codes "session__manager_8c.html#a018bae728d08b5091b906f491019b6c6",
      2 ∷ 0 ∷ 0 ∷ 1 ∷ 6 ∷ 13 ∷ [],
    )
    ∷ (
      codes "session__manager_8c.html#a1594b401bd3a9bb39decd88759bfbebd",
      2 ∷ 0 ∷ 0 ∷ 1 ∷ 6 ∷ 8 ∷ [],
    )
    ∷ (
      codes "session__manager_8c.html#a16d321e233eeb27c5fa65d1b7519477e",
      2 ∷ 0 ∷ 0 ∷ 1 ∷ 6 ∷ 19 ∷ [],
    )
    ∷ (
      codes "session__manager_8c.html#a18273cf2fcf61730e36b611412c0700d",
      2 ∷ 0 ∷ 0 ∷ 1 ∷ 6 ∷ 12 ∷ [],
    )
    ∷ (
      codes "session__manager_8c.html#a2c676ca524171b7f600b7f0189266167",
      2 ∷ 0 ∷ 0 ∷ 1 ∷ 6 ∷ 10 ∷ [],
    )
    ∷ (
      codes "session__manager_8c.html#a2dd653e4fa6e0dd5f0b4ea3d697679d8",
      2 ∷ 0 ∷ 0 ∷ 1 ∷ 6 ∷ 17 ∷ [],
    )
    ∷ (
      codes "session__manager_8c.html#a34e2a89cc6c7c38749c5da0ef5c18fd8",
      2 ∷ 0 ∷ 0 ∷ 1 ∷ 6 ∷ 14 ∷ [],
    )
    ∷ (
      codes "session__manager_8c.html#a555d7056ccbb35a92c11165f1e82c406",
      2 ∷ 0 ∷ 0 ∷ 1 ∷ 6 ∷ 6 ∷ [],
    )
    ∷ (
      codes "session__manager_8c.html#a68c0ab1dd55579ffd14f86b660773248",
      2 ∷ 0 ∷ 0 ∷ 1 ∷ 6 ∷ 0 ∷ [],
    )
    ∷ (
      codes "session__manager_8c.html#a84e60a710f82dcfbc7f311e7787afedb",
      2 ∷ 0 ∷ 0 ∷ 1 ∷ 6 ∷ 5 ∷ [],
    )
    ∷ (
      codes "session__manager_8c.html#a8969353f4c2bc47763ade4fc6cf466dc",
      2 ∷ 0 ∷ 0 ∷ 1 ∷ 6 ∷ 20 ∷ [],
    )
    ∷ (
      codes "session__manager_8c.html#a8c0e032011c18f8eb45eaa72a9a656d6",
      2 ∷ 0 ∷ 0 ∷ 1 ∷ 6 ∷ 9 ∷ [],
    )
    ∷ (
      codes "session__manager_8c.html#a91921ad939cc0735cd98abf327aa9eae",
      2 ∷ 0 ∷ 0 ∷ 1 ∷ 6 ∷ 2 ∷ [],
    )
    ∷ (
      codes "session__manager_8c.html#a96edb8992f8537a88c79b896b45d47c2",
      2 ∷ 0 ∷ 0 ∷ 1 ∷ 6 ∷ 7 ∷ [],
    )
    ∷ (
      codes "session__manager_8c.html#aa071d9c19b2a41c3c4efe8d803d74a24",
      2 ∷ 0 ∷ 0 ∷ 1 ∷ 6 ∷ 3 ∷ [],
    )
    ∷ (
      codes "session__manager_8c.html#abd67495092f6edf4b7e5b6ae94be3154",
      2 ∷ 0 ∷ 0 ∷ 1 ∷ 6 ∷ 15 ∷ [],
    )
    ∷ (
      codes "session__manager_8c.html#abe3ac55880f2af28017214c50a38d487",
      2 ∷ 0 ∷ 0 ∷ 1 ∷ 6 ∷ 16 ∷ [],
    )
    ∷ (
      codes "session__manager_8c.html#abe5de8d0745f9cc09c02191e1818001f",
      2 ∷ 0 ∷ 0 ∷ 1 ∷ 6 ∷ 18 ∷ [],
    )
    ∷ (
      codes "session__manager_8c.html#ad40327c746e8ef715109d9b9257eb991",
      2 ∷ 0 ∷ 0 ∷ 1 ∷ 6 ∷ 4 ∷ [],
    )
    ∷ (
      codes "session__manager_8c.html#ae86586f2293bf35b1b57be58af0b9588",
      2 ∷ 0 ∷ 0 ∷ 1 ∷ 6 ∷ 11 ∷ [],
    )
    ∷ (
      codes "session__manager_8c.html#ae93be9f917eb7dbc1863a710f7a7b0bc",
      2 ∷ 0 ∷ 0 ∷ 1 ∷ 6 ∷ 1 ∷ [],
    )
    ∷ (codes "session__manager_8h.html", 2 ∷ 0 ∷ 0 ∷ 1 ∷ 7 ∷ [])
    ∷ (
      codes "session__manager_8h.html#a1594b401bd3a9bb39decd88759bfbebd",
      2 ∷ 0 ∷ 0 ∷ 1 ∷ 7 ∷ 1 ∷ [],
    )
    ∷ (
      codes "session__manager_8h.html#a96edb8992f8537a88c79b896b45d47c2",
      2 ∷ 0 ∷ 0 ∷ 1 ∷ 7 ∷ 0 ∷ [],
    )
    ∷ (
      codes "session__manager_8h.html#abd67495092f6edf4b7e5b6ae94be3154",
      2 ∷ 0 ∷ 0 ∷ 1 ∷ 7 ∷ 3 ∷ [],
    )
    ∷ (
      codes "session__manager_8h.html#ae86586f2293bf35b1b57be58af0b9588",
      2 ∷ 0 ∷ 0 ∷ 1 ∷ 7 ∷ 2 ∷ [],
    )
    ∷ (codes "session__types_8h.html", 2 ∷ 0 ∷ 0 ∷ 1 ∷ 8 ∷ [])
    ∷ (codes "structincarnation.html", 1 ∷ 0 ∷ 0 ∷ [])
    ∷ (codes "structincarnation.html#a0ba77e63c7fda35693bd67932b397055", 1 ∷ 0 ∷ 0 ∷ 4 ∷ [])
    ∷ (codes "structincarnation.html#a10e5ad6e6819f6a90abdf52c24ba4c01", 1 ∷ 0 ∷ 0 ∷ 0 ∷ [])
    ∷ (codes "structincarnation.html#a21f5193ddd90bfff28114d5be7c9d256", 1 ∷ 0 ∷ 0 ∷ 3 ∷ [])
    ∷ (codes "structincarnation.html#a29361be4cd3d292f355227fa97b57374", 1 ∷ 0 ∷ 0 ∷ 6 ∷ [])
    ∷ (codes "structincarnation.html#a64377e5368b0ada789b091910c403c8d", 1 ∷ 0 ∷ 0 ∷ 2 ∷ [])
    ∷ (codes "structincarnation.html#ab19aa05f8ea70ba4317d6ef72ee5b34a", 1 ∷ 0 ∷ 0 ∷ 5 ∷ [])
    ∷ (codes "structincarnation.html#ad96556cfc9b3314e251d09fa150cbf0b", 1 ∷ 0 ∷ 0 ∷ 1 ∷ [])
    ∷ (codes "structsess__info.html", 1 ∷ 0 ∷ 1 ∷ [])
    ∷ (codes "structsess__info.html#a4883fbdf220499507bcddaa21c85c3e5", 1 ∷ 0 ∷ 1 ∷ 3 ∷ [])
    ∷ (codes "structsess__info.html#a4c7dcf14fefdcf13ae0e7a34c7392a28", 1 ∷ 0 ∷ 1 ∷ 0 ∷ [])
    ∷ (codes "structsess__info.html#a83f7470b0cccbf0a6c4f443d11bf8c74", 1 ∷ 0 ∷ 1 ∷ 1 ∷ [])
    ∷ (codes "structsess__info.html#af8c108ec062c4200ba775fb5ebe2b4e7", 1 ∷ 0 ∷ 1 ∷ 2 ∷ [])
    ∷ (codes "structsess__params.html", 1 ∷ 0 ∷ 2 ∷ [])
    ∷ (codes "structsess__params.html#a086078262b40656aaf1c268f1a983bd9", 1 ∷ 0 ∷ 2 ∷ 1 ∷ [])
    ∷ (codes "structsess__params.html#aa1c99acd08c968b0c5ab724a3dae820c", 1 ∷ 0 ∷ 2 ∷ 5 ∷ [])
    ∷ (codes "structsess__params.html#aa7f24343e36731ea07c1b61834830088", 1 ∷ 0 ∷ 2 ∷ 0 ∷ [])
    ∷ (codes "structsess__params.html#ad420981c455a074bb154cd799db1bc41", 1 ∷ 0 ∷ 2 ∷ 2 ∷ [])
    ∷ (codes "structsess__params.html#af69db0245dad41843ce30acd5c768794", 1 ∷ 0 ∷ 2 ∷ 4 ∷ [])
    ∷ (codes "structsess__params.html#af94880fc828bd7a5843693e45c6d2d41", 1 ∷ 0 ∷ 2 ∷ 3 ∷ [])
    ∷ (codes "structsession.html", 1 ∷ 0 ∷ 3 ∷ [])
    ∷ (codes "structsession.html#a24f01a68ed0599d283d7735d8498a999", 1 ∷ 0 ∷ 3 ∷ 0 ∷ [])
    ∷ (codes "structsession.html#a4a4057f4e6e00f7754ccceacd51866fd", 1 ∷ 0 ∷ 3 ∷ 3 ∷ [])
    ∷ (codes "structsession.html#a9fcf22e674ae75a93cfe03c17465640e", 1 ∷ 0 ∷ 3 ∷ 6 ∷ [])
    ∷ (codes "structsession.html#aa4c3711c206df7296ece141cede4634a", 1 ∷ 0 ∷ 3 ∷ 5 ∷ [])
    ∷ (codes "structsession.html#aa85ae05e75ad4a5db9f71d277ba9513f", 1 ∷ 0 ∷ 3 ∷ 2 ∷ [])
    ∷ (codes "structsession.html#ab6de9ac500323e4b43dada84338d198a", 1 ∷ 0 ∷ 3 ∷ 4 ∷ [])
    ∷ (codes "structsession.html#ae04abfc72ccb9cdbf602da1aabc62ee3", 1 ∷ 0 ∷ 3 ∷ 1 ∷ [])
    ∷ (codes "structsession.html#aedbd0c7b9ad22287187075e36259c35d", 1 ∷ 0 ∷ 3 ∷ 7 ∷ [])
    ∷ (codes "structsession__rcu.html", 1 ∷ 0 ∷ 4 ∷ [])
    ∷ (codes "structsession__rcu.html#a009e0627a1ff06be0d303adeb6e3c8eb", 1 ∷ 0 ∷ 4 ∷ 0 ∷ [])
    ∷ (codes "structsession__rcu.html#af8c6648b7538d06a97b59003d439dd9e", 1 ∷ 0 ∷ 4 ∷ 1 ∷ [])
    ∷ (codes "structsession__rcu.html#afd75fa89e8459f237b3b196e992bb6e3", 1 ∷ 0 ∷ 4 ∷ 2 ∷ [])
    ∷ (codes "userspace__test_8c.html", 2 ∷ 0 ∷ 0 ∷ 0 ∷ 0 ∷ [])
    ∷ (
      codes "userspace__test_8c.html#a1de5516a7893ff3ea277a8c976417bd7",
      2 ∷ 0 ∷ 0 ∷ 0 ∷ 0 ∷ 3 ∷ [],
    )
    ∷ (
      codes "userspace__test_8c.html#a3c04138a5bfe5d72780bb7e82a18e627",
      2 ∷ 0 ∷ 0 ∷ 0 ∷ 0 ∷ 4 ∷ [],
    )
    ∷ (
      codes "userspace__test_8c.html#a4c29ab7f6b8f2458ef512e767c260daf",
      2 ∷ 0 ∷ 0 ∷ 0 ∷ 0 ∷ 5 ∷ [],
    )
    ∷ (
      codes "userspace__test_8c.html#a8fb0a3225a9c074550158687a7f46cb2",
      2 ∷ 0 ∷ 0 ∷ 0 ∷ 0 ∷ 1 ∷ [],
    )
    ∷ (
      codes "userspace__test_8c.html#ae93be9f917eb7dbc1863a710f7a7b0bc",
      2 ∷ 0 ∷ 0 ∷ 0 ∷ 0 ∷ 0 ∷ [],
    )
    ∷ (
      codes "userspace__test_8c.html#afa4dca6f8131bb0e05d21abae9f807d1",
      2 ∷ 0 ∷ 0 ∷ 0 ∷ 0 ∷ 2 ∷ [],
    )
    ∷ []
