-- ===== src/Manager/Open.antt =====
-- `init_session`, `create_incarnation` and `create_session` of kmodule/session_manager.c. `fuel`
-- bounds the rounds of `copy_file`.
use Prim.Native.Nat.{bit_or}
use aosv.Base.{
  ℕ, suc, true, false, List, [], ◌∷◌, ◌++◌, Option, none, some, ◌==◌, leb, if◌then◌else◌, length,
  take, ◌-◌,
}
use aosv.Base.Atomic.{pos, is}
use aosv.Base.Text.{FilePath, codes, decimal}
use aosv.Kernel.{Kernel, Result, ok, err}
use aosv.Kernel.Errno.{eagain}
use aosv.Kernel.Run.{done, M, pure, ◌>>=◌, ◌>>◌}
use aosv.Session.{
  Incarnation, Session, Sys, lift, lift_, load, load_string, put, update, free, with_memory,
}
use aosv.Info.{add_session_info, add_incarnation_info, incarnation_attr}
use aosv.Manager.Files.{no_fd, o_creat, original_flags, open_file, copy_file}
use aosv.Manager.Search.{no_pid, release, search_session, delete_session}

-- The session that `init_session` fills in; its `info` is filled by `add_session_info`.
abbrev pub new_session : ℕ → ℕ → Session
new_session file pathname = record {
  incarnations = [];
  info = record { kref = pos 0; f_name = []; inc_num = pos 0 };
  file = file;
  pathname = pathname;
  refcount = pos 1;
  valid = true;
}

abbrev pub error_number : Result (Unit {0}) → ℕ
error_number (ok _) = 0
error_number (err e) = e

abbrev pub new_incarnation : ℕ → FilePath → ℕ → ℕ → Result (Unit {0}) → Incarnation
new_incarnation pid name fd file res = record {
  file = file;
  attr_name = incarnation_attr pid fd;
  pathname = name;
  filedes = fd;
  owner_pid = pid;
  status = error_number res;
}

-- With `i` at the head of its incarnations: `llist_add`.
abbrev pub with_incarnation : Incarnation → Session → Session
with_incarnation i x = record x { incarnations = i ∷ x.incarnations }

abbrev pub invalidate : Session → Session
invalidate s = record s { valid = false }

abbrev pub remove_address : ℕ → List ℕ → List ℕ
remove_address a [] = []
remove_address a (b ∷ rest) = if b == a then rest else b ∷ remove_address a rest

module _ {W : Type 0} where
  -- The allocation of the object, and `list_add_rcu`, which puts it at the head of `sessions`.
  unfoldable pub link_new : Session → M (Sys W) ℕ
  link_new x s = done s.next (record s {
    cell = (put s.next (some x) s).cell;
    next = suc s.next;
    sessions = s.next ∷ s.sessions;
  })

  -- `list_del_rcu`
  unfoldable pub unlink : ℕ → M (Sys W) (Unit {0})
  unlink a s = done tt (record s { sessions = remove_address a s.sessions })

module _ {W : Type 0} (K : Kernel W) where
  -- `init_session` where the search under `sessions_lock` has found a session.
  unfoldable pub reuse_session : ℕ → ℕ → M (Sys W) (Result ℕ)
  reuse_session a file = do
    s ← load a
    elim s.valid [ true ↦ pure tt | false ↦ do update a release; delete_session K a ]
    lift_ (K.filp_close file)
    pure (ok a)

  -- `init_session` where it has found none.
  unfoldable pub insert_session : FilePath → ℕ → ℕ → M (Sys W) (Result ℕ)
  insert_session path pathname file = do
    a ← link_new (new_session file pathname)
    res ← add_session_info K path a
    elim res [
      | ok _ ↦ pure (ok a)
      | err e ↦ do
        update a invalidate
        unlink a
        lift_ (K.filp_close file)
        s ← load a
        elim (is 1 s.refcount) [ true ↦ free a | false ↦ pure tt ]
        pure (err e)
    ]

  -- `init_session` once the original file is open, under `sessions_lock`.
  unfoldable pub place_session : FilePath → ℕ → Result ℕ × Result ℕ → M (Sys W) (Result ℕ)
  unfolding reuse_session insert_session
  place_session path pathname (fd, err e) = pure (err e)
  place_session path pathname (fd, ok file) = do
    found ← search_session (some pathname) no_fd no_fd
    elim found [ some a ↦ reuse_session a file | none ↦ insert_session path pathname file ]

  unfoldable pub open_original : ℕ → ℕ → ℕ → M (Sys W) (Result ℕ)
  unfolding place_session
  open_original pathname flags mode = do
    path ← load_string pathname
    opened ← open_file K path (original_flags flags) mode false
    place_session path pathname opened

  -- The list node and the object are allocated first.
  unfoldable pub init_session : ℕ → ℕ → ℕ → M (Sys W) (Result ℕ)
  unfolding open_original with_memory
  init_session pathname flags mode =
      with_memory K (with_memory K (open_original pathname flags mode))

  -- The name of the incarnation's file, under /var/tmp if the first choice is too long.
  unfoldable pub incarnation_path : FilePath → ℕ → M (Sys W) FilePath
  incarnation_path path pid = do
    now ← lift K.ktime_get_real
    let name = path ++ (codes "_incarnation_" ++ (decimal pid ++ (b'_' ∷ decimal now)))
    elim (leb K.path_max (length name)) [
      | false ↦ pure name
      | true ↦ do
        later ← lift K.ktime_get_real
        pure (take (K.path_max - 1) (codes "/var/tmp/" ++ (decimal pid ++ (b'_' ∷ decimal later))))
    ]

  -- The copy of the original, where SysFS has taken the incarnation.
  unfoldable pub copy_original : ℕ → ℕ → ℕ → Result (Unit {0}) → M (Sys W) (Result (Unit {0}))
  copy_original fuel src dst (ok _) = copy_file K fuel src dst
  copy_original fuel src dst (err e) = pure (err e)

  -- The object is listed whether or not SysFS and the copy have failed.
  unfoldable pub attach : ℕ → Incarnation → M (Sys W) (Result Incarnation)
  attach a i = do update a (with_incarnation i); pure (ok i)

  unfoldable pub list_incarnation :
      ℕ → ℕ → ℕ → FilePath → ℕ → ℕ → Result (Unit {0}) → M (Sys W) (Result Incarnation)
  unfolding copy_original attach
  list_incarnation fuel a pid name fd file added = do
    s ← load a
    res ← copy_original fuel s.file file added
    attach a (new_incarnation pid name fd file res)

  -- `create_incarnation` once its file is open.
  unfoldable pub fill_incarnation : ℕ → ℕ → ℕ → FilePath → ℕ → ℕ → M (Sys W) (Result Incarnation)
  unfolding list_incarnation
  fill_incarnation fuel a pid name fd file = do
    added ← add_incarnation_info K a pid fd
    list_incarnation fuel a pid name fd file added

  -- After `open_file`: the descriptor and the file, or an error.
  unfoldable pub start_incarnation :
      ℕ → ℕ → ℕ → FilePath → Result ℕ × Result ℕ → M (Sys W) (Result Incarnation)
  unfolding fill_incarnation
  start_incarnation fuel a pid name (err e, file) = pure (err e)
  start_incarnation fuel a pid name (ok fd, err e) = pure (err e)
  start_incarnation fuel a pid name (ok fd, ok file) = fill_incarnation fuel a pid name fd file

  unfoldable pub open_incarnation : ℕ → ℕ → ℕ → ℕ → ℕ → ℕ → M (Sys W) (Result Incarnation)
  unfolding incarnation_path start_incarnation
  open_incarnation fuel a pathname flags pid mode = do
    path ← load_string pathname
    name ← incarnation_path path pid
    opened ← open_file K name (bit_or flags o_creat) mode true
    start_incarnation fuel a pid name opened

  -- A session that is being removed takes no incarnation.
  unfoldable pub check_session : ℕ → ℕ → ℕ → ℕ → ℕ → M (Sys W) (Result Incarnation)
  unfolding open_incarnation
  check_session fuel a flags pid mode = do
    s ← load a
    elim s.valid [
      | false ↦ pure (err eagain)
      | true ↦ open_incarnation fuel a s.pathname flags pid mode
    ]

  -- The name and the object are allocated first.
  unfoldable pub create_incarnation : ℕ → ℕ → ℕ → ℕ → ℕ → M (Sys W) (Result Incarnation)
  unfolding check_session with_memory
  create_incarnation fuel a flags pid mode =
      with_memory K (with_memory K (check_session fuel a flags pid mode))

  -- `create_session` where the search has found `a`: a session that became invalid is replaced.
  unfoldable pub find_or_init : Option ℕ → ℕ → ℕ → ℕ → M (Sys W) (Result ℕ)
  find_or_init none pathname flags mode = init_session pathname flags mode
  find_or_init (some a) pathname flags mode = do
    s ← load a
    elim s.valid [
      | true ↦ pure (ok a)
      | false ↦ do update a release; delete_session K a; init_session pathname flags mode
    ]

  -- A session that became invalid meanwhile is deallocated.
  unfoldable pub conclude : ℕ → Result Incarnation → M (Sys W) (Result Incarnation)
  conclude a (ok i) = pure (ok i)
  conclude a (err e) = elim (e == eagain) [
    | true ↦ do delete_session K a; pure (err e)
    | false ↦ pure (err e)
  ]

  unfoldable pub join_session : ℕ → ℕ → ℕ → ℕ → ℕ → M (Sys W) (Result Incarnation)
  unfolding conclude
  join_session fuel a flags pid mode = do
    inc ← create_incarnation fuel a flags pid mode
    update a release
    conclude a inc

  unfoldable pub join_if_found : ℕ → Result ℕ → ℕ → ℕ → ℕ → M (Sys W) (Result Incarnation)
  unfolding join_session
  join_if_found fuel (ok a) flags pid mode = join_session fuel a flags pid mode
  join_if_found fuel (err e) flags pid mode = pure (err e)

  unfoldable pub create_session : ℕ → ℕ → ℕ → ℕ → ℕ → M (Sys W) (Result Incarnation)
  unfolding find_or_init join_if_found
  create_session fuel pathname flags pid mode = do
    found ← search_session (some pathname) no_fd no_pid
    session ← find_or_init found pathname flags mode
    join_if_found fuel session flags pid mode
