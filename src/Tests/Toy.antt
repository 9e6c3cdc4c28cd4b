-- ===== src/Tests/Toy.antt =====
-- A small kernel that runs: files at handles, one folder, descriptors and a clock that count up.
-- Memory is always granted, and all bytes are copied.
use aosv.Base.{
  ℕ, ◌≤◌, length-take_bound, suc, ◌+◌, ◌/◌, ◌%◌, refl, true, List, [], ◌∷◌, ◌++◌, arith, ◌==◌,
  if◌then◌else◌, length, take, drop,
}
use aosv.Base.Text.{FilePath, same_text}
use aosv.Kernel.{Kernel, Result, ok, err, running, no_pid}
use aosv.Kernel.Errno.{enoent}
use aosv.Manager.Copy.{Content, Reads, Writes, KeepsFiles}

pub record Toy : Type 0 where
  pub files : ℕ → List ℕ
  pub names : List (FilePath × ℕ)
  pub next_file : ℕ
  pub next_fd : ℕ
  pub clock : ℕ

abbrev pub find_name : FilePath → List (FilePath × ℕ) → Result ℕ
find_name path [] = err enoent
find_name path ((name, f) ∷ rest) = if same_text name path then ok f else find_name path rest

abbrev pub open_toy : Result ℕ → FilePath → ℕ → Toy → Result ℕ × Toy
open_toy (ok f) path flags w = (ok f, w)
open_toy (err e) path flags w =
    if flags / 64 % 2 == 1
    then (
      ok w.next_file,
      record w { names = (path, w.next_file) ∷ w.names; next_file = suc w.next_file },
    )
    else (err e, w)

abbrev pub overwrite : List ℕ → ℕ → List ℕ → List ℕ
overwrite old off bytes = take off old ++ (bytes ++ drop (off + length bytes) old)

abbrev pub store : ℕ → List ℕ → Toy → Toy
store f bytes w = record w { files = λ g. if g == f then bytes else w.files g }

abbrev pub toy : Kernel Toy
toy = record {
  path_max = 64;
  kmalloc = λ w. (true, w);
  filp_open = λ path flags mode w. open_toy (find_name path w.names) path flags w;
  filp_close = λ f w. w;
  get_unused_fd_flags = λ flags w. (ok w.next_fd, record w { next_fd = suc w.next_fd });
  fd_install = λ fd f w. w;
  kernel_read = λ f n off w. (ok (take n (drop off (w.files f))), w);
  kernel_write = λ f bytes off w. (ok (length bytes), store f (overwrite (w.files f) off bytes) w);
  ktime_get_real = λ w. (w.clock, record w { clock = suc w.clock });
  kobject_create_and_add = λ name w. (true, w);
  kobject_del = λ name w. w;
  sysfs_create_file = λ folder name w. (ok tt, w);
  sysfs_remove_file = λ folder name w. w;
  pid_status = λ pid w. if pid == 7 then running else no_pid;
  copy_user = λ n w. (0, w);
  kern_path = λ path w. (find_name path w.names, w);
  send_sigpipe = λ pid w. w;
}

abbrev pub content : Content Toy
content f w = w.files f

pub toy-Reads : (f : ℕ) → Reads toy content f
toy-Reads f = record {
  amount = λ n off w. n;
  amount_le = λ n off w. omega arith;
  progress = λ n off w h. h;
  read = λ n off w. refl;
}

pub toy-Writes : (f : ℕ) → Writes toy content f
toy-Writes f = record {
  after = λ bytes off w. store f (overwrite (w.files f) off bytes) w;
  write = λ bytes off w h. refl;
  written = λ bytes off w h. ground arith;
  others = λ bytes off w g ne. ground arith;
}

pub toy-KeepsFiles : KeepsFiles toy content
toy-KeepsFiles = record {
  kmalloc = λ f w. refl;
  sysfs_create_file = λ f d n w. refl;
  sysfs_remove_file = λ f d n w. refl;
  kobject_del = λ f d w. refl;
  ktime_get_real = λ f w. refl;
  filp_close = λ f g w. refl;
}

-- The same kernel with files of at most 64 bytes.
abbrev pub small_content : Content Toy
small_content f w = take 64 (w.files f)

abbrev pub small : Kernel Toy
small = record toy { kernel_read = λ f n off w. (ok (take n (drop off (small_content f w))), w) }

pub small-Reads : (f : ℕ) → Reads small small_content f
small-Reads f = record {
  amount = λ n off w. n;
  amount_le = λ n off w. omega arith;
  progress = λ n off w h. h;
  read = λ n off w. refl;
}

pub small-bounded : (f : ℕ) (w : Toy) → length (small_content f w) ≤ 64
small-bounded f w = length-take_bound 64 (w.files f)
