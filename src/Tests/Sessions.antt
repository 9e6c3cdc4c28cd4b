-- ===== src/Tests/Sessions.antt =====
-- The session manager on one session of "/mnt/a", with an incarnation of process 7.
use aosv.Base.{
  ◌↔◌, ◌≤◌, length, ℕ, ◌≡◌, refl, true, [], ◌∷◌, none, some, arith, ◌==◌, if◌then◌else◌, All,
}
use aosv.Base.Atomic.{pos, increment, decrement}
use aosv.Base.Text.{FilePath, codes, same_text}
use aosv.Kernel.{err}
use aosv.Kernel.Errno.{enoent}
use aosv.Kernel.Run.{done, fault, Returns}
use aosv.Session.{Incarnation, Session, Sys, put}
use aosv.Info.{lose, map_info}
use aosv.Manager.Files.{copy_file}
use aosv.Manager.Search.{hold, search_session}
use aosv.Manager.Find.{Live, first_match, held, search_session-first_match}
use aosv.Manager.Nameless.{any_valid, search_session-any_valid}
use aosv.Manager.Open.{init_session, create_incarnation, create_session}
use aosv.Manager.Close.{find_incarnation, close_in, close_session}
use aosv.Manager.Copy.{Copied, copy_file-Copied}
use aosv.Manager.Truncation.{copy_file-exact}
use aosv.Manager.Flush.{Flushed, close_session-shared, close_session-last}
use aosv.Manager.Closed.{close_session-unknown}
use aosv.Manager.Fresh.{Placed, init_session-Placed}
use aosv.Manager.First.{Opened, create_session-Opened}
use aosv.Manager.Join.{Joined, create_incarnation-Joined}
use aosv.Manager.Reopen.{create_session-Joined}
use aosv.Tests.Toy.{
  Toy, toy, content, toy-Reads, toy-Writes, toy-KeepsFiles, small, small_content, small-Reads,
  small-bounded,
}

abbrev pub name : FilePath
name = codes "/mnt/a"

abbrev world : Toy
world = record {
  files = λ f. if f == 0 then codes "original" else if f == 1 then codes "edit" else [];
  names = (name, 0) ∷ [];
  next_file = 2;
  next_fd = 4;
  clock = 1000;
}

abbrev edited : Incarnation
edited = record {
  file = 1;
  attr_name = codes "7_3";
  pathname = codes "/mnt/a_incarnation_7_9";
  filedes = 3;
  owner_pid = 7;
  status = 0;
}

-- `kref` is 2 where the incarnation is the only one.
abbrev pub session : ℕ → Session
session kref = record {
  incarnations = edited ∷ [];
  info = record { kref = pos kref; f_name = codes "-mnt-a"; inc_num = pos 1 };
  file = 0;
  pathname = 1;
  refcount = pos 0;
  valid = true;
}

abbrev pub state : ℕ → Sys Toy
state kref = record {
  world = world;
  cell = λ a. if a == 10 then some (session kref) else none;
  strings = λ p. if p == 1 then some name else if p == 2 then some name else none;
  next = 20;
  sessions = 10 ∷ [];
  sessions_num = pos 1;
  dev_kref = pos 3;
}

state-Live : (kref : ℕ) → All (Live (state kref)) (10 ∷ [])
state-Live kref = (record { object = session kref; name = name; at = refl; named = refl }, tt)

copy_file-Copied_example :
    Returns
      (Copied content 0 (codes "edit") (codes "original") (state 2))
      (copy_file toy 9 1 0 (state 2))
copy_file-Copied_example =
    copy_file-Copied toy content 1 0 9 (state 2) (toy-Reads 1) (toy-Writes 0) toy-KeepsFiles
      (omega arith) refl (omega arith)

search_session-first_match_example :
    search_session (some 2) 3 7 (state 2) ≡ done (some 10) (held (some 10) (state 2))
unfolding first_match same_text
search_session-first_match_example =
    search_session-first_match (state 2) 2 3 7 name refl (state-Live 2)

close_session-unknown_example :
    close_session toy 9 2 5 7 (state 2)
    ≡ done (err enoent) (put 10 (some (hold (session 2))) (state 2))
unfolding first_match same_text find_incarnation
close_session-unknown_example =
    close_session-unknown toy 9 2 5 7 10 (state 2) refl (state-Live 2) refl refl refl

close_session-shared_example :
    Returns
      (λ r t.
        Flushed content 10 (session 3) edited (state 3) r t
        × (t.cell 10 ≡ some (close_in 3 7 (map_info lose (session 3))))
        × (t.sessions ≡ 10 ∷ [])
        × (t.strings ≡ (state 3).strings))
      (close_session toy 9 2 3 7 (state 3))
unfolding first_match same_text find_incarnation increment decrement
close_session-shared_example =
    close_session-shared toy content 9 2 3 7 10 (state 3) refl (state-Live 3) refl refl refl refl
      (toy-Reads 1) (toy-Writes 0) toy-KeepsFiles (λ w. refl) (omega arith) (omega arith) refl

close_session-last_example :
    Returns
      (λ r t.
        Flushed content 10 (session 2) edited (state 2) r t
        × (t.cell 10 ≡ none)
        × (t.strings 1 ≡ none)
        × (t.sessions ≡ [])
        × (t.dev_kref ≡ pos 2))
      (close_session toy 9 2 3 7 (state 2))
unfolding first_match same_text find_incarnation decrement
close_session-last_example =
    close_session-last toy content 9 2 3 7 10 (state 2) refl (state-Live 2) refl refl refl refl
      (toy-Reads 1) (toy-Writes 0) toy-KeepsFiles (λ w. refl) (omega arith) (omega arith) refl refl

create_incarnation-Joined_example :
    Returns
      (Joined small 10 (session 2) (state 2))
      (create_incarnation small 65 10 2 7 420 (state 2))
create_incarnation-Joined_example =
    create_incarnation-Joined small small_content 64 65 10 2 7 420 (state 2) refl refl refl
      (small-Reads 0) (small-bounded 0) (omega arith)

create_session-Joined_example :
    Returns (Joined small 10 (session 2) (state 2)) (create_session small 65 2 2 7 420 (state 2))
unfolding first_match same_text
create_session-Joined_example =
    create_session-Joined small small_content 64 65 2 2 7 420 10 (state 2) refl (state-Live 2) refl
      refl refl (small-Reads 0) (small-bounded 0) (omega arith)

-- The name of a file without a session, at 3.
abbrev with_name : Sys Toy
with_name = record (state 2) {
  strings = λ p. if p == 3 then some (codes "/mnt/b") else (state 2).strings p;
}

with_name-Live : All (Live with_name) (10 ∷ [])
with_name-Live = (record { object = session 2; name = name; at = refl; named = refl }, tt)

init_session-Placed_example :
    Returns (Placed (codes "/mnt/b") 3 with_name) (init_session toy 3 66 420 with_name)
unfolding first_match same_text
init_session-Placed_example =
    init_session-Placed toy 3 66 420 with_name refl with_name-Live refl refl

create_session-Opened_example :
    Returns (Opened (codes "/mnt/b") 3 with_name) (create_session small 65 3 66 7 420 with_name)
unfolding first_match same_text
create_session-Opened_example =
    create_session-Opened small small_content 64 65 3 66 7 420 with_name refl with_name-Live refl
      refl small-Reads small-bounded (omega arith)

search_session-any_valid_example : search_session none 3 7 (state 2) ≡ fault
unfolding any_valid
search_session-any_valid_example = search_session-any_valid (state 2) 3 7 refl refl (state-Live 2)

-- The original is longer than the edit.
copy_file-exact_example :
    Returns
      (λ r t.
        (content 0 t.world ≡ content 1 (state 2).world)
        ↔ (length (content 0 (state 2).world) ≤ length (content 1 (state 2).world)))
      (copy_file toy 9 1 0 (state 2))
copy_file-exact_example =
    copy_file-exact toy content 1 0 9 (state 2) (toy-Reads 1) (toy-Writes 0) toy-KeepsFiles
      (omega arith) refl (omega arith)
