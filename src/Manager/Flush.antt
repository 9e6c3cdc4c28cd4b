-- ===== src/Manager/Flush.antt =====
-- `close_session` of kmodule/session_manager.c.
use aosv.Base.{
  ℕ, ◌≡◌, refl, sym, ap, ◌∙◌, ◌≢◌, ◌<◌, true, false, ◌&&◌, ◌++◌, none, some, length, drop, All,
}
use aosv.Base.Atomic.{pos, increment, decrement, decrement-increment, is}
use aosv.Base.Text.{FilePath}
use aosv.Kernel.{Kernel, Result, ok}
use aosv.Kernel.Run.{done, Returns}
use aosv.Session.{Incarnation, Session, Sys, write_self, write_other}
use aosv.Info.{inc_num_name, lose, map_info}
use aosv.Info.Counters.{without_attr}
use aosv.Manager.Files.{copy_file}
use aosv.Manager.Search.{hold}
use aosv.Manager.Find.{Live, first_match, first_match_sound, searched}
use aosv.Manager.Copy.{Content, Reads, Writes, KeepsFiles, copy_file-done}
use aosv.Manager.Open.{remove_address}
use aosv.Manager.Close.{find_incarnation, close_in, close_session}
use aosv.Manager.Settle.{
  closed_state, delete_incarnation-flush, settle-last, settle-kept, settled, close_session-step,
}

-- The part of the outcome of a close that does not depend on other users: the original file holds
-- the incarnation's bytes, and behind them what it had beyond their number; no other file has
-- changed; one session less is counted; every other session object is as it was.
pub record Flushed {W : Type 0} (content : Content W) (a : ℕ) (x : Session) (i : Incarnation)
    (s : Sys W) (r : Result (Unit {0})) (t : Sys W) : Type 0 where
  pub result : r ≡ ok tt
  pub flushed :
      content x.file t.world
      ≡ content i.file s.world ++ drop (length (content i.file s.world)) (content x.file s.world)
  pub untouched : (f : ℕ) → f ≢ x.file → content f t.world ≡ content f s.world
  pub counted : t.sessions_num ≡ decrement s.sessions_num
  pub others : (b : ℕ) → b ≢ a → t.cell b ≡ s.cell b

module _ {W : Type 0} (K : Kernel W) (content : Content W) (fuel p fd pid a : ℕ) (s : Sys W)
    {path : FilePath} {x : Session} {i : Incarnation} (named : s.strings p ≡ some path)
    (live : All (Live s) s.sessions)
    (listed : first_match path s.cell s.strings s.sessions ≡ some a) (at : s.cell a ≡ some x)
    (open_inc : find_incarnation fd pid x.incarnations ≡ some i) (valid : i.status ≡ 0)
    (reads : Reads K content i.file) (writes : Writes K content x.file)
    (keeps : KeepsFiles K content) (granted : (w : W) → (K.kmalloc w).0 ≡ true)
    (apart : i.file ≢ x.file) (enough : length (content i.file s.world) < fuel) where
  abbrev before_copy : Sys W
  before_copy = without_attr K a i.attr_name (hold x) (searched a x s)

  abbrev last_seen : Session
  last_seen = close_in fd pid (map_info lose (hold x))

  flush_copy :
      (w : W) × (copy_file K fuel i.file x.file before_copy
        ≡ done (ok tt) (record before_copy { world = w }))
      × (content x.file w
          ≡ content i.file s.world
            ++ drop (length (content i.file s.world)) (content x.file s.world))
      × ((f : ℕ) → f ≢ x.file → content f w ≡ content f s.world)
  flush_copy =
      let same : (f : ℕ) → content f before_copy.world ≡ content f s.world =
        λ f. keeps.sysfs_remove_file f x.info.f_name i.attr_name s.world in
      let (w, run, copied, others) =
        copy_file-done K content i.file x.file fuel before_copy reads writes keeps apart
          (granted before_copy.world) (rw (same i.file) enough) in
      (w, run, rw (same i.file, same x.file) at copied, λ f ne. others f ne ∙ same f)

  close_session-settle :
      (let w = flush_copy.0 in
        close_session K fuel p fd pid s
        ≡ settled K fuel p fd pid a s named live listed at (ok tt) (
            closed_state K fuel a fd pid
              (searched a x s)
              (write_self s.cell a (some (hold x)))
              i
              w))
  close_session-settle =
      let (w, run, _, _) = flush_copy in
      close_session-step K fuel p fd pid a s named live listed at (
        delete_incarnation-flush K fuel a fd pid (searched a x s)
          (write_self s.cell a (some (hold x))) open_inc valid run)

  abbrev flushed_state : Sys W
  flushed_state =
      closed_state K fuel a fd pid (searched a x s) (write_self s.cell a (some (hold x))) i
        flush_copy.0

  at_last : flushed_state.cell a ≡ some last_seen
  at_last = write_self before_copy.cell a (some last_seen)

  flushed_others : (b : ℕ) → b ≢ a → flushed_state.cell b ≡ s.cell b
  flushed_others b ne =
      write_other before_copy.cell a b _ (λ e. ne (sym e))
      ∙ write_other (searched a x s).cell a b _ (λ e. ne (sym e))
      ∙ write_other s.cell a b _ (λ e. ne (sym e))

  session_valid : x.valid ≡ true
  session_valid = (first_match_sound path s.cell s.strings s.sessions listed at).0

  -- Other users or incarnations remain: the session stays listed, with its `refcount` as before,
  -- one SysFS reference and one counted incarnation less, and the incarnation marked as closed.
  pub close_session-shared :
      (is 1 (increment x.refcount) && is 1 (decrement x.info.kref)) ≡ false
      → Returns
          (λ r t.
            Flushed content a x i s r t
            × (t.cell a ≡ some (close_in fd pid (map_info lose x)))
            × (t.sessions ≡ s.sessions)
            × (t.strings ≡ s.strings))
          (close_session K fuel p fd pid s)
  close_session-shared busy =
      rw (close_session-settle, settle-kept K a flushed_state at_last session_valid busy)
        (
          record {
            result = refl;
            flushed = flush_copy.2;
            untouched = flush_copy.3;
            counted = refl;
            others = λ b ne.
                write_other flushed_state.cell a b _ (λ e. ne (sym e)) ∙ flushed_others b ne;
          },
          write_self flushed_state.cell a _
              ∙ ap (λ n. some (record (close_in fd pid (map_info lose x)) { refcount = n }))
                  (decrement-increment x.refcount),
          refl,
          refl,
        )

  -- The last incarnation of a session that nobody else uses: the session leaves the list and SysFS,
  -- and the object and its name are freed.
  pub close_session-last :
      x.refcount ≡ pos 0
      → x.info.kref ≡ pos 2
      → Returns
          (λ r t.
            Flushed content a x i s r t
            × (t.cell a ≡ none)
            × (t.strings x.pathname ≡ none)
            × (t.sessions ≡ remove_address a s.sessions)
            × (t.dev_kref ≡ decrement s.dev_kref))
          (close_session K fuel p fd pid s)
  unfolding increment decrement
  close_session-last alone last =
      let name : s.strings x.pathname ≡ some path =
        (first_match_sound path s.cell s.strings s.sessions listed at).1 in
      rw
        (
          close_session-settle,
          settle-last K a flushed_state at_last session_valid name (ap increment alone)
              (ap decrement last),
        )
        (
          record {
            result = refl;
            flushed = keeps_files x.file ∙ flush_copy.2;
            untouched = λ f ne. keeps_files f ∙ flush_copy.3 f ne;
            counted = refl;
            others = λ b ne.
                write_other flushed_state.cell a b none (λ e. ne (sym e)) ∙ flushed_others b ne;
          },
          write_self flushed_state.cell a none,
          write_self s.strings x.pathname none,
          refl,
          refl,
        )
    where
      folder : FilePath
      folder = x.info.f_name

      keeps_files :
          (f : ℕ)
          → content f (
              K.filp_close x.file
                (K.kobject_del folder (K.sysfs_remove_file folder inc_num_name flush_copy.0)))
            ≡ content f flush_copy.0
      keeps_files f =
          keeps.filp_close f x.file _
          ∙ keeps.kobject_del f folder _
          ∙ keeps.sysfs_remove_file f folder inc_num_name flush_copy.0
