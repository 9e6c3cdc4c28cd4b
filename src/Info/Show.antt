-- ===== src/Info/Show.antt =====
-- The functions of kmodule/session_info.c that SysFS calls to read an attribute. `page_size` is PAGE_SIZE.
use aosv.Base.{ℕ, ◌-◌, take}
use aosv.Base.Text.{FilePath, codes, int_text}
use aosv.Kernel.{Kernel, running, halted, no_pid, no_task}
use aosv.Session.{SessInfo, Incarnation, Sys}

-- `scnprintf(buf, PAGE_SIZE, ...)`
abbrev printed : ℕ → FilePath → FilePath
printed page_size text = take (page_size - 1) text

unfoldable active_sessions_num_show : {W : Type 0} → ℕ → Sys W → FilePath
unfolding int_text
active_sessions_num_show page_size s = printed page_size (int_text s.sessions_num)

unfoldable active_incarnations_num_show : ℕ → SessInfo → FilePath
unfolding int_text
active_incarnations_num_show page_size info = printed page_size (int_text info.inc_num)

-- `comm` is the name of the program that a process runs.
unfoldable proc_name_show :
    {W : Type 0} → Kernel W → (ℕ → W → FilePath) → ℕ → Incarnation → W → FilePath
proc_name_show K comm page_size i w = elim (K.pid_status i.owner_pid w) [
  | no_pid ↦ printed page_size (codes "ERROR: process not found")
  | no_task ↦ printed page_size (codes "ERROR: process not found")
  | running ↦ printed page_size (comm i.owner_pid w)
  | halted ↦ printed page_size (comm i.owner_pid w)
]
