-- ===== src/Process/Kill.antt =====
-- Killing a process by its number: do_kill (ucore_os/kern/process/proc.c).
pub mod Effect
mod Tests
use dora_aos2019_homework.Prelude.{ℕ, ◌+◌, ◌%◌, Bool, Outcome, ok, ◌>>=◌, ◌==◌, if◌then◌else◌}
use dora_aos2019_homework.Prelude.Int.{ℤ, pos, negsuc}
use dora_aos2019_homework.Kernel.{Kernel, update}
use dora_aos2019_homework.Kernel.Sched.{wakeup_proc}
use dora_aos2019_homework.Kernel.Timers.{interruptible}
use dora_aos2019_homework.Process.Hash.{HashLists, find_proc}

-- The scheduler's state, the hash lists, and the field `flags` of every process.
pub record Signals : Type 0 where
  pub kernel : Kernel
  pub hash : HashLists
  pub flags : ℕ → ℕ

-- `-E_INVAL` and `-E_KILLED`
abbrev pub no_such_proc : ℤ
no_such_proc = negsuc 2

abbrev pub e_killed : ℤ
e_killed = negsuc 8

-- `proc->flags & PF_EXITING`
abbrev pub exiting : ℕ → Bool
exiting flags = flags % 2 == 1

-- `proc->flags |= PF_EXITING`, where the bit is not set.
abbrev pub set_exiting : ℕ → Signals → Signals
set_exiting p s = record s { flags = update s.flags p (s.flags p + 1) }

unfoldable pub kill_proc : ℕ → Signals → Outcome (ℤ × Signals)
kill_proc p s =
    let marked = set_exiting p s in
    if exiting (s.flags p)
    then ok (e_killed, s)
    else (if interruptible (s.kernel.procs p).wait_state
        then wakeup_proc p s.kernel >>= (λ k. ok (pos 0, record marked { kernel = k }))
        else ok (pos 0, marked))

unfoldable pub do_kill : ℤ → Signals → Outcome (ℤ × Signals)
unfolding kill_proc
do_kill pid s =
    let proc = find_proc pid s.hash in if proc == 0 then ok (no_such_proc, s) else kill_proc proc s
