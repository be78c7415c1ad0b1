-- ===== src/Process/Kill/Effect.antt =====
-- What do_kill does (ucore_os/kern/process/proc.c).
use dora_aos2019_homework.Prelude.{ℕ, ◌≡◌, ◌≢◌, true}
use dora_aos2019_homework.Kernel.Sched.{is_runnable}
use dora_aos2019_homework.Kernel.Sched.Invariant.{IsValid}
use dora_aos2019_homework.Kernel.Timers.{interruptible}
use dora_aos2019_homework.Process.Kill.{Signals, exiting}

-- What killing `p` has done: only `p` is marked, the scheduler's invariant holds, no other process
-- changes, and `p` is runnable if its sleep could be interrupted.
pub record IsKilled (p : ℕ) (s s' : Signals) : Type 0 where
  pub marked : exiting (s'.flags p) ≡ true
  pub others : (q : ℕ) → q ≢ p → s'.flags q ≡ s.flags q
  pub valid : IsValid s'.kernel
  pub woken :
      interruptible (s.kernel.procs p).wait_state ≡ true
      → is_runnable (s'.kernel.procs p).state ≡ true
  pub same : (q : ℕ) → q ≢ p → s'.kernel.procs q ≡ s.kernel.procs q
  pub hash : s'.hash ≡ s.hash
