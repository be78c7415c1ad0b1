-- ===== src/Kernel/Waits/Tests.antt =====
-- Runs of the wait queues (ucore_os/kern/sync/wait.c) on the sample kernel.
use dora_aos2019_homework.Prelude.{ℕ, ◌≡◌, true, false, [], ok}
use dora_aos2019_homework.Kernel.{Kernel}
use dora_aos2019_homework.Kernel.Links.{has}
use dora_aos2019_homework.Kernel.Sample.{sample, sample-IsValid, sample-IsQueue}
use dora_aos2019_homework.Kernel.Sched.{is_runnable}
use dora_aos2019_homework.Kernel.Sched.Invariant.{IsValid}
use dora_aos2019_homework.Kernel.Waits.{wakeup_queue}
use dora_aos2019_homework.Kernel.Waits.Wakeups.{wakeup_queue-Drained}

wakeup_queue-Drained_example :
    (k' : Kernel) × (wakeup_queue 50 4 true sample ≡ ok k')
    × IsValid k'
    × (k'.wait_head 50 ≡ [])
    × ((w : ℕ)
        → has w (sample.wait_head 50) ≡ true
        → ((k'.waits w).linked ≡ false)
          × ((k'.waits w).wakeup_flags ≡ 4)
          × (is_runnable (k'.procs (sample.waits w).proc).state ≡ true))
wakeup_queue-Drained_example = wakeup_queue-Drained 50 4 sample-IsValid sample-IsQueue
