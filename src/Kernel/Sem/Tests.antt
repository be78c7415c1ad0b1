-- ===== src/Kernel/Sem/Tests.antt =====
-- Runs of the semaphores (ucore_os/kern/sync/sem.c) on the sample kernel.
use dora_aos2019_homework.Prelude.{ℕ, ◌≡◌, true, some, ok, ltb, arith}
use dora_aos2019_homework.Kernel.{Kernel}
use dora_aos2019_homework.Kernel.Sample.{sample, sample-IsValid, sample-IsSem, sample-IsCaller}
use dora_aos2019_homework.Kernel.Sched.{is_runnable}
use dora_aos2019_homework.Kernel.Sched.Invariant.{IsValid}
use dora_aos2019_homework.Kernel.Waits.{wt_ksem}
use dora_aos2019_homework.Kernel.Sem.{up, down_enter, down_resume}
use dora_aos2019_homework.Kernel.Sem.Counting.{IsSem, permits, give, take, head?, up_lem}
use dora_aos2019_homework.Kernel.Sem.Down.{down_enter_lem}

up_lem_example :
    (k' : Kernel) × (up 50 sample ≡ ok k')
    × IsValid k'
    × IsSem 50 k'
    × (permits 50 k' ≡ give (permits 50 sample))
    × ((w : ℕ)
        → head? (sample.wait_head 50) ≡ some w
        → (is_runnable (k'.procs (sample.waits w).proc).state ≡ true)
          × (down_resume 50 w k' ≡ ok k'))
up_lem_example = up_lem 50 sample-IsValid sample-IsSem (omega arith)

down_enter_lem_example :
    (k' : Kernel) × (down_enter 50 71 wt_ksem sample ≡ ok (ltb 0 0, k'))
    × IsValid k'
    × IsSem 50 k'
    × (permits 50 k' ≡ take 71 (permits 50 sample))
down_enter_lem_example = down_enter_lem sample-IsValid sample-IsSem sample-IsCaller
