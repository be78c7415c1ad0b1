-- ===== src/Kernel/Sched/Tests.antt =====
-- Runs of the scheduler (ucore_os/kern/schedule) on the sample kernel.
use dora_aos2019_homework.Prelude.{◌≡◌, refl, [], ◌∷◌, ok}
use dora_aos2019_homework.Kernel.{Kernel}
use dora_aos2019_homework.Kernel.Sample.{sample, sample-IsValid}
use dora_aos2019_homework.Kernel.Sched.{schedule, wakeup_proc}
use dora_aos2019_homework.Kernel.Sched.Invariant.{IsValid}
use dora_aos2019_homework.Kernel.Sched.Schedule.{Switched, schedule-Switched}
use dora_aos2019_homework.Kernel.Sched.Wakeup.{Woken, wakeup_proc-Woken}
use dora_aos2019_homework.Kernel.Sched.Fairness.{schedule_times, schedule_fair}

schedule-Switched_example :
    (k' : Kernel) × (schedule sample ≡ ok k') × Switched sample (2 ∷ 1 ∷ []) k'
schedule-Switched_example = schedule-Switched sample-IsValid

wakeup_proc-Woken_example : (k' : Kernel) × (wakeup_proc 3 sample ≡ ok k') × Woken 3 sample k'
wakeup_proc-Woken_example = wakeup_proc-Woken 3 sample-IsValid refl

schedule_fair_example :
    (k' : Kernel) × (schedule_times 1 sample ≡ ok k') × (k'.current ≡ 2) × IsValid k'
schedule_fair_example = schedule_fair [] 2 [] sample-IsValid refl
