-- ===== src/Kernel/Sleep/Tests.antt =====
-- A run of do_sleep on the sample kernel.
use dora_aos2019_homework.Prelude.{◌≡◌, refl, true, false, [], ◌∷◌, arith, ok}
use dora_aos2019_homework.Kernel.{Kernel}
use dora_aos2019_homework.Kernel.Sample.{sample}
use dora_aos2019_homework.Kernel.Sched.{is_runnable}
use dora_aos2019_homework.Kernel.Timers.{interruptible}
use dora_aos2019_homework.Kernel.Timers.Due.{due, insert_due}
use dora_aos2019_homework.Kernel.Sleep.{sleep_enter, sleep_leave}
use dora_aos2019_homework.Kernel.Sleep.Alarm.{sleep_enter_lem}

-- A timer is due at the next tick when process 1 goes to sleep for 4 ticks.
abbrev one_timer : Kernel
one_timer = record sample { timer_list = (record { address = 90; expires = 1; proc = 2 }) ∷ [] }

sleep_enter_lem_example :
    (k' : Kernel) × ((sleep_enter 95 4 one_timer ≡ ok k')
      × (is_runnable (k'.procs 1).state ≡ false)
      × (interruptible (k'.procs 1).wait_state ≡ true)
      × (due 0 k'.timer_list ≡ insert_due 95 4 ((90, 1) ∷ []))
      × (due 0 (sleep_leave 95 4 k').timer_list ≡ (90, 1) ∷ []))
sleep_enter_lem_example =
    sleep_enter_lem 95 4 one_timer (omega arith) (λ e. ground arith) refl (omega arith)
