-- ===== src/Kernel/Timers/Tests.antt =====
-- Runs of the timers (ucore_os/kern/schedule/sched.c) on the sample kernel.
use dora_aos2019_homework.Prelude.{◌≡◌, refl, List, [], ◌∷◌, arith, ok}
use dora_aos2019_homework.Kernel.{Kernel, Timer}
use dora_aos2019_homework.Kernel.Sample.{sample, sample-IsValid}
use dora_aos2019_homework.Kernel.Sched.Invariant.{IsValid}
use dora_aos2019_homework.Kernel.Timers.{run_timer_list}
use dora_aos2019_homework.Kernel.Timers.Due.{due}
use dora_aos2019_homework.Kernel.Timers.Tick.{advance, AllRunnable, fired, run_timer_list_lem}

-- One timer goes off at the next tick, the second three ticks behind it.
abbrev two_timers : List Timer
two_timers =
    (record { address = 90; expires = 1; proc = 2 })
    ∷ (record { address = 91; expires = 3; proc = 1 })
    ∷ []

abbrev third : Timer
third = record { address = 92; expires = 2; proc = 3 }

abbrev ticking : Kernel
ticking = record sample { timer_list = two_timers }

ticking-IsValid : IsValid ticking
ticking-IsValid = record {
  but = record {
    once = refl;
    linked = sample-IsValid.but.linked;
    owned = sample-IsValid.but.owned;
    ready = sample-IsValid.but.ready;
    idle_off = refl;
    count = refl;
    queued = sample-IsValid.but.queued;
  };
  current_off = refl;
}

run_timer_list_lem_example :
    (k' : Kernel) × (run_timer_list ticking ≡ ok k')
    × IsValid k'
    × (due 0 k'.timer_list ≡ advance (due 0 two_timers))
    × AllRunnable (fired two_timers) k'.procs
run_timer_list_lem_example =
    run_timer_list_lem ticking-IsValid (omega arith) ((refl, refl), ((refl, refl), tt))
