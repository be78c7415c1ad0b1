-- ===== src/Kernel/Sample.antt =====
-- A kernel for runs of the operations: process 0 idles, 1 runs, 2 is queued, 3 sleeps on the semaphore
-- at 50 through the wait 70, and its timer 90 goes off at the next tick.
use dora_aos2019_homework.Prelude.{ℕ, refl, true, false, ◌||◌, [], ◌∷◌, arith, ◌==◌, if◌then◌else◌}
use dora_aos2019_homework.Prelude.Int.{pos}
use dora_aos2019_homework.Kernel.{Kernel, Proc, runnable, sleeping}
use dora_aos2019_homework.Kernel.Sched.Invariant.{IsValid}
use dora_aos2019_homework.Kernel.Waits.{wt_ksem}
use dora_aos2019_homework.Kernel.Waits.Wakeups.{IsQueue}
use dora_aos2019_homework.Kernel.Sem.Counting.{IsSem}
use dora_aos2019_homework.Kernel.Sem.Down.{IsCaller}

abbrev pub runs_or_waits : ℕ → Proc
runs_or_waits p = record {
  state = if p == 0 || (p == 1 || p == 2) then runnable else sleeping;
  runs = 0;
  need_resched = false;
  wait_state = if p == 3 then wt_ksem else 0;
  time_slice = 5;
  on_rq = p == 2;
  rq_set = true;
}

abbrev pub sample : Kernel
sample = record {
  procs = runs_or_waits;
  current = 1;
  idleproc = 0;
  run_list = 2 ∷ [];
  proc_num = 1;
  max_time_slice = 20;
  timer_list = [];
  waits = λ w. record { proc = 3; wakeup_flags = 0; wait_queue = 50; linked = w == 70 };
  wait_head = λ q. if q == 50 then 70 ∷ [] else [];
  sem_value = λ s. pos 0;
}

pub sample-IsValid : IsValid sample
sample-IsValid = record {
  but = record {
    once = refl;
    linked = λ p. ground arith;
    owned = λ p h. refl;
    ready = λ p h. ground arith;
    idle_off = refl;
    count = refl;
    queued = λ p run nb ni. ground arith;
  };
  current_off = refl;
}

pub sample-IsQueue : IsQueue 50 sample
sample-IsQueue = record {
  once = refl;
  joined = λ w h. ground arith;
  home = λ w h. refl;
  alive = λ w h. refl;
}

pub sample-IsSem : IsSem 50 sample
sample-IsSem = record {
  queue = sample-IsQueue;
  nonneg = refl;
  drained = λ w h. refl;
  asleep = λ w h. refl;
  ksem = λ w h. refl;
  alone = λ v w hv hw e. ground arith;
}

pub sample-IsCaller : IsCaller 50 71 sample
sample-IsCaller = record { real = omega arith; running = refl; fresh = refl }
