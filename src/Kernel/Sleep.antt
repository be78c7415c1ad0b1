-- ===== src/Kernel/Sleep.antt =====
-- Sleeping for a time: do_sleep (ucore_os/kern/process/proc.c), split at its call of schedule. The timer
-- stands on the caller's stack, at the address `timer`.
pub mod Alarm
mod Tests
use dora_aos2019_homework.Prelude.{ℕ, ◌+◌, ◌^◌, Outcome, ok, ◌==◌, if◌then◌else◌}
use dora_aos2019_homework.Kernel.{Kernel, sleeping, set_proc}
use dora_aos2019_homework.Kernel.Timers.{timer_init, add_timer, del_timer}

-- `WT_TIMER`
abbrev pub wt_timer : ℕ
wt_timer = 2 ^ 31 + 2

-- Up to the call of schedule. With a time of 0 do_sleep returns here.
unfoldable pub sleep_enter : ℕ → ℕ → Kernel → Outcome Kernel
unfolding timer_init add_timer
sleep_enter timer time k =
    let asleep = record (k.procs k.current) { state = sleeping; wait_state = wt_timer } in
    if time == 0
    then ok k
    else add_timer (timer_init timer k.current time) (set_proc k k.current asleep)

-- Behind the call of schedule.
unfoldable pub sleep_leave : ℕ → ℕ → Kernel → Kernel
unfolding del_timer
sleep_leave timer time k = if time == 0 then k else del_timer timer k
