-- ===== src/Kernel/Sleep/Alarm.antt =====
-- The timer of a process that sleeps for a time (ucore_os/kern/process/proc.c, do_sleep).
use dora_aos2019_homework.Prelude.{
  ℕ, ◌+◌, ◌-◌, ◌^◌, ◌≤◌, ◌<◌, ◌≡◌, ◌∙◌, ap, ◌≢◌, true, false, List, [], ◌∷◌, ok, arith, ◌==◌,
}
use dora_aos2019_homework.Kernel.{Kernel, Proc, Timer, sleeping, set_proc, update}
use dora_aos2019_homework.Kernel.Sched.{is_runnable}
use dora_aos2019_homework.Kernel.Timers.{
  timer_init, timer_insert, on_list, add_timer, del_timer, interruptible,
}
use dora_aos2019_homework.Kernel.Timers.Due.{
  due, insert_due, remove_due, span, due-timer_insert, due-timer_remove,
}
use dora_aos2019_homework.Kernel.Sleep.{wt_timer, sleep_enter, sleep_leave}

span-timer_insert : (t : Timer) (ts : List Timer) → span (timer_insert t ts) ≤ span ts + t.expires
unfolding timer_insert
span-timer_insert t [] = ground arith
span-timer_insert t (n ∷ ns) =
    ground (arith, span-timer_insert (record t { expires = t.expires - n.expires }) ns)

-- Taking off a timer that has just been put on gives back the times of the others.
remove_due-insert_due :
    (base a e : ℕ) (ts : List Timer)
    → on_list a ts ≡ false
    → remove_due a (insert_due a e (due base ts)) ≡ due base ts
remove_due-insert_due base a e [] h = ground arith
remove_due-insert_due base a e (t ∷ ts) h =
    ground (arith, remove_due-insert_due (base + t.expires) a e ts)

-- do_sleep for a time other than 0 puts the caller to sleep, where a signal can wake it up, and puts its
-- timer among the others, due after that many ticks. When the caller runs again, the timer goes off
-- the list if it is still there: had no tick passed, every other timer would be due as before do_sleep.
-- The ticks of the whole list must not wrap around.
pub sleep_enter_lem :
    (timer time : ℕ) (k : Kernel)
    → 0 < time
    → k.current ≢ 0
    → on_list timer k.timer_list ≡ false
    → span k.timer_list + time < 2 ^ 32
    → (k' : Kernel) × ((sleep_enter timer time k ≡ ok k')
        × (is_runnable (k'.procs k.current).state ≡ false)
        × (interruptible (k'.procs k.current).wait_state ≡ true)
        × (due 0 k'.timer_list ≡ insert_due timer time (due 0 k.timer_list))
        × (due 0 (sleep_leave timer time k').timer_list ≡ due 0 k.timer_list))
unfolding sleep_enter sleep_leave add_timer del_timer timer_init
sleep_enter_lem timer time k z running off short =
    let t = timer_init timer k.current time in
    let asleep = record (k.procs k.current) { state = sleeping; wait_state = wt_timer } in
    let k1 = set_proc k k.current asleep in
    let k' = record k1 { timer_list = timer_insert t k.timer_list } in
    let put_on : due 0 (timer_insert t k.timer_list) ≡ insert_due timer time (due 0 k.timer_list) =
      due-timer_insert 0 t k.timer_list
      ∙ ap (λ e. insert_due timer e (due 0 k.timer_list)) (omega arith) in
    let at_caller : update k.procs k.current asleep k.current ≡ asleep = ground arith in
    let some_time : (time == 0) ≡ false = ground arith in
    let left : sleep_leave timer time k' ≡ del_timer timer k' = ground arith in
    (
      k',
      (
        ground (arith, off),
        ap (λ (r : Proc). is_runnable r.state) at_caller,
        ap (λ (r : Proc). interruptible r.wait_state) at_caller,
        put_on,
        ap (λ (k : Kernel). due 0 k.timer_list) left
            ∙ due-timer_remove 0 timer (timer_insert t k.timer_list)
                (omega (arith, span-timer_insert t k.timer_list))
            ∙ ap (remove_due timer) put_on
            ∙ remove_due-insert_due 0 timer time k.timer_list off,
      ),
    )
