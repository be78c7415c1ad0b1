-- ===== src/Kernel/Timers.antt =====
-- The timer list of ucore_os/kern/schedule/sched.c: each timer holds the ticks after the one before it.
pub mod Due
pub mod Tick
mod Tests
use dora_aos2019_homework.Prelude.{
  ℕ, ◌+◌, ◌-◌, ◌/◌, ◌%◌, ◌^◌, Bool, false, ◌&&◌, ◌||◌, not, List, [], ◌∷◌, Outcome, ok, ◌>>=◌, ◌>>◌,
  assert, ltb, ◌==◌, if◌then◌else◌,
}
use dora_aos2019_homework.Kernel.{Kernel, Timer}
use dora_aos2019_homework.Kernel.Sched.{wakeup_proc, sched_class_proc_tick}

-- A timer that is on no list.
unfoldable pub timer_init : ℕ → ℕ → ℕ → Timer
timer_init a proc expires = record { address = a; expires = expires; proc = proc }

abbrev pub on_list : ℕ → List Timer → Bool
on_list a [] = false
on_list a (t ∷ ts) = a == t.address || on_list a ts

-- The loop of `add_timer`, with the insertion behind it.
unfoldable pub timer_insert : Timer → List Timer → List Timer
timer_insert t [] = t ∷ []
timer_insert t (n ∷ ns) =
    let later = timer_insert (record t { expires = t.expires - n.expires }) ns in
    if ltb t.expires n.expires
    then t ∷ record n { expires = n.expires - t.expires } ∷ ns
    else n ∷ later

-- Addresses are never 0 (`NULL`).
unfoldable pub add_timer : Timer → Kernel → Outcome Kernel
unfolding timer_insert
add_timer t k = do
  assert (ltb 0 t.expires && not (t.proc == 0))
  assert (not (on_list t.address k.timer_list))
  ok (record k { timer_list = timer_insert t k.timer_list })

-- `if (timer->expires != 0) … next->expires += timer->expires;`
unfoldable pub pass_on : ℕ → List Timer → List Timer
pass_on e [] = []
pass_on e (n ∷ ns) = if e == 0 then n ∷ ns else record n { expires = (n.expires + e) % 2 ^ 32 } ∷ ns

unfoldable pub timer_remove : ℕ → List Timer → List Timer
unfolding pass_on
timer_remove a [] = []
timer_remove a (t ∷ ts) = if a == t.address then pass_on t.expires ts else t ∷ timer_remove a ts

-- A timer that is off the list is left as it is.
unfoldable pub del_timer : ℕ → Kernel → Kernel
unfolding timer_remove
del_timer a k = record k { timer_list = timer_remove a k.timer_list }

-- `proc->wait_state & WT_INTERRUPTED`, bit 31
abbrev pub interruptible : ℕ → Bool
interruptible w = w / 2 ^ 31 % 2 == 1

-- The loop of `run_timer_list` over the timers from `le` on; they are the whole list each time round.
unfoldable pub fire : List Timer → Kernel → Outcome Kernel
fire [] k = ok k
fire (t ∷ ts) k =
    let next = (do
      let w = (k.procs t.proc).wait_state
      assert (w == 0 || interruptible w)
      k' ← wakeup_proc t.proc k
      fire ts (del_timer t.address k')) in
    if t.expires == 0 then next else ok k

-- `timer->expires--` on the first timer, which must not be 0.
unfoldable pub count_down : List Timer → Outcome (List Timer)
count_down [] = ok []
count_down (t ∷ ts) = do
  assert (not (t.expires == 0))
  ok (record t { expires = t.expires - 1 } ∷ ts)

unfoldable pub run_timer_list : Kernel → Outcome Kernel
unfolding count_down fire sched_class_proc_tick
run_timer_list k = do
  ts ← count_down k.timer_list
  k' ← fire ts (record k { timer_list = ts })
  ok (sched_class_proc_tick k'.current k')
