-- ===== src/Kernel/Sched.antt =====
-- The scheduler: ucore_os/kern/schedule/default_sched.c (round robin) and the process part of
-- ucore_os/kern/schedule/sched.c. Every function runs with interrupts off, so it is one step.

pub mod Invariant
pub mod Schedule
pub mod Wakeup
pub mod Fairness
mod Tests
use dora_aos2019_homework.Prelude.{
  ℕ, ◌+◌, ◌-◌, ◌%◌, ◌^◌, Bool, true, false, ◌&&◌, ◌||◌, not, Option, none, some, List, [], ◌∷◌,
  ◌++◌, Outcome, ok, ◌>>=◌, ◌>>◌, assert, ltb, ◌==◌, if◌then◌else◌,
}
use dora_aos2019_homework.Kernel.{ProcState, runnable, zombie, Proc, Kernel, update, set_proc}
use dora_aos2019_homework.Kernel.Links.{unlink}

-- `RR_init(rq)`, with the `max_time_slice` that `sched_init` sets (`MAX_TIME_SLICE`).
unfoldable pub sched_init : Kernel → Kernel
sched_init k = record k { timer_list = []; max_time_slice = 5; run_list = []; proc_num = 0 }

-- The time slice with which a process is queued.
abbrev pub refill : ℕ → ℕ → ℕ
refill max slice = if slice == 0 || ltb max slice then max else slice

unfoldable pub rr_enqueue : ℕ → Kernel → Outcome Kernel
rr_enqueue p k = do
  assert (not (k.procs p).on_rq)
  let r = record (k.procs p) {
    on_rq = true;
    time_slice = refill k.max_time_slice (k.procs p).time_slice;
    rq_set = true;
  }
  ok (record k {
    procs = update k.procs p r;
    run_list = k.run_list ++ p ∷ [];
    proc_num = (k.proc_num + 1) % 2 ^ 32;
  })

unfoldable pub rr_dequeue : ℕ → Kernel → Outcome Kernel
rr_dequeue p k = do
  assert ((k.procs p).on_rq && (k.procs p).rq_set)
  ok (record k {
    procs = update k.procs p (record (k.procs p) { on_rq = false });
    run_list = unlink p k.run_list;
    proc_num = (k.proc_num + 2 ^ 32 - 1) % 2 ^ 32;
  })

unfoldable pub first : List ℕ → Option ℕ
first [] = none
first (p ∷ _) = some p

unfoldable pub rr_pick_next : Kernel → Option ℕ
unfolding first
rr_pick_next k = first k.run_list

unfoldable pub rr_proc_tick : Proc → Proc
rr_proc_tick r =
    let slice = if ltb 0 r.time_slice then r.time_slice - 1 else r.time_slice in
    record r { time_slice = slice; need_resched = if slice == 0 then true else r.need_resched }

unfoldable pub sched_class_enqueue : ℕ → Kernel → Outcome Kernel
unfolding rr_enqueue
sched_class_enqueue p k = if p == k.idleproc then ok k else rr_enqueue p k

unfoldable pub sched_class_proc_tick : ℕ → Kernel → Kernel
unfolding rr_proc_tick
sched_class_proc_tick p k = set_proc k p (
    if p == k.idleproc
    then record (k.procs p) { need_resched = true }
    else rr_proc_tick (k.procs p))

abbrev pub is_runnable : ProcState → Bool
is_runnable runnable = true
is_runnable _ = false

abbrev pub is_zombie : ProcState → Bool
is_zombie zombie = true
is_zombie _ = false

-- Waking a process that is already runnable only prints a warning.
unfoldable pub wakeup_proc : ℕ → Kernel → Outcome Kernel
unfolding sched_class_enqueue
wakeup_proc p k = do
  assert (not (is_zombie (k.procs p).state))
  (if is_runnable (k.procs p).state
      then ok k
      else (let k' = set_proc k p (record (k.procs p) { state = runnable; wait_state = 0 }) in
          if p == k.current then ok k' else sched_class_enqueue p k'))

-- `proc_run`: the switch of stacks and page tables is not in this state.
unfoldable pub proc_run : ℕ → Kernel → Kernel
proc_run p k = record k { current = p }

-- `if ((next = sched_class_pick_next()) != NULL) sched_class_dequeue(next);`
unfoldable pub dequeue_picked : Option ℕ → Kernel → Outcome Kernel
unfolding rr_dequeue
dequeue_picked none k = ok k
dequeue_picked (some p) k = rr_dequeue p k

-- `if (next == NULL) next = idleproc;`
unfoldable pub or_idle : Option ℕ → Kernel → ℕ
or_idle none k = k.idleproc
or_idle (some p) k = p

-- `next->runs++; if (next != current) proc_run(next);`
unfoldable pub run_next : ℕ → Kernel → Kernel
unfolding proc_run
run_next p k =
    let k' = set_proc k p (record (k.procs p) { runs = (k.procs p).runs + 1 }) in
    if p == k.current then k' else proc_run p k'

-- The second half of `schedule`, once the current process has been queued again.
unfoldable pub switch_next : Kernel → Outcome Kernel
unfolding rr_pick_next dequeue_picked or_idle run_next
switch_next k = do
  let picked = rr_pick_next k
  k' ← dequeue_picked picked k
  ok (run_next (or_idle picked k) k')

unfoldable pub schedule : Kernel → Outcome Kernel
unfolding sched_class_enqueue switch_next
schedule k = do
  let c = k.current
  let k' = set_proc k c (record (k.procs c) { need_resched = false })
  k'' ← (if is_runnable (k.procs c).state then sched_class_enqueue c k' else ok k')
  switch_next k''
