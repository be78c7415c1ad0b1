-- ===== src/Kernel.antt =====
-- The part of the kernel's state that the scheduler and the synchronisation primitives share:
-- process control blocks (ucore_os/kern/process/proc.h), the run queue and the timer list
-- (kern/schedule), and the wait queues and semaphores (kern/sync). Structures are named by their
-- addresses, which are numbers.
pub mod Sample
pub mod Links
pub mod Sched
pub mod Timers
pub mod Waits
pub mod Sem
pub mod Sleep
use dora_aos2019_homework.Prelude.{ℕ, Bool, List, ◌==◌, if◌then◌else◌}
use dora_aos2019_homework.Prelude.Int.{ℤ}

-- `enum proc_state`
pub data ProcState : Type 0 where
  uninit sleeping runnable zombie : ProcState

-- The fields of `struct proc_struct` that scheduling reads and writes. `on_rq` says that `run_link`
-- is linked into a list (`!list_empty(&(proc->run_link))`), `rq_set` that `rq` points to the queue.
pub record Proc : Type 0 where
  pub state : ProcState
  pub runs : ℕ
  pub need_resched : Bool
  pub wait_state : ℕ
  pub time_slice : ℕ
  pub on_rq : Bool
  pub rq_set : Bool

-- `timer_t`, named by its address; a timer off the list is passed by value.
pub record Timer : Type 0 where
  pub address : ℕ
  pub expires : ℕ
  pub proc : ℕ

-- `wait_t`. `linked` says that `wait_link` is linked into a list.
pub record Wait : Type 0 where
  pub proc : ℕ
  pub wakeup_flags : ℕ
  pub wait_queue : ℕ
  pub linked : Bool

-- `rq` is the one `struct run_queue`; `wait_head q` lists the waits of the queue at `q`.
-- `sem_value` holds the `value` of each semaphore, an `int`: `up` counts it with wrap-around.
pub record Kernel : Type 0 where
  pub procs : ℕ → Proc
  pub current : ℕ
  pub idleproc : ℕ
  pub run_list : List ℕ
  pub proc_num : ℕ
  pub max_time_slice : ℕ
  pub timer_list : List Timer
  pub waits : ℕ → Wait
  pub wait_head : ℕ → List ℕ
  pub sem_value : ℕ → ℤ

-- A write to the structure at `p`.
abbrev pub update {ℓ} : {A : Type ℓ} → (ℕ → A) → ℕ → A → ℕ → A
update f p a q = if q == p then a else f q

abbrev pub set_proc : Kernel → ℕ → Proc → Kernel
set_proc k p r = record k { procs = update k.procs p r }
