-- ===== src/Kernel/Sem.antt =====
-- Semaphores: ucore_os/kern/sync/sem.c. A semaphore and its wait queue share an address; each function
-- body between local_intr_save and local_intr_restore is one step.
mod Tests
pub mod Counting
pub mod Down
use dora_aos2019_homework.Prelude.{
  ℕ, ◌+◌, ◌-◌, Bool, true, false, Option, none, some, Outcome, ok, ◌>>=◌, ◌>>◌, assert, ◌==◌,
  if◌then◌else◌,
}
use dora_aos2019_homework.Prelude.Int.{ℤ, pos, negsuc, ◌+ℤ◌, ◌-ℤ◌, ltb_ℤ}
use dora_aos2019_homework.Kernel.{Kernel, update}
use dora_aos2019_homework.Kernel.Waits.{
  wt_ksem, wait_queue_init, wait_queue_first, wakeup_wait, wait_current_set, wait_current_del,
}

abbrev pub set_value : ℕ → ℤ → Kernel → Kernel
set_value s v k = record k { sem_value = update k.sem_value s v }

unfoldable pub sem_init : ℕ → ℤ → Kernel → Kernel
unfolding wait_queue_init
sem_init s value k = wait_queue_init s (set_value s value k)

-- `value++` of an `int`, which wraps around.
unfoldable pub int_succ : ℤ → ℤ
int_succ v = if ltb_ℤ v (pos 2147483647) then v +ℤ pos 1 else negsuc 2147483647

unfoldable pub up_with : Option ℕ → ℕ → ℕ → Kernel → Outcome Kernel
unfolding wakeup_wait int_succ
up_with none s wait_state k = ok (set_value s (int_succ (k.sem_value s)) k)
up_with (some w) s wait_state k = do
  assert ((k.procs (k.waits w).proc).wait_state == wait_state)
  wakeup_wait s w wait_state true k

-- `__up`
unfoldable pub up_state : ℕ → ℕ → Kernel → Outcome Kernel
unfolding up_with wait_queue_first
up_state s wait_state k = up_with (wait_queue_first s k) s wait_state k

unfoldable pub up : ℕ → Kernel → Outcome Kernel
unfolding up_state
up s k = up_state s wt_ksem k

-- `__down` up to `schedule()`: whether the semaphore was taken at once; `w` is the wait on the
-- caller's stack.
unfoldable pub down_enter : ℕ → ℕ → ℕ → Kernel → Outcome (Bool × Kernel)
unfolding wait_current_set
down_enter s w wait_state k =
    if ltb_ℤ (pos 0) (k.sem_value s)
    then ok (true, set_value s (k.sem_value s -ℤ pos 1) k)
    else (do k' ← wait_current_set s w wait_state k; ok (false, k'))

-- `__down` from its return of `schedule()` on, with the flags that it returns.
unfoldable pub down_leave : ℕ → ℕ → ℕ → Kernel → Outcome (ℕ × Kernel)
unfolding wait_current_del
down_leave s w wait_state k = do
  k' ← wait_current_del s w k
  let flags = (k'.waits w).wakeup_flags
  ok (if flags == wait_state then 0 else flags, k')

-- `down` after `schedule()`: `assert(flags == 0)`.
unfoldable pub down_resume : ℕ → ℕ → Kernel → Outcome Kernel
unfolding down_leave
down_resume s w k = do (flags, k') ← down_leave s w wt_ksem k; assert (flags == 0); ok k'

unfoldable pub try_down : ℕ → Kernel → Bool × Kernel
try_down s k =
    if ltb_ℤ (pos 0) (k.sem_value s)
    then (true, set_value s (k.sem_value s -ℤ pos 1) k)
    else (false, k)
