-- ===== src/Kernel/Waits.antt =====
-- Wait queues: ucore_os/kern/sync/wait.c and wait.h. A queue is named by its address.
mod Tests
pub mod Wakeups
use dora_aos2019_homework.Prelude.{
  ℕ, zero, suc, ◌+◌, Bool, true, false, ◌&&◌, not, Option, none, some, List, [], ◌∷◌, ◌++◌, Outcome,
  ok, panic, ◌>>=◌, ◌>>◌, assert, ◌==◌, if◌then◌else◌, length,
}
use dora_aos2019_homework.Kernel.{Kernel, Wait, sleeping, update, set_proc}
use dora_aos2019_homework.Kernel.Links.{unlink}
use dora_aos2019_homework.Kernel.Sched.{wakeup_proc, first}

-- `WT_INTERRUPTED`, `WT_KSEM`, `WT_KBD`
abbrev pub wt_interrupted : ℕ
wt_interrupted = 0x8000_0000

abbrev pub wt_ksem : ℕ
wt_ksem = 0x100

abbrev pub wt_kbd : ℕ
wt_kbd = 0x8000_0004

abbrev pub set_wait : Kernel → ℕ → Wait → Kernel
set_wait k w r = record k { waits = update k.waits w r }

unfoldable pub wait_init : ℕ → ℕ → Kernel → Kernel
wait_init w p k =
    set_wait k w (record (k.waits w) { proc = p; wakeup_flags = wt_interrupted; linked = false })

unfoldable pub wait_queue_init : ℕ → Kernel → Kernel
wait_queue_init q k = record k { wait_head = update k.wait_head q [] }

unfoldable pub wait_queue_add : ℕ → ℕ → Kernel → Outcome Kernel
wait_queue_add q w k = do
  assert (not (k.waits w).linked && not ((k.waits w).proc == 0))
  ok (record k {
    waits = update k.waits w (record (k.waits w) { wait_queue = q; linked = true });
    wait_head = update k.wait_head q (k.wait_head q ++ w ∷ []);
  })

unfoldable pub wait_queue_del : ℕ → ℕ → Kernel → Outcome Kernel
wait_queue_del q w k = do
  assert ((k.waits w).linked && (k.waits w).wait_queue == q)
  ok (record k {
    waits = update k.waits w (record (k.waits w) { linked = false });
    wait_head = update k.wait_head q (unlink w (k.wait_head q));
  })

-- The node behind `w`, `none` at the end of the list.
unfoldable pub after : ℕ → List ℕ → Option ℕ
unfolding first
after w [] = none
after w (x ∷ xs) = if w == x then first xs else after w xs

unfoldable pub wait_queue_next : ℕ → ℕ → Kernel → Outcome (Option ℕ)
unfolding after
wait_queue_next q w k = do
  assert ((k.waits w).linked && (k.waits w).wait_queue == q)
  ok (after w (k.wait_head q))

unfoldable pub wait_queue_first : ℕ → Kernel → Option ℕ
unfolding first
wait_queue_first q k = first (k.wait_head q)

unfoldable pub wait_queue_empty : ℕ → Kernel → Bool
wait_queue_empty q k = elim (k.wait_head q) [ [] ↦ true | _ ∷ _ ↦ false ]

abbrev pub wait_in_queue : ℕ → Kernel → Bool
wait_in_queue w k = (k.waits w).linked

abbrev pub flag_wait : ℕ → ℕ → Kernel → Kernel
flag_wait w flags k = set_wait k w (record (k.waits w) { wakeup_flags = flags })

unfoldable pub wakeup_wait : ℕ → ℕ → ℕ → Bool → Kernel → Outcome Kernel
unfolding wait_queue_del
wakeup_wait q w flags del k = do
  k' ← (if del then wait_queue_del q w k else ok k)
  wakeup_proc (k'.waits w).proc (flag_wait w flags k')

unfoldable pub wakeup_first_of : Option ℕ → ℕ → ℕ → Bool → Kernel → Outcome Kernel
unfolding wakeup_wait
wakeup_first_of none q flags del k = ok k
wakeup_first_of (some w) q flags del k = wakeup_wait q w flags del k

unfoldable pub wakeup_first : ℕ → ℕ → Bool → Kernel → Outcome Kernel
unfolding wait_queue_first wakeup_first_of
wakeup_first q flags del k = wakeup_first_of (wait_queue_first q k) q flags del k

-- The loop of `wakeup_queue` with `del`: the first wait is taken off and woken until none is left.
-- It runs on fuel; running out counts as a failure.
unfoldable pub wakeup_drain : ℕ → ℕ → ℕ → Kernel → Outcome Kernel
unfolding wakeup_wait wait_queue_first
wakeup_drain zero q flags k = panic
wakeup_drain (suc n) q flags k = elim (wait_queue_first q k) [
  | none ↦ ok k
  | some w ↦ wakeup_wait q w flags true k >>= wakeup_drain n q flags
]

-- The loop without `del`, at the wait `w`.
unfoldable pub wakeup_walk : ℕ → ℕ → ℕ → ℕ → Kernel → Outcome Kernel
unfolding wakeup_wait wait_queue_next
wakeup_walk zero w q flags k = panic
wakeup_walk (suc n) w q flags k = do
  k' ← wakeup_wait q w flags false k
  next ← wait_queue_next q w k'
  elim next [ none ↦ ok k' | some w' ↦ wakeup_walk n w' q flags k' ]

-- The fuel is one round more than the queue has waits.
unfoldable pub wakeup_queue : ℕ → ℕ → Bool → Kernel → Outcome Kernel
unfolding wakeup_drain wakeup_walk
wakeup_queue q flags del k =
    let fuel = suc (length (k.wait_head q)) in
    elim (wait_queue_first q k) [
      | none ↦ ok k
      | some w ↦ if del then wakeup_drain fuel q flags k else wakeup_walk fuel w q flags k
    ]

-- The current process goes to sleep on the queue, through the wait `w`.
unfoldable pub wait_current_set : ℕ → ℕ → ℕ → Kernel → Outcome Kernel
unfolding wait_init wait_queue_add
wait_current_set q w wait_state k = do
  assert (not (k.current == 0))
  let k' = wait_init w k.current k
  let r = record (k'.procs k'.current) { state = sleeping; wait_state = wait_state }
  wait_queue_add q w (set_proc k' k'.current r)

unfoldable pub wait_current_del : ℕ → ℕ → Kernel → Outcome Kernel
unfolding wait_queue_del
wait_current_del q w k = if wait_in_queue w k then wait_queue_del q w k else ok k
