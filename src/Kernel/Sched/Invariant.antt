-- ===== src/Kernel/Sched/Invariant.antt =====
-- The run queue's invariant, and that the scheduler keeps it.
use dora_aos2019_homework.Prelude.{
  ℕ, ◌+◌, ◌-◌, ◌%◌, ◌^◌, ◌≡◌, ◌≢◌, ◌⊎◌, Bool, true, false, ◌||◌, List, [], ◌∷◌, ◌++◌, arith, ok,
  ltb, ◌==◌, if◌then◌else◌, length, length-append,
}
use dora_aos2019_homework.Kernel.{Proc, Kernel, update, set_proc}
use dora_aos2019_homework.Prelude.Int.{ℤ}
use dora_aos2019_homework.Kernel.{Timer, Wait}
use dora_aos2019_homework.Kernel.Links.{
  has, unlink, distinct, has-append, distinct-snoc, has-unlink, distinct-unlink, length-unlink,
}
use dora_aos2019_homework.Kernel.Sched.{is_runnable, rr_enqueue}

-- `busy` marks the processes that may be runnable and off the queue.
pub record IsValidBut (busy : ℕ → Bool) (k : Kernel) : Type 0 where
  pub once : distinct k.run_list ≡ true
  pub linked : (p : ℕ) → (k.procs p).on_rq ≡ has p k.run_list
  pub owned : (p : ℕ) → has p k.run_list ≡ true → (k.procs p).rq_set ≡ true
  pub ready : (p : ℕ) → has p k.run_list ≡ true → is_runnable (k.procs p).state ≡ true
  pub idle_off : has k.idleproc k.run_list ≡ false
  pub count : k.proc_num ≡ length k.run_list % 2 ^ 32
  pub queued :
      (p : ℕ)
      → is_runnable (k.procs p).state ≡ true
      → busy p ≡ false
      → p ≢ k.idleproc
      → has p k.run_list ≡ true

-- The queue holds each runnable process once, but for the current and the idle process; it holds no
-- other, and `proc_num` counts it.
pub record IsValid (k : Kernel) : Type 0 where
  pub but : IsValidBut (λ q. q == k.current) k
  pub current_off : has k.current k.run_list ≡ false

-- A queued process: at the back, linked, its time slice refilled.
abbrev pub with_queued : ℕ → ℕ → Proc → Proc
with_queued max p r = record r {
  on_rq = true;
  time_slice = if r.time_slice == 0 || ltb max r.time_slice then max else r.time_slice;
  rq_set = true;
}

abbrev pub enqueued : ℕ → Kernel → Kernel
enqueued p k = record k {
  procs = update k.procs p (with_queued k.max_time_slice p (k.procs p));
  run_list = k.run_list ++ p ∷ [];
  proc_num = (k.proc_num + 1) % 2 ^ 32;
}

abbrev pub dequeued : ℕ → Kernel → Kernel
dequeued p k = record k {
  procs = update k.procs p (record (k.procs p) { on_rq = false });
  run_list = unlink p k.run_list;
  proc_num = (k.proc_num + 2 ^ 32 - 1) % 2 ^ 32;
}

pub rr_enqueue-ok :
    (p : ℕ) (k : Kernel) → (k.procs p).on_rq ≡ false → rr_enqueue p k ≡ ok (enqueued p k)
unfolding rr_enqueue
rr_enqueue-ok p k off = ground arith

module _ {busy : ℕ → Bool} {k : Kernel} (v : IsValidBut busy k) where
  -- Queueing a runnable process takes it off the exceptions.
  pub enqueued-but :
      {p : ℕ}
      → has p k.run_list ≡ false
      → is_runnable (k.procs p).state ≡ true
      → p ≢ k.idleproc
      → (busy' : ℕ → Bool) → ((q : ℕ) → busy' q ≡ false → (busy q ≡ false) ⊎ (q ≡ p))
      → IsValidBut busy' (enqueued p k)
  enqueued-but {p} off run ne busy' fewer = record {
    once = distinct-snoc k.run_list p v.once off;
    linked = λ q. ground (arith, v.linked q, has-append q k.run_list (p ∷ []));
    owned = λ q h. ground (arith, v.owned q, has-append q k.run_list (p ∷ []));
    ready = λ q h. ground (arith, v.ready q, has-append q k.run_list (p ∷ []));
    idle_off = ground (arith, v.idle_off, has-append k.idleproc k.run_list (p ∷ []));
    count = omega (arith, v.count, length-append k.run_list (p ∷ []));
    queued = λ q r nb ni. ground (arith, fewer q nb, v.queued q, has-append q k.run_list (p ∷ []));
  }

  -- A write to a process that is off the queue and stays off it.
  pub set_proc-but :
      {p : ℕ} (r : Proc)
      → has p k.run_list ≡ false
      → r.on_rq ≡ false
      → (busy' : ℕ → Bool)
      → ((q : ℕ)
          → busy' q ≡ false
          → q ≢ k.idleproc
          → ((busy q ≡ false) × (q ≢ p)) ⊎ ((q ≡ p) × (is_runnable r.state ≡ false)))
      → IsValidBut busy' (set_proc k p r)
  set_proc-but {p} r off stays busy' fewer = record {
    once = v.once;
    linked = λ q. ground (arith, v.linked q);
    owned = λ q h. ground (arith, v.owned q);
    ready = λ q h. ground (arith, v.ready q);
    idle_off = v.idle_off;
    count = v.count;
    queued = λ q run nb ni. ground (arith, fewer q nb, v.queued q);
  }

  -- Taking the first process off the queue makes it the exception.
  pub dequeued-but :
      {p : ℕ} {xs : List ℕ}
      → k.run_list ≡ p ∷ xs
      → ((q : ℕ) → busy q ≡ false)
      → IsValidBut (λ q. q == p) (dequeued p k)
  dequeued-but {p} {xs} e none_busy = record {
    once = distinct-unlink p k.run_list v.once;
    linked = λ q. ground (arith, v.linked q, has-unlink q p k.run_list v.once);
    owned = λ q h. ground (arith, v.owned q, has-unlink q p k.run_list v.once);
    ready = λ q h. ground (arith, v.ready q, has-unlink q p k.run_list v.once);
    idle_off = ground (arith, v.idle_off, has-unlink k.idleproc p k.run_list v.once);
    count = ground (arith, v.count, length-unlink p k.run_list);
    queued =
        λ q run nb ni. ground (arith, none_busy q, v.queued q, has-unlink q p k.run_list v.once);
  }

-- The invariant does not read the timers, the wait queues and the semaphores.
pub IsValid-elsewhere :
    {k : Kernel} (ts : List Timer) (ws : ℕ → Wait) (heads : ℕ → List ℕ) (values : ℕ → ℤ)
    → IsValid k
    → IsValid (record k { timer_list = ts; waits = ws; wait_head = heads; sem_value = values })
IsValid-elsewhere ts ws heads values v = record {
  but = record {
    once = v.but.once;
    linked = v.but.linked;
    owned = v.but.owned;
    ready = v.but.ready;
    idle_off = v.but.idle_off;
    count = v.but.count;
    queued = v.but.queued;
  };
  current_off = v.current_off;
}
