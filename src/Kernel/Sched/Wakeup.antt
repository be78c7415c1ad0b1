-- ===== src/Kernel/Sched/Wakeup.antt =====
-- wakeup_proc of ucore_os/kern/schedule/sched.c makes a process runnable and keeps the queue's invariant.
use dora_aos2019_homework.Prelude.{
  ℕ, ◌≡◌, refl, ◌≢◌, ◌⊎◌, inl, inr, true, false, ◌||◌, [], ◌∷◌, arith, ok, ◌==◌, Bool-cases,
}
use dora_aos2019_homework.Kernel.{runnable, Kernel, set_proc}
use dora_aos2019_homework.Kernel.Links.{has, has-append}
use dora_aos2019_homework.Kernel.Sched.{is_runnable, is_zombie, wakeup_proc}
use dora_aos2019_homework.Kernel.Sched.Invariant.{IsValid, enqueued, enqueued-but, set_proc-but}

-- What a wake-up leaves.
pub record Woken (p : ℕ) (k k' : Kernel) : Type 0 where
  pub valid : IsValid k'
  pub awake : is_runnable (k'.procs p).state ≡ true
  pub others : (q : ℕ) → q ≢ p → k'.procs q ≡ k.procs q
  pub current : k'.current ≡ k.current
  pub idleproc : k'.idleproc ≡ k.idleproc
  pub settled : ((k'.procs p).wait_state ≡ 0) ⊎ (k'.procs p ≡ k.procs p)
  pub timer_list : k'.timer_list ≡ k.timer_list
  pub waits : k'.waits ≡ k.waits
  pub wait_head : k'.wait_head ≡ k.wait_head
  pub sem_value : k'.sem_value ≡ k.sem_value

abbrev woken : ℕ → Kernel → Kernel
woken p k = set_proc k p (record (k.procs p) { state = runnable; wait_state = 0 })

wakeup_sleeping :
    (p : ℕ) {k : Kernel}
    → IsValid k
    → is_zombie (k.procs p).state ≡ false
    → is_runnable (k.procs p).state ≡ false
    → (k' : Kernel) × (wakeup_proc p k ≡ ok k') × Woken p k k'
unfolding wakeup_proc
wakeup_sleeping p {k} v alive asleep =
    let off : has p k.run_list ≡ false = ground (arith, v.but.ready p) in
    let unlinked : (k.procs p).on_rq ≡ false = ground (arith, v.but.linked p) in
    elim (Bool-cases (p == k.current || p == k.idleproc)) [
      | inl stays ↦ (
        woken p k,
        ground (arith, off, unlinked),
        record {
          valid = record {
            but = set_proc-but v.but _ off unlinked (λ q. q == k.current) (λ q nb ni. ground arith);
            current_off = v.current_off;
          };
          awake = ground arith;
          others = λ q ne. ground arith;
          current = refl;
          idleproc = refl;
          settled = inl (ground arith);
          timer_list = refl;
          waits = refl;
          wait_head = refl;
          sem_value = refl;
        },
      )
      | inr queue ↦ (
        enqueued p (woken p k),
        ground (arith, off, unlinked),
        record {
          valid = record {
            but =
                enqueued-but
                  (set_proc-but v.but _ off unlinked (λ q. q == k.current || q == p)
                    (λ q nb ni. ground arith))
                  off (ground arith) (λ e. ground arith) (λ q. q == k.current)
                  (λ q nb. ground arith);
            current_off = ground (arith, v.current_off, has-append k.current k.run_list (p ∷ []));
          };
          awake = ground arith;
          others = λ q ne. ground arith;
          current = refl;
          idleproc = refl;
          settled = inl (ground arith);
          timer_list = refl;
          waits = refl;
          wait_head = refl;
          sem_value = refl;
        },
      )
    ]

-- wakeup_proc of a process that is not a zombie never fails: it makes the process runnable, leaves
-- every other process, the current and the idle process alone, and keeps the invariant.
pub wakeup_proc-Woken :
    (p : ℕ) {k : Kernel}
    → IsValid k
    → is_zombie (k.procs p).state ≡ false
    → (k' : Kernel) × (wakeup_proc p k ≡ ok k') × Woken p k k'
unfolding wakeup_proc
wakeup_proc-Woken p {k} v alive = elim (Bool-cases (is_runnable (k.procs p).state)) [
  | inl awake ↦ (
    k,
    ground arith,
    record {
      valid = v;
      awake = awake;
      others = λ q ne. refl;
      current = refl;
      idleproc = refl;
      settled = inr refl;
      timer_list = refl;
      waits = refl;
      wait_head = refl;
      sem_value = refl;
    },
  )
  | inr asleep ↦ wakeup_sleeping p v alive asleep
]
