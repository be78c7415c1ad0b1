-- ===== src/Kernel/Sem/Down.antt =====
-- The callers of a semaphore: down and try_down of ucore_os/kern/sync/sem.c.
use dora_aos2019_homework.Prelude.{
  ℕ, ◌-◌, ◌≡◌, refl, ◌≢◌, ◌⊎◌, inl, inr, true, false, [], ◌∷◌, ◌++◌, arith, ok, ltb, ◌==◌,
  if◌then◌else◌, Bool-cases,
}
use dora_aos2019_homework.Kernel.{sleeping, Kernel, update}
use dora_aos2019_homework.Kernel.Links.{has, has-append, distinct-snoc}
use dora_aos2019_homework.Kernel.Sched.{is_runnable}
use dora_aos2019_homework.Kernel.Sched.Invariant.{IsValid, set_proc-but, IsValid-elsewhere}
use dora_aos2019_homework.Prelude.Int.{pos, pos_part, ◌-ℤ◌}
use dora_aos2019_homework.Kernel.Waits.{wt_ksem, wait_current_set}
use dora_aos2019_homework.Kernel.Sem.{set_value, down_enter, try_down}
use dora_aos2019_homework.Kernel.Sem.Counting.{take, permits, IsSem}

-- The caller of `down`: a process that runs, with a wait of its own that is on no queue.
pub record IsCaller (s w : ℕ) (k : Kernel) : Type 0 where
  pub real : k.current ≢ 0
  pub running : is_runnable (k.procs k.current).state ≡ true
  pub fresh : has w (k.wait_head s) ≡ false

abbrev asleep_on : ℕ → ℕ → Kernel → Kernel
asleep_on s w k = record k {
  procs =
      update k.procs k.current
        (record (k.procs k.current) { state = sleeping; wait_state = wt_ksem });
  waits =
      update
        (update k.waits w
          (record (k.waits w) { proc = k.current; wakeup_flags = 0x8000_0000; linked = false }))
        w
        (record (k.waits w) {
          proc = k.current;
          wakeup_flags = 0x8000_0000;
          wait_queue = s;
          linked = true;
        });
  wait_head = update k.wait_head s (k.wait_head s ++ w ∷ []);
}

module _ {s w : ℕ} {k : Kernel} (v : IsValid k) (m : IsSem s k) (c : IsCaller s w k) where
  sleep_runs : wait_current_set s w wt_ksem k ≡ ok (asleep_on s w k)
  unfolding wait_current_set
  sleep_runs =
      let self : (w == w) ≡ true = ground arith in
      let real : (k.current == 0) ≡ false = ground (arith, c.real) in rw (real, self, real) refl

  sleep-IsValid : IsValid (asleep_on s w k)
  sleep-IsValid =
      let off : (k.procs k.current).on_rq ≡ false =
        ground (arith, v.but.linked k.current, v.current_off) in
      IsValid-elsewhere k.timer_list _ _ k.sem_value (record {
        but =
            set_proc-but v.but
              (record (k.procs k.current) { state = sleeping; wait_state = wt_ksem }) v.current_off
              off (λ q. q == k.current) (λ q nb ni. ground arith);
        current_off = v.current_off;
      })

  before :
      (u : ℕ)
      → has u ((asleep_on s w k).wait_head s) ≡ true
      → ((has u (k.wait_head s) ≡ true) × (u ≢ w)) ⊎ (u ≡ w)
  before u on = ground (arith, has-append u (k.wait_head s) (w ∷ []), c.fresh)

  sleep-IsSem : pos_part (k.sem_value s) ≡ 0 → IsSem s (asleep_on s w k)
  sleep-IsSem none_free = record {
    queue = record {
      once = ground (arith, distinct-snoc (k.wait_head s) w m.queue.once c.fresh);
      joined = λ u on. ground (arith, before u on, m.queue.joined u);
      home = λ u on. ground (arith, before u on, m.queue.home u);
      alive = λ u on. ground (arith, before u on, m.queue.alive u);
    };
    nonneg = m.nonneg;
    drained = λ u on. none_free;
    asleep = λ u on. ground (arith, before u on, m.asleep u);
    ksem = λ u on. ground (arith, before u on, m.ksem u);
    alone = λ a b on on' e.
        ground (arith, before a on, before b on', m.alone a b, m.asleep a, m.asleep b, c.running);
  }

-- down on a valid semaphore, called by a running process with a wait of its own, takes a permit as `take`
-- says and keeps every invariant: it returns at once if one is free, and otherwise leaves the
-- caller asleep in the queue behind those that wait already.
pub down_enter_lem :
    {s w : ℕ} {k : Kernel}
    → IsValid k
    → IsSem s k
    → IsCaller s w k
    → (k' : Kernel) × (down_enter s w wt_ksem k ≡ ok (ltb 0 (pos_part (k.sem_value s)), k'))
      × IsValid k'
      × IsSem s k'
      × (permits s k' ≡ take w (permits s k))
unfolding down_enter ◌-ℤ◌
down_enter_lem {s} {w} {k} v m c = elim (Bool-cases (ltb 0 (pos_part (k.sem_value s)))) [
  | inl free ↦ (
    set_value s (k.sem_value s -ℤ pos 1) k,
    ground (arith, m.nonneg),
    IsValid-elsewhere _ _ _ _ v,
    record {
      queue = record {
        once = m.queue.once;
        joined = m.queue.joined;
        home = m.queue.home;
        alive = m.queue.alive;
      };
      nonneg = ground (arith, m.nonneg);
      drained = λ u on. ground (arith, m.drained u);
      asleep = m.asleep;
      ksem = m.ksem;
      alone = m.alone;
    },
    ground (arith, m.nonneg),
  )
  | inr taken ↦ (
    asleep_on s w k,
    ground (arith, m.nonneg, sleep_runs v m c),
    sleep-IsValid v m c,
    sleep-IsSem v m c (ground arith),
    ground arith,
  )
]

-- try_down on a valid semaphore takes a permit exactly when one is free, leaves the waiting processes
-- and the run queue alone, and never blocks.
pub try_down_lem :
    (s : ℕ) {k : Kernel}
    → IsSem s k
    → let (taken, k') = try_down s k in
      (taken ≡ ltb 0 (pos_part (k.sem_value s)))
      × (permits s k' ≡ (
          if taken
          then record (permits s k) { free = pos_part (k.sem_value s) - 1 }
          else permits s k))
      × (k'.run_list ≡ k.run_list)
unfolding try_down ◌-ℤ◌
try_down_lem s {k} m = ground (arith, m.nonneg)
