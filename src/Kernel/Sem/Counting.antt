-- ===== src/Kernel/Sem/Counting.antt =====
-- Semaphores count: up of ucore_os/kern/sync/sem.c against a counter with a queue of waiters.
use dora_aos2019_homework.Prelude.{
  ℕ, ◌+◌, ◌-◌, ◌^◌, ◌<◌, ◌≡◌, refl, sym, ◌∙◌, ◌≢◌, true, false, some, List, [], ◌∷◌, ◌++◌, arith,
  ok, ltb, ◌==◌, if◌then◌else◌,
}
use dora_aos2019_homework.Kernel.{Kernel}
use dora_aos2019_homework.Kernel.Links.{has, unlink, has-unlink}
use dora_aos2019_homework.Kernel.Sched.{is_runnable}
use dora_aos2019_homework.Kernel.Sched.Invariant.{IsValid, IsValid-elsewhere}
use dora_aos2019_homework.Prelude.Int.{pos_part, neg_part, ◌+ℤ◌}
use dora_aos2019_homework.Kernel.Waits.{wt_ksem}
pub use mathlib.Core.List.{head?}
use dora_aos2019_homework.Kernel.Waits.Wakeups.{
  IsQueue, Released, wakeup_wait-Released, Released-IsQueue,
}
use dora_aos2019_homework.Kernel.Sem.{set_value, int_succ, up, up_state, down_resume}

-- What a semaphore promises: a number of permits, and who waits for one, longest first.
pub record Permits : Type 0 where
  pub free : ℕ
  pub waiting : List ℕ

-- A permit that is given back goes to the first that waits.
abbrev pub give : Permits → Permits
give s = elim s.waiting [ [] ↦ record s { free = s.free + 1 } | w ∷ ws ↦ record s { waiting = ws } ]

-- A permit is taken, or `w` queues for one.
abbrev pub take : ℕ → Permits → Permits
take w s =
    if ltb 0 s.free
    then record s { free = s.free - 1 }
    else record s { waiting = s.waiting ++ w ∷ [] }

abbrev pub permits : ℕ → Kernel → Permits
permits s k = record { free = pos_part (k.sem_value s); waiting = k.wait_head s }

pub record IsSem (s : ℕ) (k : Kernel) : Type 0 where
  pub queue : IsQueue s k
  pub nonneg : neg_part (k.sem_value s) ≡ 0
  pub drained : (w : ℕ) → has w (k.wait_head s) ≡ true → pos_part (k.sem_value s) ≡ 0
  pub asleep :
      (w : ℕ) → has w (k.wait_head s) ≡ true → is_runnable (k.procs (k.waits w).proc).state ≡ false
  pub ksem :
      (w : ℕ) → has w (k.wait_head s) ≡ true → (k.procs (k.waits w).proc).wait_state ≡ wt_ksem
  pub alone :
      (v w : ℕ)
      → has v (k.wait_head s) ≡ true
      → has w (k.wait_head s) ≡ true
      → (k.waits v).proc ≡ (k.waits w).proc
      → v ≡ w

up_free :
    {s : ℕ} {k : Kernel}
    → IsValid k
    → IsSem s k
    → pos_part (k.sem_value s) + 1 < 2 ^ 31
    → k.wait_head s ≡ []
    → (k' : Kernel) × (up s k ≡ ok k')
      × IsValid k'
      × IsSem s k'
      × (permits s k' ≡ give (permits s k))
unfolding up ◌+ℤ◌ int_succ
up_free {s} {k} v m b e = (
  set_value s (int_succ (k.sem_value s)) k,
  rw (e, up_state),
  IsValid-elsewhere _ _ _ _ v,
  record {
    queue = record {
      once = m.queue.once;
      joined = m.queue.joined;
      home = m.queue.home;
      alive = m.queue.alive;
    };
    nonneg = ground (arith, m.nonneg);
    drained = λ w on. ground arith;
    asleep = m.asleep;
    ksem = m.ksem;
    alone = m.alone;
  },
  ground (arith, m.nonneg),
)

module _ {s w : ℕ} {k k' : Kernel} (m : IsSem s k) (on : has w (k.wait_head s) ≡ true)
    (r : Released s w wt_ksem k k') where
  left : (v : ℕ) → has v (k'.wait_head s) ≡ true → (has v (k.wait_head s) ≡ true) × (v ≢ w)
  left v h = ground (arith, r.queue, has-unlink v w (k.wait_head s) m.queue.once)

  -- The processes of the waits that are left have not been woken.
  untouched :
      (v : ℕ)
      → has v (k'.wait_head s) ≡ true
      → k'.procs (k'.waits v).proc ≡ k.procs (k.waits v).proc
  untouched v h =
      let (before, ne) = left v h in
      rw (r.same_proc v) (r.other_procs (k.waits v).proc (λ e. ne (m.alone v w before on e)))

  Released-IsSem : IsSem s k'
  Released-IsSem = record {
    queue = Released-IsQueue m.queue r;
    nonneg = rw r.values m.nonneg;
    drained = λ v h. rw r.values (m.drained v (left v h).0);
    asleep = λ v h. rw (untouched v h) (m.asleep v (left v h).0);
    ksem = λ v h. rw (untouched v h) (m.ksem v (left v h).0);
    alone = λ u v hu hv e.
        m.alone u v (left u hu).0 (left v hv).0 (sym (r.same_proc u) ∙ e ∙ r.same_proc v);
  }

-- `up` with a process waiting.
up_waiting :
    {s : ℕ} {k : Kernel} (w : ℕ) (ws : List ℕ)
    → IsValid k
    → IsSem s k
    → k.wait_head s ≡ w ∷ ws
    → (k' : Kernel) × (up s k ≡ ok k')
      × IsValid k'
      × IsSem s k'
      × (permits s k' ≡ give (permits s k))
      × Released s w wt_ksem k k'
unfolding up unlink
up_waiting {s} {k} w ws v m e =
    let on : has w (k.wait_head s) ≡ true = ground arith in
    let (k', wakes, r) = wakeup_wait-Released s w wt_ksem v m.queue on in
    let state : ((k.procs (k.waits w).proc).wait_state == wt_ksem) ≡ true =
      ground (arith, m.ksem w on) in
    (
      k',
      rw (e, up_state) (rw state wakes),
      r.valid,
      Released-IsSem m on r,
      ground (arith, r.queue, r.values),
      r,
    )

-- The waiter that a permit was handed to returns from `down` with it.
resume :
    (s w : ℕ) (k : Kernel)
    → (k.waits w).linked ≡ false
    → (k.waits w).wakeup_flags ≡ wt_ksem
    → down_resume s w k ≡ ok k
unfolding down_resume
resume s w k off flags = rw (off, flags)

up_queue :
    (s : ℕ) (ws : List ℕ) {k : Kernel}
    → IsValid k
    → IsSem s k
    → pos_part (k.sem_value s) + 1 < 2 ^ 31
    → k.wait_head s ≡ ws
    → (k' : Kernel) × (up s k ≡ ok k')
      × IsValid k'
      × IsSem s k'
      × (permits s k' ≡ give (permits s k))
      × ((w : ℕ)
          → head? ws ≡ some w
          → (is_runnable (k'.procs (k.waits w).proc).state ≡ true) × (down_resume s w k' ≡ ok k'))
up_queue s [] v m b e =
    let (k', runs, valid, sem, spec) = up_free v m b e in (k', runs, valid, sem, spec, λ w h. cc)
up_queue s (w ∷ ws) {k} v m b e =
    let (k', runs, valid, sem, spec, r) = up_waiting w ws v m e in
    (
      k',
      runs,
      valid,
      sem,
      spec,
      λ u h. let same : u ≡ w = cc in rw same (r.awake, resume s w k' r.off r.flagged),
    )

-- up never fails on a valid kernel and semaphore whose value is below the largest int: it gives back one
-- permit as `give` says and keeps both invariants; the process that waited longest, if there is one, can
-- run, and its down then returns.
pub up_lem :
    (s : ℕ) {k : Kernel}
    → IsValid k
    → IsSem s k
    → pos_part (k.sem_value s) + 1 < 2 ^ 31
    → (k' : Kernel) × (up s k ≡ ok k')
      × IsValid k'
      × IsSem s k'
      × (permits s k' ≡ give (permits s k))
      × ((w : ℕ)
          → head? (k.wait_head s) ≡ some w
          → (is_runnable (k'.procs (k.waits w).proc).state ≡ true) × (down_resume s w k' ≡ ok k'))
up_lem s {k} v m b = up_queue s (k.wait_head s) v m b refl
