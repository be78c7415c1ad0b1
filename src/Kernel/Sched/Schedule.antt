-- ===== src/Kernel/Sched/Schedule.antt =====
-- schedule of ucore_os/kern/schedule/sched.c: who runs next, and that the queue's invariant survives.
use dora_aos2019_homework.Prelude.{
  ℕ, ◌≡◌, refl, ◌∙◌, inl, inr, false, ◌&&◌, not, List, [], ◌∷◌, ◌++◌, arith, ok, ◌==◌,
  if◌then◌else◌, Bool-cases,
}
use dora_aos2019_homework.Kernel.{Kernel, set_proc}
use dora_aos2019_homework.Kernel.Links.{has, unlink, has-unlink}
use dora_aos2019_homework.Kernel.Sched.{is_runnable, run_next, switch_next, schedule}
use dora_aos2019_homework.Kernel.Sched.Invariant.{
  IsValid, IsValidBut, enqueued, dequeued, enqueued-but, set_proc-but, dequeued-but,
}

-- The processes that wait for the CPU when `schedule` picks: the queue, and behind it the current
-- process if it can still run.
abbrev pub candidates : Kernel → List ℕ
candidates k =
    if is_runnable (k.procs k.current).state && not (k.current == k.idleproc)
    then k.run_list ++ k.current ∷ []
    else k.run_list

abbrev pub head_or : ℕ → List ℕ → ℕ
head_or d [] = d
head_or d (x ∷ xs) = x

abbrev pub tail : List ℕ → List ℕ
tail [] = []
tail (x ∷ xs) = xs

-- The outcome of picking from the queue `xs`.
pub record Switched (k : Kernel) (xs : List ℕ) (k' : Kernel) : Type 0 where
  pub valid : IsValid k'
  pub picked : k'.current ≡ head_or k.idleproc xs
  pub rest : k'.run_list ≡ tail xs
  pub states : (q : ℕ) → (k'.procs q).state ≡ (k.procs q).state
  pub idleproc : k'.idleproc ≡ k.idleproc

-- Giving the CPU to `p`, which is off the queue.
run_next-IsValid :
    (p : ℕ) (k : Kernel)
    → IsValidBut (λ q. q == p) k
    → has p k.run_list ≡ false
    → IsValid (run_next p k)
unfolding run_next
run_next-IsValid p k v off = record {
  but = record {
    once = ground (arith, v.once);
    linked = λ q. ground (arith, v.linked q);
    owned = λ q h. ground (arith, v.owned q);
    ready = λ q h. ground (arith, v.ready q);
    idle_off = ground (arith, v.idle_off);
    count = ground (arith, v.count);
    queued = λ q run nb ni. ground (arith, v.queued q);
  };
  current_off = ground arith;
}

module _ {k : Kernel} (v : IsValidBut (λ _. false) k) where
  switch_empty : k.run_list ≡ [] → (k' : Kernel) × (switch_next k ≡ ok k') × Switched k [] k'
  unfolding switch_next
  switch_empty e = (
    run_next k.idleproc k,
    rw (e, switch_next),
    record {
      valid =
          run_next-IsValid k.idleproc k
            (record {
              once = v.once;
              linked = v.linked;
              owned = v.owned;
              ready = v.ready;
              idle_off = v.idle_off;
              count = v.count;
              queued = λ q run nb ni. v.queued q run refl ni;
            })
            v.idle_off;
      picked = ground arith;
      rest = ground arith;
      states = λ q. ground arith;
      idleproc = ground arith;
    },
  )

  switch_cons :
      (p : ℕ) (xs : List ℕ)
      → k.run_list ≡ p ∷ xs
      → (k' : Kernel) × (switch_next k ≡ ok k') × Switched k (p ∷ xs) k'
  unfolding switch_next unlink
  switch_cons p xs e = (
    run_next p (dequeued p k),
    ground (arith, v.linked p, v.owned p),
    record {
      valid =
          run_next-IsValid p (dequeued p k) (dequeued-but v e (λ q. refl))
            (ground (arith, v.once, has-unlink p p k.run_list v.once));
      picked = ground arith;
      rest = ground arith;
      states = λ q. ground arith;
      idleproc = ground arith;
    },
  )

  pub switch_next-Switched :
      (xs : List ℕ) → k.run_list ≡ xs → (k' : Kernel) × (switch_next k ≡ ok k') × Switched k xs k'
  switch_next-Switched [] e = switch_empty e
  switch_next-Switched (p ∷ xs) e = switch_cons p xs e

queue_current :
    {k : Kernel}
    → IsValid k
    → (k' : Kernel) × (schedule k ≡ switch_next k')
      × IsValidBut (λ _. false) k'
      × (k'.run_list ≡ candidates k)
      × (k'.idleproc ≡ k.idleproc)
      × ((q : ℕ) → (k'.procs q).state ≡ (k.procs q).state)
unfolding schedule
queue_current {k} v =
    let k1 = set_proc k k.current (record (k.procs k.current) { need_resched = false }) in
    let off : (k.procs k.current).on_rq ≡ false =
      ground (arith, v.but.linked k.current, v.current_off) in
    let w : IsValidBut (λ q. q == k.current) k1 =
      set_proc-but v.but _ v.current_off off _ (λ q nb ni. ground arith) in
    elim (Bool-cases (is_runnable (k.procs k.current).state && not (k.current == k.idleproc))) [
      | inl runs ↦ (
        enqueued k.current k1,
        ground (arith, off),
        enqueued-but w v.current_off (ground arith) (λ e. ground arith) _ (λ q nb. ground arith),
        ground arith,
        refl,
        λ q. ground arith,
      )
      | inr stays ↦ (
        k1,
        ground (arith, off),
        record {
          once = w.once;
          linked = w.linked;
          owned = w.owned;
          ready = w.ready;
          idle_off = w.idle_off;
          count = w.count;
          queued = λ q run nb ni. ground (arith, w.queued q);
        },
        ground arith,
        refl,
        λ q. ground arith,
      )
    ]

-- schedule never fails an assertion on a valid kernel: it puts a current process that can still run
-- behind the queue, gives the CPU to the first process of the result, or to the idle process if there is none,
-- takes that one off the queue, changes no process's state, and keeps the invariant.
pub schedule-Switched :
    {k : Kernel} → IsValid k → (k' : Kernel) × (schedule k ≡ ok k') × Switched k (candidates k) k'
schedule-Switched {k} v =
    let (k1, e, w, list, idle, same) = queue_current v in
    let (k', e', s) = switch_next-Switched w (candidates k) list in
    (
      k',
      e ∙ e',
      record {
        valid = s.valid;
        picked = ground (arith, s.picked);
        rest = s.rest;
        states = λ q. s.states q ∙ same q;
        idleproc = s.idleproc ∙ idle;
      },
    )
