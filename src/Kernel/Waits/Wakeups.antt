-- ===== src/Kernel/Waits/Wakeups.antt =====
-- What waking from a wait queue and going to sleep on one do: ucore_os/kern/sync/wait.c.
use dora_aos2019_homework.Prelude.{
  ℕ, zero, suc, ◌<◌, ◌≡◌, refl, ◌≢◌, inl, inr, true, false, List, [], ◌∷◌, arith, ok, ◌==◌, length,
  Bool-cases,
}
use dora_aos2019_homework.Kernel.{Proc, Kernel, update}
use dora_aos2019_homework.Kernel.Links.{has, unlink, distinct, has-unlink, distinct-unlink}
use dora_aos2019_homework.Kernel.Sched.{is_runnable, is_zombie, first}
use dora_aos2019_homework.Kernel.Sched.Invariant.{IsValid, IsValid-elsewhere}
use dora_aos2019_homework.Kernel.Sched.Wakeup.{wakeup_proc-Woken}
use dora_aos2019_homework.Kernel.Waits.{wakeup_wait, wakeup_drain, wakeup_queue}

-- The waits of the queue at `q`: linked into it once each, for processes that sleep.
pub record IsQueue (q : ℕ) (k : Kernel) : Type 0 where
  pub once : distinct (k.wait_head q) ≡ true
  pub joined : (w : ℕ) → has w (k.wait_head q) ≡ true → (k.waits w).linked ≡ true
  pub home : (w : ℕ) → has w (k.wait_head q) ≡ true → (k.waits w).wait_queue ≡ q
  pub alive :
      (w : ℕ) → has w (k.wait_head q) ≡ true → is_zombie (k.procs (k.waits w).proc).state ≡ false

-- The wait `w` is off the queue, with `flags`, and the scheduler has woken its process.
pub record Released (q w flags : ℕ) (k k' : Kernel) : Type 0 where
  pub valid : IsValid k'
  pub queue : k'.wait_head q ≡ unlink w (k.wait_head q)
  pub off : (k'.waits w).linked ≡ false
  pub flagged : (k'.waits w).wakeup_flags ≡ flags
  pub same_proc : (v : ℕ) → (k'.waits v).proc ≡ (k.waits v).proc
  pub other_waits : (v : ℕ) → v ≢ w → k'.waits v ≡ k.waits v
  pub other_queues : (r : ℕ) → r ≢ q → k'.wait_head r ≡ k.wait_head r
  pub awake : is_runnable (k'.procs (k.waits w).proc).state ≡ true
  pub other_procs : (p : ℕ) → p ≢ (k.waits w).proc → k'.procs p ≡ k.procs p
  pub values : k'.sem_value ≡ k.sem_value
  pub current : k'.current ≡ k.current

pub wakeup_wait-Released :
    (q w flags : ℕ) {k : Kernel}
    → IsValid k
    → IsQueue q k
    → has w (k.wait_head q) ≡ true
    → (k' : Kernel) × (wakeup_wait q w flags true k ≡ ok k') × Released q w flags k k'
unfolding wakeup_wait
wakeup_wait-Released q w flags {k} v qv on =
    let linked = qv.joined w on in
    let here : ((k.waits w).wait_queue == q) ≡ true = ground (arith, qv.home w on) in
    let self : (w == w) ≡ true = ground arith in
    let k1 : Kernel = record k {
      waits =
          update (update k.waits w (record (k.waits w) { linked = false })) w
            (record (k.waits w) { linked = false; wakeup_flags = flags });
      wait_head = update k.wait_head q (unlink w (k.wait_head q));
    } in
    let (k', wakes, s) =
      wakeup_proc-Woken (k.waits w).proc {k = k1} (IsValid-elsewhere _ _ _ _ v) (qv.alive w on) in
    (
      k',
      rw (linked, here, self) wakes,
      record {
        valid = s.valid;
        queue = ground (arith, s.wait_head);
        off = ground (arith, s.waits);
        flagged = ground (arith, s.waits);
        same_proc = λ u. ground (arith, s.waits);
        other_waits = λ u ne. ground (arith, s.waits);
        other_queues = λ r ne. ground (arith, s.wait_head);
        awake = s.awake;
        other_procs = s.others;
        values = s.sem_value;
        current = s.current;
      },
    )

runnable-not_zombie : (r : Proc) → is_runnable r.state ≡ true → is_zombie r.state ≡ false
runnable-not_zombie r run = ground arith

module _ {q w flags : ℕ} {k k' : Kernel} (qv : IsQueue q k) (r : Released q w flags k k') where
  stays : (v : ℕ) → has v (k'.wait_head q) ≡ true → (has v (k.wait_head q) ≡ true) × (v ≢ w)
  stays v on = ground (arith, r.queue, has-unlink v w (k.wait_head q) qv.once)

  stays_alive :
      (v : ℕ) → has v (k'.wait_head q) ≡ true → is_zombie (k'.procs (k'.waits v).proc).state ≡ false
  stays_alive v on = rw (r.same_proc v) (elim (Bool-cases ((k.waits v).proc == (k.waits w).proc)) [
    | inl same ↦
        let e : (k.waits v).proc ≡ (k.waits w).proc = ground arith in
        rw e (runnable-not_zombie (k'.procs (k.waits w).proc) r.awake)
    | inr other ↦
        rw (r.other_procs (k.waits v).proc (λ e. ground arith)) (qv.alive v (stays v on).0)
  ])

  pub Released-IsQueue : IsQueue q k'
  Released-IsQueue = record {
    once = rw r.queue (distinct-unlink w (k.wait_head q) qv.once);
    joined = λ v on. rw (r.other_waits v (stays v on).1) (qv.joined v (stays v on).0);
    home = λ v on. rw (r.other_waits v (stays v on).1) (qv.home v (stays v on).0);
    alive = stays_alive;
  }

-- Every wait of `ws` is off the queue with `flags`, and its process can run.
record Drained (ws : List ℕ) (q flags : ℕ) (k k' : Kernel) : Type 0 where
  valid : IsValid k'
  empty : k'.wait_head q ≡ []
  off : (w : ℕ) → has w ws ≡ true → (k'.waits w).linked ≡ false
  flagged : (w : ℕ) → has w ws ≡ true → (k'.waits w).wakeup_flags ≡ flags
  awake : (w : ℕ) → has w ws ≡ true → is_runnable (k'.procs (k.waits w).proc).state ≡ true
  other_waits : (w : ℕ) → has w ws ≡ false → k'.waits w ≡ k.waits w
  still : (p : ℕ) → is_runnable (k.procs p).state ≡ true → is_runnable (k'.procs p).state ≡ true

Released-runnable :
    {q w flags : ℕ} {k k' : Kernel}
    → Released q w flags k k'
    → (p : ℕ) → is_runnable (k.procs p).state ≡ true
    → is_runnable (k'.procs p).state ≡ true
Released-runnable r p run = ground (arith, r.awake, r.other_procs p)

Drained-cons :
    {w : ℕ} {ws : List ℕ} {q flags : ℕ} {k k1 k' : Kernel}
    → has w ws ≡ false
    → Released q w flags k k1
    → Drained ws q flags k1 k'
    → Drained (w ∷ ws) q flags k k'
Drained-cons {w} {ws} {q} {flags} {k} {k1} {k'} out r d = record {
  valid = d.valid;
  empty = d.empty;
  off = λ v on. ground (arith, d.off v, d.other_waits v, r.off);
  flagged = λ v on. ground (arith, d.flagged v, d.other_waits v, r.flagged);
  awake = λ v on. ground (arith, d.awake v, r.same_proc v, d.still (k.waits w).proc, r.awake);
  other_waits = λ v out'. ground (arith, d.other_waits v, r.other_waits v);
  still = λ p run. d.still p (Released-runnable r p run);
}

drain-Drained :
    (ws : List ℕ) (n q flags : ℕ) {k : Kernel}
    → length ws < n
    → IsValid k
    → IsQueue q k
    → k.wait_head q ≡ ws
    → (k' : Kernel) × (wakeup_drain n q flags k ≡ ok k') × Drained ws q flags k k'
unfolding wakeup_drain unlink first
drain-Drained ws zero q flags fuel v qv e = elim fuel [ ]
drain-Drained [] (suc n) q flags {k} fuel v qv e = (
  k,
  rw (e, wakeup_drain),
  record {
    valid = v;
    empty = e;
    off = λ w on. cc;
    flagged = λ w on. cc;
    awake = λ w on. cc;
    other_waits = λ w out. refl;
    still = λ p run. run;
  },
)
drain-Drained (w ∷ ws) (suc n) q flags {k} fuel v qv e =
    let (k1, wakes, r) = wakeup_wait-Released q w flags v qv (ground arith) in
    let rest : k1.wait_head q ≡ ws = ground (arith, r.queue) in
    let (k', drains, d) =
      drain-Drained ws n q flags (omega arith) r.valid (Released-IsQueue qv r) rest in
    (k', rw (e, wakeup_drain) (rw wakes drains), Drained-cons (ground (arith, qv.once)) r d)

queue_drain :
    (ws : List ℕ) (q flags : ℕ) (k : Kernel) {k' : Kernel}
    → k.wait_head q ≡ ws
    → wakeup_drain (suc (length (k.wait_head q))) q flags k ≡ ok k'
    → wakeup_queue q flags true k ≡ ok k'
unfolding wakeup_queue
queue_drain [] q flags k e h = rw (e, wakeup_queue) (rw (e, wakeup_drain) at h)
queue_drain (w ∷ ws) q flags k e h = rw (e, wakeup_queue) h

-- wakeup_queue with del never fails on a valid queue and kernel, nor runs out of fuel: it ends with the
-- queue empty, every wait that was on it is unlinked and carries the flags, its process can run, and the
-- scheduler stays valid.
pub wakeup_queue-Drained :
    (q flags : ℕ) {k : Kernel}
    → IsValid k
    → IsQueue q k
    → (k' : Kernel) × (wakeup_queue q flags true k ≡ ok k')
      × IsValid k'
      × (k'.wait_head q ≡ [])
      × ((w : ℕ)
          → has w (k.wait_head q) ≡ true
          → ((k'.waits w).linked ≡ false)
            × ((k'.waits w).wakeup_flags ≡ flags)
            × (is_runnable (k'.procs (k.waits w).proc).state ≡ true))
wakeup_queue-Drained q flags {k} v qv =
    let (k', drains, d) =
      drain-Drained (k.wait_head q) (suc (length (k.wait_head q))) q flags (omega arith) v qv
        refl in
    (
      k',
      queue_drain (k.wait_head q) q flags k refl drains,
      d.valid,
      d.empty,
      λ w on. (d.off w on, d.flagged w on, d.awake w on),
    )
