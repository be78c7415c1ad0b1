-- ===== src/Kernel/Timers/Tick.antt =====
-- One tick of run_timer_list (ucore_os/kern/schedule/sched.c): which timers fire, and what stays.
use dora_aos2019_homework.Prelude.{
  ℕ, ◌+◌, ◌-◌, ◌≤◌, ◌<◌, ◌≡◌, refl, sym, ◌∙◌, ap, inl, inr, true, false, ◌||◌, List, [], ◌∷◌, arith,
  ok, ◌>>=◌, leb, ◌==◌, if◌then◌else◌, Bool-cases, subst,
}
use dora_aos2019_homework.Kernel.{Proc, Kernel, Timer}
use dora_aos2019_homework.Kernel.Sched.{is_runnable, is_zombie, sched_class_proc_tick}
use dora_aos2019_homework.Kernel.Sched.Invariant.{IsValid, IsValid-elsewhere}
use dora_aos2019_homework.Kernel.Sched.Wakeup.{Woken, wakeup_proc-Woken}
use dora_aos2019_homework.Kernel.Timers.{
  interruptible, timer_remove, del_timer, fire, run_timer_list,
}
use dora_aos2019_homework.Kernel.Timers.Due.{due}

-- One tick later: what is due at the tick is gone, and the rest is one tick nearer.
abbrev pub advance : List (ℕ × ℕ) → List (ℕ × ℕ)
advance [] = []
advance ((a, e) ∷ ds) = if leb e 1 then advance ds else (a, e - 1) ∷ advance ds

-- The processes of the leading timers that have no ticks left.
abbrev zeros : List Timer → List ℕ
zeros [] = []
zeros (t ∷ ts) = if t.expires == 0 then t.proc ∷ zeros ts else []

-- The processes whose timers fire at the tick.
abbrev pub fired : List Timer → List ℕ
fired [] = []
fired (t ∷ ts) = if t.expires == 1 then t.proc ∷ zeros ts else []

abbrev drop_zero : List Timer → List Timer
drop_zero [] = []
drop_zero (t ∷ ts) = if t.expires == 0 then drop_zero ts else t ∷ ts

-- A process can be woken by its timer: it has not exited, and it sleeps interruptibly or not at all.
abbrev pub CanWake : Proc → Type 0
CanWake r = (is_zombie r.state ≡ false) × ((r.wait_state == 0 || interruptible r.wait_state) ≡ true)

abbrev pub AllCanWake : List Timer → (ℕ → Proc) → Type 0
AllCanWake [] f = Unit
AllCanWake (t ∷ ts) f = CanWake (f t.proc) × AllCanWake ts f

-- The first timer is not due yet.
abbrev pub HeadPending : List Timer → Type 0
HeadPending [] = Unit
HeadPending (t ∷ ts) = 0 < t.expires

abbrev pub AllRunnable : List ℕ → (ℕ → Proc) → Type 0
AllRunnable [] f = Unit
AllRunnable (p ∷ ps) f = (is_runnable (f p).state ≡ true) × AllRunnable ps f

advance-due : (base : ℕ) (ts : List Timer) → 2 ≤ base → advance (due base ts) ≡ due (base - 1) ts
advance-due base [] h = refl
advance-due base (t ∷ ts) h =
    let shift : base - 1 + t.expires ≡ base + t.expires - 1 = omega arith in
    rw shift (ground (arith, advance-due (base + t.expires) ts))

advance-due_one : (ts : List Timer) → advance (due 1 ts) ≡ due 0 (drop_zero ts)
advance-due_one [] = refl
advance-due_one (t ∷ ts) = elim (Bool-cases (t.expires == 0)) [
  | inl now ↦ let same : 1 + t.expires ≡ 1 = ground arith in rw (now, same) (advance-due_one ts)
  | inr later ↦
      let shift : 1 + t.expires - 1 ≡ 0 + t.expires = omega arith in
      ground (arith, advance-due (1 + t.expires) ts)
]

-- What a round of firing leaves.
record Fired (ts : List Timer) (k k' : Kernel) : Type 0 where
  valid : IsValid k'
  current : k'.current ≡ k.current
  left : k'.timer_list ≡ drop_zero ts
  still : (q : ℕ) → is_runnable (k.procs q).state ≡ true → is_runnable (k'.procs q).state ≡ true
  woken : AllRunnable (zeros ts) k'.procs

AllCanWake-Woken :
    (ts : List Timer) {p : ℕ} {k k' : Kernel}
    → Woken p k k'
    → AllCanWake ts k.procs
    → AllCanWake ts k'.procs
AllCanWake-Woken [] w can = tt
AllCanWake-Woken (t ∷ ts) {p} {k} {k'} w (can, rest) = (
  elim (Bool-cases (t.proc == p)) [
    | inl same ↦
        let e : t.proc ≡ p = ground arith in
        elim w.settled [
          | inl zero_state ↦ (ground (arith, w.awake), ground (arith))
          | inr unchanged ↦ ground (arith, unchanged)
        ]
    | inr other ↦ ground (arith, w.others t.proc)
  ],
  AllCanWake-Woken ts w rest,
)

Woken-runnable :
    {p : ℕ} {k k' : Kernel}
    → Woken p k k'
    → (q : ℕ) → is_runnable (k.procs q).state ≡ true
    → is_runnable (k'.procs q).state ≡ true
Woken-runnable {p} w q run = ground (arith, w.awake, w.others q)

timer_remove_head :
    (t : Timer) (ts : List Timer) → t.expires ≡ 0 → timer_remove t.address (t ∷ ts) ≡ ts
unfolding timer_remove
timer_remove_head t [] e = ground arith
timer_remove_head t (n ∷ ns) e = ground arith

fire-Fired :
    (ts : List Timer) {k : Kernel}
    → IsValid k
    → AllCanWake ts k.procs
    → k.timer_list ≡ ts
    → (k' : Kernel) × (fire ts k ≡ ok k') × Fired ts k k'
unfolding fire del_timer
fire-Fired [] {k} v can e =
    (k, refl, record { valid = v; current = refl; left = e; still = λ q run. run; woken = tt })
fire-Fired (t ∷ ts) {k} v (can, rest) e = elim (Bool-cases (t.expires == 0)) [
  | inr later ↦ (
    k,
    ground arith,
    record {
      valid = v;
      current = refl;
      left = ground arith;
      still = λ q run. run;
      woken = ground arith;
    },
  )
  | inl now ↦
      let (k1, wakes, w) = wakeup_proc-Woken t.proc v can.0 in
      let zero_left : t.expires ≡ 0 = ground arith in
      let list : timer_remove t.address k1.timer_list ≡ ts =
        rw (w.timer_list, e) (timer_remove_head t ts zero_left) in
      let (k', runs, f) =
        fire-Fired ts {k = del_timer t.address k1} (IsValid-elsewhere _ _ _ _ w.valid)
          (AllCanWake-Woken ts w rest) list in
      (
        k',
        rw (now, can.1, wakes) runs,
        record {
          valid = f.valid;
          current = f.current ∙ w.current;
          left = rw now f.left;
          still = λ q run. f.still q (Woken-runnable w q run);
          woken = rw now (f.still t.proc w.awake, f.woken);
        },
      )
]

sched_class_proc_tick-IsValid :
    (p : ℕ) {k : Kernel} → IsValid k → IsValid (sched_class_proc_tick p k)
unfolding sched_class_proc_tick
sched_class_proc_tick-IsValid p {k} v = record {
  but = record {
    once = v.but.once;
    linked = λ q. ground (arith, v.but.linked q);
    owned = λ q h. ground (arith, v.but.owned q);
    ready = λ q h. ground (arith, v.but.ready q);
    idle_off = v.but.idle_off;
    count = v.but.count;
    queued = λ q run nb ni. ground (arith, v.but.queued q);
  };
  current_off = v.current_off;
}

sched_class_proc_tick-state :
    (p q : ℕ) (k : Kernel) → ((sched_class_proc_tick p k).procs q).state ≡ (k.procs q).state
unfolding sched_class_proc_tick
sched_class_proc_tick-state p q k = ground arith

AllRunnable-tick :
    (ps : List ℕ) (p : ℕ) (k : Kernel)
    → AllRunnable ps k.procs
    → AllRunnable ps (sched_class_proc_tick p k).procs
AllRunnable-tick [] p k h = tt
AllRunnable-tick (q ∷ ps) p k h =
    (rw (sched_class_proc_tick-state p q k) h.0, AllRunnable-tick ps p k h.1)

due_head :
    (t : Timer) (ts : List Timer)
    → 0 < t.expires
    → due 0 (drop_zero (record t { expires = t.expires - 1 } ∷ ts)) ≡ advance (due 0 (t ∷ ts))
due_head t ts h = elim (Bool-cases (t.expires == 1)) [
  | inl now ↦
      let one : t.expires ≡ 1 = ground arith in
      let base : 0 + 1 ≡ 1 = refl in rw (one, base) (sym (advance-due_one ts))
  | inr later ↦
      let shift : 0 + (t.expires - 1) ≡ 0 + t.expires - 1 = omega arith in
      ground (arith, advance-due (0 + t.expires) ts)
]

fired_head :
    (t : Timer) (ts : List Timer)
    → 0 < t.expires
    → zeros (record t { expires = t.expires - 1 } ∷ ts) ≡ fired (t ∷ ts)
fired_head t ts h = ground arith

abbrev with_timers : List Timer → Kernel → Kernel
with_timers ts k = record k { timer_list = ts }

tick_run :
    (t : Timer) (ts : List Timer) (k : Kernel) {k' : Kernel}
    → k.timer_list ≡ t ∷ ts
    → 0 < t.expires
    → (let ts' = record t { expires = t.expires - 1 } ∷ ts in fire ts' (with_timers ts' k) ≡ ok k')
    → run_timer_list k ≡ ok (sched_class_proc_tick k'.current k')
unfolding run_timer_list
tick_run t ts k e pending runs =
    let nonzero : (t.expires == 0) ≡ false = ground arith in rw e (rw nonzero (rw runs))

tick_list :
    (ts : List Timer) {k : Kernel}
    → IsValid k
    → k.timer_list ≡ ts
    → HeadPending ts
    → AllCanWake ts k.procs
    → (k' : Kernel) × (run_timer_list k ≡ ok k')
      × IsValid k'
      × (due 0 k'.timer_list ≡ advance (due 0 ts))
      × AllRunnable (fired ts) k'.procs
unfolding run_timer_list
tick_list [] {k} v e pending can = (
  sched_class_proc_tick k.current (with_timers [] k),
  rw (e, ◌>>=◌),
  sched_class_proc_tick-IsValid k.current {k = with_timers [] k} (IsValid-elsewhere _ _ _ _ v),
  refl,
  tt,
)
tick_list (t ∷ ts) {k} v e pending can =
    let t' : Timer = record t { expires = t.expires - 1 } in
    let (k', runs, f) =
      fire-Fired (t' ∷ ts) {k = with_timers (t' ∷ ts) k} (IsValid-elsewhere _ _ _ _ v) can refl in
    (
      sched_class_proc_tick k'.current k',
      tick_run t ts k e pending runs,
      sched_class_proc_tick-IsValid k'.current f.valid,
      ap (due 0) f.left ∙ due_head t ts pending,
      AllRunnable-tick (fired (t ∷ ts)) k'.current k'
          (subst (λ ps. AllRunnable ps k'.procs) (fired_head t ts pending) f.woken),
    )

-- One tick never fails an assertion on a valid kernel whose first timer is pending and whose timed
-- processes can be woken: every timer due at the tick is taken off and its process is runnable, every other timer is
-- one tick nearer in the same order, and the run queue stays valid.
pub run_timer_list_lem :
    {k : Kernel}
    → IsValid k
    → HeadPending k.timer_list
    → AllCanWake k.timer_list k.procs
    → (k' : Kernel) × (run_timer_list k ≡ ok k')
      × IsValid k'
      × (due 0 k'.timer_list ≡ advance (due 0 k.timer_list))
      × AllRunnable (fired k.timer_list) k'.procs
run_timer_list_lem {k} v pending can = tick_list k.timer_list v refl pending can
