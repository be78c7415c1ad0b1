-- ===== src/Kernel/Sched/Fairness.antt =====
-- Round robin is fair, and a time slice ends: ucore_os/kern/schedule/default_sched.c.
use dora_aos2019_homework.Prelude.{
  ℕ, zero, suc, ◌-◌, ◌<◌, ◌≡◌, ◌∙◌, ap, inl, inr, true, false, ◌&&◌, not, List, [], ◌∷◌, ◌++◌,
  arith, Outcome, ok, ◌>>=◌, ltb, leb, ◌==◌, length, Bool-cases, append_assoc, append-nil,
}
use dora_aos2019_homework.Kernel.{Proc, Kernel}
use dora_aos2019_homework.Kernel.Sched.{is_runnable, schedule, rr_proc_tick}
use dora_aos2019_homework.Kernel.Sched.Invariant.{IsValid}
use dora_aos2019_homework.Kernel.Sched.Schedule.{schedule-Switched, candidates, head_or, tail}

-- `n` calls of `schedule` in a row.
abbrev pub schedule_times : ℕ → Kernel → Outcome Kernel
schedule_times zero k = ok k
schedule_times (suc n) k = schedule k >>= schedule_times n

candidates_append :
    (k : Kernel) (xs ys : List ℕ)
    → k.run_list ≡ xs ++ ys
    → (zs : List ℕ) × (candidates k ≡ xs ++ (ys ++ zs))
candidates_append k xs ys e =
    elim (Bool-cases (is_runnable (k.procs k.current).state && not (k.current == k.idleproc))) [
      | inl runs ↦ (k.current ∷ [], rw (runs, e, append_assoc))
      | inr stays ↦ ([], rw (stays, e, append-nil))
    ]

-- On a valid kernel a process with n others before it on the run queue gets the CPU at the call of
-- schedule after n such calls, none of which fails; the invariant holds then.
pub schedule_fair :
    (xs : List ℕ) (p : ℕ) (ys : List ℕ) {k : Kernel}
    → IsValid k
    → k.run_list ≡ xs ++ p ∷ ys
    → (k' : Kernel) × (schedule_times (suc (length xs)) k ≡ ok k') × (k'.current ≡ p) × IsValid k'
schedule_fair [] p ys {k} v e =
    let (k', run, s) = schedule-Switched v in
    let (zs, list) = candidates_append k [] (p ∷ ys) e in
    (k', rw run, s.picked ∙ ap (head_or k.idleproc) list, s.valid)
schedule_fair (x ∷ xs) p ys {k} v e =
    let (k', run, s) = schedule-Switched v in
    let (zs, list) = candidates_append k (x ∷ xs) (p ∷ ys) e in
    let (k'', rest, found, valid) = schedule_fair xs p (ys ++ zs) s.valid (s.rest ∙ ap tail list) in
    (k'', rw run rest, found, valid)

-- `n` timer ticks on the current process, as the scheduling class sees them.
abbrev pub ticks : ℕ → Proc → Proc
ticks zero r = r
ticks (suc n) r = ticks n (rr_proc_tick r)

ticks_after_resched :
    (n : ℕ) (r : Proc)
    → r.need_resched ≡ true
    → ((ticks n r).need_resched ≡ true) × ((ticks n r).time_slice ≡ r.time_slice - n)
unfolding rr_proc_tick
ticks_after_resched zero r on = ground arith
ticks_after_resched (suc n) r on =
    let (still, slice) = ticks_after_resched n (rr_proc_tick r) (ground arith) in
    (still, slice ∙ ground arith)

-- A process with part of its time slice left is asked to give up the CPU at the tick that ends the
-- slice, and not before; each tick until then takes one from the slice.
pub ticks_need_resched :
    (n : ℕ) (r : Proc)
    → r.need_resched ≡ false
    → 0 < r.time_slice
    → ((ticks n r).need_resched ≡ leb r.time_slice n) × ((ticks n r).time_slice ≡ r.time_slice - n)
unfolding rr_proc_tick
ticks_need_resched zero r off h = ground arith
ticks_need_resched (suc n) r off h = elim (Bool-cases (ltb 1 r.time_slice)) [
  | inl more ↦
      let (asked, slice) = ticks_need_resched n (rr_proc_tick r) (ground arith) (ground arith) in
      (asked ∙ ground arith, slice ∙ ground arith)
  | inr last ↦
      let (asked, slice) = ticks_after_resched n (rr_proc_tick r) (ground arith) in
      (asked ∙ ground arith, slice ∙ ground arith)
]
