-- ===== src/Process/Wait.antt =====
-- Waiting for a child: do_wait (ucore_os/kern/process/proc.c), from its label `repeat` on, split at its
-- call of schedule(). The check of the user's pointer before it is user_mem_check of Vma/UserAccess; the
-- exit code that goes through that pointer is left out.
pub mod Search
pub mod Reaped
pub mod Round
mod Tests
use dora_aos2019_homework.Prelude.{
  ℕ, zero, suc, Bool, false, ◌&&◌, ◌||◌, not, Option, none, some, Outcome, ok, ◌>>=◌, ◌>>◌, assert,
  ◌==◌, if◌then◌else◌, ◌⊎◌, inl, inr,
}
use dora_aos2019_homework.Prelude.Int.{ℤ, pos, negsuc}
use dora_aos2019_homework.Kernel.{ProcState, sleeping, update}
use dora_aos2019_homework.Kernel.Sched.{is_zombie}
use dora_aos2019_homework.Process.Family.{Family, remove_links}
use dora_aos2019_homework.Process.Hash.{unhash_proc, find_proc}
use dora_aos2019_homework.Process.Fork.{Host, Tasks}
use dora_aos2019_homework.Process.Kill.{exiting, e_killed}

-- How the search for a child that has exited ends: at the label `found`, at `if (haskid)`, or behind it.
pub data Choice : Type 0 where
  found : ℕ → Choice
  has_kid no_kid : Choice

-- A child that has not exited makes `haskid` true.
abbrev pub alive : Choice → Choice
alive (found p) = found p
alive _ = has_kid

-- `for (; proc != NULL; proc = proc->optr)`; `none` is fuel run out.
unfoldable pub first_zombie : ℕ → (ℕ → Bool) → Family → ℕ → Option Choice
first_zombie zero zombie f proc = none
first_zombie (suc n) zombie f proc =
    let rest = first_zombie n zombie f (f.optr proc) in
    if proc == 0
    then some no_kid
    else (if zombie proc
        then some (found proc)
        else elim rest [ none ↦ none | some c ↦ some (alive c) ])

-- With a process number, only that child counts.
abbrev pub this_child : ℕ → ℕ → (ℕ → Bool) → Family → Choice
this_child proc current zombie f =
    if not (proc == 0) && f.parent proc == current
    then (if zombie proc then found proc else has_kid)
    else no_kid

-- `WT_CHILD`
abbrev pub wt_child : ℕ
wt_child = 0x8000_0001

abbrev pub is_zero_pid : ℤ → Bool
is_zero_pid (pos n) = n == 0
is_zero_pid (negsuc n) = false

module _ (H : Host) where
  open H use {put_kstack, kfree}

  -- `zombie` says which processes are in the state PROC_ZOMBIE.
  unfoldable pub choose : ℕ → ℤ → (ℕ → Bool) → Tasks H → Option Choice
  unfolding first_zombie
  choose n pid zombie t =
      if is_zero_pid pid
      then first_zombie n zombie t.family (t.family.cptr t.current)
      else some (this_child (find_proc pid t.hash) t.current zombie t.family)

  -- From the label `found` on, for a process that is neither idleproc nor initproc.
  unfoldable pub reap : ℕ → ℕ → Tasks H → Outcome (Tasks H)
  reap initproc proc t =
      assert (not (proc == t.idleproc || proc == initproc))
      >> ok (record t {
        hash = unhash_proc proc t.hash;
        family = remove_links proc t.family;
        world = kfree proc (put_kstack proc t.world);
      })

  -- What a round from `repeat` does with the choice, where `state` holds the states of the processes:
  -- it reaps the child that is found; it puts the caller to sleep, up to `schedule()` (`has_kid`); or it
  -- returns -E_BAD_PROC (`no_kid`). What follows `schedule()` is wait_resume.
  unfoldable pub act :
      ℕ → Choice → (ℕ → ProcState) → Tasks H → Outcome (Choice × (ℕ → ProcState) × Tasks H)
  unfolding reap
  act initproc (found p) state t = reap initproc p t >>= (λ t'. ok (found p, state, t'))
  act initproc has_kid state t = ok (
    has_kid,
    update state t.current sleeping,
    record t { wait_state = update t.wait_state t.current wt_child },
  )
  act initproc no_kid state t = ok (no_kid, state, t)

  abbrev pub on_choice :
      ℕ
      → Option Choice
      → (ℕ → ProcState)
      → Tasks H
      → Option (Outcome (Choice × (ℕ → ProcState) × Tasks H))
  on_choice initproc none state t = none
  on_choice initproc (some c) state t = some (act initproc c state t)

  unfoldable pub wait_round :
      ℕ → ℕ → ℤ → (ℕ → ProcState) → Tasks H → Option (Outcome (Choice × (ℕ → ProcState) × Tasks H))
  unfolding choose act
  wait_round n initproc pid state t =
      on_choice initproc (choose n pid (λ p. is_zombie (state p)) t) state t

  -- `do_wait` from its return of `schedule()` on, with `current->flags`: `do_exit(-E_KILLED)`, or another
  -- round from `repeat`.
  unfoldable pub wait_resume :
      ℕ
      → ℕ
      → ℕ
      → ℤ
      → (ℕ → ProcState)
      → Tasks H
      → ℤ ⊎ Option (Outcome (Choice × (ℕ → ProcState) × Tasks H))
  unfolding wait_round
  wait_resume flags n initproc pid state t =
      if exiting flags then inl e_killed else inr (wait_round n initproc pid state t)
