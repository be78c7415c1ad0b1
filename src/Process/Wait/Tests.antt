-- ===== src/Process/Wait/Tests.antt =====
-- Tests and witnesses for do_wait.
use dora_aos2019_homework.Prelude.{
  ℕ, ◌≡◌, refl, sym, subst, ◌≢◌, inl, inr, true, some, List, [], ◌∷◌, ok, arith, ◌==◌,
  if◌then◌else◌, Bool-cases,
}
use dora_aos2019_homework.Prelude.Int.{pos}
use dora_aos2019_homework.Kernel.{ProcState, sleeping, zombie, update}
use dora_aos2019_homework.Kernel.Sched.{is_zombie}
use dora_aos2019_homework.Process.Family.Children.{Siblings}
use dora_aos2019_homework.Process.Family.Links.{moved}
use dora_aos2019_homework.Process.Hash.{HashLists, hash_proc}
use dora_aos2019_homework.Process.Hash.Lookup.{IsHashed, hash_proc-IsHashed}
use dora_aos2019_homework.Process.Fork.{Host, Tasks}
use dora_aos2019_homework.Process.Fork.Valid.{IsTasks}
use dora_aos2019_homework.Process.Wait.{has_kid, first_zombie, choose, act, wait_round}
use dora_aos2019_homework.Process.Wait.Round.{RoundEnds, wait_round_lem}

-- A host whose memory is never written to.
abbrev still_host : Host
still_host = record {
  World = ℕ;
  alloc_proc = λ w. (w, w);
  kfree = λ p w. w;
  setup_kstack = λ p w. (pos 0, w);
  put_kstack = λ p w. w;
  files_create = λ w. (w, w);
  dup_files = λ to from w. (pos 0, w);
  files_destroy = λ files w. w;
  copy_mm = λ clone_flags p w. (pos 0, w);
  copy_thread = λ p stack tf w. w;
  wakeup_proc = λ p w. w;
}

abbrev pids_of : ℕ → ℕ
pids_of p = if p == 101 then 1 else 0

abbrev one_hashed : HashLists
one_hashed = hash_proc 101 (record { lists = λ _. []; pid = pids_of })

one_hashed-IsHashed : IsHashed (101 ∷ []) one_hashed
one_hashed-IsHashed =
    hash_proc-IsHashed [] (record { lists = λ _. []; pid = pids_of }) 101
      (record { listed = λ list p. refl; once = refl; no_null = refl; apart = λ list. refl })
      (omega arith) refl refl

-- idleproc, at 50, has one child, number 1 at 101.
abbrev one_task : Tasks still_host
one_task = record {
  family = record {
    parent = λ _. 50;
    cptr = update (λ _. 0) 50 101;
    yptr = λ _. 0;
    optr = λ _. 0;
    proc_list = 101 ∷ [];
    nr_process = 2;
  };
  hash = one_hashed;
  pids = record { last_pid = 1; next_safe = 8192 };
  current = 50;
  idleproc = 50;
  wait_state = λ _. 0;
  filesp = λ _. 60;
  files_count = λ _. pos 2;
  world = 100;
}

abbrev one_kid : ℕ → List ℕ
one_kid par = if par == 50 then 101 ∷ [] else []

one_task-Siblings :
    (par : ℕ) → Siblings one_task.family par 0 (one_task.family.cptr par) (one_kid par)
unfolding Siblings
one_task-Siblings par = elim (Bool-cases (par == 50)) [
  | inl idle ↦
      let e : par ≡ 50 = ground arith in
      subst (λ par. Siblings one_task.family par 0 (one_task.family.cptr par) (one_kid par)) (sym e)
        (refl, omega arith, refl, refl, refl)
  | inr other ↦
      moved {ps' = one_kid par} one_task.family par 0 0 [] (ground arith) (ground arith) refl
]

one_task-IsTasks : IsTasks one_task one_kid
unfolding Siblings hash_proc
one_task-IsTasks = record {
  family = record { children = one_task-Siblings; once = λ par. ground arith };
  hashed = one_hashed-IsHashed;
  safe = record { bound = omega arith; last = omega arith; gap = (inl (omega arith), tt) };
  counted = omega arith;
  listed = λ par p h. ground arith;
  childless = λ par h n. ground arith;
  related = λ p h. ground arith;
  running = inr refl;
}

abbrev init_exited : ℕ → ProcState
init_exited p = if p == 101 then zombie else sleeping

exited_alone : (p : ℕ) → is_zombie (init_exited p) ≡ true → (one_kid p ≡ []) × (p ≢ 50) × (p ≢ 7)
exited_alone p h = elim (Bool-cases (p == 101)) [
  | inl own ↦ (ground arith, λ e. ground arith, λ e. ground arith)
  | inr other ↦ absurd (ground arith)
]

wait_round_lem_example :
    RoundEnds init_exited one_task one_kid (wait_round still_host 2 7 (pos 0) init_exited one_task)
wait_round_lem_example =
    wait_round_lem 2 7 init_exited one_task one_kid one_task-IsTasks (omega arith) exited_alone

-- With the child alive, idleproc sleeps until it exits.
sleeps_for_child :
    wait_round still_host 2 7 (pos 0) (λ p. sleeping) one_task
    ≡ some (
        ok (
          has_kid,
          update (λ p. sleeping) 50 sleeping,
          record one_task { wait_state = update (λ p. 0) 50 0x8000_0001 },
        ))
unfolding wait_round choose first_zombie act
sleeps_for_child = refl
