-- ===== src/Process/Wait/Round.antt =====
-- A round of do_wait as a whole (ucore_os/kern/process/proc.c).
use dora_aos2019_homework.Prelude.{
  ℕ, ◌<◌, ◌≡◌, refl, ◌∙◌, ap, ◌≢◌, ◌⊎◌, inl, inr, Bool, true, false, some, List, [], ◌∷◌, length,
  ok, ◌>>=◌, arith, ◌==◌, Bool-cases, Option, Outcome,
}
use dora_aos2019_homework.Prelude.Int.{pos}
use dora_aos2019_homework.Kernel.{ProcState, sleeping, update}
use dora_aos2019_homework.Kernel.Sched.{is_zombie}
use dora_aos2019_homework.Kernel.Links.{has}
use dora_aos2019_homework.Process.Fork.{Host, Tasks}
use dora_aos2019_homework.Process.Fork.Valid.{IsTasks}
use dora_aos2019_homework.Process.Wait.{
  Choice, found, has_kid, no_kid, alive, wt_child, act, on_choice, wait_round,
}
use dora_aos2019_homework.Process.Wait.Search.{choice_of, choose-choice_of}
use dora_aos2019_homework.Process.Wait.Reaped.{IsReaped, reap-IsReaped}

-- None of the processes has exited.
pub NoZombie : (ℕ → Bool) → List ℕ → Type 0
NoZombie zombie ps = (p : ℕ) → has p ps ≡ true → zombie p ≡ false

NoZombie-cons :
    (zombie : ℕ → Bool) (p : ℕ) (ps : List ℕ)
    → zombie p ≡ false
    → NoZombie zombie ps
    → NoZombie zombie (p ∷ ps)
unfolding NoZombie
NoZombie-cons zombie p ps lives others q h = elim (Bool-cases (q == p)) [
  | inl here ↦ let e : q ≡ p = ground arith in ap zombie e ∙ lives
  | inr there ↦ others q (ground arith)
]

some_kid : (p : ℕ) (ps : List ℕ) → (p ∷ ps) ≢ []
some_kid p ps e = cc

-- The list is empty, no process on it has exited, or the first that has is chosen.
choice_of_cases :
    (zombie : ℕ → Bool) (ps : List ℕ)
    → ((choice_of zombie ps ≡ no_kid) × (ps ≡ []))
      ⊎ (((choice_of zombie ps ≡ has_kid) × (ps ≢ []) × NoZombie zombie ps)
          ⊎ ((p : ℕ) × ((choice_of zombie ps ≡ found p) × (has p ps ≡ true) × (zombie p ≡ true))))
unfolding choice_of NoZombie
choice_of_cases zombie [] = inl (refl, refl)
choice_of_cases zombie (p ∷ ps) = elim (Bool-cases (zombie p)) [
  | inl exited ↦ inr (inr (p, (ground arith, ground arith, exited)))
  | inr lives ↦
      let next : choice_of zombie (p ∷ ps) ≡ alive (choice_of zombie ps) = ground arith in
      elim (choice_of_cases zombie ps) [
        | inl (e, nobody) ↦ inr (
            inl (
              next ∙ ap alive e,
              some_kid p ps,
              NoZombie-cons zombie p ps lives (λ q h. ground (arith, ap (has q) nobody)),
            ))
        | inr (inl (e, some_kids, others)) ↦
            inr (inl (next ∙ ap alive e, some_kid p ps, NoZombie-cons zombie p ps lives others))
        | inr (inr (q, (e, h, z))) ↦ inr (inr (q, (next ∙ ap alive e, ground arith, z)))
      ]
]

module _ {H : Host} where
  -- Putting the caller to sleep leaves the records of the processes in agreement.
  asleep-IsTasks :
      (waits : ℕ → ℕ) (t : Tasks H) (kids : ℕ → List ℕ)
      → IsTasks t kids
      → IsTasks (record t { wait_state = waits }) kids
  asleep-IsTasks waits t kids v = record {
    family = v.family;
    hashed = v.hashed;
    safe = v.safe;
    counted = v.counted;
    listed = v.listed;
    childless = v.childless;
    related = v.related;
    running = v.running;
  }

  -- How a round of do_wait for any child ends; `run` is what it gives.
  abbrev pub RoundEnds :
      (ℕ → ProcState)
      → Tasks H
      → (ℕ → List ℕ)
      → Option (Outcome (Choice × (ℕ → ProcState) × Tasks H))
      → Type 0
  RoundEnds state t kids run =
      ((run ≡ some (ok (no_kid, state, t))) × (kids t.current ≡ []))
      ⊎ (((t' : Tasks H) × (run ≡ some (ok (has_kid, update state t.current sleeping, t')))
            × (t' ≡ record t { wait_state = update t.wait_state t.current wt_child })
            × IsTasks t' kids
            × (kids t.current ≢ [])
            × NoZombie (λ p. is_zombie (state p)) (kids t.current))
          ⊎ ((p : ℕ) × (t' : Tasks H) × (run ≡ some (ok (found p, state, t')))
              × (has p (kids t.current) ≡ true)
              × (is_zombie (state p) ≡ true)
              × IsReaped p t t' kids))

  -- A round of do_wait for any child, on more steps than the caller has children, where a process that has
  -- exited has no children and is neither idleproc nor initproc. It ends, without a panic, in one of three
  -- ways: there are no children, and nothing changes; there are children and none has exited, the caller
  -- is asleep and waits for a child (PROC_SLEEPING, WT_CHILD), and nothing else changes; or a child that
  -- has exited is reaped.
  pub wait_round_lem :
      (n initproc : ℕ) (state : ℕ → ProcState) (t : Tasks H) (kids : ℕ → List ℕ)
      → IsTasks t kids
      → length (kids t.current) < n
      → ((p : ℕ) → is_zombie (state p) ≡ true → (kids p ≡ []) × (p ≢ t.idleproc) × (p ≢ initproc))
      → RoundEnds state t kids (wait_round H n initproc (pos 0) state t)
  unfolding wait_round act
  wait_round_lem n initproc state t kids v l exited =
      let zombie : ℕ → Bool = λ p. is_zombie (state p) in
      let chosen = choose-choice_of n zombie t kids v l in
      let acted : (c : Choice)
          → choice_of zombie (kids t.current) ≡ c
          → wait_round H n initproc (pos 0) state t ≡ some (act H initproc c state t) =
        λ c e. ap (λ o. on_choice H initproc o state t) (chosen ∙ ap some e) in
      elim (choice_of_cases zombie (kids t.current)) [
        | inl (e, nobody) ↦ inl (acted no_kid e, nobody)
        | inr (inl (e, some_kids, others)) ↦
            let waits = update t.wait_state t.current wt_child in
            inr (
              inl (
                record t { wait_state = waits },
                acted has_kid e,
                refl,
                asleep-IsTasks waits t kids v,
                some_kids,
                others,
              ))
        | inr (inr (p, (e, h, z))) ↦
            let (none_left, not_idle, not_init) = exited p z in
            let (t', (r, w)) = reap-IsReaped initproc p t kids v h none_left not_idle not_init in
            inr (
              inr (
                p,
                t',
                acted (found p) e ∙ ap (λ o. some (o >>= (λ t'. ok (found p, state, t')))) r,
                h,
                z,
                w,
              ))
      ]
