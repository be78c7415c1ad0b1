-- ===== src/Process/Fork/Valid.antt =====
-- When the records of all processes agree (ucore_os/kern/process/proc.c).
use dora_aos2019_homework.Prelude.{
  ℕ, zero, suc, ◌<◌, ◌≤◌, ◌≡◌, refl, sym, ◌∙◌, ap, ap₂, ◌≢◌, ◌⊎◌, inl, inr, true, false, List, [],
  ◌∷◌, map, length, arith, ◌==◌, Bool-cases,
}
use dora_aos2019_homework.Kernel.{update}
use dora_aos2019_homework.Kernel.Links.{
  has, distinct, unlink, has-unlink, distinct-unlink, length-unlink,
}
use dora_aos2019_homework.Process.Family.Children.{
  Siblings, IsFamily, SamePointers, Siblings-same, ne_of_has,
}
use dora_aos2019_homework.Process.Family.Links.{moved}
use dora_aos2019_homework.Process.Hash.{HashLists, pid_hashfn}
use dora_aos2019_homework.Process.Hash.Lookup.{IsHashed}
use dora_aos2019_homework.Process.Pid.Fresh.{IsSafe}
use dora_aos2019_homework.Process.Fork.{Host, Tasks, new_proc}

-- The numbers of the processes on the list are unchanged when another gets one.
pub map-update :
    (pid : ℕ → ℕ) (p n : ℕ) (ps : List ℕ) → has p ps ≡ false → map (update pid p n) ps ≡ map pid ps
map-update pid p n [] h = refl
map-update pid p n (q ∷ qs) h =
    let e : update pid p n q ≡ pid q = ground arith in
    ap₂ (λ x xs. x ∷ xs) e (map-update pid p n qs (ground arith))

pub renumbered :
    (procs : List ℕ) (h : HashLists) (p n : ℕ)
    → IsHashed procs h
    → has p procs ≡ false
    → IsHashed procs (record h { pid = update h.pid p n })
renumbered procs h p n v new = record {
  listed = λ list q. elim (Bool-cases (q == p)) [
    | inl own ↦
        let e : q ≡ p = ground arith in ground (arith, v.listed list q, ap (λ t. has t procs) e)
    | inr other ↦
        let e : update h.pid p n q ≡ h.pid q = ground arith in
        ground (arith, v.listed list q, ap pid_hashfn e)
  ];
  once = ap distinct (map-update h.pid p n procs new) ∙ v.once;
  no_null = v.no_null;
  apart = v.apart;
}

-- A number from 1 to `n` is on no list of fewer than `n` numbers.
pub number_left :
    (n : ℕ) (ps : List ℕ)
    → distinct ps ≡ true
    → length ps < n
    → (f : ℕ) × ((1 ≤ f) × (f ≤ n) × (has f ps ≡ false))
number_left zero ps d h = absurd (ground arith)
number_left (suc n) ps d h = elim (Bool-cases (has (suc n) ps)) [
  | inr free ↦ (suc n, (omega arith, omega arith, free))
  | inl taken ↦
      let shorter : length (unlink (suc n) ps) < n = ground (arith, length-unlink (suc n) ps) in
      let (f, (a, b, u)) =
        number_left n (unlink (suc n) ps) (distinct-unlink (suc n) ps d) shorter in
      (f, (a, omega arith, ground (arith, has-unlink f (suc n) ps d)))
]

module _ {H : Host} where
  -- The children, the hash lists and the numbers of the processes on `proc_list` agree.
  pub record IsTasks (t : Tasks H) (kids : ℕ → List ℕ) : Type 0 where
    pub family : IsFamily t.family kids
    pub hashed : IsHashed t.family.proc_list t.hash
    pub safe : IsSafe (map t.hash.pid t.family.proc_list) t.pids
    pub counted : length t.family.proc_list ≤ t.family.nr_process
    pub listed : (par p : ℕ) → has p (kids par) ≡ true → has p t.family.proc_list ≡ true
    pub childless :
        (par : ℕ) → has par t.family.proc_list ≡ false → par ≢ t.idleproc → kids par ≡ []
    pub related :
        (p : ℕ) → has p t.family.proc_list ≡ true → has p (kids (t.family.parent p)) ≡ true
    pub running : (has t.current t.family.proc_list ≡ true) ⊎ (t.current ≡ t.idleproc)

  -- Memory for a process that no process on the list has.
  pub record IsNew (p : ℕ) (t : Tasks H) : Type 0 where
    pub address : 0 < p
    pub unlisted : has p t.family.proc_list ≡ false
    pub busy : p ≢ t.idleproc

  pub not_child :
      (p : ℕ) (t : Tasks H) (kids : ℕ → List ℕ)
      → IsTasks t kids
      → IsNew p t
      → (par : ℕ) → has p (kids par) ≡ false
  not_child p t kids v new par = elim (Bool-cases (has p (kids par))) [
    | inr no_child ↦ no_child
    | inl child ↦ ground (arith, v.listed par p child, new.unlisted)
  ]

  new_proc-children :
      (p : ℕ) (t : Tasks H) (kids : ℕ → List ℕ)
      → IsTasks t kids
      → IsNew p t
      → (par : ℕ)
      → Siblings (new_proc H p t).family par 0 ((new_proc H p t).family.cptr par) (kids par)
  unfolding new_proc Siblings
  new_proc-children p t kids v new par =
      let same : (q : ℕ)
          → has q (kids par) ≡ true
          → SamePointers t.family (new_proc H p t).family q =
        λ q h.
          let n : q ≢ p = ne_of_has q p (kids par) h (not_child p t kids v new par) in
          record { parent = ground arith; yptr = ground arith; optr = ground arith } in
      let before =
        Siblings-same t.family (new_proc H p t).family par 0 (t.family.cptr par) (kids par) same
          (v.family.children par) in
      elim (Bool-cases (par == p)) [
        | inl own ↦
            let e : par ≡ p = ground arith in
            let alone : kids par ≡ [] = ap kids e ∙ v.childless p new.unlisted new.busy in
            moved {ps' = kids par} (new_proc H p t).family par 0 0 [] (ground arith) (sym alone)
              refl
        | inr other ↦
            moved {ps' = kids par} (new_proc H p t).family par 0 (t.family.cptr par) (kids par)
              (ground arith) refl before
      ]

  pub new_proc-IsTasks :
      (p : ℕ) (t : Tasks H) (kids : ℕ → List ℕ)
      → IsTasks t kids
      → IsNew p t
      → IsTasks (new_proc H p t) kids
  unfolding new_proc
  new_proc-IsTasks p t kids v new = record {
    family = record { children = new_proc-children p t kids v new; once = v.family.once };
    hashed = v.hashed;
    safe = v.safe;
    counted = v.counted;
    listed = v.listed;
    childless = v.childless;
    related = λ q h.
        let q_p : q ≢ p = ne_of_has q p t.family.proc_list h new.unlisted in
        let same : update (update t.family.parent p 0) p t.current q ≡ t.family.parent q =
          ground arith in
        ap (λ own. has q (kids own)) same ∙ v.related q h;
    running = v.running;
  }
