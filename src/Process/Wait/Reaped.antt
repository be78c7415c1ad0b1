-- ===== src/Process/Wait/Reaped.antt =====
-- A child that has exited is taken off every record (ucore_os/kern/process/proc.c).
use dora_aos2019_homework.Prelude.{
  ℕ, ◌+◌, ◌-◌, ◌≡◌, refl, sym, ◌∙◌, ap, ◌≢◌, inl, inr, true, false, List, [], ◌∷◌, map, ok, arith,
  ◌==◌, Bool-cases, subst,
}
use dora_aos2019_homework.Kernel.{update}
use dora_aos2019_homework.Kernel.Links.{has, distinct, unlink, has-unlink, length-unlink}
use dora_aos2019_homework.Process.Family.{remove_links}
use dora_aos2019_homework.Process.Family.Children.{
  IsFamily, Siblings-parent, family_apart, ne_of_has,
}
use dora_aos2019_homework.Process.Family.Leaving.{remove_links-IsFamily}
use dora_aos2019_homework.Process.Hash.{unhash_proc}
use dora_aos2019_homework.Process.Hash.Lookup.{has-map, distinct_of_map, unhash_proc-IsHashed}
use dora_aos2019_homework.Process.Pid.Fresh.{AllOutside}
use dora_aos2019_homework.Process.Fork.{Host, Tasks}
use dora_aos2019_homework.Process.Fork.Valid.{IsTasks}
use dora_aos2019_homework.Process.Wait.{reap}

outside_unlink :
    (lo hi : ℕ) (pid : ℕ → ℕ) (p : ℕ) (ps : List ℕ)
    → AllOutside lo hi (map pid ps)
    → AllOutside lo hi (map pid (unlink p ps))
unfolding unlink
outside_unlink lo hi pid p [] o = tt
outside_unlink lo hi pid p (q ∷ qs) (h, o) = elim (Bool-cases (p == q)) [
  | inl here ↦
      let e : qs ≡ unlink p (q ∷ qs) = ground arith in
      subst (λ xs. AllOutside lo hi (map pid xs)) e o
  | inr there ↦
      let e : q ∷ unlink p qs ≡ unlink p (q ∷ qs) = ground arith in
      subst (λ xs. AllOutside lo hi (map pid xs)) e (h, outside_unlink lo hi pid p qs o)
]

-- The number of a process that leaves the list is on it no more.
number_freed :
    (pid : ℕ → ℕ) (p : ℕ) (ps : List ℕ)
    → distinct (map pid ps) ≡ true
    → has p ps ≡ true
    → has (pid p) (map pid (unlink p ps)) ≡ false
unfolding unlink
number_freed pid p [] d h = refl
number_freed pid p (q ∷ qs) d h = elim (Bool-cases (p == q)) [
  | inl here ↦
      let e : unlink p (q ∷ qs) ≡ qs = ground arith in
      let same : pid p ≡ pid q = ap pid (ground arith) in
      ap (λ xs. has (pid p) (map pid xs)) e ∙ ground arith
  | inr there ↦
      let e : unlink p (q ∷ qs) ≡ q ∷ unlink p qs = ground arith in
      ap (λ xs. has (pid p) (map pid xs)) e
      ∙ ground (arith, has-map pid p qs, number_freed pid p qs)
]

-- What is left of the records without `p`, a child of the running process that has no children.
module _ {H : Host} (p : ℕ) (t : Tasks H) (kids : ℕ → List ℕ) (v : IsTasks t kids)
    (child : has p (kids t.current) ≡ true) (none_left : kids p ≡ []) where
  kids_left : ℕ → List ℕ
  kids_left = update kids t.current (unlink p (kids t.current))

  procs_once : distinct t.family.proc_list ≡ true
  procs_once = distinct_of_map t.hash.pid t.family.proc_list v.hashed.once

  not_current : t.current ≢ p
  not_current e = ground (arith, child, ap (λ q. has p (kids q)) (sym e), ap (has p) none_left)

  family_left : IsFamily (remove_links p t.family) kids_left
  unfolding kids_left
  family_left =
      let own =
        (Siblings-parent t.family t.current 0 (t.family.cptr t.current) p (kids t.current)
          (v.family.children t.current) child).0 in
      subst (λ own. IsFamily (remove_links p t.family) (update kids own (unlink p (kids own)))) own
        (remove_links-IsFamily p t.family kids v.family (ap (λ own. has p (kids own)) own ∙ child))

  listed_left :
      (own q : ℕ) → has q (kids_left own) ≡ true → has q (unlink p t.family.proc_list) ≡ true
  unfolding kids_left
  listed_left own q h =
      let before = has-unlink q p t.family.proc_list procs_once in
      elim (Bool-cases (own == t.current)) [
        | inl here ↦ ground (
          arith,
          v.listed t.current q,
          has-unlink q p (kids t.current) (v.family.once t.current),
          before,
        )
        | inr there ↦
            let out : has p (kids own) ≡ false =
              family_apart t.family kids t.current own p v.family child (λ e. ground arith) in
            let q_p : q ≢ p = ne_of_has q p (kids own) (ground arith) out in
            ground (arith, v.listed own q, before)
      ]

  childless_left :
      (own : ℕ)
      → has own (unlink p t.family.proc_list) ≡ false
      → own ≢ t.idleproc
      → kids_left own ≡ []
  unfolding kids_left
  childless_left own h n = elim (Bool-cases (own == p)) [
    | inl here ↦
        let own_p : own ≡ p = ground arith in
        let cur_p = not_current in
        let kept : kids_left own ≡ kids own = ground arith in kept ∙ ap kids own_p ∙ none_left
    | inr there ↦
        let off_list : has own t.family.proc_list ≡ false =
          ground (arith, has-unlink own p t.family.proc_list procs_once) in
        let other : own ≢ t.current = λ e. elim v.running [
          | inl here ↦ ground (arith, ap (λ q. has q t.family.proc_list) e)
          | inr idle ↦ n (e ∙ idle)
        ] in
        let kept : kids_left own ≡ kids own = ground arith in kept ∙ v.childless own off_list n
  ]

  related_left :
      (q : ℕ)
      → has q (unlink p t.family.proc_list) ≡ true
      → has q (kids_left (t.family.parent q)) ≡ true
  unfolding kids_left
  related_left q h =
      let before = has-unlink q p t.family.proc_list procs_once in
      let stays = v.related q (ground arith) in
      elim (Bool-cases (t.family.parent q == t.current)) [
        | inl here ↦
            let e : t.family.parent q ≡ t.current = ground arith in
            let less : kids_left (t.family.parent q) ≡ unlink p (kids t.current) = ground arith in
            ap (has q) less
            ∙ ground (
              arith,
              ap (λ own. has q (kids own)) e,
              has-unlink q p (kids t.current) (v.family.once t.current),
            )
        | inr there ↦ ground arith
      ]

module _ {H : Host} where
  -- What reaping the child `p` has done: it is on no list and nobody's child any more, and its number is
  -- free; the records of the other processes agree.
  pub record IsReaped (p : ℕ) (t t' : Tasks H) (kids : ℕ → List ℕ) : Type 0 where
    pub off : t'.family.proc_list ≡ unlink p t.family.proc_list
    pub freed : has (t.hash.pid p) (map t'.hash.pid t'.family.proc_list) ≡ false
    pub fewer : t'.family.nr_process ≡ t.family.nr_process - 1
    pub tasks : IsTasks t' (update kids t.current (unlink p (kids t.current)))

  -- A child of the running process that has no children, and is neither idleproc nor initproc, is reaped
  -- by do_wait without a panic: it leaves the process list, its hash list and the children of its
  -- parent, its number is free again, and the records of all processes that are left agree.
  pub reap-IsReaped :
      (initproc p : ℕ) (t : Tasks H) (kids : ℕ → List ℕ)
      → IsTasks t kids
      → has p (kids t.current) ≡ true
      → kids p ≡ []
      → p ≢ t.idleproc
      → p ≢ initproc
      → (t' : Tasks H) × ((reap H initproc p t ≡ ok t') × IsReaped p t t' kids)
  unfolding reap remove_links unhash_proc kids_left
  reap-IsReaped initproc p t kids v child none_left not_idle not_init =
      let procs = t.family.proc_list in
      let d = distinct_of_map t.hash.pid procs v.hashed.once in
      let on : has p procs ≡ true = v.listed t.current p child in
      let cur_p = not_current p t kids v child none_left in
      let t' = record t {
        hash = unhash_proc p t.hash;
        family = remove_links p t.family;
        world = H.kfree p (H.put_kstack p t.world);
      } in
      (
        t',
        (
          ground arith,
          record {
            off = refl;
            freed = number_freed t.hash.pid p procs v.hashed.once on;
            fewer = refl;
            tasks = record {
              family = family_left p t kids v child none_left;
              hashed = unhash_proc-IsHashed procs t.hash p v.hashed;
              safe = record {
                bound = v.safe.bound;
                last = v.safe.last;
                gap =
                    outside_unlink (t.pids.last_pid + 1) t.pids.next_safe t.hash.pid p procs
                      v.safe.gap;
              };
              counted = ground (arith, v.counted, length-unlink p procs);
              listed = listed_left p t kids v child none_left;
              childless = childless_left p t kids v child none_left;
              related = related_left p t kids v child none_left;
              running = elim v.running [
                | inl here ↦ inl (ground (arith, has-unlink t.current p procs d))
                | inr idle ↦ inr idle
              ];
            };
          },
        ),
      )
