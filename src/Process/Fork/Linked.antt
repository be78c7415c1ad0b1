-- ===== src/Process/Fork/Linked.antt =====
-- The new process gets its number and is linked (ucore_os/kern/process/proc.c).
use dora_aos2019_homework.Prelude.{
  ℕ, ◌<◌, ◌≡◌, refl, sym, ◌∙◌, ap, ap₂, ◌≢◌, inl, inr, false, some, List, [], ◌∷◌, map, length,
  arith, ◌==◌, Bool-cases, subst,
}
use dora_aos2019_homework.Prelude.Int.{ℤ, pos}
use dora_aos2019_homework.Kernel.{update}
use dora_aos2019_homework.Kernel.Links.{has}
use dora_aos2019_homework.Process.Family.{set_links}
use dora_aos2019_homework.Process.Family.Children.{IsFamily}
use dora_aos2019_homework.Process.Family.Links.{set_links-IsFamily}
use dora_aos2019_homework.Process.Hash.{HashLists, hash_proc, find_proc}
use dora_aos2019_homework.Process.Hash.Lookup.{IsHashed, hash_proc-IsHashed, find_proc-member}
use dora_aos2019_homework.Process.Pid.{PidState, max_pid, get_pid}
use dora_aos2019_homework.Process.Pid.Fresh.{IsSafe, Unused, get_pid-Unused}
use dora_aos2019_homework.Process.Fork.{Host, Tasks, link_child, max_process}
use dora_aos2019_homework.Process.Fork.Valid.{
  IsTasks, IsNew, not_child, number_left, map-update, renumbered,
}

length-map : (f : ℕ → ℕ) (xs : List ℕ) → length (map f xs) ≡ length xs
length-map f [] = refl
length-map f (x ∷ xs) = ground (arith, length-map f xs)

-- The list of processes is short enough that get_pid finds a number that no process on it has.
numbered :
    (procs : List ℕ) (h : HashLists) (s : PidState)
    → IsHashed procs h
    → IsSafe (map h.pid procs) s
    → length procs < max_process
    → (s' : PidState) × ((get_pid (map h.pid procs) s ≡ some s') × Unused (map h.pid procs) s')
numbered procs h s v safe short =
    let (f, (a, b, u)) =
      number_left 8191 (map h.pid procs) v.once (ground (arith, length-map h.pid procs)) in
    get_pid-Unused (map h.pid procs) s f safe u a (omega arith)

-- The lists of a process that has the number `n` and is on none of them yet.
child-IsHashed :
    (procs : List ℕ) (h : HashLists) (p n : ℕ)
    → IsHashed procs h
    → 0 < p
    → has p procs ≡ false
    → has n (map h.pid procs) ≡ false
    → IsHashed (p ∷ procs) (hash_proc p (record h { pid = update h.pid p n }))
child-IsHashed procs h p n v z new u =
    let own : update h.pid p n p ≡ n = ground arith in
    hash_proc-IsHashed procs (record h { pid = update h.pid p n }) p (renumbered procs h p n v new)
      z new (ap₂ has own (map-update h.pid p n procs new) ∙ u)

found_child :
    (procs : List ℕ) (h : HashLists) (p n : ℕ)
    → IsHashed (p ∷ procs) (hash_proc p (record h { pid = update h.pid p n }))
    → 0 < n
    → n < max_pid
    → find_proc (pos n) (hash_proc p (record h { pid = update h.pid p n })) ≡ p
unfolding hash_proc
found_child procs h p n v z b =
    let hashed = hash_proc p (record h { pid = update h.pid p n }) in
    let own : hashed.pid p ≡ n = ground arith in
    ap (λ m. find_proc (pos m) hashed) (sym own)
    ∙ find_proc-member (p ∷ procs) hashed p v (ground arith) (omega (arith, own))
        (omega (arith, own))

child-IsSafe :
    (procs : List ℕ) (pid : ℕ → ℕ) (p : ℕ) (s : PidState)
    → has p procs ≡ false
    → IsSafe (s.last_pid ∷ map pid procs) s
    → IsSafe (map (update pid p s.last_pid) (p ∷ procs)) s
child-IsSafe procs pid p s new safe =
    let own : s.last_pid ≡ update pid p s.last_pid p = ground arith in
    subst (λ xs. IsSafe xs s)
      (ap₂ (λ x xs. x ∷ xs) own (sym (map-update pid p s.last_pid procs new))) safe

module _ {H : Host} where
  -- What a call that makes the process `p` has done: it returns a number that was free, by which find_proc
  -- finds the process from now on, and the process is the youngest child of the one that runs.
  pub record IsForked (p : ℕ) (t : Tasks H) (kids : ℕ → List ℕ) (r : ℤ × Tasks H) : Type 0 where
    pub number : ℕ
    pub returned : r.0 ≡ pos number
    pub unused : has number (map t.hash.pid t.family.proc_list) ≡ false
    pub found : find_proc r.0 r.1.hash ≡ p
    pub tasks : IsTasks r.1 (update kids t.current (p ∷ kids t.current))

  -- What the interrupt-free block makes of `t`, given the new state of get_pid.
  linked : ℕ → Tasks H → PidState → Tasks H
  linked p t s = record t {
    pids = s;
    hash = hash_proc p (record t.hash { pid = update t.hash.pid p s.last_pid });
    family = set_links p t.family;
    world = H.wakeup_proc p t.world;
  }

  linked-IsTasks :
      (p : ℕ) (t : Tasks H) (kids : ℕ → List ℕ) (s : PidState)
      → IsTasks t kids
      → IsNew p t
      → t.family.parent p ≡ t.current
      → Unused (map t.hash.pid t.family.proc_list) s
      → IsTasks (linked p t s) (update kids t.current (p ∷ kids t.current))
  unfolding linked set_links hash_proc
  linked-IsTasks p t kids s v new par w =
      let procs = t.family.proc_list in
      record {
        family =
            subst (λ own. IsFamily (set_links p t.family) (update kids own (p ∷ kids own))) par
              (set_links-IsFamily p t.family kids v.family new.address (not_child p t kids v new));
        hashed =
            child-IsHashed procs t.hash p s.last_pid v.hashed new.address new.unlisted w.unused;
        safe = child-IsSafe procs t.hash.pid p s new.unlisted w.safe;
        counted = ground (arith, v.counted);
        listed = λ own q h. elim (Bool-cases (own == t.current)) [
          | inl here ↦ ground (arith, v.listed t.current q)
          | inr there ↦ ground (arith, v.listed own q)
        ];
        childless = λ own h n.
            let other : own ≢ t.current = λ e. elim v.running [
              | inl on ↦ ground (arith, ap (λ q. has q procs) e)
              | inr idle ↦ n (e ∙ idle)
            ] in
            let unchanged : update kids t.current (p ∷ kids t.current) own ≡ kids own =
              ground arith in
            unchanged ∙ v.childless own (ground arith) n;
        related = λ q h. elim (Bool-cases (q == p)) [
          | inl here ↦
              let q_p : q ≡ p = ground arith in
              let own : t.family.parent q ≡ t.current = ap t.family.parent q_p ∙ par in ground arith
          | inr there ↦
              let stays = v.related q (ground arith) in
              elim (Bool-cases (t.family.parent q == t.current)) [
                | inl own ↦
                    let e : t.family.parent q ≡ t.current = ground arith in
                    ground (arith, ap (λ own. has q (kids own)) e)
                | inr other ↦ ground arith
              ]
        ];
        running = elim v.running [ inl on ↦ inl (ground arith) | inr idle ↦ inr idle ];
      }

  pub link_child-IsForked :
      (p : ℕ) (t : Tasks H) (kids : ℕ → List ℕ)
      → IsTasks t kids
      → IsNew p t
      → t.family.parent p ≡ t.current
      → t.family.nr_process < max_process
      → (r : ℤ × Tasks H) × ((link_child H p t ≡ some r) × IsForked p t kids r)
  unfolding link_child linked set_links
  link_child-IsForked p t kids v new par room =
      let procs = t.family.proc_list in
      let (s, (e, w)) = numbered procs t.hash t.pids v.hashed v.safe (omega (arith, v.counted)) in
      let done = linked-IsTasks p t kids s v new par w in
      (
        (pos s.last_pid, linked p t s),
        (
          ground (arith, e),
          record {
            number = s.last_pid;
            returned = refl;
            unused = w.unused;
            found = found_child procs t.hash p s.last_pid done.hashed w.positive w.below;
            tasks = done;
          },
        ),
      )
