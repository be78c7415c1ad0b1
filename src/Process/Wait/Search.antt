-- ===== src/Process/Wait/Search.antt =====
-- Which child do_wait chooses (ucore_os/kern/process/proc.c).
use dora_aos2019_homework.Prelude.{
  ℕ, zero, suc, ◌<◌, ◌≡◌, sym, ◌∙◌, ap, ◌⊎◌, inl, inr, Bool, true, false, ◌&&◌, not, some, List, [],
  ◌∷◌, length, arith, ◌==◌, if◌then◌else◌, Bool-cases, subst,
}
use dora_aos2019_homework.Prelude.Int.{pos}
use dora_aos2019_homework.Kernel.Links.{has}
use dora_aos2019_homework.Process.Family.{Family}
use dora_aos2019_homework.Process.Family.Children.{Siblings, Siblings-parent}
use dora_aos2019_homework.Process.Fork.{Host, Tasks}
use dora_aos2019_homework.Process.Fork.Valid.{IsTasks}
use dora_aos2019_homework.Process.Pid.{max_pid}
use dora_aos2019_homework.Process.Hash.{find_in, find_proc}
use dora_aos2019_homework.Process.Hash.Lookup.{find_proc-find_in, find_in_cases}
use dora_aos2019_homework.Process.Wait.{Choice, found, has_kid, no_kid, alive, first_zombie, choose}

-- The same choice on the list of the children.
unfoldable pub choice_of : (ℕ → Bool) → List ℕ → Choice
choice_of zombie [] = no_kid
choice_of zombie (p ∷ ps) = if zombie p then found p else alive (choice_of zombie ps)

first_zombie-choice_of :
    (n : ℕ) (zombie : ℕ → Bool) (f : Family) (par y c : ℕ) (ps : List ℕ)
    → Siblings f par y c ps
    → length ps < n
    → first_zombie n zombie f c ≡ some (choice_of zombie ps)
unfolding first_zombie Siblings choice_of
first_zombie-choice_of zero zombie f par y c ps s l = absurd (ground arith)
first_zombie-choice_of (suc n) zombie f par y c [] s l = ground arith
first_zombie-choice_of (suc n) zombie f par y c (p ∷ ps) (e, z, pa, yp, s) l =
    let rest = first_zombie-choice_of n zombie f par p (f.optr p) ps s (ground arith) in
    subst (λ q. first_zombie (suc n) zombie f q ≡ some (choice_of zombie (p ∷ ps))) (sym e)
      (elim (Bool-cases (zombie p)) [
        | inl exited ↦ ground (arith, rest)
        | inr lives ↦ ground (arith, rest)
      ])

module _ {H : Host} where
  -- Asked for any child, do_wait chooses the youngest child that has exited; it sleeps if it has children
  -- and none has exited, and returns -E_BAD_PROC if it has none. The loop ends after one round more than
  -- there are children.
  pub choose-choice_of :
      (n : ℕ) (zombie : ℕ → Bool) (t : Tasks H) (kids : ℕ → List ℕ)
      → IsTasks t kids
      → length (kids t.current) < n
      → choose H n (pos 0) zombie t ≡ some (choice_of zombie (kids t.current))
  unfolding choose
  choose-choice_of n zombie t kids v l =
      first_zombie-choice_of n zombie t.family t.current 0 (t.family.cptr t.current)
        (kids t.current) (v.family.children t.current) l

  -- What the test of `do_wait` on a process that find_proc has found says.
  is_child :
      (p : ℕ) (t : Tasks H) (kids : ℕ → List ℕ)
      → IsTasks t kids
      → (p ≡ 0) ⊎ (has p t.family.proc_list ≡ true)
      → (not (p == 0) && t.family.parent p == t.current) ≡ has p (kids t.current)
  is_child p t kids v o =
      let of_parent =
        Siblings-parent t.family t.current 0 (t.family.cptr t.current) p (kids t.current)
          (v.family.children t.current) in
      elim (Bool-cases (has p (kids t.current))) [
        | inl child ↦ let (q, z) = of_parent child in ground arith
        | inr no_child ↦ elim o [
          | inl null ↦ ground arith
          | inr on ↦ elim (Bool-cases (t.family.parent p == t.current)) [
            | inr other ↦ ground arith
            | inl own ↦
                let e : t.family.parent p ≡ t.current = ground arith in
                absurd (ground (arith, v.related p on, ap (λ own. has p (kids own)) e))
          ]
        ]
      ]

  -- Asked for the process of number `pid`, do_wait chooses it if it is a child of the running process that
  -- has exited; it sleeps if it is a child that has not, and returns -E_BAD_PROC if no child has the
  -- number.
  pub choose-pid :
      (n pid p : ℕ) (zombie : ℕ → Bool) (t : Tasks H) (kids : ℕ → List ℕ)
      → IsTasks t kids
      → 0 < pid
      → pid < max_pid
      → find_in pid t.hash.pid t.family.proc_list ≡ p
      → choose H n (pos pid) zombie t
        ≡ some (if has p (kids t.current) then (if zombie p then found p else has_kid) else no_kid)
  unfolding choose
  choose-pid n pid p zombie t kids v z b e =
      let found_p : find_proc (pos pid) t.hash ≡ p =
        find_proc-find_in t.family.proc_list t.hash pid v.hashed z b ∙ e in
      let child : (not (p == 0) && t.family.parent p == t.current) ≡ has p (kids t.current) =
        elim (find_in_cases pid t.hash.pid t.family.proc_list) [
          | inl (null, u) ↦ is_child p t kids v (inl (sym e ∙ null))
          | inr (on, u) ↦
              is_child p t kids v (inr (ap (λ q. has q t.family.proc_list) (sym e) ∙ on))
        ] in
      let some_pid : (pid == 0) ≡ false = ground arith in rw (some_pid, found_p, child)
