-- ===== src/Process/Family.antt =====
-- The relations between processes: set_links, remove_links and the adoption of orphans in do_exit
-- (ucore_os/kern/process/proc.c). A `struct proc_struct *` is an address, 0 is `NULL`.
pub mod Children
pub mod Links
pub mod Neighbours
pub mod Leaving
pub mod Adoption
pub mod Orphans
mod Tests
use dora_aos2019_homework.Prelude.{
  ℕ, zero, suc, ◌+◌, ◌-◌, Option, none, some, List, [], ◌∷◌, ◌==◌, if◌then◌else◌,
}
use dora_aos2019_homework.Kernel.{update}
use dora_aos2019_homework.Kernel.Links.{unlink}

-- The fields `parent`, `cptr`, `yptr` and `optr` of every process, with `proc_list` and `nr_process`.
pub record Family : Type 0 where
  pub parent : ℕ → ℕ
  pub cptr : ℕ → ℕ
  pub yptr : ℕ → ℕ
  pub optr : ℕ → ℕ
  pub proc_list : List ℕ
  pub nr_process : ℕ

-- `if (older != NULL) older->yptr = p;`
abbrev pub set_younger : ℕ → ℕ → (ℕ → ℕ) → ℕ → ℕ
set_younger older p yptr = if older == 0 then yptr else update yptr older p

unfoldable pub set_links : ℕ → Family → Family
set_links p f =
    let parent = f.parent p in
    let older = f.cptr parent in
    record {
      parent = f.parent;
      cptr = update f.cptr parent p;
      yptr = set_younger older p (update f.yptr p 0);
      optr = update f.optr p older;
      proc_list = p ∷ f.proc_list;
      nr_process = f.nr_process + 1;
    }

unfoldable pub remove_links : ℕ → Family → Family
remove_links p f =
    let older = f.optr p in
    let younger = f.yptr p in
    record {
      parent = f.parent;
      cptr = if younger == 0 then update f.cptr (f.parent p) older else f.cptr;
      yptr = set_younger older younger f.yptr;
      optr = if younger == 0 then f.optr else update f.optr younger older;
      proc_list = unlink p f.proc_list;
      nr_process = f.nr_process - 1;
    }

-- One round of the loop in `do_exit`: the first child of `p` becomes the first child of `init`.
unfoldable pub adopt_first : ℕ → ℕ → Family → Family
adopt_first init p f =
    let child = f.cptr p in
    let cptr = update f.cptr p (f.optr child) in
    let older = cptr init in
    record {
      parent = update f.parent child init;
      cptr = update cptr init child;
      yptr = set_younger older child (update f.yptr child 0);
      optr = update f.optr child older;
      proc_list = f.proc_list;
      nr_process = f.nr_process;
    }

abbrev pub prepend : ℕ → Option (List ℕ × Family) → Option (List ℕ × Family)
prepend p none = none
prepend p (some (ps, f)) = some (p ∷ ps, f)

-- `while (current->cptr != NULL)`, with the children it has moved, in order; `none` is fuel run out.
unfoldable pub adopt_children : ℕ → ℕ → ℕ → Family → Option (List ℕ × Family)
unfolding adopt_first
adopt_children zero init p f = none
adopt_children (suc n) init p f =
    let rest = adopt_children n init p (adopt_first init p f) in
    if f.cptr p == 0 then some ([], f) else prepend (f.cptr p) rest
