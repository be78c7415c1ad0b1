-- ===== src/Process/Family/Tests.antt =====
-- Tests and witnesses for the relations between processes.
use dora_aos2019_homework.Prelude.{ℕ, ◌≡◌, refl, false, some, List, [], ◌∷◌, arith}
use dora_aos2019_homework.Kernel.{update}
use dora_aos2019_homework.Kernel.Links.{has, unlink}
use dora_aos2019_homework.Process.Family.{Family, set_links, remove_links, adopt_children}
use dora_aos2019_homework.Process.Family.Children.{Siblings, IsFamily}
use dora_aos2019_homework.Process.Family.Links.{set_links-IsFamily}
use dora_aos2019_homework.Process.Family.Leaving.{remove_links-IsFamily}
use dora_aos2019_homework.Process.Family.Orphans.{adopted, adopt_children-IsFamily}

-- Every process is to be a child of process 1; nobody is yet.
abbrev no_children : Family
no_children = record {
  parent = λ _. 1;
  cptr = λ _. 0;
  yptr = λ _. 0;
  optr = λ _. 0;
  proc_list = [];
  nr_process = 0;
}

abbrev childless : ℕ → List ℕ
childless _ = []

no_children-IsFamily : IsFamily no_children childless
unfolding Siblings
no_children-IsFamily = record { children = λ par. refl; once = λ par. refl }

abbrev one_child : ℕ → List ℕ
one_child = update childless 1 (2 ∷ [])

one_child-IsFamily : IsFamily (set_links 2 no_children) one_child
one_child-IsFamily =
    set_links-IsFamily 2 no_children childless no_children-IsFamily (omega arith) (λ par. refl)

three_is_new : (par : ℕ) → has 3 (one_child par) ≡ false
three_is_new par = ground arith

abbrev two_children : ℕ → List ℕ
two_children = update one_child 1 (3 ∷ 2 ∷ [])

two_children-IsFamily : IsFamily (set_links 3 (set_links 2 no_children)) two_children
unfolding set_links
two_children-IsFamily =
    set_links-IsFamily 3 (set_links 2 no_children) one_child one_child-IsFamily (omega arith)
      three_is_new

remove_links-IsFamily_example :
    IsFamily
      (remove_links 2 (set_links 3 (set_links 2 no_children)))
      (update two_children 1 (3 ∷ []))
unfolding set_links unlink
remove_links-IsFamily_example =
    remove_links-IsFamily 2 (set_links 3 (set_links 2 no_children)) two_children
      two_children-IsFamily refl

-- The removed child was the older one: 3 is left, with no older sibling.
older_left : (remove_links 2 (set_links 3 (set_links 2 no_children))).optr 3 ≡ 0
unfolding set_links remove_links
older_left = refl

-- Process 1 exits; its children 3 and 2 go to process 9, which has none.
adopt_children-IsFamily_example :
    (f' : Family) × ((adopt_children 3 9 1 (set_links 3 (set_links 2 no_children))
        ≡ some (3 ∷ 2 ∷ [], f'))
      × IsFamily f' (adopted 9 1 (3 ∷ 2 ∷ []) two_children))
adopt_children-IsFamily_example =
    adopt_children-IsFamily 3 9 1 (set_links 3 (set_links 2 no_children)) two_children
      (λ e. ground arith) two_children-IsFamily (omega arith)
