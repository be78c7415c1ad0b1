-- ===== src/Process/Family/Orphans.antt =====
-- The orphans of a process that exits: the loop of do_exit (ucore_os/kern/process/proc.c).
use dora_aos2019_homework.Prelude.{
  ℕ, zero, suc, ◌<◌, ◌≡◌, refl, sym, ◌∙◌, ap, ◌≢◌, inl, inr, some, List, [], ◌∷◌, length, arith,
  ◌==◌, Bool-cases, subst,
}
use dora_aos2019_homework.Kernel.{update}
use dora_aos2019_homework.Kernel.Links.{distinct}
use dora_aos2019_homework.Process.Family.{Family, adopt_first, adopt_children}
use dora_aos2019_homework.Process.Family.Children.{Siblings, IsFamily}
use dora_aos2019_homework.Process.Family.Links.{moved}
use dora_aos2019_homework.Process.Family.Adoption.{IsLeft, adopt_first-IsLeft}

-- `ps` in reverse, before `qs`: how the children of `p` come to stand before those of `init`.
abbrev pub moved_before : List ℕ → List ℕ → List ℕ
moved_before [] qs = qs
moved_before (p ∷ ps) qs = moved_before ps (p ∷ qs)

-- Where `p` has no child left, the children of every process are right.
IsLeft-none :
    (p : ℕ) (f : Family) (kids : ℕ → List ℕ) → IsLeft p f kids → kids p ≡ [] → IsFamily f kids
unfolding Siblings
IsLeft-none p f kids v e = record {
  children = λ par. elim (Bool-cases (par == p)) [
    | inl own ↦
        let par_p : par ≡ p = ground arith in
        subst (λ par. Siblings f par 0 (f.cptr par) (kids par)) (sym par_p)
          (moved {ps' = kids p} f p 0 0 []
            (sym (subst (λ qs. Siblings f p v.stale (f.cptr p) qs) e v.own)) (sym e) refl)
    | inr other ↦ v.children par (λ e. ground arith)
  ];
  once = v.once;
}

same_kids :
    (f : Family) (kids kids' : ℕ → List ℕ)
    → ((par : ℕ) → kids par ≡ kids' par)
    → IsFamily f kids
    → IsFamily f kids'
same_kids f kids kids' e v = record {
  children = λ par. subst (λ qs. Siblings f par 0 (f.cptr par) qs) (e par) (v.children par);
  once = λ par. ap distinct (sym (e par)) ∙ v.once par;
}

-- The children after the loop has moved the children `ps` of `p`.
abbrev pub adopted : ℕ → ℕ → List ℕ → (ℕ → List ℕ) → ℕ → List ℕ
adopted init p ps kids = update (update kids p []) init (moved_before ps (kids init))

no_first : (p : ℕ) (f : Family) (kids : ℕ → List ℕ) → IsLeft p f kids → kids p ≡ [] → f.cptr p ≡ 0
unfolding Siblings
no_first p f kids v e = subst (λ qs. Siblings f p v.stale (f.cptr p) qs) e v.own

a_first :
    (p c : ℕ) (ps : List ℕ) (f : Family) (kids : ℕ → List ℕ)
    → IsLeft p f kids
    → kids p ≡ c ∷ ps
    → (f.cptr p ≡ c) × (0 < c)
unfolding Siblings
a_first p c ps f kids v e =
    let (first, some_child, par, yptr, rest) =
      subst (λ qs. Siblings f p v.stale (f.cptr p) qs) e v.own in
    (first, some_child)

unmoved :
    (init p : ℕ) (kids : ℕ → List ℕ)
    → init ≢ p
    → kids p ≡ []
    → (par : ℕ) → kids par ≡ adopted init p [] kids par
unmoved init p kids m e par = elim (Bool-cases (par == init)) [
  | inl here ↦ let q : par ≡ init = ground arith in ap kids q ∙ ground arith
  | inr there ↦ elim (Bool-cases (par == p)) [
    | inl own ↦ let q : par ≡ p = ground arith in ap kids q ∙ e ∙ ground arith
    | inr other ↦ ground arith
  ]
]

moved_one :
    (init p c : ℕ) (ps : List ℕ) (kids : ℕ → List ℕ) (par : ℕ)
    → adopted init p ps (update (update kids p ps) init (c ∷ kids init)) par
      ≡ adopted init p (c ∷ ps) kids par
moved_one init p c ps kids par =
    let front : update (update kids p ps) init (c ∷ kids init) init ≡ c ∷ kids init =
      ground arith in
    elim (Bool-cases (par == init)) [
      | inl here ↦
          let now : adopted init p ps (update (update kids p ps) init (c ∷ kids init)) par
              ≡ moved_before ps (update (update kids p ps) init (c ∷ kids init) init) =
            ground arith in
          now ∙ ap (moved_before ps) front ∙ ground arith
      | inr there ↦ ground arith
    ]

adopt_children-IsLeft :
    (n init p : ℕ) (ps : List ℕ) (f : Family) (kids : ℕ → List ℕ)
    → init ≢ p
    → IsLeft p f kids
    → kids p ≡ ps
    → length ps < n
    → (f' : Family) × ((adopt_children n init p f ≡ some (ps, f'))
        × IsFamily f' (adopted init p ps kids))
unfolding adopt_children
adopt_children-IsLeft zero init p ps f kids m v e l = absurd (ground arith)
adopt_children-IsLeft (suc n) init p [] f kids m v e l =
    let no_child : f.cptr p ≡ 0 = no_first p f kids v e in
    (
      f,
      (
        ground arith,
        same_kids f kids (adopted init p [] kids) (unmoved init p kids m e)
            (IsLeft-none p f kids v e),
      ),
    )
adopt_children-IsLeft (suc n) init p (c ∷ ps) f kids m v e l =
    let kids' = update (update kids p ps) init (c ∷ kids init) in
    let (first, some_child) = a_first p c ps f kids v e in
    let (f', (g, w)) =
      adopt_children-IsLeft n init p ps (adopt_first init p f) kids' m
        (adopt_first-IsLeft init p c ps f kids m v e) (ground arith) (ground arith) in
    (
      f',
      (
        ground (arith, g),
        same_kids f' (adopted init p ps kids') (adopted init p (c ∷ ps) kids)
            (moved_one init p c ps kids) w,
      ),
    )

-- The loop at the end of do_exit ends after one round for each child of `p`, and it moves them in this
-- order: each becomes the first child of `init`, so that in the end they stand in reverse before the
-- children that `init` had. `p` has no child left, the children of every other process stay, and all
-- are linked in both directions.
pub adopt_children-IsFamily :
    (n init p : ℕ) (f : Family) (kids : ℕ → List ℕ)
    → init ≢ p
    → IsFamily f kids
    → length (kids p) < n
    → (f' : Family) × ((adopt_children n init p f ≡ some (kids p, f'))
        × IsFamily f' (adopted init p (kids p) kids))
adopt_children-IsFamily n init p f kids m v l =
    let left : IsLeft p f kids = record {
      stale = 0;
      own = v.children p;
      children = λ par h. v.children par;
      once = v.once;
    } in
    adopt_children-IsLeft n init p (kids p) f kids m left refl l
