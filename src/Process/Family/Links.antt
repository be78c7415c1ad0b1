-- ===== src/Process/Family/Links.antt =====
-- Joining and leaving a family: set_links and remove_links (ucore_os/kern/process/proc.c).
use dora_aos2019_homework.Prelude.{
  ℕ, ◌<◌, ◌≡◌, refl, sym, ◌≢◌, inl, inr, true, false, List, [], ◌∷◌, arith, ◌==◌, Bool-cases, subst,
}
use dora_aos2019_homework.Kernel.{update}
use dora_aos2019_homework.Kernel.Links.{has, distinct}
use dora_aos2019_homework.Process.Family.{Family, set_younger, set_links}
use dora_aos2019_homework.Process.Family.Children.{
  Siblings, IsFamily, SamePointers, Siblings-same, family_apart, ne_of_has,
}

-- The child that was first gets a younger sibling.
set_links-Siblings :
    (p : ℕ) (f : Family) (ps : List ℕ)
    → 0 < p
    → has p ps ≡ false
    → distinct ps ≡ true
    → Siblings f (f.parent p) 0 (f.cptr (f.parent p)) ps
    → Siblings (set_links p f) (f.parent p) 0 p (p ∷ ps)
unfolding set_links Siblings
set_links-Siblings p f [] z u d s = ground arith
set_links-Siblings p f (q ∷ qs) z u d (e, zq, r, yq, s) =
    let q_p : q ≢ p = λ x. ground arith in
    let optr_q : update f.optr p (f.cptr (f.parent p)) q ≡ f.optr q = ground arith in
    let p_y : set_younger (f.cptr (f.parent p)) p (update f.yptr p 0) p ≡ 0 = ground arith in
    let q_y : set_younger (f.cptr (f.parent p)) p (update f.yptr p 0) q ≡ p = ground arith in
    let same : (x : ℕ) → has x qs ≡ true → SamePointers f (set_links p f) x = λ x h.
      let x_p : x ≢ p = ne_of_has x p qs h (ground arith) in
      let x_q : x ≢ q = ne_of_has x q qs h (ground arith) in
      record { parent = refl; yptr = ground arith; optr = ground arith } in
    (
      refl,
      z,
      refl,
      p_y,
      (
        ground arith,
        zq,
        r,
        q_y,
        subst (λ o. Siblings (set_links p f) (f.parent p) q o qs) (sym optr_q)
            (Siblings-same f (set_links p f) (f.parent p) q (f.optr q) qs same s),
      ),
    )

-- The first child of a process is on the list of its children.
pub first_child :
    (f : Family) (par y c : ℕ) (ps : List ℕ) → Siblings f par y c ps → c ≢ 0 → has c ps ≡ true
unfolding Siblings
first_child f par y c [] s n = absurd (n s)
first_child f par y c (p ∷ ps) (e, z, r, yp, s) n = ground arith

pub set_younger_other :
    (older p x : ℕ) (yptr : ℕ → ℕ)
    → x ≢ p
    → (older ≢ 0 → x ≢ older)
    → set_younger older p (update yptr p 0) x ≡ yptr x
set_younger_other older p x yptr n h = elim (Bool-cases (older == 0)) [
  | inl null ↦ ground arith
  | inr child ↦ let m = h (λ e. ground arith) in ground arith
]

set_links-other :
    (p : ℕ) (f : Family) (kids : ℕ → List ℕ) (par : ℕ)
    → IsFamily f kids
    → has p (kids par) ≡ false
    → par ≢ f.parent p
    → Siblings (set_links p f) par 0 (f.cptr par) (kids par)
unfolding set_links
set_links-other p f kids par v u n =
    Siblings-same f (set_links p f) par 0 (f.cptr par) (kids par)
      (λ x h.
        let x_p : x ≢ p = ne_of_has x p (kids par) h u in
        let older = f.cptr (f.parent p) in
        let x_older : older ≢ 0 → x ≢ older = λ some_child. ne_of_has x older (kids par) h (
          family_apart f kids (f.parent p) par older v
            (first_child f (f.parent p) 0 older (kids (f.parent p)) (v.children (f.parent p))
              some_child)
            (λ e. n (sym e))) in
        record {
          parent = refl;
          yptr = set_younger_other older p x f.yptr x_p x_older;
          optr = ground arith;
        })
      (v.children par)

-- The same siblings, from an equal first one and on an equal list.
pub moved :
    {c' : ℕ}
    → {ps' : List ℕ} → (f : Family) (par y c : ℕ) (ps : List ℕ) → c ≡ c'
    → ps ≡ ps'
    → Siblings f par y c ps
    → Siblings f par y c' ps'
moved {c' = c'} f par y c ps e h s =
    subst (λ ps. Siblings f par y c' ps) h (subst (λ c. Siblings f par y c ps) e s)

-- set_links of a process that is no child yet, its parent set, makes it the youngest child of its
-- parent; the children of every process stay linked in both directions, none of them twice.
pub set_links-IsFamily :
    (p : ℕ) (f : Family) (kids : ℕ → List ℕ)
    → IsFamily f kids
    → 0 < p
    → ((par : ℕ) → has p (kids par) ≡ false)
    → IsFamily (set_links p f) (update kids (f.parent p) (p ∷ kids (f.parent p)))
unfolding set_links
set_links-IsFamily p f kids v z u = record {
  children = λ par. elim (Bool-cases (par == f.parent p)) [
    | inl own ↦
        let e : par ≡ f.parent p = ground arith in
        subst
          (λ par.
            Siblings (set_links p f) par 0 (update f.cptr (f.parent p) p par)
              (update kids (f.parent p) (p ∷ kids (f.parent p)) par))
          (sym e)
          (moved (set_links p f) (f.parent p) 0 p (p ∷ kids (f.parent p)) (ground arith)
            (ground arith)
            (set_links-Siblings p f (kids (f.parent p)) z (u (f.parent p)) (v.once (f.parent p))
              (v.children (f.parent p))))
    | inr other ↦
        moved (set_links p f) par 0 (f.cptr par) (kids par) (ground arith) (ground arith)
          (set_links-other p f kids par v (u par) (λ e. ground arith))
  ];
  once = λ par. elim (Bool-cases (par == f.parent p)) [
    | inl own ↦ ground (arith, v.once (f.parent p), u (f.parent p))
    | inr other ↦ ground (arith, v.once par)
  ];
}
