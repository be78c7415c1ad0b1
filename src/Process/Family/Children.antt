-- ===== src/Process/Family/Children.antt =====
-- The children of each process as a list, oldest last (ucore_os/kern/process/proc.c).
use dora_aos2019_homework.Prelude.{
  ℕ, ◌<◌, ◌≡◌, sym, ◌∙◌, ap, ◌≢◌, inl, inr, true, false, List, [], ◌∷◌, arith, ◌==◌, Bool-cases,
  subst,
}
use dora_aos2019_homework.Kernel.Links.{has, distinct}
use dora_aos2019_homework.Process.Family.{Family}

-- From `c` on, `optr` leads through the children `ps` of `par`; `yptr` leads back, from the first to `y`.
unfoldable pub Siblings : Family → ℕ → ℕ → ℕ → List ℕ → Type 0
Siblings f par y c [] = c ≡ 0
Siblings f par y c (p ∷ ps) =
    (c ≡ p) × (0 < p) × (f.parent p ≡ par) × (f.yptr p ≡ y) × Siblings f par p (f.optr p) ps

-- `kids` lists the children of each process, the youngest first, each of them once.
pub record IsFamily (f : Family) (kids : ℕ → List ℕ) : Type 0 where
  pub children : (par : ℕ) → Siblings f par 0 (f.cptr par) (kids par)
  pub once : (par : ℕ) → distinct (kids par) ≡ true

pub Siblings-parent :
    (f : Family) (par y c q : ℕ) (ps : List ℕ)
    → Siblings f par y c ps
    → has q ps ≡ true
    → (f.parent q ≡ par) × (0 < q)
unfolding Siblings
Siblings-parent f par y c q [] s h = ground arith
Siblings-parent f par y c q (p ∷ ps) (e, z, r, yp, s) h = elim (Bool-cases (q == p)) [
  | inl here ↦ (ground arith, ground arith)
  | inr there ↦ Siblings-parent f par p (f.optr p) q ps s (ground arith)
]

pub ne_of_has : (x p : ℕ) (ps : List ℕ) → has x ps ≡ true → has p ps ≡ false → x ≢ p
ne_of_has x p ps h u e = ground (arith, ap (λ t. has t ps) e)

-- Siblings are as before where the pointers of each of them are.
pub record SamePointers (f f' : Family) (q : ℕ) : Type 0 where
  pub parent : f'.parent q ≡ f.parent q
  pub yptr : f'.yptr q ≡ f.yptr q
  pub optr : f'.optr q ≡ f.optr q

pub Siblings-same :
    (f f' : Family) (par y c : ℕ) (ps : List ℕ)
    → ((q : ℕ) → has q ps ≡ true → SamePointers f f' q)
    → Siblings f par y c ps
    → Siblings f' par y c ps
unfolding Siblings
Siblings-same f f' par y c [] same s = s
Siblings-same f f' par y c (p ∷ ps) same (e, z, r, yp, s) =
    let here = same p (ground arith) in
    (
      e,
      z,
      here.parent ∙ r,
      here.yptr ∙ yp,
      subst (λ o. Siblings f' par p o ps) (sym here.optr)
          (Siblings-same f f' par p (f.optr p) ps (λ q h. same q (ground arith)) s),
    )

-- The children of two processes are different.
pub family_apart :
    (f : Family) (kids : ℕ → List ℕ) (par par' q : ℕ)
    → IsFamily f kids
    → has q (kids par) ≡ true
    → par ≢ par'
    → has q (kids par') ≡ false
family_apart f kids par par' q v h n = elim (Bool-cases (has q (kids par'))) [
  | inr no_child ↦ no_child
  | inl child ↦ absurd (
      n (
        sym (Siblings-parent f par 0 (f.cptr par) q (kids par) (v.children par) h).0
        ∙ (Siblings-parent f par' 0 (f.cptr par') q (kids par') (v.children par') child).0))
]
