-- ===== src/Process/Family/Neighbours.antt =====
-- The neighbours of a child among its siblings (ucore_os/kern/process/proc.c).
use dora_aos2019_homework.Prelude.{
  ℕ, ◌≡◌, sym, ◌∙◌, ap, ◌≢◌, inl, inr, true, false, List, [], ◌∷◌, arith, ◌==◌, Bool-cases, subst,
}
use dora_aos2019_homework.Kernel.Links.{has}
use dora_aos2019_homework.Process.Family.{Family}
use dora_aos2019_homework.Process.Family.Children.{Siblings, Siblings-parent}
use dora_aos2019_homework.Process.Family.Links.{first_child}

-- The older sibling of a child is none, or a child after it.
pub older_in :
    (f : Family) (par y c p : ℕ) (ps : List ℕ)
    → Siblings f par y c ps
    → has p ps ≡ true
    → f.optr p ≢ 0
    → has (f.optr p) ps ≡ true
unfolding Siblings
older_in f par y c p [] s h n = ground arith
older_in f par y c p (q ∷ qs) (e, z, r, yq, s) h n = elim (Bool-cases (p == q)) [
  | inl here ↦
      let p_q : p ≡ q = ground arith in
      ground (
        arith,
        first_child f par p (f.optr p) qs (subst (λ t. Siblings f par t (f.optr t) qs) (sym p_q) s)
            n,
      )
  | inr there ↦ ground (arith, older_in f par q (f.optr q) p qs s (ground arith) n)
]

-- The younger sibling of a child that is not the first is a child.
pub younger_in :
    (f : Family) (par y c p q : ℕ) (qs : List ℕ)
    → Siblings f par y c (q ∷ qs)
    → has p qs ≡ true
    → has (f.yptr p) (q ∷ qs) ≡ true
unfolding Siblings
younger_in f par y c p q [] s h = ground arith
younger_in f par y c p q (r ∷ rs) (e, z, pa, yq, (e', z', r', yr, s)) h =
    elim (Bool-cases (p == r)) [
      | inl here ↦
          let p_r : p ≡ r = ground arith in
          let y_r : f.yptr p ≡ q = ap (λ t. f.yptr t) p_r ∙ yr in ground arith
      | inr there ↦
          ground (arith, younger_in f par q (f.optr q) p r rs (e', z', r', yr, s) (ground arith))
    ]

-- A child is not the older sibling of one after it.
pub not_older :
    (f : Family) (par y c p q : ℕ) (qs : List ℕ)
    → Siblings f par y c qs
    → has p qs ≡ true
    → has q qs ≡ false
    → f.optr p ≢ 0
    → q ≢ f.optr p
not_older f par y c p q qs s h u n e =
    ground (arith, older_in f par y c p qs s h n, ap (λ t. has t qs) e)

pub no_null : (f : Family) (par y c : ℕ) (ps : List ℕ) → Siblings f par y c ps → has 0 ps ≡ false
no_null f par y c ps s = elim (Bool-cases (has 0 ps)) [
  | inr none_there ↦ none_there
  | inl null ↦ ground (arith, Siblings-parent f par y c 0 ps s null)
]

-- A neighbour of a child is none, or a child of the same parent.
pub younger_child :
    (f : Family) (par c p : ℕ) (ps : List ℕ)
    → Siblings f par 0 c ps
    → has p ps ≡ true
    → f.yptr p ≢ 0
    → has (f.yptr p) ps ≡ true
unfolding Siblings
younger_child f par c p [] s h n = ground arith
younger_child f par c p (q ∷ qs) (e, z, pa, yq, s) h n = elim (Bool-cases (p == q)) [
  | inl here ↦ let p_q : p ≡ q = ground arith in absurd (n (ap (λ t. f.yptr t) p_q ∙ yq))
  | inr there ↦ younger_in f par 0 c p q qs (e, z, pa, yq, s) (ground arith)
]
