-- ===== src/Process/Family/Leaving.antt =====
-- Leaving a family: remove_links (ucore_os/kern/process/proc.c).
use dora_aos2019_homework.Prelude.{
  ℕ, ◌≡◌, refl, sym, ◌∙◌, ap, ◌≢◌, inl, inr, true, false, List, [], ◌∷◌, arith, ◌==◌, Bool-cases,
  subst,
}
use dora_aos2019_homework.Kernel.{update}
use dora_aos2019_homework.Kernel.Links.{has, distinct, unlink, distinct-unlink}
use dora_aos2019_homework.Process.Family.{Family, remove_links}
use dora_aos2019_homework.Process.Family.Children.{
  Siblings, IsFamily, SamePointers, Siblings-parent, Siblings-same, family_apart, ne_of_has,
}
use dora_aos2019_homework.Process.Family.Links.{moved}
use dora_aos2019_homework.Process.Family.Neighbours.{
  older_in, younger_in, not_older, no_null, younger_child,
}

-- Only the neighbours of the process that leaves change.
remove_links-SamePointers :
    (p : ℕ) (f : Family) (x : ℕ)
    → (f.optr p ≢ 0 → x ≢ f.optr p)
    → x ≢ f.yptr p
    → SamePointers f (remove_links p f) x
unfolding remove_links
remove_links-SamePointers p f x older younger = record {
  parent = refl;
  yptr = elim (Bool-cases (f.optr p == 0)) [
    | inl null ↦ ground arith
    | inr some_child ↦ let n = older (λ e. ground arith) in ground arith
  ];
  optr = elim (Bool-cases (f.yptr p == 0)) [
    | inl null ↦ ground arith
    | inr some_child ↦ ground arith
  ];
}

remove_head :
    (p : ℕ) (f : Family) (par y c : ℕ) (ps : List ℕ)
    → Siblings f par y c (p ∷ ps)
    → distinct (p ∷ ps) ≡ true
    → has y ps ≡ false
    → Siblings (remove_links p f) par y (f.optr p) ps
unfolding remove_links Siblings
remove_head p f par y c [] (e, z, r, yp, s) d u = s
remove_head p f par y c (q ∷ qs) (e, z, r, yp, (e', z', r', yq, s)) d u =
    let same : (x : ℕ) → has x qs ≡ true → SamePointers f (remove_links p f) x = λ x h.
      let x_q : x ≢ q = ne_of_has x q qs h (ground arith) in
      let x_y : x ≢ y = ne_of_has x y qs h (ground arith) in
      remove_links-SamePointers p f x (λ n. ground arith) (λ g. x_y (g ∙ yp)) in
    let optr_q : (remove_links p f).optr q ≡ f.optr q = elim (Bool-cases (f.yptr p == 0)) [
      | inl null ↦ ground arith
      | inr some_child ↦ ground arith
    ] in
    (
      e',
      z',
      r',
      ground arith,
      subst (λ o. Siblings (remove_links p f) par q o qs) (sym optr_q)
          (Siblings-same f (remove_links p f) par q (f.optr q) qs same s),
    )

remove_second :
    (p : ℕ) (f : Family) (par y c q : ℕ) (rs : List ℕ)
    → Siblings f par y c (q ∷ p ∷ rs)
    → distinct (q ∷ p ∷ rs) ≡ true
    → Siblings (remove_links p f) par y c (q ∷ rs)
unfolding remove_links Siblings
remove_second p f par y c q rs (e, z, pa, yq, (e', z', r', yp, s)) d =
    let q_p : q ≢ p = λ x. ground arith in
    let t : Siblings f par q (f.optr q) (p ∷ rs) = (e', z', r', yp, s) in
    let some_older : f.optr p ≢ 0 → q ≢ f.optr p =
      not_older f par q (f.optr q) p q (p ∷ rs) t (ground arith) (ground arith) in
    let yptr_q : (remove_links p f).yptr q ≡ y = elim (Bool-cases (f.optr p == 0)) [
      | inl null ↦ ground arith
      | inr some_child ↦ let n = some_older (λ g. ground arith) in ground arith
    ] in
    let optr_q : (remove_links p f).optr q ≡ f.optr p = ground arith in
    (
      e,
      z,
      pa,
      yptr_q,
      subst (λ o. Siblings (remove_links p f) par q o rs) (sym optr_q)
          (remove_head p f par q (f.optr q) rs t (ground arith) (ground arith)),
    )

remove_after :
    (p : ℕ) (f : Family) (par y c q : ℕ) (qs : List ℕ)
    → Siblings f par y c (q ∷ qs)
    → distinct (q ∷ qs) ≡ true
    → has p qs ≡ true
    → Siblings (remove_links p f) par y c (q ∷ unlink p qs)
unfolding Siblings unlink
remove_after p f par y c q [] s d h = ground arith
remove_after p f par y c q (r ∷ rs) (e, z, pa, yq, t) d h = elim (Bool-cases (p == r)) [
  | inl here ↦
      let r_p : r ≡ p = ground arith in
      moved {ps' = q ∷ unlink p (r ∷ rs)} (remove_links p f) par y c (q ∷ rs) refl (ground arith) (
        remove_second p f par y c q rs
          (subst (λ r. Siblings f par y c (q ∷ r ∷ rs)) r_p (e, z, pa, yq, t)) (ground arith))
  | inr there ↦
      let younger = younger_in f par q (f.optr q) p r rs t (ground arith) in
      let y_q : q ≢ f.yptr p = λ g. ground (arith, younger, ap (λ t. has t (r ∷ rs)) g) in
      let same : SamePointers f (remove_links p f) q =
        remove_links-SamePointers p f q
          (not_older f par q (f.optr q) p q (r ∷ rs) t h (ground arith)) y_q in
      let rest = remove_after p f par q (f.optr q) r rs t (ground arith) (ground arith) in
      moved {ps' = q ∷ unlink p (r ∷ rs)} (remove_links p f) par y c (q ∷ r ∷ unlink p rs) refl
        (ground arith)
        (
          e,
          z,
          same.parent ∙ pa,
          same.yptr ∙ yq,
          subst (λ o. Siblings (remove_links p f) par q o (r ∷ unlink p rs)) (sym same.optr) rest,
        )
]

-- The list of the children that it was on is without it.
remove_own :
    (p : ℕ) (f : Family) (c : ℕ) (ps : List ℕ)
    → Siblings f (f.parent p) 0 c ps
    → c ≡ f.cptr (f.parent p)
    → distinct ps ≡ true
    → has p ps ≡ true
    → Siblings
        (remove_links p f)
        (f.parent p)
        0
        ((remove_links p f).cptr (f.parent p))
        (unlink p ps)
unfolding remove_links Siblings unlink
remove_own p f c [] s e d h = ground arith
remove_own p f c (q ∷ qs) (e, z, pa, yq, s) g d h = elim (Bool-cases (p == q)) [
  | inl here ↦
      let q_p : q ≡ p = ground arith in
      let y_p : f.yptr p ≡ 0 = ap (λ t. f.yptr t) (sym q_p) ∙ yq in
      moved {ps' = unlink p (q ∷ qs)} (remove_links p f) (f.parent p) 0 (f.optr p) qs (ground arith)
        (ground arith)
        (remove_head p f (f.parent p) 0 c qs
          (subst (λ q. Siblings f (f.parent p) 0 c (q ∷ qs)) q_p (e, z, pa, yq, s)) (ground arith)
          (no_null f (f.parent p) q (f.optr q) qs s))
  | inr there ↦
      let younger = younger_in f (f.parent p) 0 c p q qs (e, z, pa, yq, s) (ground arith) in
      let y_p =
        (Siblings-parent f (f.parent p) 0 c (f.yptr p) (q ∷ qs) (e, z, pa, yq, s) younger).1 in
      moved {ps' = unlink p (q ∷ qs)} (remove_links p f) (f.parent p) 0 c (q ∷ unlink p qs)
        (ground arith) (ground arith)
        (remove_after p f (f.parent p) 0 c q qs (e, z, pa, yq, s) d (ground arith))
]

remove_links-other :
    (p : ℕ) (f : Family) (kids : ℕ → List ℕ) (par : ℕ)
    → IsFamily f kids
    → has p (kids (f.parent p)) ≡ true
    → par ≢ f.parent p
    → Siblings (remove_links p f) par 0 (f.cptr par) (kids par)
remove_links-other p f kids par v h n =
    let own = f.parent p in
    let stays : (x : ℕ) → has x (kids par) ≡ true → SamePointers f (remove_links p f) x = λ x hx.
      let apart : (t : ℕ) → has t (kids own) ≡ true → x ≢ t =
        λ t ht. ne_of_has x t (kids par) hx (family_apart f kids own par t v ht (λ e. n (sym e))) in
      let x_null = (Siblings-parent f par 0 (f.cptr par) x (kids par) (v.children par) hx).1 in
      remove_links-SamePointers p f x
        (λ m. apart (f.optr p) (older_in f own 0 (f.cptr own) p (kids own) (v.children own) h m))
        (elim (Bool-cases (f.yptr p == 0)) [
          | inl null ↦ λ e. ground arith
          | inr some_child ↦
              apart (f.yptr p) (
                younger_child f own (f.cptr own) p (kids own) (v.children own) h
                  (λ e. ground arith))
        ]) in
    Siblings-same f (remove_links p f) par 0 (f.cptr par) (kids par) stays (v.children par)

-- remove_links of a child takes it out of the children of its parent, which stay in order and linked
-- in both directions, as those of every other process do.
pub remove_links-IsFamily :
    (p : ℕ) (f : Family) (kids : ℕ → List ℕ)
    → IsFamily f kids
    → has p (kids (f.parent p)) ≡ true
    → IsFamily (remove_links p f) (update kids (f.parent p) (unlink p (kids (f.parent p))))
unfolding remove_links
remove_links-IsFamily p f kids v h =
    let own = f.parent p in
    let kids' = update kids own (unlink p (kids own)) in
    record {
      children = λ par. elim (Bool-cases (par == own)) [
        | inl here ↦
            let e : par ≡ own = ground arith in
            subst
              (λ par. Siblings (remove_links p f) par 0 ((remove_links p f).cptr par) (kids' par))
              (sym e)
              (moved {ps' = kids' own} (remove_links p f) own 0 ((remove_links p f).cptr own)
                (unlink p (kids own)) refl (ground arith)
                (remove_own p f (f.cptr own) (kids own) (v.children own) refl (v.once own) h))
        | inr there ↦
            let n : par ≢ own = λ e. ground arith in
            moved {ps' = kids' par} (remove_links p f) par 0 (f.cptr par) (kids par)
              (elim (Bool-cases (f.yptr p == 0)) [
                | inl null ↦ ground arith
                | inr some_child ↦ ground arith
              ])
              (ground arith) (remove_links-other p f kids par v h n)
      ];
      once = λ par. elim (Bool-cases (par == own)) [
        | inl here ↦ ground (arith, distinct-unlink p (kids own) (v.once own))
        | inr there ↦ ground (arith, v.once par)
      ];
    }
