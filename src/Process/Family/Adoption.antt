-- ===== src/Process/Family/Adoption.antt =====
-- A round of the loop in do_exit that gives the orphans of a process to init (ucore_os/kern/process/proc.c).
use dora_aos2019_homework.Prelude.{
  ℕ, ◌<◌, ◌≡◌, refl, sym, ◌∙◌, ap, ◌≢◌, inl, inr, true, false, List, [], ◌∷◌, arith, ◌==◌,
  Bool-cases, subst,
}
use dora_aos2019_homework.Kernel.{update}
use dora_aos2019_homework.Kernel.Links.{has, distinct}
use dora_aos2019_homework.Process.Family.{Family, set_younger, adopt_first}
use dora_aos2019_homework.Process.Family.Children.{
  Siblings, SamePointers, Siblings-parent, Siblings-same, ne_of_has,
}
use dora_aos2019_homework.Process.Family.Links.{moved, first_child, set_younger_other}

-- The children are right but for the first of `p`, whose `yptr` may still lead to one that has left.
pub record IsLeft (p : ℕ) (f : Family) (kids : ℕ → List ℕ) : Type 0 where
  pub stale : ℕ
  pub own : Siblings f p stale (f.cptr p) (kids p)
  pub children : (par : ℕ) → par ≢ p → Siblings f par 0 (f.cptr par) (kids par)
  pub once : (par : ℕ) → distinct (kids par) ≡ true

-- What a round changes of a process other than the two at the front.
adopt_first-SamePointers :
    (init p x : ℕ) (f : Family)
    → init ≢ p
    → x ≢ f.cptr p
    → (f.cptr init ≢ 0 → x ≢ f.cptr init)
    → SamePointers f (adopt_first init p f) x
unfolding adopt_first
adopt_first-SamePointers init p x f n u h =
    let older : update f.cptr p (f.optr (f.cptr p)) init ≡ f.cptr init = ground arith in
    record {
      parent = ground arith;
      yptr =
          ap (λ o. set_younger o (f.cptr p) (update f.yptr (f.cptr p) 0) x) older
          ∙ set_younger_other (f.cptr init) (f.cptr p) x f.yptr u h;
      optr = ground arith;
    }

adopt_first-older :
    (init p : ℕ) (f : Family) (c : ℕ) (qs : List ℕ)
    → init ≢ p
    → c ≡ f.cptr p
    → 0 < c
    → has c qs ≡ false
    → distinct qs ≡ true
    → Siblings f init 0 (f.cptr init) qs
    → Siblings (adopt_first init p f) init 0 c (c ∷ qs)
unfolding adopt_first Siblings
adopt_first-older init p f c [] n e z u d s = (refl, z, ground arith, ground arith, ground arith)
adopt_first-older init p f c (q ∷ qs) n e z u d (e', zq, r, yq, s) =
    let q_c : q ≢ f.cptr p = λ x. ground arith in
    let older : update f.cptr p (f.optr (f.cptr p)) init ≡ q = ground arith in
    let c_y : set_younger q (f.cptr p) (update f.yptr (f.cptr p) 0) c ≡ 0 = ground arith in
    let q_y : set_younger q (f.cptr p) (update f.yptr (f.cptr p) 0) q ≡ c = ground arith in
    let optr_q : (adopt_first init p f).optr q ≡ f.optr q = ground arith in
    let same : (x : ℕ) → has x qs ≡ true → SamePointers f (adopt_first init p f) x = λ x h.
      let x_c : x ≢ c = ne_of_has x c qs h (ground arith) in
      let x_q : x ≢ q = ne_of_has x q qs h (ground arith) in
      adopt_first-SamePointers init p x f n (λ g. x_c (g ∙ sym e)) (λ m g. x_q (g ∙ e')) in
    (
      refl,
      z,
      ground arith,
      ap (λ o. set_younger o (f.cptr p) (update f.yptr (f.cptr p) 0) c) older ∙ c_y,
      (
        ground arith,
        zq,
        ground arith,
        ap (λ o. set_younger o (f.cptr p) (update f.yptr (f.cptr p) 0) q) older ∙ q_y,
        subst (λ o. Siblings (adopt_first init p f) init q o qs) (sym optr_q)
            (Siblings-same f (adopt_first init p f) init q (f.optr q) qs same s),
      ),
    )

left_parent :
    (p : ℕ) (f : Family) (kids : ℕ → List ℕ)
    → IsLeft p f kids
    → (par q : ℕ) → has q (kids par) ≡ true
    → f.parent q ≡ par
left_parent p f kids v par q h = elim (Bool-cases (par == p)) [
  | inl own ↦
      let e : par ≡ p = ground arith in
      (Siblings-parent f p v.stale (f.cptr p) q (kids p) v.own
        (ap (λ t. has q (kids t)) (sym e) ∙ h)).0
      ∙ sym e
  | inr other ↦
      (Siblings-parent f par 0 (f.cptr par) q (kids par) (v.children par (λ e. ground arith)) h).0
]

-- Children of different processes are different, those of `p` included.
left_apart :
    (p : ℕ) (f : Family) (kids : ℕ → List ℕ)
    → IsLeft p f kids
    → (par par' q : ℕ) → has q (kids par) ≡ true
    → par ≢ par'
    → has q (kids par') ≡ false
left_apart p f kids v par par' q h n = elim (Bool-cases (has q (kids par'))) [
  | inr no_child ↦ no_child
  | inl child ↦
      absurd (n (sym (left_parent p f kids v par q h) ∙ left_parent p f kids v par' q child))
]

-- A child of neither `p` nor `init` keeps its pointers, and so does one of `p` but the first.
stays :
    (init p par x : ℕ) (f : Family) (kids : ℕ → List ℕ)
    → init ≢ p
    → IsLeft p f kids
    → par ≢ init
    → has x (kids par) ≡ true
    → x ≢ f.cptr p
    → SamePointers f (adopt_first init p f) x
stays init p par x f kids n v m h u = adopt_first-SamePointers init p x f n u (λ some_child.
    ne_of_has x (f.cptr init) (kids par) h (
      left_apart p f kids v init par (f.cptr init)
        (first_child f init 0 (f.cptr init) (kids init) (v.children init n) some_child)
        (λ e. m (sym e))))

-- What a round leaves to `p`.
adopt_first-rest :
    (init p c : ℕ) (ps : List ℕ) (f : Family) (kids : ℕ → List ℕ)
    → init ≢ p
    → IsLeft p f kids
    → kids p ≡ c ∷ ps
    → Siblings f p c (f.optr c) ps
    → c ≡ f.cptr p
    → has c ps ≡ false
    → Siblings (adopt_first init p f) p c ((adopt_first init p f).cptr p) ps
unfolding adopt_first
adopt_first-rest init p c ps f kids n v e rest g u =
    let optr_c : f.optr c ≡ f.optr (f.cptr p) = ap f.optr g in
    let same : (x : ℕ) → has x ps ≡ true → SamePointers f (adopt_first init p f) x = λ x h.
      let x_c : x ≢ c = ne_of_has x c ps h u in
      stays init p p x f kids n v (λ m. n (sym m)) (ap (λ qs. has x qs) e ∙ ground arith)
        (λ m. x_c (m ∙ sym g)) in
    moved {ps' = ps} (adopt_first init p f) p c (f.optr c) ps (ground arith) refl
      (Siblings-same f (adopt_first init p f) p c (f.optr c) ps same rest)

-- A round of the loop moves the first child of `p`.
pub adopt_first-IsLeft :
    (init p c : ℕ) (ps : List ℕ) (f : Family) (kids : ℕ → List ℕ)
    → init ≢ p
    → IsLeft p f kids
    → kids p ≡ c ∷ ps
    → IsLeft p (adopt_first init p f) (update (update kids p ps) init (c ∷ kids init))
unfolding Siblings adopt_first
adopt_first-IsLeft init p c ps f kids n v e =
    let g = adopt_first init p f in
    let kids' = update (update kids p ps) init (c ∷ kids init) in
    let (fc, zc, rc, yc, rest) = subst (λ qs. Siblings f p v.stale (f.cptr p) qs) e v.own in
    let d : distinct (c ∷ ps) ≡ true = ap distinct (sym e) ∙ v.once p in
    let c_in : has c (kids p) ≡ true = ap (λ qs. has c qs) e ∙ ground arith in
    let c_new : has c (kids init) ≡ false = left_apart p f kids v p init c c_in (λ m. n (sym m)) in
    record {
      stale = c;
      own =
          moved {ps' = kids' p} g p c (g.cptr p) ps refl (ground arith)
            (adopt_first-rest init p c ps f kids n v e rest (sym fc) (ground arith));
      children = λ par m. elim (Bool-cases (par == init)) [
        | inl here ↦
            let par_init : par ≡ init = ground arith in
            subst (λ par. Siblings g par 0 (g.cptr par) (kids' par)) (sym par_init)
              (moved {ps' = kids' init} g init 0 c (c ∷ kids init) (ground arith) (ground arith) (
                adopt_first-older init p f c (kids init) n (sym fc) zc c_new (v.once init)
                  (v.children init n)))
        | inr there ↦
            let not_init : par ≢ init = λ e. ground arith in
            let c_out : has c (kids par) ≡ false =
              left_apart p f kids v p par c c_in (λ e. m (sym e)) in
            moved {ps' = kids' par} g par 0 (f.cptr par) (kids par) (ground arith) (ground arith) (
              Siblings-same f g par 0 (f.cptr par) (kids par)
                (λ x h.
                  stays init p par x f kids n v not_init h
                    (λ q. ne_of_has x c (kids par) h c_out (q ∙ fc)))
                (v.children par m))
      ];
      once = λ par. elim (Bool-cases (par == init)) [
        | inl here ↦ ground (arith, v.once init)
        | inr there ↦ ground (arith, v.once par)
      ];
    }
