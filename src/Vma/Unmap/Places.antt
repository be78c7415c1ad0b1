-- ===== src/Vma/Unmap/Places.antt =====
-- Where the area that find_vma returns stands on the list (ucore_os/kern/mm/vmm.c).
use dora_aos2019_homework.Prelude.{
  ℕ, ◌%◌, ◌<◌, ◌≤◌, ◌≡◌, refl, sym, ◌∙◌, ap, subst, inl, inr, true, false, ◌&&◌, not, none, some,
  List, [], ◌∷◌, ◌++◌, arith, ◌==◌, Bool-cases,
}
use dora_aos2019_homework.Vma.{Vma, holds, area_at, search}
use dora_aos2019_homework.Vma.Areas.{Ascending, occupied}
use dora_aos2019_homework.Vma.Unmap.{from_vma, store_vma}
use dora_aos2019_homework.Vma.Unmap.Pieces.{between}
use dora_aos2019_homework.Vma.Unmap.Runs.{Distinct, Aligned, Foreign, occupied-above}

-- The list before the area and behind it.
pub record Place (addr : ℕ) (vs : List Vma) (v : Vma) : Type 0 where
  pub before : List Vma
  pub behind : List Vma
  pub split : vs ≡ before ++ (v ∷ behind)
  pub from : from_vma v.address vs ≡ v ∷ behind
  pub foreign : Foreign before (v ∷ behind)
  pub ascending : Ascending v.vm_end behind
  pub aligned : Aligned behind
  pub low : v.vm_start % 4096 ≡ 0
  pub high : v.vm_end % 4096 ≡ 0
  pub filled : v.vm_start < v.vm_end
  pub inside : holds addr v ≡ true
  pub below : (x : ℕ) → occupied x before ≡ true → x < v.vm_start

area_at-behind : (a : ℕ) (vs ws : List Vma) → area_at a (vs ++ ws) ≡ none → area_at a ws ≡ none
unfolding area_at
area_at-behind a [] ws e = e
area_at-behind a (v ∷ vs) ws e = ground (arith, area_at-behind a vs ws)

area_at_ne :
    (x v : Vma) (vs ws : List Vma)
    → area_at x.address (vs ++ (v ∷ ws)) ≡ none
    → (v.address == x.address) ≡ false
unfolding area_at
area_at_ne x v vs ws e = ground (arith, area_at-behind x.address vs (v ∷ ws) e)

Foreign-nil : (ws : List Vma) → Foreign [] ws
unfolding Foreign area_at
Foreign-nil [] = tt
Foreign-nil (w ∷ ws) = (refl, Foreign-nil ws)

Foreign-cons :
    (x : Vma) (pre ws : List Vma)
    → area_at x.address ws ≡ none
    → Foreign pre ws
    → Foreign (x ∷ pre) ws
unfolding Foreign area_at
Foreign-cons x pre [] e f = tt
Foreign-cons x pre (w ∷ ws) e (h, f) = (ground arith, Foreign-cons x pre ws (ground arith) f)

search-above :
    (addr lo : ℕ) (vs : List Vma) (v : Vma)
    → Ascending lo vs
    → search addr vs ≡ some v
    → lo ≤ v.vm_start
unfolding search Ascending
search-above addr lo [] v s e = absurd (ground arith)
search-above addr lo (w ∷ vs) v (a, (b, s)) e = ground (arith, search-above addr w.vm_end vs v s)

search_ne :
    (addr a : ℕ) (vs : List Vma) (v : Vma)
    → search addr vs ≡ some v
    → area_at a vs ≡ none
    → (v.address == a) ≡ false
unfolding search area_at
search_ne addr a [] v e n = absurd (ground arith)
search_ne addr a (w ∷ vs) v e n = ground (arith, search_ne addr a vs v)

pub search-Place :
    (addr lo : ℕ) (vs : List Vma) (v : Vma)
    → Ascending lo vs
    → Aligned vs
    → Distinct vs
    → search addr vs ≡ some v
    → Place addr vs v
unfolding search Ascending Aligned Distinct from_vma occupied area_at
search-Place addr lo [] v s al d e = absurd (ground arith)
search-Place addr lo (w ∷ vs) v (a, (b, s)) (p, q, al) (n, d) e = elim (Bool-cases (holds addr w)) [
  | inl here ↦
      let w_v : w ≡ v = ground arith in
      subst (λ v. Place addr (w ∷ vs) v) w_v
        (record {
          before = [];
          behind = vs;
          split = refl;
          from = ground arith;
          foreign = Foreign-nil (w ∷ vs);
          ascending = s;
          aligned = al;
          low = p;
          high = q;
          filled = b;
          inside = here;
          below = λ x h. ground arith;
        })
  | inr there ↦
      let r = search-Place addr w.vm_end vs v s al d (ground arith) in
      let whole : area_at w.address (r.before ++ (v ∷ r.behind)) ≡ none =
        ap (area_at w.address) (sym r.split) ∙ n in
      let above = search-above addr w.vm_end vs v s (ground arith) in
      let other = area_at_ne w v r.before r.behind whole in
      record {
        before = w ∷ r.before;
        behind = r.behind;
        split = ap (λ t. w ∷ t) r.split;
        from = rw other r.from;
        foreign =
            Foreign-cons w r.before (v ∷ r.behind)
              (area_at-behind w.address r.before (v ∷ r.behind) whole) r.foreign;
        ascending = r.ascending;
        aligned = r.aligned;
        low = r.low;
        high = r.high;
        filled = r.filled;
        inside = r.inside;
        below = λ x h. ground (arith, r.below x, above);
      }
]

-- The area is cut at its lower end, in place.
pub store_vma-cut :
    (addr lo cut : ℕ) (vs : List Vma) (v : Vma)
    → Ascending lo vs
    → Distinct vs
    → search addr vs ≡ some v
    → v.vm_start < cut
    → cut < v.vm_end
    → Ascending lo (store_vma (record v { vm_start = cut }) vs)
      × ((x : ℕ)
          → occupied x (store_vma (record v { vm_start = cut }) vs)
            ≡ (occupied x vs && not (between v.vm_start cut x)))
unfolding search Ascending Distinct store_vma occupied area_at
store_vma-cut addr lo cut [] v s d e l m = absurd (ground arith)
store_vma-cut addr lo cut (w ∷ vs) v (a, (b, s)) (n, d) e l m = elim (Bool-cases (holds addr w)) [
  | inl here ↦
      let w_v : w ≡ v = ground arith in
      let same : (v.address == w.address) ≡ true = ground arith in
      let starts : w.vm_start ≡ v.vm_start = ap (λ t. t.vm_start) w_v in
      let ends : w.vm_end ≡ v.vm_end = ap (λ t. t.vm_end) w_v in
      let s' : Ascending v.vm_end vs = subst (λ t. Ascending t vs) ends s in
      (
        rw same (omega arith, (omega arith, s')),
        λ x. rw same (ground (arith, occupied-above v.vm_end x vs s', starts, ends)),
      )
  | inr there ↦
      let later : search addr vs ≡ some v = ground arith in
      let other = search_ne addr w.address vs v later n in
      let above = search-above addr w.vm_end vs v s later in
      let (s', f) = store_vma-cut addr w.vm_end cut vs v s d later l m in
      (rw other (a, (b, s')), λ x. rw other (ground (arith, f x, above)))
]
