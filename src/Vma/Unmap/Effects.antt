-- ===== src/Vma/Unmap/Effects.antt =====
-- The two ways in which mm_unmap of ucore_os/kern/mm/vmm.c takes a range from areas.
use dora_aos2019_homework.Prelude.{
  ℕ, ◌%◌, ◌<◌, ◌≤◌, ◌≡◌, refl, sym, subst, ◌∙◌, ap, ◌⊎◌, inl, inr, Bool, true, false, ◌&&◌, ◌||◌,
  not, some, List, [], ◌∷◌, ◌++◌, ok, arith, ltb, Bool-cases,
}
use dora_aos2019_homework.Prelude.Int.{pos}
use dora_aos2019_homework.Vma.{Vma, Mm, holds, search}
use dora_aos2019_homework.Vma.Areas.{Ascending, occupied}
use dora_aos2019_homework.Vma.Unmap.{store_vma, punch, unmap_areas}
use dora_aos2019_homework.Vma.Unmap.Pieces.{
  between, covered, Piece, Pieces, inserts, vma_resize_lem, free_loop_lem,
}
use dora_aos2019_homework.Vma.Unmap.Runs.{
  Distinct, Aligned, Owned, Owned-append, gather, after, unlink_loop_lem, occupied-above,
  occupied-append, gather-Run, left-Ascending,
}
use dora_aos2019_homework.Vma.Unmap.Places.{Place, store_vma-cut}

-- The areas are in order, of whole pages, at addresses of their own, and belong to the address space.
pub record IsSpace (mm : Mm) : Type 0 where
  pub ascending : Ascending 0 mm.mmap_list
  pub aligned : Aligned mm.mmap_list
  pub distinct : Distinct mm.mmap_list
  pub owned : Owned mm.mmap_list

-- The areas hold what they held off the range, and the ranges are what they held in it.
pub record Unmapped (start end : ℕ) (mm mm' : Mm) (ranges : List (ℕ × ℕ)) : Type 0 where
  pub ascending : Ascending 0 mm'.mmap_list
  pub covers :
      (x : ℕ) → occupied x mm'.mmap_list ≡ (occupied x mm.mmap_list && not (between start end x))
  pub unmapped : (x : ℕ) → covered x ranges ≡ (occupied x mm.mmap_list && between start end x)

-- One area that sticks out of the range on both sides.
pub record Within (start end : ℕ) (v : Vma) : Type 0 where
  pub starts : v.vm_start < start
  pub ends : end < v.vm_end

pub occupied-Place :
    (addr x : ℕ) (vs : List Vma) (v : Vma)
    → (p : Place addr vs v)
    → occupied x vs ≡ (occupied x p.before || (holds x v || occupied x p.behind))
unfolding occupied
occupied-Place addr x vs v p = ap (occupied x) p.split ∙ occupied-append x p.before (v ∷ p.behind)

-- At one address: `pre` before the area, `fs` taken off, `rest` left behind, `b` in the range.
kept_point :
    (pre fs rest area behind b m1 m now : Bool)
    → now ≡ (fs && not b || m1)
    → m1 ≡ (pre || rest)
    → (fs || rest) ≡ (behind || area)
    → m ≡ (pre || (area || behind))
    → (pre ≡ true → b ≡ false)
    → (rest ≡ true → b ≡ false)
    → now ≡ (m && not b)
kept_point pre fs rest area behind b m1 m now e f g h k l = ground arith

freed_point :
    (pre fs rest area behind b m now : Bool)
    → now ≡ (fs && b)
    → (fs || rest) ≡ (behind || area)
    → m ≡ (pre || (area || behind))
    → (pre ≡ true → b ≡ false)
    → (rest ≡ true → b ≡ false)
    → now ≡ (m && b)
freed_point pre fs rest area behind b m now e g h k l = ground arith

off_before :
    (start end x : ℕ) (v : Vma)
    → holds start v ≡ true
    → x < v.vm_start
    → between start end x ≡ false
off_before start end x v i l = ground arith

off_behind : (start end x : ℕ) → end ≤ x → between start end x ≡ false
off_behind start end x l = ground arith

or_false : (b : Bool) → (b || false) ≡ b
or_false b = ground arith

pub unmap_areas_lem :
    (start end : ℕ) (v : Vma) (mm : Mm)
    → IsSpace mm
    → start % 4096 ≡ 0
    → end % 4096 ≡ 0
    → start < end
    → Place start mm.mmap_list v
    → (v.vm_start < start → v.vm_end ≤ end)
    → (mm' : Mm) × (ranges : List (ℕ × ℕ)) × (unmap_areas start end v mm ≡ ok (pos 0, mm', ranges))
      × Unmapped start end mm mm' ranges
unfolding unmap_areas gather after Pieces occupied
unmap_areas_lem start end v mm w a b l p side =
    let i = p.inside in
    let taken : ltb v.vm_start end ≡ true = ground arith in
    let owned = Owned-append p.before (v ∷ p.behind) (subst Owned p.split w.owned) in
    let (mm1, run, list) =
      unlink_loop_lem end p.before (v ∷ p.behind) mm [] p.split p.foreign owned in
    let one : (start ≤ v.vm_start) ⊎ (v.vm_end ≤ end) = elim (Bool-cases (ltb v.vm_start start)) [
      | inl less ↦ inr (side (ground arith))
      | inr more ↦ inl (ground arith)
    ] in
    let piece : Piece start end v = record {
      filled = p.filled;
      low = p.low;
      high = p.high;
      meets = ground arith;
      meets' = ground arith;
      one_side = one;
    } in
    let r =
      gather-Run start end v.vm_end p.behind (v ∷ []) p.ascending p.aligned (ground arith)
        (piece, λ x h. refl, tt) (λ x h. ground arith) in
    let fs = gather end p.behind (v ∷ []) in
    let rest = after end p.behind in
    let free : gather end (v ∷ p.behind) [] ≡ fs = rw taken refl in
    let left : mm1.mmap_list ≡ p.before ++ rest = list ∙ rw taken refl in
    let held : (x : ℕ) → occupied x mm1.mmap_list ≡ (occupied x p.before || occupied x rest) =
      λ x. ap (occupied x) left ∙ occupied-append x p.before rest in
    let sorted : Ascending 0 (p.before ++ after end (v ∷ p.behind)) =
      left-Ascending end 0 p.before (v ∷ p.behind)
        (subst (λ t. Ascending 0 t) p.split w.ascending) in
    let sorted' : Ascending 0 mm1.mmap_list = subst (λ t. Ascending 0 t) (sym list) sorted in
    let high : (x : ℕ) → occupied x fs ≡ true → v.vm_start ≤ x =
      λ x h. ground (arith, r.whole x, occupied-above v.vm_end x p.behind p.ascending, p.filled) in
    let apart : (x : ℕ) → occupied x fs ≡ true → occupied x mm1.mmap_list ≡ false =
      λ x h. ground (arith, held x, r.apart x, high x, p.below x) in
    let (mm2, ranges, e, f) = free_loop_lem start end fs mm1 a b r.pieces sorted' apart in
    let b_of = between start end in
    let area : ℕ → Bool = λ x. holds x v in
    let before : (x : ℕ) → occupied x p.before ≡ true → b_of x ≡ false =
      λ x h. off_before start end x v i (p.below x h) in
    let behind : (x : ℕ) → occupied x rest ≡ true → b_of x ≡ false =
      λ x h. off_behind start end x (r.beyond x h) in
    let whole : (x : ℕ) → (occupied x fs || occupied x rest) ≡ (occupied x p.behind || area x) =
      λ x. r.whole x ∙ ap (λ t. occupied x p.behind || t) (or_false (area x)) in
    (
      mm2,
      ranges,
      rw (p.from, run, free, e) refl,
      record {
        ascending = f.ascending;
        covers = λ x.
            kept_point (occupied x p.before) (occupied x fs) (occupied x rest) (area x)
              (occupied x p.behind) (b_of x) (occupied x mm1.mmap_list) (occupied x mm.mmap_list)
              (occupied x mm2.mmap_list) (f.covers x) (held x) (whole x)
              (occupied-Place start x mm.mmap_list v p) (before x) (behind x);
        unmapped = λ x.
            freed_point (occupied x p.before) (occupied x fs) (occupied x rest) (area x)
              (occupied x p.behind) (b_of x) (occupied x mm.mmap_list) (covered x ranges)
              (f.unmapped x) (whole x) (occupied-Place start x mm.mmap_list v p) (before x)
              (behind x);
      },
    )

hole_kept :
    (low start end high x : ℕ) (m m1 now : Bool)
    → now ≡ (between low start x || m1)
    → m1 ≡ (m && not (between low end x))
    → (between low high x ≡ true → m ≡ true)
    → low < start
    → start < end
    → end < high
    → now ≡ (m && not (between start end x))
hole_kept low start end high x m m1 now e f h a b c = ground arith

hole_freed :
    (low start end high x : ℕ) (m : Bool)
    → (between low high x ≡ true → m ≡ true)
    → low < start
    → end < high
    → (between start end x || false) ≡ (m && between start end x)
hole_freed low start end high x m h a c = ground arith

pub punch_lem :
    (a start end : ℕ) (v : Vma) (mm : Mm)
    → IsSpace mm
    → end % 4096 ≡ 0
    → start < end
    → search start mm.mmap_list ≡ some v
    → Place start mm.mmap_list v
    → Within start end v
    → (mm' : Mm) × (ranges : List (ℕ × ℕ)) × (punch (some a) start end v mm
        ≡ ok (pos 0, mm', ranges))
      × Unmapped start end mm mm' ranges
unfolding punch covered
punch_lem a start end v mm w b l e p o =
    let resized =
      vma_resize_lem v end v.vm_end b p.high (omega (arith, l, o.starts)) o.ends (omega arith) in
    let cut : Vma = record v { vm_start = end } in
    let mm1 : Mm = record mm { mmap_list = store_vma cut mm.mmap_list } in
    let (s, f) =
      store_vma-cut start 0 end mm.mmap_list v w.ascending w.distinct e (omega (arith, l, o.starts))
        o.ends in
    let new : Vma = record {
      address = a;
      vm_start = v.vm_start;
      vm_end = start;
      vm_flags = v.vm_flags;
      vm_mm_set = false;
    } in
    let (mm2, g, i) = inserts new mm1 s o.starts (λ x h k. ground (arith, f x)) in
    let held : (x : ℕ) → between v.vm_start v.vm_end x ≡ true → occupied x mm.mmap_list ≡ true =
      λ x h. ground (arith, occupied-Place start x mm.mmap_list v p) in
    (
      mm2,
      (start, end) ∷ [],
      rw (resized, g) refl,
      record {
        ascending = i.ascending;
        covers = λ x.
            hole_kept v.vm_start start end v.vm_end x (occupied x mm.mmap_list)
              (occupied x mm1.mmap_list) (occupied x mm2.mmap_list) (i.covers x) (f x) (held x)
              o.starts l o.ends;
        unmapped = λ x.
            hole_freed v.vm_start start end v.vm_end x (occupied x mm.mmap_list) (held x) o.starts
              o.ends;
      },
    )
