-- ===== src/Vma/Unmap/Pieces.antt =====
-- The second loop of mm_unmap (ucore_os/kern/mm/vmm.c), by the addresses that the areas hold.
use dora_aos2019_homework.Prelude.{
  ℕ, ◌%◌, ◌<◌, ◌≤◌, ◌≡◌, refl, ◌⊎◌, inl, inr, Bool, true, false, ◌&&◌, ◌||◌, not, List, [], ◌∷◌, ok,
  arith, ltb, leb, ◌==◌, Bool-cases,
}
use dora_aos2019_homework.Vma.{Vma, Mm, holds, insert_vma_struct}
use dora_aos2019_homework.Vma.Areas.{Ascending, occupied, clear}
use dora_aos2019_homework.Vma.Insert.{Inserted, insert_vma_struct_lem}
use dora_aos2019_homework.Vma.Unmap.{vma_resize, put_back, free_loop}

-- `start <= x && x < end`
abbrev pub between : ℕ → ℕ → ℕ → Bool
between start end x = leb start x && ltb x end

-- The address is in one of the ranges.
unfoldable pub covered : ℕ → List (ℕ × ℕ) → Bool
covered x [] = false
covered x ((s, e) ∷ rs) = between s e x || covered x rs

-- An area of whole pages that meets the range from `start` to `end` and does not stick out on both sides.
pub record Piece (start end : ℕ) (v : Vma) : Type 0 where
  pub filled : v.vm_start < v.vm_end
  pub low : v.vm_start % 4096 ≡ 0
  pub high : v.vm_end % 4096 ≡ 0
  pub meets : v.vm_start < end
  pub meets' : start < v.vm_end
  pub one_side : (start ≤ v.vm_start) ⊎ (v.vm_end ≤ end)

-- Pieces that share no address.
unfoldable pub Pieces : ℕ → ℕ → List Vma → Type 0
Pieces start end [] = Unit
Pieces start end (v ∷ vs) =
    Piece start end v × ((x : ℕ) → holds x v ≡ true → occupied x vs ≡ false) × Pieces start end vs

pub clear-occupied :
    (lo start end : ℕ) (vs : List Vma)
    → Ascending lo vs
    → start < end
    → ((x : ℕ) → start ≤ x → x < end → occupied x vs ≡ false)
    → clear start end vs ≡ true
unfolding Ascending occupied clear
clear-occupied lo start end [] s l free = refl
clear-occupied lo start end (v ∷ vs) (a, (b, s)) l free =
    let rest = clear-occupied v.vm_end start end vs s l (λ x h g. ground (arith, free x h g)) in
    elim (Bool-cases (leb v.vm_end start || leb end v.vm_start)) [
      | inl apart ↦ ground arith
      | inr meet ↦ elim (Bool-cases (leb start v.vm_start)) [
        | inl before ↦ ground (arith, free v.vm_start)
        | inr inside ↦ ground (arith, free start)
      ]
    ]

-- A clear insertion.
pub inserts :
    (v : Vma) (mm : Mm)
    → Ascending 0 mm.mmap_list
    → v.vm_start < v.vm_end
    → ((x : ℕ) → v.vm_start ≤ x → x < v.vm_end → occupied x mm.mmap_list ≡ false)
    → (mm' : Mm) × (insert_vma_struct v mm ≡ ok mm') × Inserted v mm mm'
inserts v mm s l free =
    let c = clear-occupied 0 v.vm_start v.vm_end mm.mmap_list s l free in
    elim (insert_vma_struct_lem v mm s l) [
      | inl (d, e) ↦ absurd (ground arith)
      | inr (d, (mm', (e, i))) ↦ (mm', e, i)
    ]

pub vma_resize_lem :
    (v : Vma) (start end : ℕ)
    → start % 4096 ≡ 0
    → end % 4096 ≡ 0
    → v.vm_start ≤ start
    → start < end
    → end ≤ v.vm_end
    → vma_resize v start end ≡ ok (record v { vm_start = start; vm_end = end })
unfolding vma_resize
vma_resize_lem v start end a b l m n =
    let pages : (start % 4096 == 0 && end % 4096 == 0) ≡ true = ground arith in
    let fits : (leb v.vm_start start && ltb start end && leb end v.vm_end) ≡ true = ground arith in
    rw (pages, fits) refl

-- What is left of a piece is put back, and the rest of it is unmapped.
pub record PutBack (start end : ℕ) (v : Vma) (mm mm' : Mm) (range : ℕ × ℕ) : Type 0 where
  pub ascending : Ascending 0 mm'.mmap_list
  pub covers :
      (x : ℕ)
      → occupied x mm'.mmap_list
        ≡ (holds x v && not (between start end x) || occupied x mm.mmap_list)
  pub unmapped : (x : ℕ) → covered x (range ∷ []) ≡ (holds x v && between start end x)

put_back_lem :
    (start end : ℕ) (v : Vma) (mm : Mm)
    → start % 4096 ≡ 0
    → end % 4096 ≡ 0
    → Piece start end v
    → Ascending 0 mm.mmap_list
    → ((x : ℕ) → holds x v ≡ true → occupied x mm.mmap_list ≡ false)
    → (mm' : Mm) × (range : ℕ × ℕ) × (put_back start end v mm ≡ ok (mm', range))
      × PutBack start end v mm mm' range
unfolding put_back covered
put_back_lem start end v mm a b p s free = elim (Bool-cases (ltb v.vm_start start)) [
  | inl below ↦
      let w : Vma = record v { vm_end = start } in
      let (mm', e, i) =
        inserts w mm s (ground arith) (λ x h g. free x (ground (arith, p.meets'))) in
      let resized =
        vma_resize_lem v v.vm_start start p.low a (omega arith) (ground arith)
          (omega (arith, p.meets')) in
      (
        mm',
        (start, v.vm_end),
        rw (below, resized, e) refl,
        record {
          ascending = i.ascending;
          covers = λ x. ground (arith, i.covers x, p.one_side, p.meets');
          unmapped = λ x. ground (arith, p.one_side);
        },
      )
  | inr above ↦ elim (Bool-cases (ltb end v.vm_end)) [
    | inl beyond ↦
        let w : Vma = record v { vm_start = end } in
        let resized =
          vma_resize_lem v end v.vm_end b p.high (omega (arith, p.meets)) (ground arith)
            (omega arith) in
        let (mm', e, i) =
          inserts w mm s (ground arith) (λ x h g. free x (ground (arith, p.meets))) in
        (
          mm',
          (v.vm_start, end),
          rw (above, beyond, resized, e) refl,
          record {
            ascending = i.ascending;
            covers = λ x. ground (arith, i.covers x, p.meets);
            unmapped = λ x. ground arith;
          },
        )
    | inr inside ↦ (
      mm,
      (v.vm_start, v.vm_end),
      ground arith,
      record { ascending = s; covers = λ x. ground arith; unmapped = λ x. ground arith },
    )
  ]
]

-- The loop puts back what lies off the range, and unmaps what lies in it.
pub record Freed (start end : ℕ) (vs : List Vma) (mm mm' : Mm) (ranges : List (ℕ × ℕ))
    : Type 0 where
  pub ascending : Ascending 0 mm'.mmap_list
  pub covers :
      (x : ℕ)
      → occupied x mm'.mmap_list
        ≡ (occupied x vs && not (between start end x) || occupied x mm.mmap_list)
  pub unmapped : (x : ℕ) → covered x ranges ≡ (occupied x vs && between start end x)

pub free_loop_lem :
    (start end : ℕ) (vs : List Vma) (mm : Mm)
    → start % 4096 ≡ 0
    → end % 4096 ≡ 0
    → Pieces start end vs
    → Ascending 0 mm.mmap_list
    → ((x : ℕ) → occupied x vs ≡ true → occupied x mm.mmap_list ≡ false)
    → (mm' : Mm) × (ranges : List (ℕ × ℕ)) × (free_loop start end vs mm ≡ ok (mm', ranges))
      × Freed start end vs mm mm' ranges
unfolding free_loop Pieces occupied covered
free_loop_lem start end [] mm a b ps s free =
    (mm, [], refl, record { ascending = s; covers = λ x. refl; unmapped = λ x. refl })
free_loop_lem start end (v ∷ vs) mm a b (p, apart, ps) s free =
    let (mm', range, e, w) = put_back_lem start end v mm a b p s (λ x h. free x (ground arith)) in
    let free' : (x : ℕ) → occupied x vs ≡ true → occupied x mm'.mmap_list ≡ false =
      λ x h. ground (arith, w.covers x, apart x, free x) in
    let (mm'', ranges, e', f) = free_loop_lem start end vs mm' a b ps w.ascending free' in
    (
      mm'',
      range ∷ ranges,
      rw (e, e') refl,
      record {
        ascending = f.ascending;
        covers = λ x. ground (arith, f.covers x, w.covers x);
        unmapped = λ x. ground (arith, f.unmapped x, w.unmapped x);
      },
    )
