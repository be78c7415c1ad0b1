-- ===== src/Vma/Insert.antt =====
-- Insertion of an area, and mm_map: ucore_os/kern/mm/vmm.c.
use dora_aos2019_homework.Prelude.{
  ℕ, ◌+◌, ◌≤◌, ◌<◌, ◌≡◌, refl, ◌⊎◌, inl, inr, true, false, ◌&&◌, ◌||◌, none, some, List, [], ◌∷◌,
  arith, ltb, leb, if◌then◌else◌, ok, panic, Bool-cases,
}
use dora_aos2019_homework.Vma.{Vma, Mm, holds, insert_after, insert_vma_struct}
use dora_aos2019_homework.Vma.Areas.{Ascending, occupied, clear, clear_above}

-- The area at its place among those that start before it.
unfoldable pub place : Vma → List Vma → List Vma
place vma [] = vma ∷ []
place vma (v ∷ vs) = if ltb vma.vm_start v.vm_start then vma ∷ v ∷ vs else v ∷ place vma vs

pub record Inserted (vma : Vma) (mm mm' : Mm) : Type 0 where
  pub ascending : Ascending 0 mm'.mmap_list
  pub covers :
      (addr : ℕ) → occupied addr mm'.mmap_list ≡ (holds addr vma || occupied addr mm.mmap_list)
  pub counted : mm'.map_count ≡ mm.map_count + 1
  pub cache_same : mm'.mmap_cache ≡ mm.mmap_cache
  pub brk_same : mm'.brk ≡ mm.brk

pub insert_after-some :
    (p vma : Vma) (vs : List Vma)
    → p.vm_start < p.vm_end
    → Ascending p.vm_end vs
    → vma.vm_start < vma.vm_end
    → p.vm_start ≤ vma.vm_start
    → insert_after (some p) vma vs ≡ (
        if leb p.vm_end vma.vm_start && clear vma.vm_start vma.vm_end vs
        then ok (place vma vs)
        else panic)
unfolding insert_after clear Ascending place
insert_after-some p vma [] q s r h = ground arith
insert_after-some p vma (v ∷ vs) q s r h = ground (
  arith,
  insert_after-some v vma vs s.1.0 s.1.1 r,
  clear_above v.vm_end vma.vm_start vma.vm_end vs s.1.1,
)

pub insert_after-none :
    (vma : Vma) (vs : List Vma)
    → Ascending 0 vs
    → vma.vm_start < vma.vm_end
    → insert_after none vma vs
      ≡ (if clear vma.vm_start vma.vm_end vs then ok (place vma vs) else panic)
unfolding insert_after clear Ascending place
insert_after-none vma [] s r = ground arith
insert_after-none vma (v ∷ vs) s r = ground (
  arith,
  insert_after-some v vma vs s.1.0 s.1.1 r,
  clear_above v.vm_end vma.vm_start vma.vm_end vs s.1.1,
)

pub place-Ascending :
    (lo : ℕ) (vma : Vma) (vs : List Vma)
    → Ascending lo vs
    → vma.vm_start < vma.vm_end
    → lo ≤ vma.vm_start
    → clear vma.vm_start vma.vm_end vs ≡ true
    → Ascending lo (place vma vs)
unfolding clear Ascending place
place-Ascending lo vma [] s r h c = ground arith
place-Ascending lo vma (v ∷ vs) s r h c = elim (Bool-cases (ltb vma.vm_start v.vm_start)) [
  | inl e ↦ ground arith
  | inr e ↦ ground (arith, place-Ascending v.vm_end vma vs s.1.1 r)
]

pub place-occupied :
    (addr : ℕ) (vma : Vma) (vs : List Vma)
    → occupied addr (place vma vs) ≡ (holds addr vma || occupied addr vs)
unfolding occupied place
place-occupied addr vma [] = ground arith
place-occupied addr vma (v ∷ vs) = ground (arith, place-occupied addr vma vs)

-- insert_vma_struct, on areas in order and without overlap, inserts a non-empty area that shares no
-- address with them: they stay in order without overlap, cover the addresses of the new area besides
-- their own, and are counted. An area that overlaps another one makes an assert fail.
pub insert_vma_struct_lem :
    (vma : Vma) (mm : Mm)
    → Ascending 0 mm.mmap_list
    → vma.vm_start < vma.vm_end
    → (clear vma.vm_start vma.vm_end mm.mmap_list ≡ false) × (insert_vma_struct vma mm ≡ panic)
      ⊎ (clear vma.vm_start vma.vm_end mm.mmap_list ≡ true)
        × ((mm' : Mm) × ((insert_vma_struct vma mm ≡ ok mm') × Inserted vma mm mm'))
unfolding insert_vma_struct
insert_vma_struct_lem vma mm s r =
    let own : Vma = record vma { vm_mm_set = true } in
    elim (Bool-cases (clear vma.vm_start vma.vm_end mm.mmap_list)) [
      | inl e ↦ inr (
        e,
        (
          record mm { mmap_list = place own mm.mmap_list; map_count = mm.map_count + 1 },
          (
            ground (arith, insert_after-none own mm.mmap_list s r),
            record {
              ascending = place-Ascending 0 own mm.mmap_list s r (omega arith) e;
              covers = λ addr. place-occupied addr own mm.mmap_list;
              counted = refl;
              cache_same = refl;
              brk_same = refl;
            },
          ),
        ),
      )
      | inr e ↦ inl (e, ground (arith, insert_after-none own mm.mmap_list s r))
    ]
