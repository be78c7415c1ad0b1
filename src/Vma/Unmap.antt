-- ===== src/Vma/Unmap.antt =====
-- mm_unmap of ucore_os/kern/mm/vmm.c. Page tables are not modelled: the ranges that unmap_range is
-- called with are listed.
pub mod Pieces
pub mod Runs
pub mod Places
pub mod Effects
pub mod Result
mod Tests
use dora_aos2019_homework.Prelude.{
  ℕ, false, ◌-◌, ◌%◌, ◌&&◌, Option, none, some, List, [], ◌∷◌, Outcome, ok, ◌>>=◌, ◌>>◌, assert,
  ltb, leb, ◌==◌, if◌then◌else◌,
}
use dora_aos2019_homework.Prelude.Int.{ℤ, pos, negsuc}
use dora_aos2019_homework.Vma.{
  Vma, Mm, find_vma, insert_vma_struct, round_down, map_end, user_access,
}

-- `-E_INVAL` and `-E_NO_MEM`
abbrev pub invalid_range : ℤ
invalid_range = negsuc 2

abbrev pub out_of_memory : ℤ
out_of_memory = negsuc 3

-- `list_del(&(vma->list_link))`
unfoldable pub unlink : ℕ → List Vma → List Vma
unlink a [] = []
unlink a (v ∷ vs) = let rest = v ∷ unlink a vs in if a == v.address then vs else rest

abbrev pub drop_cache : ℕ → Option ℕ → Option ℕ
drop_cache a none = none
drop_cache a (some c) = if a == c then none else some c

-- `assert(mm == vma->vm_mm)` comes first.
unfoldable pub remove_vma_struct : Vma → Mm → Outcome Mm
remove_vma_struct v mm =
    assert v.vm_mm_set
    >> ok (record mm {
      mmap_list = unlink v.address mm.mmap_list;
      mmap_cache = drop_cache v.address mm.mmap_cache;
      map_count = mm.map_count - 1;
    })

unfoldable pub vma_resize : Vma → ℕ → ℕ → Outcome Vma
vma_resize v start end =
    assert (start % 4096 == 0 && end % 4096 == 0)
    >> (assert (leb v.vm_start start && ltb start end && leb end v.vm_end)
        >> ok (record v { vm_start = start; vm_end = end }))

-- An area that is on the list is written to.
unfoldable pub store_vma : Vma → List Vma → List Vma
store_vma w [] = []
store_vma w (v ∷ vs) =
    let rest = v ∷ store_vma w vs in if w.address == v.address then w ∷ vs else rest

-- The list from an area on.
unfoldable pub from_vma : ℕ → List Vma → List Vma
from_vma a [] = []
from_vma a (v ∷ vs) = let rest = from_vma a vs in if a == v.address then v ∷ vs else rest

-- The first loop, on the list from `vma` on: the areas that start below `end` go to `free_list`.
unfoldable pub unlink_loop : ℕ → List Vma → Mm → List Vma → Outcome (Mm × List Vma)
unlink_loop end [] mm free_list = ok (mm, free_list)
unlink_loop end (v ∷ vs) mm free_list =
    let rest = remove_vma_struct v mm >>= (λ mm'. unlink_loop end vs mm' (v ∷ free_list)) in
    if ltb v.vm_start end then rest else ok (mm, free_list)

-- One round of the second loop: what is left of the area goes back on the list. The range that
-- unmap_range is called with goes out.
unfoldable pub put_back : ℕ → ℕ → Vma → Mm → Outcome (Mm × (ℕ × ℕ))
put_back start end v mm =
    if ltb v.vm_start start
    then vma_resize v v.vm_start start
      >>= (λ w. insert_vma_struct w mm >>= (λ mm'. ok (mm', (start, v.vm_end))))
    else (if ltb end v.vm_end
        then vma_resize v end v.vm_end
          >>= (λ w. insert_vma_struct w mm >>= (λ mm'. ok (mm', (v.vm_start, end))))
        else ok (mm, (v.vm_start, v.vm_end)))

-- The second loop.
unfoldable pub free_loop : ℕ → ℕ → List Vma → Mm → Outcome (Mm × List (ℕ × ℕ))
free_loop start end [] mm = ok (mm, [])
free_loop start end (v ∷ vs) mm = put_back start end v mm >>= (λ (mm', range).
    free_loop start end vs mm' >>= (λ (mm'', ranges). ok (mm'', range ∷ ranges)))

-- A hole in the middle of the area; `fresh` is the address of the new one, `none` when there is no memory.
unfoldable pub punch : Option ℕ → ℕ → ℕ → Vma → Mm → Outcome (ℤ × Mm × List (ℕ × ℕ))
punch none start end v mm = ok (out_of_memory, mm, [])
punch (some a) start end v mm = vma_resize v end v.vm_end >>= (λ w.
    insert_vma_struct
      (record {
        address = a;
        vm_start = v.vm_start;
        vm_end = start;
        vm_flags = v.vm_flags;
        vm_mm_set = false;
      })
      (record mm { mmap_list = store_vma w mm.mmap_list })
    >>= (λ mm'. ok (pos 0, mm', (start, end) ∷ [])))

abbrev pub returns_0 : Mm × List (ℕ × ℕ) → Outcome (ℤ × Mm × List (ℕ × ℕ))
returns_0 (mm, ranges) = ok (pos 0, mm, ranges)

unfoldable pub unmap_areas : ℕ → ℕ → Vma → Mm → Outcome (ℤ × Mm × List (ℕ × ℕ))
unmap_areas start end v mm =
    unlink_loop end (from_vma v.address mm.mmap_list) mm []
    >>= (λ (mm', free_list). free_loop start end free_list mm' >>= returns_0)

-- `find_vma` has returned an area, or none.
unfoldable pub unmap_found : Option ℕ → ℕ → ℕ → Option Vma × Mm → Outcome (ℤ × Mm × List (ℕ × ℕ))
unmap_found fresh start end (none, mm) = ok (pos 0, mm, [])
unmap_found fresh start end (some v, mm) =
    if leb end v.vm_start
    then ok (pos 0, mm, [])
    else (if ltb v.vm_start start && ltb end v.vm_end
        then punch fresh start end v mm
        else unmap_areas start end v mm)

unfoldable pub mm_unmap : Option ℕ → ℕ → ℕ → Mm → Outcome (ℤ × Mm × List (ℕ × ℕ))
mm_unmap fresh addr len mm =
    if user_access (round_down addr) (map_end addr len)
    then unmap_found fresh (round_down addr) (map_end addr len) (find_vma (round_down addr) mm)
    else ok (invalid_range, mm, [])
