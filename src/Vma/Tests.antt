-- ===== src/Vma/Tests.antt =====
-- Runs of ucore_os/kern/mm/vmm.c on a space with one area.
use dora_aos2019_homework.Prelude.{◌≡◌, refl, ◌⊎◌, true, false, some, [], ◌∷◌, arith, ok, panic}
use dora_aos2019_homework.Vma.{
  Vma, Mm, search, remember, find_vma, insert_vma_struct, mm_map, mapped,
}
use dora_aos2019_homework.Vma.Areas.{Ascending, occupied, clear}
use dora_aos2019_homework.Vma.Insert.{Inserted, insert_vma_struct_lem}
use dora_aos2019_homework.Vma.Lookup.{find_vma_lem, mm_map_inserts}

abbrev text : Vma
text = record {
  address = 1;
  vm_start = 0x0100_2000;
  vm_end = 0x0100_4000;
  vm_flags = 5;
  vm_mm_set = true;
}

abbrev one_area : Mm
one_area = record {
  mmap_list = text ∷ [];
  mmap_cache = some 1;
  map_count = 1;
  brk_start = 0;
  brk = 0;
}

one_area-Ascending : Ascending 0 (text ∷ [])
unfolding Ascending
one_area-Ascending = (omega arith, (omega arith, tt))

abbrev stack : Vma
stack = record {
  address = 2;
  vm_start = 0x0200_0000;
  vm_end = 0x0200_1000;
  vm_flags = 3;
  vm_mm_set = false;
}

insert_vma_struct_lem_example :
    (clear 0x0200_0000 0x0200_1000 (text ∷ []) ≡ false) × (insert_vma_struct stack one_area ≡ panic)
    ⊎ (clear 0x0200_0000 0x0200_1000 (text ∷ []) ≡ true)
      × ((mm' : Mm) × ((insert_vma_struct stack one_area ≡ ok mm') × Inserted stack one_area mm'))
insert_vma_struct_lem_example =
    insert_vma_struct_lem stack one_area one_area-Ascending (omega arith)

find_vma_lem_example :
    find_vma 0x0100_3000 one_area
    ≡ (search 0x0100_3000 (text ∷ []), remember one_area (search 0x0100_3000 (text ∷ [])))
find_vma_lem_example = find_vma_lem 0x0100_3000 one_area one_area-Ascending

text_taken : occupied 0x0100_2000 (text ∷ []) ≡ true
unfolding occupied
text_taken = refl

gap_free : occupied 0x0100_1000 (text ∷ []) ≡ false
unfolding occupied
gap_free = refl

-- The range begins in the page before the area and runs into it.
mm_map_inserts_example :
    (clear 0x0100_1000 0x0100_3000 (text ∷ []) ≡ false)
      × (mm_map (some 2) 0x0100_1000 0x2000 5 one_area ≡ panic)
    ⊎ (clear 0x0100_1000 0x0100_3000 (text ∷ []) ≡ true)
      × ((mm' : Mm) × ((mm_map (some 2) 0x0100_1000 0x2000 5 one_area ≡ ok (mapped, mm'))
            × Inserted
                (record {
                  address = 2;
                  vm_start = 0x0100_1000;
                  vm_end = 0x0100_3000;
                  vm_flags = 5;
                  vm_mm_set = false;
                })
                one_area
                mm'))
mm_map_inserts_example =
    mm_map_inserts 2 0x0100_1000 0x2000 5 one_area one_area-Ascending refl gap_free
