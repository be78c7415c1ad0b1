-- ===== src/Vma/Unmap/Tests.antt =====
-- A run of mm_unmap (ucore_os/kern/mm/vmm.c) over the end of one area and the start of the next.
use dora_aos2019_homework.Prelude.{◌≡◌, refl, ◌⊎◌, false, true, some, [], ◌∷◌, arith, ok}
use dora_aos2019_homework.Vma.{Vma, Mm, area_at, map_end, round_down, user_access}
use dora_aos2019_homework.Vma.Areas.{Ascending}
use dora_aos2019_homework.Vma.Unmap.{mm_unmap, invalid_range}
use dora_aos2019_homework.Vma.Unmap.Runs.{Distinct, Aligned, Owned}
use dora_aos2019_homework.Vma.Unmap.Effects.{IsSpace}
use dora_aos2019_homework.Vma.Unmap.Result.{UnmapEnds, mm_unmap_lem}

abbrev code : Vma
code = record {
  address = 1;
  vm_start = 0x0100_2000;
  vm_end = 0x0100_4000;
  vm_flags = 5;
  vm_mm_set = true;
}

abbrev heap : Vma
heap = record {
  address = 2;
  vm_start = 0x0100_4000;
  vm_end = 0x0100_8000;
  vm_flags = 3;
  vm_mm_set = true;
}

abbrev two_areas : Mm
two_areas = record {
  mmap_list = code ∷ heap ∷ [];
  mmap_cache = some 1;
  map_count = 2;
  brk_start = 0;
  brk = 0;
}

two_areas-IsSpace : IsSpace two_areas
unfolding Ascending Aligned Distinct Owned area_at
two_areas-IsSpace = record {
  ascending = (omega arith, (omega arith, (omega arith, (omega arith, tt))));
  aligned = (refl, refl, (refl, refl, tt));
  distinct = (refl, (refl, tt));
  owned = (refl, (refl, tt));
}

mm_unmap_lem_example :
    ((user_access (round_down 0x0100_3000) (map_end 0x0100_3000 0x3000) ≡ false)
      × (mm_unmap (some 3) 0x0100_3000 0x3000 two_areas ≡ ok (invalid_range, two_areas, [])))
    ⊎ ((user_access (round_down 0x0100_3000) (map_end 0x0100_3000 0x3000) ≡ true)
        × UnmapEnds
            (some 3)
            (round_down 0x0100_3000)
            (map_end 0x0100_3000 0x3000)
            two_areas
            (mm_unmap (some 3) 0x0100_3000 0x3000 two_areas))
mm_unmap_lem_example = mm_unmap_lem (some 3) 0x0100_3000 0x3000 two_areas two_areas-IsSpace
