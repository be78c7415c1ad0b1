-- ===== src/Vma/UserAccess/Tests.antt =====
-- A run of user_mem_check (ucore_os/kern/mm/vmm.c) on a space with one readable area.
use dora_aos2019_homework.Prelude.{◌≡◌, Bool, true, false, none, some, [], ◌∷◌, arith}
use dora_aos2019_homework.Vma.{Vma, Mm}
use dora_aos2019_homework.Vma.Areas.{Ascending}
use dora_aos2019_homework.Vma.UserAccess.{user_mem_check}
use dora_aos2019_homework.Vma.UserAccess.Covered.{Allowed, user_mem_check-Allowed}

abbrev code : Vma
code = record {
  address = 1;
  vm_start = 0x0100_2000;
  vm_end = 0x0100_4000;
  vm_flags = 5;
  vm_mm_set = true;
}

abbrev space : Mm
space = record { mmap_list = code ∷ []; mmap_cache = none; map_count = 1; brk_start = 0; brk = 0 }

space-Ascending : Ascending 0 (code ∷ [])
unfolding Ascending
space-Ascending = (omega arith, (omega arith, tt))

user_mem_check-Allowed_example :
    (granted : Bool) × ((mm' : Mm) × ((user_mem_check 0x0100_2100 64 false space
          ≡ some (granted, mm'))
        × (granted ≡ true → Allowed false 0x0100_2100 0x0100_2140 (code ∷ []))))
user_mem_check-Allowed_example =
    user_mem_check-Allowed 0x0100_2100 64 false space (omega arith) (omega arith) space-Ascending
