-- ===== src/PageAlloc/Tests.antt =====
-- A run of ucore_os/kern/mm/default_pmm.c with one free block of five pages.
use dora_aos2019_homework.Prelude.{
  ℕ, ◌≡◌, refl, false, Option, [], ◌∷◌, arith, ok, ◌==◌, if◌then◌else◌,
}
use dora_aos2019_homework.PageAlloc.{FreeArea, default_alloc_pages, default_free_pages}
use dora_aos2019_homework.PageAlloc.Blocks.{IsValid}
use dora_aos2019_homework.PageAlloc.Free.{InUse, Clear, Freed, default_free_pages_lem}
use dora_aos2019_homework.PageAlloc.Alloc.{Allocated, default_alloc_pages_lem}

abbrev one_block : FreeArea
one_block = record {
  pages = λ p. record {
    ref = 0;
    reserved = false;
    is_head = p == 3;
    property = if p == 3 then 5 else 0;
  };
  free_list = 3 ∷ [];
  nr_free = 5;
}

one_block-IsValid : IsValid 10 one_block
one_block-IsValid = record {
  bound = omega arith;
  chain = (omega arith, omega arith, refl, omega arith);
  count = refl;
}

default_alloc_pages_lem_example :
    (r : Option ℕ × FreeArea) × (default_alloc_pages 2 one_block ≡ ok r)
    × Allocated 10 2 one_block r
default_alloc_pages_lem_example = default_alloc_pages_lem 10 2 one_block-IsValid (omega arith)

used_pages : InUse 8 2 one_block.pages
used_pages q l h = ground arith

not_free : Clear 8 2 one_block.pages one_block.free_list
not_free q h = ground arith

default_free_pages_lem_example :
    (a' : FreeArea) × ((default_free_pages 8 2 one_block ≡ ok a') × Freed 10 8 2 one_block a')
default_free_pages_lem_example =
    default_free_pages_lem 10 8 2 one_block-IsValid (omega arith) (omega arith) used_pages not_free
