-- ===== src/Vma.antt =====
-- Virtual memory areas of a process: ucore_os/kern/mm/vmm.c. A `struct vma_struct *` is an address; the
-- list is sorted by start address. Page tables are not part of this state.
pub mod Areas
pub mod Lookup
pub mod UserAccess
pub mod Insert
pub mod Unmap
mod Tests
use dora_aos2019_homework.Prelude.{
  ℕ, ◌+◌, ◌-◌, ◌%◌, ◌^◌, Bool, true, false, ◌&&◌, not, Option, none, some, List, [], ◌∷◌, Outcome,
  ok, ◌>>=◌, ◌>>◌, assert, ltb, leb, ◌==◌, if◌then◌else◌,
}

-- `vm_mm_set` says that `vm_mm` points to the address space at hand.
pub record Vma : Type 0 where
  pub address : ℕ
  pub vm_start : ℕ
  pub vm_end : ℕ
  pub vm_flags : ℕ
  pub vm_mm_set : Bool

-- `mmap_cache` is the address of the area found last.
pub record Mm : Type 0 where
  pub mmap_list : List Vma
  pub mmap_cache : Option ℕ
  pub map_count : ℕ
  pub brk_start : ℕ
  pub brk : ℕ

-- `mm_create`, once its memory is allocated.
abbrev pub mm_create : Mm
mm_create = record { mmap_list = []; mmap_cache = none; map_count = 0; brk_start = 0; brk = 0 }

-- The area at an address, `none` if it is on no list (a dangling pointer).
unfoldable pub area_at : ℕ → List Vma → Option Vma
area_at a [] = none
area_at a (v ∷ vs) = if a == v.address then some v else area_at a vs

abbrev pub holds : ℕ → Vma → Bool
holds addr v = leb v.vm_start addr && ltb addr v.vm_end

-- The loop of `find_vma`.
unfoldable pub search : ℕ → List Vma → Option Vma
search addr [] = none
search addr (v ∷ vs) = let rest = search addr vs in if holds addr v then some v else rest

abbrev pub bind_vma : Option ℕ → (ℕ → Option Vma) → Option Vma
bind_vma none f = none
bind_vma (some a) f = f a

-- The area that the cache points to.
abbrev pub cached : Mm → Option Vma
cached mm = bind_vma mm.mmap_cache (λ a. area_at a mm.mmap_list)

abbrev pub remember : Mm → Option Vma → Mm
remember mm none = mm
remember mm (some v) = record mm { mmap_cache = some v.address }

unfoldable pub cache_or_search : ℕ → Option Vma → List Vma → Option Vma
unfolding search
cache_or_search addr none vs = search addr vs
cache_or_search addr (some v) vs = if holds addr v then some v else search addr vs

unfoldable pub find_vma : ℕ → Mm → Option Vma × Mm
unfolding cache_or_search
find_vma addr mm =
    let found = cache_or_search addr (cached mm) mm.mmap_list in (found, remember mm found)

unfoldable pub find_vma_intersection : ℕ → ℕ → Mm → Option Vma × Mm
unfolding find_vma
find_vma_intersection start end mm =
    let (found, mm') = find_vma start mm in
    (elim found [ none ↦ none | some v ↦ if leb end v.vm_start then none else some v ], mm')

abbrev pub check_vma_overlap : Vma → Vma → Outcome (Unit {0})
check_vma_overlap prev next = do
  assert (ltb prev.vm_start prev.vm_end)
  assert (leb prev.vm_end next.vm_start)
  assert (ltb next.vm_start next.vm_end)

abbrev pub check_next : Vma → List Vma → Outcome (Unit {0})
check_next vma [] = ok tt
check_next vma (n ∷ ns) = check_vma_overlap vma n

abbrev pub check_prev : Option Vma → Vma → Outcome (Unit {0})
check_prev none vma = ok tt
check_prev (some p) vma = check_vma_overlap p vma

-- The place behind the last area that does not start after `vma`, with the checks of both
-- neighbours; `prev` is the area before the list.
unfoldable pub insert_after : Option Vma → Vma → List Vma → Outcome (List Vma)
insert_after prev vma [] = check_prev prev vma >> ok (vma ∷ [])
insert_after prev vma (v ∷ vs) =
    let here = check_prev prev vma >> (check_next vma (v ∷ vs) >> ok (vma ∷ v ∷ vs)) in
    let further = insert_after (some v) vma vs >>= (λ rest. ok (v ∷ rest)) in
    if ltb vma.vm_start v.vm_start then here else further

unfoldable pub insert_vma_struct : Vma → Mm → Outcome Mm
unfolding insert_after
insert_vma_struct vma mm = do
  assert (ltb vma.vm_start vma.vm_end)
  vs ← insert_after none (record vma { vm_mm_set = true }) mm.mmap_list
  ok (record mm { mmap_list = vs; map_count = mm.map_count + 1 })

-- `ROUNDDOWN(a, PGSIZE)` and `ROUNDUP(a, PGSIZE)` on 32-bit addresses.
abbrev pub round_down : ℕ → ℕ
round_down a = a - a % 4096

abbrev pub round_up : ℕ → ℕ
round_up a = round_down ((a + 4095) % 2 ^ 32)

-- `ROUNDUP(addr + len, PGSIZE)`
abbrev pub map_end : ℕ → ℕ → ℕ
map_end addr len = round_up ((addr + len) % 2 ^ 32)

-- `USER_ACCESS(start, end)`
abbrev pub user_access : ℕ → ℕ → Bool
user_access start end = leb 0x0020_0000 start && ltb start end && leb end 0xb000_0000

pub data MapResult : Type 0 where
  mapped e_inval e_no_mem : MapResult

abbrev pub starts_below : ℕ → Option Vma → Bool
starts_below end none = false
starts_below end (some v) = ltb v.vm_start end

abbrev pub create_and_insert : Option ℕ → ℕ → ℕ → ℕ → Mm → Outcome (MapResult × Mm)
create_and_insert none start end vm_flags mm = ok (e_no_mem, mm)
create_and_insert (some a) start end vm_flags mm =
    insert_vma_struct
      (record {
        address = a;
        vm_start = start;
        vm_end = end;
        vm_flags = vm_flags;
        vm_mm_set = false;
      })
      mm
    >>= (λ mm'. ok (mapped, mm'))

abbrev pub map_found : Option ℕ → ℕ → ℕ → ℕ → Option Vma × Mm → Outcome (MapResult × Mm)
map_found fresh start end vm_flags (found, mm) =
    if starts_below end found
    then ok (e_inval, mm)
    else create_and_insert fresh start end vm_flags mm

-- `mm_map` once the range is known to be one of user memory.
unfoldable pub map_range : Option ℕ → ℕ → ℕ → ℕ → Mm → Outcome (MapResult × Mm)
map_range fresh start end vm_flags mm = map_found fresh start end vm_flags (find_vma start mm)

-- `fresh` is the address of the new area, `none` when kmalloc has no memory.
unfoldable pub mm_map : Option ℕ → ℕ → ℕ → ℕ → Mm → Outcome (MapResult × Mm)
mm_map fresh addr len vm_flags mm =
    if not (user_access (round_down addr) (map_end addr len))
    then ok (e_inval, mm)
    else map_range fresh (round_down addr) (map_end addr len) vm_flags mm
