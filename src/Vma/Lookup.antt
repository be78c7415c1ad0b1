-- ===== src/Vma/Lookup.antt =====
-- The lookups by address and mm_map: ucore_os/kern/mm/vmm.c.
use dora_aos2019_homework.Prelude.{
  ℕ, ◌<◌, ◌≡◌, refl, ◌⊎◌, inl, inr, Bool, true, false, Option, none, some, List, arith, ltb,
  if◌then◌else◌, Outcome, ok, panic, ◌>>=◌, Bool-cases, Option-cases, ap, ◌∙◌,
}
use dora_aos2019_homework.Vma.{
  Vma, Mm, holds, area_at, search, map_end, map_range, map_found, create_and_insert, bind_vma,
  remember, cache_or_search, find_vma, mm_map, MapResult, mapped, e_inval, user_access, map_end,
  round_down,
}
use dora_aos2019_homework.Vma.Areas.{
  Ascending, occupied, clear, search-area_at, search-occupied, search-none,
}
use dora_aos2019_homework.Vma.Insert.{insert_vma_struct_lem, Inserted}

cache_or_search_lem :
    (addr a : ℕ) (vs : List Vma)
    → Ascending 0 vs
    → cache_or_search addr (area_at a vs) vs ≡ search addr vs
unfolding cache_or_search
cache_or_search_lem addr a vs s = elim (Option-cases (area_at a vs)) [
  | inl e ↦ ground arith
  | inr (v, e) ↦ ground (arith, search-area_at 0 a addr vs v s e)
]

cached_lem :
    (addr : ℕ) (c : Option ℕ) (vs : List Vma)
    → Ascending 0 vs
    → cache_or_search addr (bind_vma c (λ a. area_at a vs)) vs ≡ search addr vs
unfolding cache_or_search
cached_lem addr none vs s = refl
cached_lem addr (some a) vs s = cache_or_search_lem addr a vs s

-- With the areas in order and without overlap, the cached lookup of find_vma returns what the search
-- of the list returns, and changes nothing but the cache.
pub find_vma_lem :
    (addr : ℕ) (mm : Mm)
    → Ascending 0 mm.mmap_list
    → find_vma addr mm ≡ (search addr mm.mmap_list, remember mm (search addr mm.mmap_list))
unfolding find_vma
find_vma_lem addr mm s = ap (λ f. (f, remember mm f)) (cached_lem addr mm.mmap_cache mm.mmap_list s)

pub occupied-search : (addr : ℕ) (vs : List Vma) → occupied addr vs ≡ false → search addr vs ≡ none
occupied-search addr vs o = elim (Option-cases (search addr vs)) [
  | inl e ↦ e
  | inr (v, e) ↦ ground (arith, search-occupied addr vs v e)
]

pub occupied-some :
    (addr : ℕ) (vs : List Vma)
    → occupied addr vs ≡ true
    → (v : Vma) × ((search addr vs ≡ some v) × (holds addr v ≡ true))
occupied-some addr vs o = elim (Option-cases (search addr vs)) [
  | inl e ↦ ground (arith, search-none addr vs e)
  | inr (v, e) ↦ (v, (e, (search-occupied addr vs v e).0))
]

-- The areas are as they were.
pub record SameAreas (mm mm' : Mm) : Type 0 where
  pub list_same : mm'.mmap_list ≡ mm.mmap_list
  pub count_same : mm'.map_count ≡ mm.map_count

map_range_lem :
    (fresh : Option ℕ) (start end vm_flags : ℕ) (mm : Mm)
    → Ascending 0 mm.mmap_list
    → map_range fresh start end vm_flags mm
      ≡ map_found fresh start end vm_flags
          (search start mm.mmap_list, remember mm (search start mm.mmap_list))
unfolding map_range
map_range_lem fresh start end vm_flags mm s =
    ap (map_found fresh start end vm_flags) (find_vma_lem start mm s)

map_range_none :
    (fresh : Option ℕ) (start end vm_flags : ℕ) (mm : Mm)
    → Ascending 0 mm.mmap_list
    → occupied start mm.mmap_list ≡ false
    → map_range fresh start end vm_flags mm ≡ create_and_insert fresh start end vm_flags mm
map_range_none fresh start end vm_flags mm s o =
    map_range_lem fresh start end vm_flags mm s
    ∙ ap (λ f. map_found fresh start end vm_flags (f, remember mm f))
        (occupied-search start mm.mmap_list o)

map_range_taken :
    (fresh : Option ℕ) (start end vm_flags : ℕ) (mm : Mm) (v : Vma)
    → Ascending 0 mm.mmap_list
    → start < end
    → search start mm.mmap_list ≡ some v
    → map_range fresh start end vm_flags mm ≡ ok (e_inval, remember mm (some v))
map_range_taken fresh start end vm_flags mm v s h e =
    let here = search-occupied start mm.mmap_list v e in
    let below : ltb v.vm_start end ≡ true = ground (arith, here) in
    map_range_lem fresh start end vm_flags mm s
    ∙ (ap (λ f. map_found fresh start end vm_flags (f, remember mm f)) e
        ∙ ap
            (λ b.
              if b
              then ok (e_inval, remember mm (some v))
              else create_and_insert fresh start end vm_flags (remember mm (some v)))
            below)

mm_map_valid :
    (fresh : Option ℕ) (addr len vm_flags : ℕ) (mm : Mm)
    → user_access (round_down addr) (map_end addr len) ≡ true
    → mm_map fresh addr len vm_flags mm
      ≡ map_range fresh (round_down addr) (map_end addr len) vm_flags mm
unfolding mm_map
mm_map_valid fresh addr len vm_flags mm u = rw u refl

mm_map_invalid :
    (fresh : Option ℕ) (addr len vm_flags : ℕ) (mm : Mm)
    → user_access (round_down addr) (map_end addr len) ≡ false
    → mm_map fresh addr len vm_flags mm ≡ ok (e_inval, mm)
unfolding mm_map
mm_map_invalid fresh addr len vm_flags mm u = rw u refl

or_else : {b c : Bool} → b ≡ true → (b ≡ false) ⊎ (c ≡ true) → c ≡ true
or_else e (inl h) = cc
or_else e (inr h) = h

access_ordered : (start end : ℕ) → user_access start end ≡ true → start < end
access_ordered start end u = ground arith

-- With the areas in order and without overlap, mm_map returns -E_INVAL for a range that is not in user
-- memory or whose first address lies in an area; the areas stay as they were.
pub mm_map_refuses :
    (fresh : Option ℕ) (addr len vm_flags : ℕ) (mm : Mm)
    → Ascending 0 mm.mmap_list
    → (user_access (round_down addr) (map_end addr len) ≡ false)
      ⊎ (occupied (round_down addr) mm.mmap_list ≡ true)
    → (mm' : Mm) × ((mm_map fresh addr len vm_flags mm ≡ ok (e_inval, mm')) × SameAreas mm mm')
mm_map_refuses fresh addr len vm_flags mm s h =
    elim (Bool-cases (user_access (round_down addr) (map_end addr len))) [
      | inl u ↦
          let (v, (e, i)) = occupied-some (round_down addr) mm.mmap_list (or_else u h) in
          (
            remember mm (some v),
            (
              mm_map_valid fresh addr len vm_flags mm u
                  ∙ map_range_taken fresh (round_down addr) (map_end addr len) vm_flags mm v s
                      (access_ordered (round_down addr) (map_end addr len) u) e,
              record { list_same = refl; count_same = refl },
            ),
          )
      | inr u ↦ (
        mm,
        (
          mm_map_invalid fresh addr len vm_flags mm u,
          record { list_same = refl; count_same = refl },
        ),
      )
    ]

-- With the areas in order, mm_map of a range in user memory whose first address is free, with memory for
-- the area: where the whole range is free it succeeds and adds one area, and where the range runs into a
-- later area it returns no error but panics in an assert of the insertion.
pub mm_map_inserts :
    (a addr len vm_flags : ℕ) (mm : Mm)
    → Ascending 0 mm.mmap_list
    → user_access (round_down addr) (map_end addr len) ≡ true
    → occupied (round_down addr) mm.mmap_list ≡ false
    → (clear (round_down addr) (map_end addr len) mm.mmap_list ≡ false)
        × (mm_map (some a) addr len vm_flags mm ≡ panic)
      ⊎ (clear (round_down addr) (map_end addr len) mm.mmap_list ≡ true)
        × ((mm' : Mm) × ((mm_map (some a) addr len vm_flags mm ≡ ok (mapped, mm'))
              × Inserted
                  (record {
                    address = a;
                    vm_start = round_down addr;
                    vm_end = map_end addr len;
                    vm_flags = vm_flags;
                    vm_mm_set = false;
                  })
                  mm
                  mm'))
mm_map_inserts a addr len vm_flags mm s u o =
    let start = round_down addr in
    let end = map_end addr len in
    let eq =
      mm_map_valid (some a) addr len vm_flags mm u
      ∙ map_range_none (some a) start end vm_flags mm s o in
    let vma : Vma = record {
      address = a;
      vm_start = start;
      vm_end = end;
      vm_flags = vm_flags;
      vm_mm_set = false;
    } in
    let after : Outcome Mm → Outcome (MapResult × Mm) = λ m. m >>= (λ mm'. ok (mapped, mm')) in
    elim (insert_vma_struct_lem vma mm s (access_ordered start end u)) [
      | inl (c, p) ↦ inl (c, eq ∙ ap after p)
      | inr (c, (mm', (p, i))) ↦ inr (c, (mm', (eq ∙ ap after p, i)))
    ]
