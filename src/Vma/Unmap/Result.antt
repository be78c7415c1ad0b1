-- ===== src/Vma/Unmap/Result.antt =====
-- What mm_unmap of ucore_os/kern/mm/vmm.c does to the addresses that the areas hold.
use dora_aos2019_homework.Prelude.{
  ℕ, ◌%◌, ◌<◌, ◌≡◌, refl, ◌⊎◌, inl, inr, true, false, ◌&&◌, Option, none, some, List, [], Outcome,
  ok, arith, ltb, leb, Bool-cases, Option-cases,
}
use dora_aos2019_homework.Prelude.Int.{ℤ, pos}
use dora_aos2019_homework.Vma.{
  Vma, Mm, holds, search, find_vma, remember, round_down, map_end, user_access,
}
use dora_aos2019_homework.Vma.Areas.{occupied}
use dora_aos2019_homework.Vma.Lookup.{find_vma_lem, occupied-search, occupied-some}
use dora_aos2019_homework.Vma.Unmap.{invalid_range, out_of_memory, punch, unmap_found, mm_unmap}
use dora_aos2019_homework.Vma.Unmap.Places.{search-Place}
use dora_aos2019_homework.Vma.Unmap.Effects.{IsSpace, Unmapped, Within, unmap_areas_lem, punch_lem}

found_lem :
    (fresh : Option ℕ) (start end : ℕ) (v : Vma) (mm : Mm)
    → IsSpace mm
    → start % 4096 ≡ 0
    → end % 4096 ≡ 0
    → start < end
    → search start mm.mmap_list ≡ some v
    → ((fresh ≡ none)
        × Within start end v
        × (unmap_found fresh start end (some v, mm) ≡ ok (out_of_memory, mm, [])))
      ⊎ ((mm' : Mm) × (ranges : List (ℕ × ℕ)) × (unmap_found fresh start end (some v, mm)
            ≡ ok (pos 0, mm', ranges))
          × Unmapped start end mm mm' ranges)
unfolding unmap_found punch
found_lem fresh start end v mm w a b l e =
    let p = search-Place start 0 mm.mmap_list v w.ascending w.aligned w.distinct e in
    let i = p.inside in
    let meets : leb end v.vm_start ≡ false = ground arith in
    elim (Bool-cases (ltb v.vm_start start && ltb end v.vm_end)) [
      | inl hole ↦
          let o : Within start end v = record { starts = ground arith; ends = ground arith } in
          elim (Option-cases fresh) [
            | inl short ↦ inl (short, o, rw (meets, hole, short) refl)
            | inr (x, memory) ↦
                let (mm', ranges, run, u) = punch_lem x start end v mm w b l e p o in
                inr (mm', ranges, rw (meets, hole, memory) run, u)
          ]
      | inr side ↦
          let (mm', ranges, run, u) =
            unmap_areas_lem start end v mm w a b l p (λ h. ground arith) in
          inr (mm', ranges, rw (meets, side) run, u)
    ]

-- How mm_unmap ends on a range of user memory; `run` is what it returns.
abbrev pub UnmapEnds : Option ℕ → ℕ → ℕ → Mm → Outcome (ℤ × Mm × List (ℕ × ℕ)) → Type 0
UnmapEnds fresh start end mm run =
    ((occupied start mm.mmap_list ≡ false) × (run ≡ ok (pos 0, mm, [])))
    ⊎ ((v : Vma) × (mm' : Mm) × (ranges : List (ℕ × ℕ)) × (holds start v ≡ true)
        × (((fresh ≡ none)
              × Within start end v
              × (run ≡ ok (out_of_memory, mm', []))
              × (mm'.mmap_list ≡ mm.mmap_list))
            ⊎ ((run ≡ ok (pos 0, mm', ranges)) × Unmapped start end mm mm' ranges)))

unmap_range_lem :
    (fresh : Option ℕ) (start end : ℕ) (mm : Mm)
    → IsSpace mm
    → start % 4096 ≡ 0
    → end % 4096 ≡ 0
    → start < end
    → UnmapEnds fresh start end mm (unmap_found fresh start end (find_vma start mm))
unfolding unmap_found
unmap_range_lem fresh start end mm w a b l =
    let finds = find_vma_lem start mm w.ascending in
    elim (Bool-cases (occupied start mm.mmap_list)) [
      | inr gap ↦
          let nothing = occupied-search start mm.mmap_list gap in
          inl (gap, rw (finds, nothing) refl)
      | inl held ↦
          let (v, (e, h)) = occupied-some start mm.mmap_list held in
          let mm1 = remember mm (some v) in
          let w1 : IsSpace mm1 = record {
            ascending = w.ascending;
            aligned = w.aligned;
            distinct = w.distinct;
            owned = w.owned;
          } in
          elim (found_lem fresh start end v mm1 w1 a b l e) [
            | inl (short, o, run) ↦ inr (v, mm1, [], h, inl (short, o, rw (finds, e) run, refl))
            | inr (mm', ranges, run, u) ↦ inr (
              v,
              mm',
              ranges,
              h,
              inr (
                rw (finds, e) run,
                record { ascending = u.ascending; covers = u.covers; unmapped = u.unmapped },
              ),
            )
          ]
    ]

map_end_pages : (addr len : ℕ) → map_end addr len % 4096 ≡ 0
map_end_pages addr len = omega arith

user_access_lt : (start end : ℕ) → user_access start end ≡ true → start < end
user_access_lt start end h = ground arith

-- mm_unmap on areas in order, of whole pages, at addresses of their own and with vm_mm pointing to their
-- address space never panics. A range off the
-- user memory is refused. When no area holds its first page, it returns 0 and does nothing. Otherwise it
-- returns 0, the areas stay in order without overlap and hold what they held but for the range, and
-- unmap_range is called for exactly what they held in it; or -E_NO_MEM, with the areas as they were, when
-- the range lies inside one area and there is no memory for a second one.
pub mm_unmap_lem :
    (fresh : Option ℕ) (addr len : ℕ) (mm : Mm)
    → IsSpace mm
    → ((user_access (round_down addr) (map_end addr len) ≡ false)
        × (mm_unmap fresh addr len mm ≡ ok (invalid_range, mm, [])))
      ⊎ ((user_access (round_down addr) (map_end addr len) ≡ true)
          × UnmapEnds fresh (round_down addr) (map_end addr len) mm (mm_unmap fresh addr len mm))
unfolding mm_unmap
mm_unmap_lem fresh addr len mm w =
    let start = round_down addr in
    let end = map_end addr len in
    elim (Bool-cases (user_access start end)) [
      | inr off ↦ inl (off, rw off refl)
      | inl user ↦ inr (
        user,
        rw user (
            unmap_range_lem fresh start end mm w (omega arith) (map_end_pages addr len)
              (user_access_lt start end user)),
      )
    ]
