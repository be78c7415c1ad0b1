-- ===== src/PageAlloc.antt =====
-- The first-fit page allocator: ucore_os/kern/mm/default_pmm.c, with struct Page and its flags from
-- ucore_os/kern/mm/memlayout.h. A `struct Page *` is the page's index in `pages`.
pub mod Blocks
pub mod Alloc
pub mod Merge
pub mod Rejoin
pub mod Free
mod Tests
use dora_aos2019_homework.Prelude.{
  ℕ, zero, suc, ◌+◌, ◌-◌, ◌%◌, ◌^◌, Bool, true, false, ◌&&◌, not, Option, none, some, List, [], ◌∷◌,
  ◌++◌, Outcome, ok, ◌>>=◌, ◌>>◌, assert, ltb, leb, ◌==◌, if◌then◌else◌,
}

-- The flags PG_reserved and PG_property are the two Booleans.
pub record Page : Type 0 where
  pub ref : ℕ
  pub reserved : Bool
  pub is_head : Bool
  pub property : ℕ

abbrev pub Pages : Type 0
Pages = ℕ → Page

abbrev pub put : Pages → ℕ → Page → Pages
put pg p r q = if q == p then r else pg q

pub record FreeArea : Type 0 where
  pub pages : Pages
  pub free_list : List ℕ
  pub nr_free : ℕ

unfoldable pub default_init : Pages → FreeArea
default_init pg = record { pages = pg; free_list = []; nr_free = 0 }

-- The loop of `default_init_memmap`, over `n` pages from `p` on.
unfoldable pub init_pages : ℕ → ℕ → Pages → Outcome Pages
init_pages zero p pg = ok pg
init_pages (suc n) p pg = do
  assert (pg p).reserved
  init_pages n (p + 1)
      (put pg p (record (pg p) { reserved = false; is_head = false; property = 0; ref = 0 }))

unfoldable pub default_init_memmap : ℕ → ℕ → FreeArea → Outcome FreeArea
unfolding init_pages
default_init_memmap base n a = do
  assert (ltb 0 n)
  pg ← init_pages n base a.pages
  ok (record {
    pages = put pg base (record (pg base) { property = n; is_head = true });
    free_list = a.free_list ++ base ∷ [];
    nr_free = (a.nr_free + n) % 2 ^ 32;
  })

-- The search for the first block of `n` pages: the blocks before it, the block, those behind it.
unfoldable pub find_fit : ℕ → Pages → List ℕ → Option (List ℕ × ℕ × List ℕ)
find_fit n pg [] = none
find_fit n pg (p ∷ ps) =
    let rest = find_fit n pg ps in
    if leb n (pg p).property
    then some ([], p, ps)
    else (elim rest [ none ↦ none | some (before, q, behind) ↦ some (p ∷ before, q, behind) ])

-- What is left of the block goes into its place on the list.
unfoldable pub take_block : ℕ → List ℕ → ℕ → List ℕ → FreeArea → FreeArea
take_block n before p behind a =
    let size = (a.pages p).property in
    let split = ltb n size in
    let rest = record (a.pages (p + n)) { property = size - n; is_head = true } in
    let pg = if split then put a.pages (p + n) rest else a.pages in
    record {
      pages = put pg p (record (pg p) { is_head = false });
      free_list = before ++ (if split then (p + n) ∷ behind else behind);
      nr_free = (a.nr_free + 2 ^ 32 - n) % 2 ^ 32;
    }

unfoldable pub default_alloc_pages : ℕ → FreeArea → Outcome (Option ℕ × FreeArea)
unfolding find_fit take_block
default_alloc_pages n a = do
  assert (ltb 0 n)
  (if ltb a.nr_free n then ok (none, a) else (elim (find_fit n a.pages a.free_list) [
    | none ↦ ok (none, a)
    | some (before, p, behind) ↦ ok (some p, take_block n before p behind a)
  ]))

-- The first loop of `default_free_pages`.
unfoldable pub clear_pages : ℕ → ℕ → Pages → Outcome Pages
clear_pages zero p pg = ok pg
clear_pages (suc n) p pg = do
  assert (not (pg p).reserved && not (pg p).is_head)
  clear_pages n (p + 1) (put pg p (record (pg p) { reserved = false; is_head = false; ref = 0 }))

-- One round of the merging loop at the block `p`: whether `p` stays on the list, the new `base`, the
-- pages.
unfoldable pub merge_step : ℕ → ℕ → Pages → Bool × ℕ × Pages
merge_step p base pg =
    if base + (pg base).property == p
    then (let grown =
          put pg base
            (record (pg base) { property = ((pg base).property + (pg p).property) % 2 ^ 32 }) in
        (false, base, put grown p (record (grown p) { is_head = false })))
    else (if p + (pg p).property == base
        then (let grown =
              put pg p
                (record (pg p) { property = ((pg p).property + (pg base).property) % 2 ^ 32 }) in
            (false, p, put grown base (record (grown base) { is_head = false })))
        else (true, base, pg))

unfoldable pub merge_loop : List ℕ → ℕ → Pages → ℕ × List ℕ × Pages
unfolding merge_step
merge_loop [] base pg = (base, [], pg)
merge_loop (p ∷ ps) base pg =
    let (keep, base', pg') = merge_step p base pg in
    let (b, qs, pg'') = merge_loop ps base' pg' in (b, if keep then p ∷ qs else qs, pg'')

-- The last loop, with the insertion before the block where it stops.
unfoldable pub insert_block : ℕ → Pages → List ℕ → Outcome (List ℕ)
insert_block base pg [] = ok (base ∷ [])
insert_block base pg (p ∷ ps) =
    let stop = assert (not (base + (pg base).property == p)) >> ok (base ∷ p ∷ ps) in
    let further = insert_block base pg ps >>= (λ qs. ok (p ∷ qs)) in
    if leb (base + (pg base).property) p then stop else further

unfoldable pub default_free_pages : ℕ → ℕ → FreeArea → Outcome FreeArea
unfolding clear_pages merge_loop insert_block
default_free_pages base n a = do
  assert (ltb 0 n)
  pg ← clear_pages n base a.pages
  let (base', ps, pg') =
      merge_loop a.free_list base (put pg base (record (pg base) { property = n; is_head = true }))
  qs ← insert_block base' pg' ps
  ok (record { pages = pg'; free_list = qs; nr_free = (a.nr_free + n) % 2 ^ 32 })
