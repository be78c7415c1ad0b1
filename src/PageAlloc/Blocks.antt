-- ===== src/PageAlloc/Blocks.antt =====
-- The free list as disjoint blocks in the order of addresses (ucore_os/kern/mm/default_pmm.c).
use dora_aos2019_homework.Prelude.{
  ℕ, ◌+◌, ◌^◌, ◌≤◌, ◌<◌, ◌≡◌, refl, ap, Bool, true, false, ◌||◌, List, [], ◌∷◌, arith,
}
use dora_aos2019_homework.Memory.Blocks.{within}
use dora_aos2019_homework.PageAlloc.{Pages, FreeArea}

-- The blocks of the list `ps` lie between `lo` and `hi`, in order and disjoint; each is headed by a
-- page with PG_property set and the block's size.
abbrev pub Chain : Pages → ℕ → List ℕ → ℕ → Type 0
Chain pg lo [] hi = lo ≤ hi
Chain pg lo (p ∷ ps) hi =
    (lo ≤ p)
    × (0 < (pg p).property)
    × ((pg p).is_head ≡ true)
    × Chain pg (p + (pg p).property) ps hi

-- Whether the page `a` is in a block of the list.
abbrev pub cover : Pages → List ℕ → ℕ → Bool
cover pg [] a = false
cover pg (p ∷ ps) a = within p (pg p).property a || cover pg ps a

-- The pages in the blocks of the list.
abbrev pub total : Pages → List ℕ → ℕ
total pg [] = 0
total pg (p ∷ ps) = (pg p).property + total pg ps

-- The allocator's invariant, over page numbers below `npage`.
pub record IsValid (npage : ℕ) (a : FreeArea) : Type 0 where
  pub bound : npage < 2 ^ 32
  pub chain : Chain a.pages 0 a.free_list npage
  pub count : a.nr_free ≡ total a.pages a.free_list

pub Chain-le :
    (pg : Pages) (lo : ℕ) (ps : List ℕ) (hi : ℕ) → Chain pg lo ps hi → lo + total pg ps ≤ hi
Chain-le pg lo [] hi c = omega arith
Chain-le pg lo (p ∷ ps) hi (h, s, f, c) = omega (arith, Chain-le pg (p + (pg p).property) ps hi c)

pub Chain-lower :
    (pg : Pages) (lo lo' : ℕ) (ps : List ℕ) (hi : ℕ)
    → lo' ≤ lo
    → Chain pg lo ps hi
    → Chain pg lo' ps hi
Chain-lower pg lo lo' [] hi h c = omega arith
Chain-lower pg lo lo' (p ∷ ps) hi h (a, s, f, c) = (omega arith, s, f, c)

-- What holds of the blocks from `lo` on holds after a change to pages before `lo`.
module _ {pg pg' : Pages} where
  pub Chain-same :
      (lo : ℕ) (ps : List ℕ) (hi : ℕ)
      → ((q : ℕ) → lo ≤ q → pg' q ≡ pg q)
      → Chain pg lo ps hi
      → Chain pg' lo ps hi
  Chain-same lo [] hi same c = c
  Chain-same lo (p ∷ ps) hi same (h, s, f, c) =
      rw (same p h)
        (h, s, f, Chain-same (p + (pg p).property) ps hi (λ q g. same q (omega arith)) c)

  pub cover_same :
      (lo : ℕ) (ps : List ℕ) (hi : ℕ) (a : ℕ)
      → ((q : ℕ) → lo ≤ q → pg' q ≡ pg q)
      → Chain pg lo ps hi
      → cover pg' ps a ≡ cover pg ps a
  cover_same lo [] hi a same c = refl
  cover_same lo (p ∷ ps) hi a same (h, s, f, c) = rw (same p h) (
      ap (λ b. within p (pg p).property a || b)
        (cover_same (p + (pg p).property) ps hi a (λ q g. same q (omega arith)) c))

  pub total_same :
      (lo : ℕ) (ps : List ℕ) (hi : ℕ)
      → ((q : ℕ) → lo ≤ q → pg' q ≡ pg q)
      → Chain pg lo ps hi
      → total pg' ps ≡ total pg ps
  total_same lo [] hi same c = refl
  total_same lo (p ∷ ps) hi same (h, s, f, c) = rw (same p h) (
      ap (λ b. (pg p).property + b)
        (total_same (p + (pg p).property) ps hi (λ q g. same q (omega arith)) c))

pub cover_below :
    (pg : Pages) (lo : ℕ) (ps : List ℕ) (hi a : ℕ)
    → Chain pg lo ps hi
    → a < lo
    → cover pg ps a ≡ false
cover_below pg lo [] hi a c h = refl
cover_below pg lo (p ∷ ps) hi a (g, s, f, c) h =
    ground (arith, cover_below pg (p + (pg p).property) ps hi a c)
