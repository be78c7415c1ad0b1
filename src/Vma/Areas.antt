-- ===== src/Vma/Areas.antt =====
-- The areas of ucore_os/kern/mm/vmm.c as sets of addresses: order, overlap and coverage.
use dora_aos2019_homework.Prelude.{
  ℕ, ◌≤◌, ◌<◌, ◌≡◌, Bool, true, false, ◌&&◌, ◌||◌, none, some, List, [], ◌∷◌, arith, leb,
}
use dora_aos2019_homework.Vma.{Vma, area_at, holds, search}

-- Ascending, non-empty and without overlap, all from `lo` on.
unfoldable pub Ascending : ℕ → List Vma → Type 0
Ascending lo [] = Unit
Ascending lo (v ∷ vs) = (lo ≤ v.vm_start) × ((v.vm_start < v.vm_end) × Ascending v.vm_end vs)

-- Some area holds the address.
unfoldable pub occupied : ℕ → List Vma → Bool
occupied addr [] = false
occupied addr (v ∷ vs) = holds addr v || occupied addr vs

-- No area shares an address with the range.
unfoldable pub clear : ℕ → ℕ → List Vma → Bool
clear start end [] = true
clear start end (v ∷ vs) = (leb v.vm_end start || leb end v.vm_start) && clear start end vs

pub area_at_above :
    (lo a : ℕ) (vs : List Vma) (v : Vma) → Ascending lo vs → area_at a vs ≡ some v → lo ≤ v.vm_start
unfolding Ascending area_at
area_at_above lo a [] v s e = ground arith
area_at_above lo a (w ∷ vs) v s e = ground (arith, area_at_above w.vm_end a vs v s.1.1)

-- The area that a pointer names is the one a search for an address in it finds.
pub search-area_at :
    (lo a addr : ℕ) (vs : List Vma) (v : Vma)
    → Ascending lo vs
    → area_at a vs ≡ some v
    → holds addr v ≡ true
    → search addr vs ≡ some v
unfolding Ascending area_at search
search-area_at lo a addr [] v s e h = ground arith
search-area_at lo a addr (w ∷ vs) v s e h =
    ground (arith, area_at_above w.vm_end a vs v s.1.1, search-area_at w.vm_end a addr vs v s.1.1)

-- A search fails exactly where no area holds the address.
pub search-occupied :
    (addr : ℕ) (vs : List Vma) (v : Vma)
    → search addr vs ≡ some v
    → (holds addr v ≡ true) × (occupied addr vs ≡ true)
unfolding search occupied
search-occupied addr [] v e = ground arith
search-occupied addr (w ∷ vs) v e = ground (arith, search-occupied addr vs v)

pub search-none : (addr : ℕ) (vs : List Vma) → search addr vs ≡ none → occupied addr vs ≡ false
unfolding search occupied
search-none addr [] e = ground arith
search-none addr (w ∷ vs) e = ground (arith, search-none addr vs)

pub clear_above :
    (lo start end : ℕ) (vs : List Vma) → Ascending lo vs → end ≤ lo → clear start end vs ≡ true
unfolding Ascending clear
clear_above lo start end [] s h = ground arith
clear_above lo start end (v ∷ vs) s h = ground (arith, clear_above v.vm_end start end vs s.1.1)
