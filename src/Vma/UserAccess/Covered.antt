-- ===== src/Vma/UserAccess/Covered.antt =====
-- What a successful user_mem_check means: ucore_os/kern/mm/vmm.c.
use dora_aos2019_homework.Prelude.{
  ℕ, zero, suc, ◌+◌, ◌-◌, ◌%◌, ◌^◌, ◌≤◌, ◌<◌, ◌≡◌, refl, sym, ◌∙◌, ap, ◌⊎◌, inl, inr, Bool, true,
  false, Option, none, some, List, [], ◌∷◌, ltb, arith, Bool-cases, Option-cases, subst,
}
use dora_aos2019_homework.Vma.{Vma, Mm, search, remember, user_access, holds}
use dora_aos2019_homework.Vma.Areas.{Ascending, search-occupied}
use dora_aos2019_homework.Vma.Lookup.{find_vma_lem}
use dora_aos2019_homework.Vma.UserAccess.{allows, refuses, check_area, check_loop, user_mem_check}

search-same :
    (lo a b : ℕ) (vs : List Vma) (v : Vma)
    → Ascending lo vs
    → search a vs ≡ some v
    → holds b v ≡ true
    → (lo ≤ v.vm_start) × (search b vs ≡ some v)
unfolding Ascending search
search-same lo a b [] v s e h = ground arith
search-same lo a b (w ∷ vs) v s e h = ground (arith, search-same w.vm_end a b vs v s.1.1)

-- Each address of the range lies in an area that permits the access.
abbrev pub Allowed : Bool → ℕ → ℕ → List Vma → Type 0
Allowed write start end vs =
    (a : ℕ)
    → start ≤ a
    → a < end
    → (v : Vma) × ((search a vs ≡ some v) × ((holds a v ≡ true) × (allows write v ≡ true)))

check_loop_step :
    (n : ℕ) (write : Bool) (start end : ℕ) (mm : Mm)
    → Ascending 0 mm.mmap_list
    → ltb start end ≡ true
    → check_loop (suc n) write start end mm
      ≡ check_area write start
          (λ next mm'. check_loop n write next end mm')
          (search start mm.mmap_list, remember mm (search start mm.mmap_list))
unfolding check_loop
check_loop_step n write start end mm s h = rw h (
    ap (check_area write start (λ next mm'. check_loop n write next end mm'))
      (find_vma_lem start mm s))

check_loop_found :
    (n : ℕ) (write : Bool) (start end : ℕ) (mm : Mm) (o : Option Vma)
    → Ascending 0 mm.mmap_list
    → ltb start end ≡ true
    → search start mm.mmap_list ≡ o
    → check_loop (suc n) write start end mm
      ≡ check_area write start (λ next mm'. check_loop n write next end mm') (o, remember mm o)
check_loop_found n write start end mm o s h e =
    check_loop_step n write start end mm s h
    ∙ ap
        (λ f.
          check_area write start (λ next mm'. check_loop n write next end mm') (f, remember mm f))
        e

-- One round at the area that holds `start`: refused, or on behind the area.
check_loop-some :
    (n : ℕ) (write : Bool) (start end : ℕ) (mm : Mm) (v : Vma)
    → Ascending 0 mm.mmap_list
    → ltb start end ≡ true
    → search start mm.mmap_list ≡ some v
    → (check_loop (suc n) write start end mm ≡ some (false, remember mm (some v)))
      ⊎ (allows write v ≡ true)
        × (check_loop (suc n) write start end mm
            ≡ check_loop n write v.vm_end end (remember mm (some v)))
check_loop-some n write start end mm v s h e =
    let step = check_loop_found n write start end mm (some v) s h e in
    elim (Bool-cases (refuses write start v)) [
      | inl refused ↦ inl (step ∙ rw refused refl)
      | inr granted ↦ inr (ground (arith, granted), step ∙ rw granted refl)
    ]

wraps_not :
    (addr len : ℕ)
    → addr < 2 ^ 32
    → len < 2 ^ 32
    → user_access addr ((addr + len) % 2 ^ 32) ≡ true
    → (addr + len) % 2 ^ 32 ≡ addr + len
wraps_not addr len ha hl good = ground arith

check_loop-Allowed :
    (n : ℕ) (write : Bool) (start end : ℕ) (mm mm' : Mm)
    → Ascending 0 mm.mmap_list
    → check_loop n write start end mm ≡ some (true, mm')
    → Allowed write start end mm.mmap_list
unfolding check_loop
check_loop-Allowed zero write start end mm mm' s r a lower upper = absurd (ground arith)
check_loop-Allowed (suc n) write start end mm mm' s r a lower upper =
    let h : ltb start end ≡ true = ground arith in
    elim (Option-cases (search start mm.mmap_list)) [
      | inl e ↦ absurd (ground (arith, check_loop_found n write start end mm none s h e))
      | inr (v, e) ↦
          let here = search-occupied start mm.mmap_list v e in
          elim (check_loop-some n write start end mm v s h e) [
            | inl refused ↦ absurd (ground (arith, refused))
            | inr (ok_v, on) ↦ elim (Bool-cases (ltb a v.vm_end)) [
              | inl within ↦
                  let holds_a : holds a v ≡ true = ground (arith, here) in
                  (v, ((search-same 0 start a mm.mmap_list v s e holds_a).1, (holds_a, ok_v)))
              | inr behind ↦
                  check_loop-Allowed n write v.vm_end end (remember mm (some v)) mm' s (sym on ∙ r)
                    a (ground arith) upper
            ]
          ]
    ]

check_loop_returns :
    (n : ℕ) (write : Bool) (start end : ℕ) (mm : Mm)
    → Ascending 0 mm.mmap_list
    → end - start < n
    → (r : Bool × Mm) × (check_loop n write start end mm ≡ some r)
unfolding check_loop
check_loop_returns zero write start end mm s h = absurd (omega arith)
check_loop_returns (suc n) write start end mm s h = elim (Bool-cases (ltb start end)) [
  | inr done ↦ ((true, mm), rw done refl)
  | inl more ↦ elim (Option-cases (search start mm.mmap_list)) [
    | inl e ↦ ((false, mm), check_loop_found n write start end mm none s more e)
    | inr (v, e) ↦
        let here = search-occupied start mm.mmap_list v e in
        elim (check_loop-some n write start end mm v s more e) [
          | inl refused ↦ ((false, remember mm (some v)), refused)
          | inr (ok_v, on) ↦
              let (r, e') =
                check_loop_returns n write v.vm_end end (remember mm (some v)) s
                  (ground (arith, here)) in
              (r, on ∙ e')
        ]
  ]
]

-- user_mem_check on areas in order and without overlap always returns; where it answers yes, every
-- address of the buffer lies in an area that permits the access.
pub user_mem_check-Allowed :
    (addr len : ℕ) (write : Bool) (mm : Mm)
    → addr < 2 ^ 32
    → len < 2 ^ 32
    → Ascending 0 mm.mmap_list
    → (granted : Bool) × ((mm' : Mm) × ((user_mem_check addr len write mm ≡ some (granted, mm'))
          × (granted ≡ true → Allowed write addr (addr + len) mm.mmap_list)))
unfolding user_mem_check
user_mem_check-Allowed addr len write mm ha hl s =
    elim (Bool-cases (user_access addr ((addr + len) % 2 ^ 32))) [
      | inr bad ↦ (false, (mm, (rw bad refl, λ e. absurd (ground arith))))
      | inl good ↦
          let exact : (addr + len) % 2 ^ 32 ≡ addr + len = wraps_not addr len ha hl good in
          let ((granted, mm'), r) =
            check_loop_returns (suc len) write addr ((addr + len) % 2 ^ 32) mm s (omega arith) in
          (
            granted,
            (
              mm',
              (
                rw good r,
                λ e.
                    subst (λ t. Allowed write addr t mm.mmap_list) exact
                      (check_loop-Allowed (suc len) write addr ((addr + len) % 2 ^ 32) mm mm' s
                        (r ∙ ap (λ b. some (b, mm')) e)),
              ),
            ),
          )
    ]
