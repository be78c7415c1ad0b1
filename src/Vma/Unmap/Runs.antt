-- ===== src/Vma/Unmap/Runs.antt =====
-- The first loop of mm_unmap (ucore_os/kern/mm/vmm.c): a run of areas leaves the list.
use dora_aos2019_homework.Prelude.{
  ℕ, ◌%◌, ◌<◌, ◌≤◌, ◌≡◌, refl, ◌∙◌, ap, inl, inr, true, false, ◌||◌, none, List, [], ◌∷◌, ◌++◌,
  arith, ok, ◌-◌, ltb, if◌then◌else◌, Bool-cases,
}
use dora_aos2019_homework.Vma.{Vma, Mm, area_at}
use dora_aos2019_homework.Vma.Areas.{Ascending, occupied}
use dora_aos2019_homework.Vma.Unmap.{unlink, drop_cache, remove_vma_struct, unlink_loop}
use dora_aos2019_homework.Vma.Unmap.Pieces.{Piece, Pieces}

-- No two areas have one address.
unfoldable pub Distinct : List Vma → Type 0
Distinct [] = Unit
Distinct (v ∷ vs) = (area_at v.address vs ≡ none) × Distinct vs

-- Every area starts and ends at a page.
unfoldable pub Aligned : List Vma → Type 0
Aligned [] = Unit
Aligned (v ∷ vs) = (v.vm_start % 4096 ≡ 0) × (v.vm_end % 4096 ≡ 0) × Aligned vs

-- `vm_mm` of every area points to the address space.
unfoldable pub Owned : List Vma → Type 0
Owned [] = Unit
Owned (v ∷ vs) = (v.vm_mm_set ≡ true) × Owned vs

pub Owned-append : (vs ws : List Vma) → Owned (vs ++ ws) → Owned ws
unfolding Owned
Owned-append [] ws o = o
Owned-append (v ∷ vs) ws (own, o) = Owned-append vs ws o

-- No area of the second list has the address of one of the first.
unfoldable pub Foreign : List Vma → List Vma → Type 0
Foreign pre [] = Unit
Foreign pre (v ∷ vs) = (area_at v.address pre ≡ none) × Foreign pre vs

unfoldable pub gather : ℕ → List Vma → List Vma → List Vma
gather end [] acc = acc
gather end (v ∷ vs) acc =
    let rest = gather end vs (v ∷ acc) in if ltb v.vm_start end then rest else acc

unfoldable pub after : ℕ → List Vma → List Vma
after end [] = []
after end (v ∷ vs) = let rest = after end vs in if ltb v.vm_start end then rest else v ∷ vs

unlink-append :
    (pre vs : List Vma) (v : Vma)
    → area_at v.address pre ≡ none
    → unlink v.address (pre ++ (v ∷ vs)) ≡ pre ++ vs
unfolding unlink area_at
unlink-append [] vs v e = ground arith
unlink-append (w ∷ pre) vs v e = ground (arith, unlink-append pre vs v)

-- What remove_vma_struct leaves of the address space.
abbrev without : Vma → Mm → Mm
without v mm = record mm {
  mmap_list = unlink v.address mm.mmap_list;
  mmap_cache = drop_cache v.address mm.mmap_cache;
  map_count = mm.map_count - 1;
}

removed : (v : Vma) (mm : Mm) → v.vm_mm_set ≡ true → remove_vma_struct v mm ≡ ok (without v mm)
unfolding remove_vma_struct
removed v mm own = rw own refl

pub unlink_loop_lem :
    (end : ℕ) (pre vs : List Vma) (mm : Mm) (acc : List Vma)
    → mm.mmap_list ≡ pre ++ vs
    → Foreign pre vs
    → Owned vs
    → (mm' : Mm) × (unlink_loop end vs mm acc ≡ ok (mm', gather end vs acc))
      × (mm'.mmap_list ≡ pre ++ after end vs)
unfolding unlink_loop gather after Foreign Owned
unlink_loop_lem end pre [] mm acc e f o = (mm, refl, e)
unlink_loop_lem end pre (v ∷ vs) mm acc e (here, f) (own, o) =
    elim (Bool-cases (ltb v.vm_start end)) [
      | inl below ↦
          let gone = ap (unlink v.address) e ∙ unlink-append pre vs v here in
          let (mm', run, list) = unlink_loop_lem end pre vs (without v mm) (v ∷ acc) gone f o in
          (mm', rw (below, removed v mm own) run, rw below list)
      | inr beyond ↦ (mm, rw beyond refl, rw beyond e)
    ]

pub occupied-above : (lo x : ℕ) (vs : List Vma) → Ascending lo vs → occupied x vs ≡ true → lo ≤ x
unfolding Ascending occupied
occupied-above lo x [] s h = ground arith
occupied-above lo x (v ∷ vs) (a, (b, s)) h = ground (arith, occupied-above v.vm_end x vs s)

pub occupied-append :
    (x : ℕ) (vs ws : List Vma) → occupied x (vs ++ ws) ≡ (occupied x vs || occupied x ws)
unfolding occupied
occupied-append x [] ws = refl
occupied-append x (v ∷ vs) ws = ground (arith, occupied-append x vs ws)

-- What the loop takes off the list are pieces; what it leaves begins at `end`.
pub record Run (start end : ℕ) (vs acc : List Vma) : Type 0 where
  pub pieces : Pieces start end (gather end vs acc)
  pub whole :
      (x : ℕ)
      → (occupied x (gather end vs acc) || occupied x (after end vs))
        ≡ (occupied x vs || occupied x acc)
  pub apart : (x : ℕ) → occupied x (gather end vs acc) ≡ true → occupied x (after end vs) ≡ false
  pub beyond : (x : ℕ) → occupied x (after end vs) ≡ true → end ≤ x

pub gather-Run :
    (start end lo : ℕ) (vs acc : List Vma)
    → Ascending lo vs
    → Aligned vs
    → start < lo
    → Pieces start end acc
    → ((x : ℕ) → occupied x acc ≡ true → x < lo)
    → Run start end vs acc
unfolding gather after Ascending Aligned occupied Pieces
gather-Run start end lo [] acc s al l ps below = record {
  pieces = ps;
  whole = λ x. ground arith;
  apart = λ x h. refl;
  beyond = λ x h. ground arith;
}
gather-Run start end lo (v ∷ vs) acc (a, (b, s)) (p, q, al) l ps below =
    elim (Bool-cases (ltb v.vm_start end)) [
      | inl taken ↦
          let piece : Piece start end v = record {
            filled = b;
            low = p;
            high = q;
            meets = ground arith;
            meets' = omega arith;
            one_side = inl (omega arith);
          } in
          let ps' : Pieces start end (v ∷ acc) = (piece, λ x h. ground (arith, below x), ps) in
          let r =
            gather-Run start end v.vm_end vs (v ∷ acc) s al (omega arith) ps'
              (λ x h. ground (arith, below x)) in
          record {
            pieces = rw taken r.pieces;
            whole = λ x. rw taken (ground (arith, r.whole x));
            apart = λ x h. ground (arith, r.apart x);
            beyond = λ x h. ground (arith, r.beyond x);
          }
      | inr left ↦ record {
        pieces = rw left ps;
        whole = λ x. ground arith;
        apart = λ x h. ground (arith, below x, occupied-above v.vm_end x vs s);
        beyond = λ x h. ground (arith, occupied-above v.vm_end x vs s);
      }
    ]

Ascending-lower : (lo lo' : ℕ) (vs : List Vma) → lo ≤ lo' → Ascending lo' vs → Ascending lo vs
unfolding Ascending
Ascending-lower lo lo' [] l s = tt
Ascending-lower lo lo' (v ∷ vs) l (a, (b, s)) = (omega arith, (b, s))

after-Ascending : (end lo : ℕ) (vs : List Vma) → Ascending lo vs → Ascending lo (after end vs)
unfolding Ascending after
after-Ascending end lo [] s = tt
after-Ascending end lo (v ∷ vs) (a, (b, s)) = elim (Bool-cases (ltb v.vm_start end)) [
  | inl below ↦
      let rest = after-Ascending end v.vm_end vs s in
      rw below (Ascending-lower lo v.vm_end (after end vs) (omega arith) rest)
  | inr beyond ↦ rw beyond (a, (b, s))
]

pub left-Ascending :
    (end lo : ℕ) (pre vs : List Vma) → Ascending lo (pre ++ vs) → Ascending lo (pre ++ after end vs)
unfolding Ascending
left-Ascending end lo [] vs s = after-Ascending end lo vs s
left-Ascending end lo (v ∷ pre) vs (a, (b, s)) = (a, (b, left-Ascending end v.vm_end pre vs s))
