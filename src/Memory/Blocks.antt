-- ===== src/Memory/Blocks.antt =====
-- What the block operations of ucore_os/libs/string.c do to memory, at every address.
use dora_aos2019_homework.Prelude.{
  ℕ, zero, suc, ◌+◌, ◌-◌, ◌<◌, ◌≤◌, ◌≡◌, refl, ◌↔◌, ◌⊎◌, Bool, ◌&&◌, arith, ltb, leb, if◌then◌else◌,
}
use dora_aos2019_homework.Prelude.Int.{pos}
use dora_aos2019_homework.Memory.{Memory, store, memset, copy_down, memcpy, memmove, memcmp}

-- `a` lies in the block of `n` bytes at `p`.
abbrev pub within : ℕ → ℕ → ℕ → Bool
within p n a = leb p a && ltb a (p + n)

-- memset writes its byte to every address of the block, and nothing else.
pub memset_lem :
    (p c n : ℕ) (m : Memory) (a : ℕ) → memset p c n m a ≡ (if within p n a then c else m a)
unfolding memset store
memset_lem p c zero m a = ground arith
memset_lem p c (suc n) m a = ground (arith, memset_lem (p + 1) c n (store m p c) a)

-- Copying upwards is right where the destination does not lie inside the source, behind its start.
pub memcpy_lem :
    (d s n : ℕ) (m : Memory) (a : ℕ)
    → (d ≤ s) ⊎ (s + n ≤ d)
    → memcpy d s n m a ≡ (if within d n a then m (s + (a - d)) else m a)
unfolding memcpy store
memcpy_lem d s zero m a h = ground arith
memcpy_lem d s (suc n) m a h = ground (arith, memcpy_lem (d + 1) (s + 1) n (store m d (m s)) a)

copy_down_lem :
    (d s n : ℕ) (m : Memory) (a : ℕ)
    → s ≤ d
    → copy_down (d + n) (s + n) n m a ≡ (if within d n a then m (s + (a - d)) else m a)
unfolding copy_down store
copy_down_lem d s zero m a h = ground arith
copy_down_lem d s (suc n) m a h =
    let back : d + suc n - 1 ≡ d + n = omega arith in
    let back' : s + suc n - 1 ≡ s + n = omega arith in
    rw (back, back') (ground (arith, copy_down_lem d s n (store m (d + n) (m (s + n))) a h))

-- memmove copies the block as it was before the call, however the two blocks overlap, and writes
-- nothing outside the destination.
pub memmove_lem :
    (d s n : ℕ) (m : Memory) (a : ℕ)
    → memmove d s n m a ≡ (if within d n a then m (s + (a - d)) else m a)
unfolding memmove
memmove_lem d s n m a = ground (arith, memcpy_lem d s n m a, copy_down_lem d s n m a)

memcmp_agrees :
    (v1 v2 n : ℕ) (m : Memory)
    → memcmp v1 v2 n m ≡ pos 0
    → (i : ℕ) → i < n
    → m (v1 + i) ≡ m (v2 + i)
unfolding memcmp
memcmp_agrees v1 v2 zero m e i h = elim h [ ]
memcmp_agrees v1 v2 (suc n) m e zero h =
    let left : v1 + 0 ≡ v1 = omega arith in
    let right : v2 + 0 ≡ v2 = omega arith in rw (left, right) (ground arith)
memcmp_agrees v1 v2 (suc n) m e (suc i) h =
    let left : v1 + suc i ≡ v1 + 1 + i = omega arith in
    let right : v2 + suc i ≡ v2 + 1 + i = omega arith in
    rw (left, right)
      (ground (
        arith,
        λ (p : memcmp (v1 + 1) (v2 + 1) n m ≡ pos 0).
            memcmp_agrees (v1 + 1) (v2 + 1) n m p i (omega arith),
      ))

memcmp_of_agree :
    (v1 v2 n : ℕ) (m : Memory)
    → ((i : ℕ) → i < n → m (v1 + i) ≡ m (v2 + i))
    → memcmp v1 v2 n m ≡ pos 0
unfolding memcmp
memcmp_of_agree v1 v2 zero m same = refl
memcmp_of_agree v1 v2 (suc n) m same =
    let first : m v1 ≡ m v2 = ground (arith, same 0 (omega arith)) in
    let later : (i : ℕ) → i < n → m (v1 + 1 + i) ≡ m (v2 + 1 + i) =
      λ i h. ground (arith, same (suc i) (omega arith)) in
    ground (arith, memcmp_of_agree (v1 + 1) (v2 + 1) n m later)

-- memcmp returns 0 exactly when the two blocks agree at every offset.
pub memcmp_zero :
    (v1 v2 n : ℕ) (m : Memory)
    → (memcmp v1 v2 n m ≡ pos 0) ↔ ((i : ℕ) → i < n → m (v1 + i) ≡ m (v2 + i))
memcmp_zero v1 v2 n m = (memcmp_agrees v1 v2 n m, memcmp_of_agree v1 v2 n m)
