-- ===== src/CString/Copies.antt =====
-- What strcpy of ucore_os/libs/string.c does to memory.
use dora_aos2019_homework.Prelude.{
  ℕ, zero, suc, ◌+◌, ◌-◌, ◌<◌, ◌≤◌, ◌≡◌, some, List, [], ◌∷◌, arith, length, if◌then◌else◌, ◌⊎◌,
  inl, inr,
}
use dora_aos2019_homework.Memory.{Memory, store, memcpy}
use dora_aos2019_homework.Memory.Blocks.{within, memcpy_lem}
use dora_aos2019_homework.CString.{strcpy}
use dora_aos2019_homework.CString.StringAt.{StringAt}

-- A store outside a string leaves it.
StringAt-store :
    (cs : List ℕ) (s a b : ℕ) (m : Memory)
    → StringAt m s cs
    → (a < s) ⊎ (s + length cs < a)
    → StringAt (store m a b) s cs
unfolding StringAt store
StringAt-store [] s a b m at h = ground arith
StringAt-store (c ∷ cs) s a b m at h =
    (ground arith, (at.1.0, StringAt-store cs (s + 1) a b m at.1.1 (beyond h)))
  where
    beyond : (a < s) ⊎ (s + length (c ∷ cs) < a) → (a < s + 1) ⊎ (s + 1 + length cs < a)
    beyond (inl below) = inl (omega arith)
    beyond (inr above) = inr (omega arith)

-- strcpy copies the characters and the NUL as memcpy of that many bytes does.
strcpy-memcpy :
    (fuel d s : ℕ) (cs : List ℕ) (m : Memory)
    → StringAt m s cs
    → length cs < fuel
    → (d ≤ s) ⊎ (s + length cs < d)
    → strcpy fuel d s m ≡ some (memcpy d s (suc (length cs)) m)
unfolding strcpy memcpy StringAt
strcpy-memcpy zero d s cs m at h apart = absurd (omega arith)
strcpy-memcpy (suc n) d s [] m at h apart = ground arith
strcpy-memcpy (suc n) d s (c ∷ cs) m at h apart =
    let m' = store m d (m s) in
    let ih =
      strcpy-memcpy n (d + 1) (s + 1) cs m'
        (StringAt-store cs (s + 1) d (m s) m at.1.1 (outside apart)) (omega arith) (ahead apart) in
    ground (arith, ih, at.1.0)
  where
    outside : (d ≤ s) ⊎ (s + length (c ∷ cs) < d) → (d < s + 1) ⊎ (s + 1 + length cs < d)
    outside (inl below) = inl (omega arith)
    outside (inr above) = inr (omega arith)

    ahead : (d ≤ s) ⊎ (s + length (c ∷ cs) < d) → (d + 1 ≤ s + 1) ⊎ (s + 1 + length cs < d + 1)
    ahead (inl below) = inl (omega arith)
    ahead (inr above) = inr (omega arith)

-- strcpy of a string to a place that does not begin inside it, with more steps than it has characters,
-- returns: the characters and the NUL are copied as they were before the call, and no other byte has
-- changed.
pub strcpy_lem :
    (fuel d s : ℕ) (cs : List ℕ) (m : Memory)
    → StringAt m s cs
    → length cs < fuel
    → (d ≤ s) ⊎ (s + length cs < d)
    → (m' : Memory) × ((strcpy fuel d s m ≡ some m')
        × ((a : ℕ) → m' a ≡ (if within d (suc (length cs)) a then m (s + (a - d)) else m a)))
strcpy_lem fuel d s cs m at h apart = (
  memcpy d s (suc (length cs)) m,
  (strcpy-memcpy fuel d s cs m at h apart, λ a. memcpy_lem d s (suc (length cs)) m a (past apart)),
)
  where
    past : (d ≤ s) ⊎ (s + length cs < d) → (d ≤ s) ⊎ (s + (suc (length cs)) ≤ d)
    past (inl below) = inl below
    past (inr above) = inr (omega arith)
