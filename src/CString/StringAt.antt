-- ===== src/CString/StringAt.antt =====
-- Strings in memory, and the lengths that ucore_os/libs/string.c computes.
use dora_aos2019_homework.Prelude.{
  ℕ, zero, suc, ◌+◌, ◌<◌, ◌≡◌, some, List, [], ◌∷◌, arith, length, leb, if◌then◌else◌,
}
use dora_aos2019_homework.Memory.{Memory}
use dora_aos2019_homework.CString.{strlen_loop, strlen, strnlen_loop, strnlen}

-- The string of the characters `cs`, none of them NUL, and its NUL stand at `s`.
unfoldable pub StringAt : Memory → ℕ → List ℕ → Type 0
StringAt m s [] = m s ≡ 0
StringAt m s (c ∷ cs) = (m s ≡ c) × ((0 < c) × StringAt m (s + 1) cs)

strlen_loop_lem :
    (n s cnt : ℕ) (cs : List ℕ) (m : Memory)
    → StringAt m s cs
    → length cs < n
    → strlen_loop n s cnt m ≡ some (cnt + length cs)
unfolding StringAt strlen_loop
strlen_loop_lem zero s cnt cs m at h = ground arith
strlen_loop_lem (suc n) s cnt [] m at h = ground arith
strlen_loop_lem (suc n) s cnt (c ∷ cs) m at h =
    ground (arith, strlen_loop_lem n (s + 1) (cnt + 1) cs m at.1.1)

-- With more steps than the string has characters, strlen returns the number of its characters.
pub strlen_lem :
    (fuel s : ℕ) (cs : List ℕ) (m : Memory)
    → StringAt m s cs
    → length cs < fuel
    → strlen fuel s m ≡ some (length cs)
unfolding strlen
strlen_lem fuel s cs m at h = ground (arith, strlen_loop_lem fuel s 0 cs m at h)

strnlen_loop_lem :
    (left s cnt : ℕ) (cs : List ℕ) (m : Memory)
    → StringAt m s cs
    → strnlen_loop left s cnt m ≡ cnt + (if leb left (length cs) then left else length cs)
unfolding StringAt strnlen_loop
strnlen_loop_lem zero s cnt cs m at = ground arith
strnlen_loop_lem (suc n) s cnt [] m at = ground arith
strnlen_loop_lem (suc n) s cnt (c ∷ cs) m at =
    ground (arith, strnlen_loop_lem n (s + 1) (cnt + 1) cs m at.1.1)

-- strnlen returns the length of the string, or its bound where that is smaller.
pub strnlen_lem :
    (s len : ℕ) (cs : List ℕ) (m : Memory)
    → StringAt m s cs
    → strnlen s len m ≡ (if leb len (length cs) then len else length cs)
unfolding strnlen
strnlen_lem s len cs m at = ground (arith, strnlen_loop_lem len s 0 cs m at)
