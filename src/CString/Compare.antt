-- ===== src/CString/Compare.antt =====
-- What strcmp of ucore_os/libs/string.c decides.
use dora_aos2019_homework.Prelude.{
  ℕ, zero, suc, ◌+◌, ◌<◌, ◌≡◌, refl, some, List, [], ◌∷◌, arith, length, ◌==◌, Bool-cases, inl, inr,
  ◌⊎◌, ◌≢◌, ap, subst, ◌-◌, leb,
}
use dora_aos2019_homework.Prelude.Int.{ℤ, pos, negsuc, sub_ℕ}
use dora_aos2019_homework.Memory.{Memory}
use dora_aos2019_homework.CString.{strcmp}
use dora_aos2019_homework.CString.StringAt.{StringAt}

-- Lexicographic order of two strings, by the codes of their characters.
unfoldable pub Before : List ℕ → List ℕ → Type 0
Before xs [] = ⊥
Before [] (y ∷ ys) = Unit
Before (x ∷ xs) (y ∷ ys) = (x < y) ⊎ ((x ≡ y) × Before xs ys)

-- How the sign of the result stands for the order of the two strings.
unfoldable pub Compares : List ℕ → List ℕ → ℤ → Type 0
Compares xs ys (pos zero) = xs ≡ ys
Compares xs ys (pos (suc n)) = Before ys xs
Compares xs ys (negsuc n) = Before xs ys

differ : (a b : ℕ) (xs ys : List ℕ) → a ≢ b → 0 < a → 0 < b → Compares (a ∷ xs) (b ∷ ys) (sub_ℕ a b)
unfolding Compares Before
differ a b xs ys h p q = elim (Bool-cases (leb b a)) [
  | inl e ↦ let d : sub_ℕ a b ≡ pos (suc (a - b - 1)) = ground arith in rw d (inl (ground arith))
  | inr e ↦ let d : sub_ℕ a b ≡ negsuc (b - a - 1) = ground arith in rw d (inl (ground arith))
]

strcmp_step : (c : ℕ) (xs ys : List ℕ) (z : ℤ) → Compares xs ys z → Compares (c ∷ xs) (c ∷ ys) z
unfolding Compares Before
strcmp_step c xs ys (pos zero) h = ap (λ zs. c ∷ zs) h
strcmp_step c xs ys (pos (suc n)) h = inr (refl, h)
strcmp_step c xs ys (negsuc n) h = inr (refl, h)

-- strcmp of two strings, with more steps than the first has characters, returns: zero where they are
-- equal, a negative number where the first is before the second in lexicographic order, and a positive
-- one where it is behind.
pub strcmp-Compares :
    (fuel s1 s2 : ℕ) (xs ys : List ℕ) (m : Memory)
    → StringAt m s1 xs
    → StringAt m s2 ys
    → length xs < fuel
    → (z : ℤ) × ((strcmp fuel s1 s2 m ≡ some z) × Compares xs ys z)
unfolding StringAt strcmp Compares Before
strcmp-Compares zero s1 s2 xs ys m a b h = ground arith
strcmp-Compares (suc n) s1 s2 [] [] m a b h = (pos 0, (ground arith, refl))
strcmp-Compares (suc n) s1 s2 (x ∷ xs) [] m a b h = (pos (suc (x - 1)), (ground arith, tt))
strcmp-Compares (suc n) s1 s2 [] (y ∷ ys) m a b h = (negsuc (y - 1), (ground arith, tt))
strcmp-Compares (suc n) s1 s2 (x ∷ xs) (y ∷ ys) m a b h = elim (Bool-cases (x == y)) [
  | inl e ↦
      let same : x ≡ y = ground arith in
      let (z, (c, o)) = strcmp-Compares n (s1 + 1) (s2 + 1) xs ys m a.1.1 b.1.1 (omega arith) in
      (z, (ground arith, subst (λ w. Compares (x ∷ xs) (w ∷ ys) z) same (strcmp_step x xs ys z o)))
  | inr e ↦ (sub_ℕ x y, (ground arith, differ x y xs ys (ground arith) a.1.0 b.1.0))
]
