-- ===== src/Sfs/Counts.antt =====
-- The number of free blocks, for `unused_blocks` of ucore_os/kern/fs/sfs/sfs_inode.c.
use dora_aos2019_homework.Prelude.{
  ℕ, zero, suc, ◌<◌, ◌≤◌, ◌≡◌, refl, ap, ◌∙◌, inl, inr, Bool, true, false, not, ◌&&◌, ◌==◌,
  if◌then◌else◌, arith, Bool-cases,
}

-- How many numbers below `n` pass the test.
unfoldable pub count : (ℕ → Bool) → ℕ → ℕ
count f zero = 0
count f (suc n) = if f n then suc (count f n) else count f n

pub count_le : (f : ℕ → Bool) (n : ℕ) → count f n ≤ n
unfolding count
count_le f zero = omega arith
count_le f (suc n) = ground (arith, count_le f n)

count_same : (f g : ℕ → Bool) (n : ℕ) → ((j : ℕ) → j < n → g j ≡ f j) → count g n ≡ count f n
unfolding count
count_same f g zero e = refl
count_same f g (suc n) e =
    ground (arith, count_same f g n (λ j l. e j (omega arith)), e n (omega arith))

pub count_none : (f : ℕ → Bool) (n : ℕ) → ((j : ℕ) → f j ≡ false) → count f n ≡ 0
unfolding count
count_none f zero e = refl
count_none f (suc n) e = ground (arith, count_none f n e, e n)

-- One number fewer.
pub count_without :
    (f g : ℕ → Bool) (i n : ℕ)
    → i < n
    → f i ≡ true
    → ((j : ℕ) → g j ≡ (not (j == i) && f j))
    → count f n ≡ suc (count g n)
unfolding count
count_without f g i zero l h e = absurd (omega arith)
count_without f g i (suc n) l h e = elim (Bool-cases (n == i)) [
  | inl here ↦
      let same = count_same f g n (λ j below. ground (arith, e j)) in
      let n_i : n ≡ i = ground arith in
      let now : f n ≡ true = ap f n_i ∙ h in ground (arith, same, e n, now)
  | inr there ↦ ground (arith, count_without f g i n (ground arith) h e, e n)
]
