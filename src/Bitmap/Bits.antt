-- ===== src/Bitmap/Bits.antt =====
-- The binary digits of a word under the operations of ucore_os/kern/fs/sfs/bitmap.c.
use dora_aos2019_homework.Prelude.{
  ℕ, zero, suc, ◌+◌, ◌-◌, ◌/◌, ◌%◌, ◌^◌, ◌<◌, ◌≤◌, ◌≡◌, refl, ◌∙◌, ap, ◌⊎◌, inl, inr, true, false,
  not, none, some, ltb, ◌==◌, if◌then◌else◌, arith, Bool-cases,
}
use native.Mathlib.Nat.{two-pow-succ, pow-le-pow_right}
use dora_aos2019_homework.Bitmap.{bit, flip, set_bit, lowest_bit}

pub bit-pow_le : (w k : ℕ) → bit w k ≡ true → 2 ^ k ≤ w
unfolding bit
bit-pow_le w zero h = ground arith
bit-pow_le w (suc k) h = omega (arith, bit-pow_le (w / 2) k h, two-pow-succ k)

flip-zero : (w : ℕ) → flip w zero ≡ (if w % 2 == 1 then w - 1 else w + 1)
unfolding flip bit
flip-zero w = ground arith

-- The other digits and the lowest one of a flip higher up.
pub flip-half : (w k : ℕ) → flip w (suc k) / 2 ≡ flip (w / 2) k
unfolding flip bit
flip-half w k = elim (Bool-cases (bit (w / 2) k)) [
  | inl set ↦ rw set (omega (arith, bit-pow_le (w / 2) k set, two-pow-succ k))
  | inr clear ↦ rw clear (omega (arith, two-pow-succ k))
]

pub flip-parity : (w k : ℕ) → flip w (suc k) % 2 ≡ w % 2
unfolding flip bit
flip-parity w k = elim (Bool-cases (bit (w / 2) k)) [
  | inl set ↦ rw set (omega (arith, bit-pow_le (w / 2) k set, two-pow-succ k))
  | inr clear ↦ rw clear (omega (arith, two-pow-succ k))
]

pub bit-flip : (w k j : ℕ) → bit (flip w k) j ≡ (if j == k then not (bit w k) else bit w j)
unfolding bit
bit-flip w zero zero = ground (arith, flip-zero w)
bit-flip w zero (suc j) =
    let e : flip w zero / 2 ≡ w / 2 = ground (arith, flip-zero w) in
    ap (λ t. bit t j) e ∙ ground arith
bit-flip w (suc k) zero = ground (arith, flip-parity w k)
bit-flip w (suc k) (suc j) = ap (λ t. bit t j) (flip-half w k) ∙ bit-flip (w / 2) k j ∙ ground arith

pub set_bit-clear : (w k : ℕ) → bit w k ≡ false → set_bit w k ≡ flip w k
unfolding set_bit flip
set_bit-clear w k h = rw h

flip-set : (w k : ℕ) → bit w k ≡ true → flip w k ≡ w - 2 ^ k
unfolding flip
flip-set w k h = rw h

pub flip-flip : (w k : ℕ) → bit w k ≡ true → set_bit (flip w k) k ≡ w
unfolding set_bit
flip-flip w k h =
    let cleared : bit (flip w k) k ≡ false = bit-flip w k k ∙ ground arith in
    rw cleared (omega (arith, flip-set w k h, bit-pow_le w k h))

pub flip_lt : (n w k : ℕ) → w < 2 ^ n → k < n → flip w k < 2 ^ n
flip_lt zero w k h l = absurd (omega arith)
flip_lt (suc n) w zero h l = ground (arith, flip-zero w, two-pow-succ n)
flip_lt (suc n) w (suc k) h l =
    let half = flip_lt n (w / 2) k (omega (arith, two-pow-succ n)) (omega arith) in
    omega (arith, half, flip-half w k, two-pow-succ n)

pub bit-zero : (k : ℕ) → bit 0 k ≡ false
unfolding bit
bit-zero zero = refl
bit-zero (suc k) = bit-zero k

-- A word of n digits with no digit set is 0.
pub zero_word : (n w : ℕ) → w < 2 ^ n → ((k : ℕ) → k < n → bit w k ≡ false) → w ≡ 0
unfolding bit
zero_word zero w h clear = omega arith
zero_word (suc n) w h clear =
    let half =
      zero_word n (w / 2) (omega (arith, two-pow-succ n)) (λ k l. clear (suc k) (omega arith)) in
    ground (arith, half, clear zero (omega arith))

pub bit_lt : (n w k : ℕ) → w < 2 ^ n → bit w k ≡ true → k < n
bit_lt n w k h b = elim (Bool-cases (ltb k n)) [
  | inl less ↦ ground arith
  | inr more ↦
      let le : n ≤ k = ground arith in
      let longer : 2 ^ n ≤ 2 ^ k = pow-le-pow_right (omega arith) le in
      absurd (omega (arith, bit-pow_le w k b, longer))
]

-- The search finds the lowest digit set among `n` digits from `o` on, or none of them is set.
pub lowest_bit-cases :
    (n o w : ℕ)
    → ((lowest_bit n o w ≡ none) × ((k : ℕ) → o ≤ k → k < o + n → bit w k ≡ false))
      ⊎ ((k : ℕ) × (lowest_bit n o w ≡ some k)
          × (k < o + n)
          × (bit w k ≡ true)
          × ((j : ℕ) → o ≤ j → j < k → bit w j ≡ false))
unfolding lowest_bit
lowest_bit-cases zero o w = inl (refl, λ k a b. absurd (omega arith))
lowest_bit-cases (suc n) o w = elim (Bool-cases (bit w o)) [
  | inl here ↦ inr (o, ground arith, omega arith, here, λ j a b. absurd (omega arith))
  | inr clear ↦ elim (lowest_bit-cases n (o + 1) w) [
    | inl (e, all) ↦ inl (
      ground arith,
      λ k a b. elim (Bool-cases (k == o)) [
        | inl here ↦ let e : k ≡ o = ground arith in ap (bit w) e ∙ clear
        | inr there ↦ all k (ground arith) (omega arith)
      ],
    )
    | inr (k, e, l, b, all) ↦ inr (
      k,
      ground arith,
      omega arith,
      b,
      λ j a l. elim (Bool-cases (j == o)) [
        | inl here ↦ let e : j ≡ o = ground arith in ap (bit w) e ∙ clear
        | inr there ↦ all j (ground arith) l
      ],
    )
  ]
]

-- A word of n digits is known by its digits.
pub same_word : (n w v : ℕ) → w < 2 ^ n → v < 2 ^ n → ((k : ℕ) → k < n → bit w k ≡ bit v k) → w ≡ v
unfolding bit
same_word zero w v a b e = omega arith
same_word (suc n) w v a b e =
    let half =
      same_word n (w / 2) (v / 2) (omega (arith, two-pow-succ n)) (omega (arith, two-pow-succ n))
        (λ k l. e (suc k) (omega arith)) in
    ground (arith, half, e zero (omega arith))
