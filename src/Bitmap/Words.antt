-- ===== src/Bitmap/Words.antt =====
-- The words of a bitmap as one row of bits (ucore_os/kern/fs/sfs/bitmap.c).
use dora_aos2019_homework.Prelude.{
  ℕ, suc, ◌+◌, ◌-◌, ◌*◌, ◌^◌, ◌<◌, ◌≡◌, refl, ap, ◌≢◌, ◌⊎◌, inl, inr, Bool, true, false, not, ◌&&◌,
  none, some, List, [], ◌∷◌, length, ok, ltb, ◌==◌, if◌then◌else◌, arith, Bool-cases,
}
use dora_aos2019_homework.Bitmap.{word_bits, bit, flip, take_bit, alloc_from}
use dora_aos2019_homework.Bitmap.Bits.{bit-flip, flip_lt, bit-zero, zero_word, lowest_bit-cases}

-- Bit number `i` of the row.
unfoldable pub free_at : List ℕ → ℕ → Bool
free_at [] i = false
free_at (w ∷ ws) i = if ltb i word_bits then bit w i else free_at ws (i - word_bits)

abbrev pub AllWords : List ℕ → Type 0
AllWords [] = Unit
AllWords (w ∷ ws) = (w < 2 ^ 32) × AllWords ws

-- What the search takes: the lowest bit that is set, and nothing else changes.
pub record Taken (words : List ℕ) (i : ℕ) (words' : List ℕ) : Type 0 where
  pub was : free_at words i ≡ true
  pub lowest : (j : ℕ) → j < i → free_at words j ≡ false
  pub now : (j : ℕ) → free_at words' j ≡ (not (j == i) && free_at words j)
  pub whole : AllWords words'
  pub size : length words' ≡ length words

take_bit-Taken :
    (ix w : ℕ) (ws : List ℕ)
    → w < 2 ^ 32
    → AllWords ws
    → w ≢ 0
    → (i : ℕ) × (words' : List ℕ) × (take_bit ix w ws ≡ ok (some (ix * word_bits + i, words')))
      × Taken (w ∷ ws) i words'
unfolding take_bit free_at
take_bit-Taken ix w ws l all n = elim (lowest_bit-cases 32 0 w) [
  | inl (e, clear) ↦ absurd (n (zero_word 32 w l (λ k h. clear k (omega arith) h)))
  | inr (k, e, b, s, low) ↦ (
    k,
    flip w k ∷ ws,
    ground (arith, e),
    record {
      was = ground arith;
      lowest = λ j h. ground (arith, low j (omega arith) h);
      now = λ j. ground (arith, bit-flip w k j);
      whole = (flip_lt 32 w k l b, all);
      size = refl;
    },
  )
]

empty_word : (w : ℕ) (ws : List ℕ) → w ≡ 0 → (j : ℕ) → j < 32 → free_at (w ∷ ws) j ≡ false
unfolding free_at
empty_word w ws e j h = ground (arith, ap (λ t. bit t j) e, bit-zero j)

behind-Taken :
    (w i : ℕ) (ws ws' : List ℕ)
    → w ≡ 0
    → w < 2 ^ 32
    → Taken ws i ws'
    → Taken (w ∷ ws) (i + 32) (w ∷ ws')
unfolding free_at
behind-Taken w i ws ws' e l t = record {
  was = ground (arith, t.was);
  lowest = λ j h. elim (Bool-cases (ltb j 32)) [
    | inl here ↦ empty_word w ws e j (ground arith)
    | inr there ↦ ground (arith, t.lowest (j - 32) (ground arith))
  ];
  now = λ j. elim (Bool-cases (ltb j 32)) [
    | inl here ↦ ground (arith, ap (λ t. bit t j) e, bit-zero j)
    | inr there ↦ ground (arith, t.now (j - 32))
  ];
  whole = (l, t.whole);
  size = ap suc t.size;
}

-- The search fails exactly when no bit is set.
pub alloc_from-cases :
    (ix : ℕ) (words : List ℕ)
    → AllWords words
    → ((alloc_from ix words ≡ ok none) × ((i : ℕ) → free_at words i ≡ false))
      ⊎ ((i : ℕ) × (words' : List ℕ) × (alloc_from ix words
            ≡ ok (some (ix * word_bits + i, words')))
          × Taken words i words')
unfolding alloc_from free_at
alloc_from-cases ix [] all = inl (refl, λ i. refl)
alloc_from-cases ix (w ∷ ws) (l, all) = elim (Bool-cases (w == 0)) [
  | inr some_set ↦
      let (i, words', e, t) = take_bit-Taken ix w ws l all (λ z. ground arith) in
      inr (i, words', ground (arith, e), t)
  | inl empty ↦
      let z : w ≡ 0 = ground arith in
      elim (alloc_from-cases (ix + 1) ws all) [
        | inl (e, clear) ↦
            inl (ground (arith, e), λ i. ground (arith, empty_word w ws z i, clear (i - 32)))
        | inr (i, ws', e, t) ↦
            let place : (ix + 1) * word_bits + i ≡ ix * word_bits + (i + 32) = omega arith in
            inr (i + 32, w ∷ ws', ground (arith, e, place), behind-Taken w i ws ws' z l t)
      ]
]
