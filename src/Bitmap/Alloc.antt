-- ===== src/Bitmap/Alloc.antt =====
-- What the operations of ucore_os/kern/fs/sfs/bitmap.c do to the set of free bits.
use dora_aos2019_homework.Prelude.{
  ℕ, zero, suc, ◌+◌, ◌-◌, ◌*◌, ◌/◌, ◌%◌, ◌^◌, ◌<◌, ◌≤◌, ◌≡◌, refl, sym, subst, ◌∙◌, ap, ◌⊎◌, inl,
  inr, true, false, not, ◌||◌, none, some, List, [], ◌∷◌, length, length-set, get_elem?, set, ok,
  panic, ltb, ◌==◌, if◌then◌else◌, arith, Bool-cases,
}
use dora_aos2019_homework.Bitmap.{
  Bitmap, word_bits, bit, set_bit, bitmap_alloc, bitmap_translate, bitmap_test, bitmap_free,
}
use dora_aos2019_homework.Bitmap.Bits.{bit-flip, set_bit-clear, flip_lt}
use dora_aos2019_homework.Bitmap.Words.{free_at, AllWords, Taken, alloc_from-cases}

-- The words are words of 32 bits and hold all the bits; none behind them is free.
pub record IsBitmap (b : Bitmap) : Type 0 where
  pub whole : AllWords b.words
  pub size : length b.words ≡ b.nwords
  pub room : b.nbits ≤ b.nwords * word_bits
  pub within : (i : ℕ) → free_at b.words i ≡ true → i < b.nbits

-- bitmap_alloc never fails an assertion on a valid bitmap. A bit that is 1 is free, and is cleared when it
-- is taken (the comments of bitmap.c and bitmap.h have it the other way round). It returns -E_NO_MEM
-- exactly when no bit is free; otherwise it takes and returns the lowest free bit, which is one of the
-- bitmap's, and no other bit changes. The bitmap stays valid.
pub bitmap_alloc_lem :
    (b : Bitmap)
    → IsBitmap b
    → ((bitmap_alloc b ≡ ok none) × ((i : ℕ) → free_at b.words i ≡ false))
      ⊎ ((i : ℕ) × (b' : Bitmap) × (bitmap_alloc b ≡ ok (some (i, b')))
          × (i < b.nbits)
          × IsBitmap b'
          × (b'.nbits ≡ b.nbits)
          × (b'.nwords ≡ b.nwords)
          × Taken b.words i b'.words)
unfolding bitmap_alloc
bitmap_alloc_lem b v = elim (alloc_from-cases 0 b.words v.whole) [
  | inl (e, clear) ↦ inl (rw e, clear)
  | inr (i, words', e, t) ↦
      let lt = v.within i t.was in
      let first : 0 * word_bits + i ≡ i = omega arith in
      inr (
        i,
        record b { words = words' },
        rw (e, first),
        lt,
        record {
          whole = t.whole;
          size = t.size ∙ v.size;
          room = v.room;
          within = λ j h. v.within j (ground (arith, t.now j));
        },
        refl,
        refl,
        t,
      )
]

word_at :
    (words : List ℕ) (i : ℕ)
    → i / word_bits < length words
    → (w : ℕ) × (get_elem? words (i / word_bits) ≡ some w)
      × (free_at words i ≡ bit w (i % word_bits))
unfolding free_at
word_at [] i h = absurd (ground arith)
word_at (w ∷ ws) i h = elim (Bool-cases (ltb i word_bits)) [
  | inl here ↦
      let e : i / word_bits ≡ zero = ground arith in
      let r : i % word_bits ≡ i = ground arith in (w, ap (get_elem? (w ∷ ws)) e, rw (here, r) refl)
  | inr there ↦
      let e : i / word_bits ≡ suc ((i - word_bits) / word_bits) = ground arith in
      let r : i % word_bits ≡ (i - word_bits) % word_bits = ground arith in
      let (v, g, f) = word_at ws (i - word_bits) (ground arith) in
      (v, ap (get_elem? (w ∷ ws)) e ∙ g, rw (there, r) f)
]

pub free_at-set :
    (words : List ℕ) (i w j : ℕ)
    → i / word_bits < length words
    → free_at (set words (i / word_bits) w) j
      ≡ (if j / word_bits == i / word_bits then bit w (j % word_bits) else free_at words j)
unfolding free_at
free_at-set [] i w j h = absurd (ground arith)
free_at-set (x ∷ ws) i w j h = elim (Bool-cases (ltb i word_bits)) [
  | inl here ↦
      let e : i / word_bits ≡ zero = ground arith in
      let first : free_at (set (x ∷ ws) (i / word_bits) w) j ≡ free_at (w ∷ ws) j =
        ap (λ t. free_at (set (x ∷ ws) t w) j) e in
      first ∙ elim (Bool-cases (ltb j word_bits)) [
        | inl near ↦
            let r : j % word_bits ≡ j = ground arith in
            let same : (j / word_bits == i / word_bits) ≡ true = ground arith in
            ground (arith, ap (bit w) r, same)
        | inr far ↦
            let apart : (j / word_bits == i / word_bits) ≡ false = ground arith in
            ground (arith, apart)
      ]
  | inr there ↦
      let e : i / word_bits ≡ suc ((i - word_bits) / word_bits) = ground arith in
      let rest = set ws ((i - word_bits) / word_bits) w in
      let later : free_at (set (x ∷ ws) (i / word_bits) w) j ≡ free_at (x ∷ rest) j =
        ap (λ t. free_at (set (x ∷ ws) t w) j) e in
      later ∙ elim (Bool-cases (ltb j word_bits)) [
        | inl near ↦
            let apart : (j / word_bits == i / word_bits) ≡ false = ground arith in
            ground (arith, apart)
        | inr far ↦
            let r : (j - word_bits) % word_bits ≡ j % word_bits = ground arith in
            let same : ((j - word_bits) / word_bits == (i - word_bits) / word_bits)
                ≡ (j / word_bits == i / word_bits) =
              ground arith in
            ground (arith, free_at-set ws (i - word_bits) w (j - word_bits), ap (bit w) r, same)
      ]
]

pub AllWords-set :
    (words : List ℕ) (ix w : ℕ) → AllWords words → w < 2 ^ 32 → AllWords (set words ix w)
AllWords-set [] ix w all l = tt
AllWords-set (x ∷ ws) zero w (h, all) l = (l, all)
AllWords-set (x ∷ ws) (suc ix) w (h, all) l = (h, AllWords-set ws ix w all l)

AllWords-get :
    (words : List ℕ) (ix : ℕ) {w : ℕ} → AllWords words → get_elem? words ix ≡ some w → w < 2 ^ 32
AllWords-get [] ix all e = absurd (ground arith)
AllWords-get (x ∷ ws) zero (h, all) e = ground arith
AllWords-get (x ∷ ws) (suc ix) (h, all) e = AllWords-get ws ix all e

-- Where an index of the bitmap stands.
bitmap_translate_lem :
    (b : Bitmap) (i : ℕ)
    → IsBitmap b
    → i < b.nbits
    → (w : ℕ) × (bitmap_translate b i ≡ ok (i / word_bits, w, i % word_bits))
      × (free_at b.words i ≡ bit w (i % word_bits))
      × (w < 2 ^ 32)
      × (get_elem? b.words (i / word_bits) ≡ some w)
unfolding bitmap_translate
bitmap_translate_lem b i v l =
    let (w, g, f) = word_at b.words i (omega (arith, v.size, v.room)) in
    (w, ground (arith, g), f, AllWords-get b.words (i / word_bits) v.whole g, g)

-- bitmap_test of an index of the bitmap tells whether that bit is free.
pub bitmap_test_lem :
    (b : Bitmap) (i : ℕ) → IsBitmap b → i < b.nbits → bitmap_test b i ≡ ok (free_at b.words i)
unfolding bitmap_test
bitmap_test_lem b i v l = let (w, e, f, h, g) = bitmap_translate_lem b i v l in rw e (ap ok (sym f))

-- The row of bits once bit `i` is set in its word `w`.
set_free :
    (b : Bitmap) (i w : ℕ)
    → IsBitmap b
    → i < b.nbits
    → get_elem? b.words (i / word_bits) ≡ some w
    → bit w (i % word_bits) ≡ false
    → (j : ℕ)
    → free_at (set b.words (i / word_bits) (set_bit w (i % word_bits))) j
      ≡ (j == i || free_at b.words j)
set_free b i w v l g clear j =
    let o = i % word_bits in
    let inside : i / word_bits < length b.words = omega (arith, v.size, v.room) in
    free_at-set b.words i (set_bit w o) j inside
    ∙ elim (Bool-cases (j / word_bits == i / word_bits)) [
      | inl near ↦
          let same : j / word_bits ≡ i / word_bits = ground arith in
          let (x, gx, f) = word_at b.words j (omega (arith, same, inside)) in
          let x_w : some x ≡ some w = sym gx ∙ ap (get_elem? b.words) same ∙ g in
          let old : free_at b.words j ≡ bit w (j % word_bits) = ground (arith, f, x_w) in
          let flipped : bit (set_bit w o) (j % word_bits)
              ≡ (if j % word_bits == o then not (bit w o) else bit w (j % word_bits)) =
            ap (λ t. bit t (j % word_bits)) (set_bit-clear w o clear)
            ∙ bit-flip w o (j % word_bits) in
          let index : (j % word_bits == o) ≡ (j == i) = ground arith in
          ground (arith, flipped, old, index)
      | inr far ↦ let other : (j == i) ≡ false = ground arith in ground (arith, other)
    ]

-- bitmap_free of a bit of the bitmap that is not free makes it free and changes no other bit; of a bit
-- that is free already it panics. The bitmap stays valid.
pub bitmap_free_lem :
    (b : Bitmap) (i : ℕ)
    → IsBitmap b
    → i < b.nbits
    → ((free_at b.words i ≡ true) × (bitmap_free b i ≡ panic))
      ⊎ ((free_at b.words i ≡ false)
          × ((b' : Bitmap) × (bitmap_free b i ≡ ok b')
              × IsBitmap b'
              × (b'.nbits ≡ b.nbits)
              × (b'.nwords ≡ b.nwords)
              × ((j : ℕ) → free_at b'.words j ≡ (j == i || free_at b.words j))))
unfolding bitmap_free
bitmap_free_lem b i v l =
    let (w, e, f, h, g) = bitmap_translate_lem b i v l in
    let o = i % word_bits in
    elim (Bool-cases (free_at b.words i)) [
      | inl free ↦
          let set_already : bit w o ≡ true = sym f ∙ free in inl (free, rw (e, set_already))
      | inr used ↦
          let clear : bit w o ≡ false = sym f ∙ used in
          let words' = set b.words (i / word_bits) (set_bit w o) in
          let now = set_free b i w v l g clear in
          let small : set_bit w o < 2 ^ 32 =
            subst (λ x. x < 2 ^ 32) (sym (set_bit-clear w o clear))
              (flip_lt 32 w o h (omega arith)) in
          inr (
            used,
            (
              record b { words = words' },
              rw (e, clear),
              record {
                whole = AllWords-set b.words (i / word_bits) (set_bit w o) v.whole small;
                size = length-set b.words (i / word_bits) (set_bit w o) ∙ v.size;
                room = v.room;
                within = λ j g. elim (Bool-cases (j == i)) [
                  | inl here ↦ ground arith
                  | inr there ↦ v.within j (ground (arith, now j))
                ];
              },
              refl,
              refl,
              now,
            ),
          )
    ]
