-- ===== src/Bitmap/Create.antt =====
-- A new bitmap (ucore_os/kern/fs/sfs/bitmap.c).
use dora_aos2019_homework.Prelude.{
  ℕ, zero, suc, ◌+◌, ◌-◌, ◌*◌, ◌/◌, ◌%◌, ◌^◌, ◌<◌, ◌≤◌, ◌≡◌, refl, subst, ◌∙◌, ap, ◌⊎◌, inl, inr,
  Bool, true, false, not, ◌&&◌, none, some, List, length, length-set, get_elem?, set, ok, ltb, leb,
  ◌==◌, if◌then◌else◌, arith, Bool-cases,
}
use native.Mathlib.Nat.{two-pow-succ, one-le-pow}
use dora_aos2019_homework.Bitmap.{Bitmap, bit, flip, flip_rest, all_ones, mark_rest, bitmap_create}
use dora_aos2019_homework.Bitmap.Bits.{bit-flip, flip_lt, bit-zero}
use dora_aos2019_homework.Bitmap.Words.{free_at, AllWords}
use dora_aos2019_homework.Bitmap.Alloc.{IsBitmap, AllWords-set, free_at-set}

bit-ones : (n k : ℕ) → bit (2 ^ n - 1) k ≡ ltb k n
unfolding bit
bit-ones zero k = bit-zero k ∙ ground arith
bit-ones (suc n) zero = ground (arith, two-pow-succ n, one-le-pow n 2)
bit-ones (suc n) (suc k) =
    let half : (2 ^ suc n - 1) / 2 ≡ 2 ^ n - 1 = omega (arith, two-pow-succ n, one-le-pow n 2) in
    ap (λ t. bit t k) half ∙ bit-ones n k ∙ ground arith

bit-flip_rest :
    (n o w k : ℕ)
    → bit (flip_rest n o w) k ≡ (if leb o k && ltb k (o + n) then not (bit w k) else bit w k)
unfolding flip_rest
bit-flip_rest zero o w k = ground arith
bit-flip_rest (suc n) o w k =
    let same : k ≡ o → bit w k ≡ bit w o = λ e. ap (bit w) e in
    ground (arith, bit-flip_rest n (o + 1) (flip w o) k, bit-flip w o k, same)

flip_rest_lt : (n o w : ℕ) → w < 2 ^ 32 → o + n ≤ 32 → flip_rest n o w < 2 ^ 32
unfolding flip_rest
flip_rest_lt zero o w h l = h
flip_rest_lt (suc n) o w h l =
    flip_rest_lt n (o + 1) (flip w o) (flip_lt 32 w o h (omega arith)) (omega arith)

all_ones_lem :
    (n : ℕ)
    → (length (all_ones n) ≡ n)
      × AllWords (all_ones n)
      × ((i : ℕ) → free_at (all_ones n) i ≡ ltb i (n * 32))
unfolding all_ones free_at
all_ones_lem zero = (refl, tt, λ i. ground arith)
all_ones_lem (suc n) =
    let (l, a, f) = all_ones_lem n in
    (ap suc l, (omega arith, a), λ i. ground (arith, f (i - 32), bit-ones 32 i))

get-all_ones : (n i : ℕ) → i < n → get_elem? (all_ones n) i ≡ some (2 ^ 32 - 1)
unfolding all_ones
get-all_ones zero i h = absurd (omega arith)
get-all_ones (suc n) zero h = refl
get-all_ones (suc n) (suc i) h = get-all_ones n i (omega arith)

free_at-last :
    (words : List ℕ) (ix w j : ℕ)
    → ix < length words
    → free_at (set words ix w) j ≡ (if j / 32 == ix then bit w (j % 32) else free_at words j)
free_at-last words ix w j h =
    let ix_32 : ix * 32 / 32 ≡ ix = omega arith in
    subst
      (λ x. free_at (set words x w) j ≡ (if j / 32 == x then bit w (j % 32) else free_at words j))
      ix_32 (free_at-set words (ix * 32) w j (omega (arith, h, ix_32)))

last_word :
    (overbits k : ℕ)
    → overbits ≤ 32
    → k < 32
    → bit (flip_rest (32 - overbits) overbits (2 ^ 32 - 1)) k ≡ ltb k overbits
last_word overbits k l h =
    let ones : bit (2 ^ 32 - 1) k ≡ ltb k 32 = bit-ones 32 k in
    ground (arith, bit-flip_rest (32 - overbits) overbits (2 ^ 32 - 1) k, ones)

-- The words of a new bitmap: the bits below `nbits` are set.
marked :
    (nbits nwords : ℕ)
    → 0 < nbits
    → nwords ≡ (nbits + 31) / 32
    → (words : List ℕ) × (mark_rest nbits nwords (all_ones nwords) ≡ ok words)
      × AllWords words
      × (length words ≡ nwords)
      × ((i : ℕ) → free_at words i ≡ ltb i nbits)
unfolding mark_rest
marked nbits nwords z e =
    let (l, a, f) = all_ones_lem nwords in
    let ix = nwords - 1 in
    let overbits = nbits - ix * 32 in
    let w = flip_rest (32 - overbits) overbits (2 ^ 32 - 1) in
    elim (Bool-cases (nbits == nwords * 32)) [
      | inl full ↦ (all_ones nwords, ground arith, a, l, λ i. ground (arith, f i))
      | inr over ↦
          let last = get-all_ones nwords ix (omega (arith, e)) in
          let part : overbits < 32 = ground (arith, e, over) in
          let some_left : ltb 0 overbits ≡ true = ground (arith, e, z) in
          let part_left : ltb overbits 32 ≡ true = ground arith in
          let at_ix : (nbits / 32 == ix) ≡ true = ground (arith, e, over) in
          let words' = set (all_ones nwords) ix w in
          let small =
            flip_rest_lt (32 - overbits) overbits (2 ^ 32 - 1) (omega arith)
              (omega (arith, part)) in
          (
            words',
            rw (over, at_ix, some_left, part_left, last) refl,
            AllWords-set (all_ones nwords) ix w a small,
            length-set (all_ones nwords) ix w ∙ l,
            λ i.
                free_at-last (all_ones nwords) ix w i (omega (arith, l, e, z))
                ∙ elim (Bool-cases (i / 32 == ix)) [
                  | inl here ↦
                      let word = last_word overbits (i % 32) (omega (arith, part)) (omega arith) in
                      let below : ltb (i % 32) overbits ≡ ltb i nbits = ground (arith, e, over) in
                      ground (arith, word, below)
                  | inr there ↦
                      let below : ltb i (nwords * 32) ≡ ltb i nbits = ground (arith, e, over) in
                      ground (arith, f i, below)
                ],
          )
    ]

-- bitmap_create of at least one bit, so few that their number does not wrap around, never fails an
-- assertion: it returns `NULL` exactly when memory is short, and otherwise a valid bitmap of that
-- many bits, in which exactly the bits below their number are free.
pub bitmap_create_lem :
    (made map_made : Bool) (nbits : ℕ)
    → 0 < nbits
    → nbits + 32 < 2 ^ 32
    → (((made && map_made) ≡ false) × (bitmap_create made map_made nbits ≡ ok none))
      ⊎ (((made && map_made) ≡ true)
          × ((b : Bitmap) × (bitmap_create made map_made nbits ≡ ok (some b))
              × IsBitmap b
              × (b.nbits ≡ nbits)
              × ((i : ℕ) → free_at b.words i ≡ ltb i nbits)))
unfolding bitmap_create mark_rest
bitmap_create_lem made map_made nbits z h = elim (Bool-cases (made && map_made)) [
  | inl memory ↦
      let nwords = (nbits + 31) / 32 in
      let (words, e, a, l, f) = marked nbits nwords z refl in
      let b : Bitmap = record { nbits = nbits; nwords = nwords; words = words } in
      inr (
        memory,
        (
          b,
          ground (arith, e),
          record { whole = a; size = l; room = omega arith; within = λ i g. ground (arith, f i) },
          refl,
          f,
        ),
      )
  | inr short ↦ inl (short, ground (arith, short))
]
