-- ===== src/Bitmap.antt =====
-- The bitmap of free disk blocks: ucore_os/kern/fs/sfs/bitmap.c. A bit that is set is free.
pub mod Bits
pub mod Words
pub mod Alloc
pub mod Restore
pub mod Create
mod Tests
use dora_aos2019_homework.Prelude.{
  ℕ, zero, suc, ◌+◌, ◌-◌, ◌*◌, ◌/◌, ◌%◌, ◌^◌, Bool, not, ◌&&◌, Option, none, some, List, [], ◌∷◌,
  Outcome, ok, panic, ◌>>=◌, ◌>>◌, assert, ltb, ◌==◌, if◌then◌else◌, get_elem?, set,
}

-- `WORD_BITS`
abbrev pub word_bits : ℕ
word_bits = 32

pub record Bitmap : Type 0 where
  pub nbits : ℕ
  pub nwords : ℕ
  pub words : List ℕ

-- `w & (1 << k)`
unfoldable pub bit : ℕ → ℕ → Bool
bit w zero = w % 2 == 1
bit w (suc k) = bit (w / 2) k

-- `w ^ (1 << k)`
unfoldable pub flip : ℕ → ℕ → ℕ
unfolding bit
flip w k = if bit w k then w - 2 ^ k else w + 2 ^ k

-- `w | (1 << k)`
unfoldable pub set_bit : ℕ → ℕ → ℕ
unfolding bit
set_bit w k = if bit w k then w else w + 2 ^ k

-- The loop over `overbits`, with the number of its rounds.
unfoldable pub flip_rest : ℕ → ℕ → ℕ → ℕ
unfolding flip
flip_rest zero overbits w = w
flip_rest (suc n) overbits w = flip_rest n (overbits + 1) (flip w overbits)

-- `memset(map, 0xFF, …)`
unfoldable pub all_ones : ℕ → List ℕ
all_ones zero = []
all_ones (suc n) = (2 ^ 32 - 1) ∷ all_ones n

-- The leftover bits of the last word; a word that is not there is a fault.
unfoldable pub mark_rest : ℕ → ℕ → List ℕ → Outcome (List ℕ)
mark_rest nbits nwords words =
    let ix = nwords - 1 in
    let overbits = nbits - ix * word_bits in
    if nbits == nwords * word_bits
    then ok words
    else assert (nbits / word_bits == ix)
      >> (assert (ltb 0 overbits && ltb overbits word_bits) >> (elim (get_elem? words ix) [
        | none ↦ panic
        | some w ↦ ok (set words ix (flip_rest (word_bits - overbits) overbits w))
      ]))

-- `made` and `map_made` say whether the two calls of kmalloc return memory; `none` is `NULL`.
unfoldable pub bitmap_create : Bool → Bool → ℕ → Outcome (Option Bitmap)
bitmap_create made map_made nbits =
    let nwords = (nbits + word_bits - 1) / word_bits in
    assert (not (nbits == 0) && ltb nbits ((nbits + word_bits) % 2 ^ 32))
    >> (if made && map_made
        then mark_rest nbits nwords (all_ones nwords)
          >>= (λ words. ok (some (record { nbits = nbits; nwords = nwords; words = words })))
        else ok none)

-- The loop over `offset`, with the number of its rounds.
unfoldable pub lowest_bit : ℕ → ℕ → ℕ → Option ℕ
unfolding bit
lowest_bit zero offset w = none
lowest_bit (suc n) offset w =
    let rest = lowest_bit n (offset + 1) w in if bit w offset then some offset else rest

-- A word that is not 0 and has no bit set would be `assert(0)`.
unfoldable pub take_bit : ℕ → ℕ → List ℕ → Outcome (Option (ℕ × List ℕ))
take_bit ix w ws = elim (lowest_bit word_bits 0 w) [
  | none ↦ panic
  | some offset ↦ ok (some (ix * word_bits + offset, flip w offset ∷ ws))
]

abbrev pub behind : ℕ → Option (ℕ × List ℕ) → Option (ℕ × List ℕ)
behind w none = none
behind w (some (index, ws)) = some (index, w ∷ ws)

-- The loop over the words, from number `ix` on.
unfoldable pub alloc_from : ℕ → List ℕ → Outcome (Option (ℕ × List ℕ))
alloc_from ix [] = ok none
alloc_from ix (w ∷ ws) =
    let rest = alloc_from (ix + 1) ws >>= (λ found. ok (behind w found)) in
    if w == 0 then rest else take_bit ix w ws

abbrev pub with_words : Bitmap → Option (ℕ × List ℕ) → Option (ℕ × Bitmap)
with_words b none = none
with_words b (some (index, words)) = some (index, record b { words = words })

-- The index and the new bitmap; `none` is -E_NO_MEM.
unfoldable pub bitmap_alloc : Bitmap → Outcome (Option (ℕ × Bitmap))
bitmap_alloc b = alloc_from 0 b.words >>= (λ found. ok (with_words b found))

-- `bitmap_translate`: the number of the word, the word, and the number of the bit in it.
unfoldable pub bitmap_translate : Bitmap → ℕ → Outcome (ℕ × ℕ × ℕ)
bitmap_translate b index =
    assert (ltb index b.nbits) >> (elim (get_elem? b.words (index / word_bits)) [
      | none ↦ panic
      | some w ↦ ok (index / word_bits, w, index % word_bits)
    ])

unfoldable pub bitmap_test : Bitmap → ℕ → Outcome Bool
bitmap_test b index = bitmap_translate b index >>= (λ (ix, w, offset). ok (bit w offset))

unfoldable pub bitmap_free : Bitmap → ℕ → Outcome Bitmap
bitmap_free b index = bitmap_translate b index >>= (λ (ix, w, offset).
    assert (not (bit w offset)) >> ok (record b { words = set b.words ix (set_bit w offset) }))

-- `bitmap_getdata`: the words and their length in bytes.
unfoldable pub bitmap_getdata : Bitmap → List ℕ × ℕ
bitmap_getdata b = (b.words, 4 * b.nwords)
