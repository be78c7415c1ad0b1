-- ===== src/Bitmap/Tests.antt =====
-- A bitmap of one word of ucore_os/kern/fs/sfs/bitmap.c, in which bits 1 and 2 are free.
use dora_aos2019_homework.Prelude.{
  ℕ, ◌<◌, ◌≡◌, refl, ◌⊎◌, true, false, ◌&&◌, none, some, [], ◌∷◌, ok, ltb, arith,
}
use dora_aos2019_homework.Bitmap.{
  Bitmap, flip, lowest_bit, take_bit, alloc_from, bitmap_create, bitmap_alloc, bitmap_free,
}
use dora_aos2019_homework.Bitmap.Words.{free_at, Taken}
use dora_aos2019_homework.Bitmap.Alloc.{IsBitmap, bitmap_alloc_lem}
use dora_aos2019_homework.Bitmap.Create.{bitmap_create_lem}
use dora_aos2019_homework.Bitmap.Restore.{bitmap_free-bitmap_alloc}

abbrev two_free : Bitmap
two_free = record { nbits = 32; nwords = 1; words = 6 ∷ [] }

abbrev one_free : Bitmap
one_free = record { nbits = 32; nwords = 1; words = 4 ∷ [] }

two_free-IsBitmap : IsBitmap two_free
unfolding free_at
two_free-IsBitmap = record {
  whole = (omega arith, tt);
  size = refl;
  room = omega arith;
  within = λ i h. ground arith;
}

bit_one_taken : bitmap_alloc two_free ≡ ok (some (1, one_free))
unfolding bitmap_alloc alloc_from take_bit lowest_bit flip
bit_one_taken = refl

bitmap_alloc_lem_example :
    ((bitmap_alloc two_free ≡ ok none) × ((i : ℕ) → free_at (6 ∷ []) i ≡ false))
    ⊎ ((i : ℕ) × (b' : Bitmap) × (bitmap_alloc two_free ≡ ok (some (i, b')))
        × (i < 32)
        × IsBitmap b'
        × (b'.nbits ≡ 32)
        × (b'.nwords ≡ 1)
        × Taken (6 ∷ []) i b'.words)
bitmap_alloc_lem_example = bitmap_alloc_lem two_free two_free-IsBitmap

bitmap_free-bitmap_alloc_example : bitmap_free one_free 1 ≡ ok two_free
bitmap_free-bitmap_alloc_example =
    bitmap_free-bitmap_alloc two_free one_free 1 two_free-IsBitmap bit_one_taken

bitmap_create_lem_example :
    (((true && true) ≡ false) × (bitmap_create true true 40 ≡ ok none))
    ⊎ (((true && true) ≡ true)
        × ((b : Bitmap) × (bitmap_create true true 40 ≡ ok (some b))
            × IsBitmap b
            × (b.nbits ≡ 40)
            × ((i : ℕ) → free_at b.words i ≡ ltb i 40)))
bitmap_create_lem_example = bitmap_create_lem true true 40 (omega arith) (omega arith)
