-- ===== src/Bitmap/Restore.antt =====
-- A bit that is allocated and freed again (ucore_os/kern/fs/sfs/bitmap.c).
use dora_aos2019_homework.Prelude.{
  ℕ, ◌+◌, ◌<◌, ◌≡◌, refl, subst, ◌∙◌, ap, ap₂, inl, inr, some, List, [], ◌∷◌, length, ok, ◌==◌,
  arith, Bool-cases,
}
use dora_aos2019_homework.Bitmap.{Bitmap, word_bits, bitmap_alloc, bitmap_free}
use dora_aos2019_homework.Bitmap.Bits.{same_word}
use dora_aos2019_homework.Bitmap.Words.{free_at, AllWords, Taken}
use dora_aos2019_homework.Bitmap.Alloc.{IsBitmap, bitmap_alloc_lem, bitmap_free_lem}

-- As many words of 32 bits with the same bits are the same.
same_words :
    (ws vs : List ℕ)
    → AllWords ws
    → AllWords vs
    → length ws ≡ length vs
    → ((j : ℕ) → free_at ws j ≡ free_at vs j)
    → ws ≡ vs
unfolding free_at
same_words [] [] a b l e = refl
same_words [] (v ∷ vs) a b l e = absurd (omega (arith, l))
same_words (w ∷ ws) [] a b l e = absurd (omega (arith, l))
same_words (w ∷ ws) (v ∷ vs) (wl, a) (vl, b) l e =
    let head = same_word 32 w v wl vl (λ k h. ground (arith, e k)) in
    let tail = same_words ws vs a b (omega (arith, l)) (λ j. ground (arith, e (j + word_bits))) in
    ap₂ (λ x xs. x ∷ xs) head tail

same_bitmap : (b c : Bitmap) → b.nbits ≡ c.nbits → b.nwords ≡ c.nwords → b.words ≡ c.words → b ≡ c
same_bitmap b c e f g = λ k. record { nbits = e k; nwords = f k; words = g k }

given_back :
    (b b' : Bitmap) (i : ℕ)
    → IsBitmap b
    → i < b.nbits
    → IsBitmap b'
    → b'.nbits ≡ b.nbits
    → b'.nwords ≡ b.nwords
    → Taken b.words i b'.words
    → bitmap_free b' i ≡ ok b
given_back b b' i v l v' n m t = elim (bitmap_free_lem b' i v' (omega (arith, n))) [
  | inl (free, e) ↦ absurd (ground (arith, t.now i))
  | inr (used, (c, e, w, n', m', now)) ↦
      let row : (j : ℕ) → free_at c.words j ≡ free_at b.words j = λ j. elim (Bool-cases (j == i)) [
        | inl here ↦
            let j_i : j ≡ i = ground arith in ground (arith, now j, t.was, ap (free_at b.words) j_i)
        | inr there ↦ ground (arith, now j, t.now j)
      ] in
      let sizes : length c.words ≡ length b.words = omega (arith, w.size, v.size, m', m) in
      e
      ∙ ap ok
          (same_bitmap c b (n' ∙ n) (m' ∙ m) (same_words c.words b.words w.whole v.whole sizes row))
]

-- bitmap_free of the bit that bitmap_alloc has just returned gives back the bitmap as it was.
pub bitmap_free-bitmap_alloc :
    (b b' : Bitmap) (i : ℕ)
    → IsBitmap b
    → bitmap_alloc b ≡ ok (some (i, b'))
    → bitmap_free b' i ≡ ok b
bitmap_free-bitmap_alloc b b' i v e = elim (bitmap_alloc_lem b v) [
  | inl (e', clear) ↦ absurd (ground (arith, e, e'))
  | inr (i', b'', e', l, v', n, m, t) ↦
      let index : i' ≡ i = cc in
      let bitmap : b'' ≡ b' = cc in
      subst (λ i. bitmap_free b' i ≡ ok b) index
        (subst (λ x. bitmap_free x i' ≡ ok b) bitmap (given_back b b'' i' v l v' n m t))
]
