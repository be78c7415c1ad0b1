-- ===== src/Sfs/Extends.antt =====
-- What an operation of ucore_os/kern/fs/sfs/sfs_inode.c that takes blocks leaves as it was.
use dora_aos2019_homework.Prelude.{
  ℕ, ◌+◌, ◌%◌, ◌^◌, ◌<◌, ◌≡◌, refl, sym, ◌∙◌, ap, ◌⊎◌, inl, inr, Bool, true, false, not, ◌&&◌, ◌||◌,
  Option, none, some, List, [], ◌∷◌, ◌==◌, if◌then◌else◌, arith, Bool-cases,
}
use dora_aos2019_homework.Prelude.Int.{ℤ}
use dora_aos2019_homework.Bitmap.{Bitmap}
use dora_aos2019_homework.Bitmap.Words.{free_at}
use dora_aos2019_homework.Bitmap.Alloc.{IsBitmap, bitmap_free_lem}
use dora_aos2019_homework.Sfs.{
  Sfs, done, stop, next_fault, rest_faults, sfs_block_alloc, sfs_block_free,
}
use dora_aos2019_homework.Sfs.Posts.{Post}
use dora_aos2019_homework.Sfs.Counts.{count_le, count_none, count_without}
use dora_aos2019_homework.Sfs.Blocks.{
  free, IsSfs, Used, BlockTaken, sfs_block_inuse_lem, sfs_block_alloc_lem,
}

-- Block `i` is given back in `s'`, and nothing else changes.
pub record Given (s : Sfs) (i : ℕ) (s' : Sfs) : Type 0 where
  pub valid : IsSfs s'
  pub now : (j : ℕ) → free s' j ≡ (j == i || free s j)
  pub counter : s'.unused_blocks ≡ s.unused_blocks + 1
  pub blocks : s'.blocks ≡ s.blocks
  pub disk : s'.disk ≡ s.disk
  pub faults : s'.faults ≡ s.faults

block_free-Given :
    (s : Sfs) (i : ℕ) (b : Bitmap)
    → IsSfs s
    → Used s i
    → IsBitmap b
    → b.nbits ≡ s.freemap.nbits
    → ((j : ℕ) → free_at b.words j ≡ (j == i || free s j))
    → Given s i (record s {
      freemap = b;
      unused_blocks = (s.unused_blocks + 1) % 2 ^ 32;
      super_dirty = true;
    })
block_free-Given s i b v u w n now =
    let l : i < s.freemap.nbits = omega (arith, u.below, v.room) in
    let new : free_at b.words i ≡ true = ground (arith, now i) in
    let busy = u.busy in
    let old : (j : ℕ) → free s j ≡ (not (j == i) && free_at b.words j) = λ j.
      elim (Bool-cases (j == i)) [
        | inl here ↦ let j_i : j ≡ i = ground arith in ap (free s) j_i ∙ busy ∙ ground arith
        | inr there ↦ ground (arith, now j)
      ] in
    let counts = count_without (free_at b.words) (free s) i s.freemap.nbits l new old in
    let le = count_le (free_at b.words) s.freemap.nbits in
    let sum : (s.unused_blocks + 1) % 2 ^ 32 ≡ s.unused_blocks + 1 =
      omega (arith, counts, le, v.small, v.counted) in
    record {
      valid = record {
        map = w;
        room = omega (arith, v.room, n);
        small = omega (arith, v.small, n);
        inside = λ j h. elim (Bool-cases (j == i)) [
          | inl here ↦
              let j_i : j ≡ i = ground arith in (omega (arith, u.above), omega (arith, u.below))
          | inr there ↦ v.inside j (ground (arith, now j))
        ];
        counted = rw n (omega (arith, counts, sum, v.counted));
      };
      now = now;
      counter = sum;
      blocks = refl;
      disk = refl;
      faults = refl;
    }

-- sfs_block_free of a block of the disk on a valid file system makes the block free when it is in use,
-- counts it, changes no other block and leaves the file system valid; it panics when the block is free.
pub sfs_block_free_lem :
    (s : Sfs) (i : ℕ)
    → IsSfs s
    → 0 < i
    → i < s.blocks
    → ((free s i ≡ false) × ((s' : Sfs) × (sfs_block_free i s ≡ done tt s') × Given s i s'))
      ⊎ ((free s i ≡ true) × (sfs_block_free i s ≡ stop))
unfolding sfs_block_free
sfs_block_free_lem s i v z l =
    let inuse = sfs_block_inuse_lem s i v z l in
    elim (bitmap_free_lem s.freemap i v.map (omega (arith, l, v.room))) [
      | inl (idle, e) ↦ inr (idle, rw (inuse, idle) refl)
      | inr (busy, (b, e, w, n, m, now)) ↦
          let u : Used s i = record { above = z; below = l; busy = busy } in
          let s' : Sfs = record s {
            freemap = b;
            unused_blocks = (s.unused_blocks + 1) % 2 ^ 32;
            super_dirty = true;
          } in
          inl (busy, (s', rw (inuse, busy, e) refl, block_free-Given s i b v u w n now))
    ]

abbrev pub faulty : List (Option ℤ) → Bool
faulty [] = false
faulty (none ∷ fs) = faulty fs
faulty (some e ∷ fs) = true

pub faulty-rest : (fs : List (Option ℤ)) → faulty (rest_faults fs) ≡ true → faulty fs ≡ true
faulty-rest [] h = h
faulty-rest (none ∷ fs) h = h
faulty-rest (some e ∷ fs) h = refl

pub faulty-next : (fs : List (Option ℤ)) {e : ℤ} → next_fault fs ≡ some e → faulty fs ≡ true
faulty-next [] h = cc
faulty-next (none ∷ fs) h = cc
faulty-next (some e ∷ fs) h = refl

-- The blocks in use stay in use, with what is in them.
pub record Extends (s s' : Sfs) : Type 0 where
  pub valid : IsSfs s'
  pub blocks : s'.blocks ≡ s.blocks
  pub taken : (j : ℕ) → free s' j ≡ true → free s j ≡ true
  pub disk : (b : ℕ) → free s b ≡ false → (i : ℕ) → s'.disk b i ≡ s.disk b i
  pub faults : faulty s'.faults ≡ true → faulty s.faults ≡ true

pub Extends-busy : (s s' : Sfs) → Extends s s' → (b : ℕ) → free s b ≡ false → free s' b ≡ false
Extends-busy s s' x b h = elim (Bool-cases (free s' b)) [
  | inl idle ↦ absurd (ground (arith, x.taken b))
  | inr busy ↦ busy
]

pub Extends-trans : {s s' s'' : Sfs} → Extends s s' → Extends s' s'' → Extends s s''
Extends-trans {s} {s'} {s''} x y = record {
  valid = y.valid;
  blocks = y.blocks ∙ x.blocks;
  taken = λ j h. x.taken j (y.taken j h);
  disk = λ b h i. y.disk b (Extends-busy s s' x b h) i ∙ x.disk b h i;
  faults = λ h. x.faults (y.faults h);
}

pub Extends-refl : {s : Sfs} → IsSfs s → Extends s s
Extends-refl v = record {
  valid = v;
  blocks = refl;
  taken = λ j h. h;
  disk = λ b h i. refl;
  faults = λ h. h;
}

-- Why an operation that takes up to `n` blocks fails.
abbrev pub Short : ℕ → Sfs → Type 0
Short n s = (faulty s.faults ≡ true) ⊎ (s.unused_blocks < n)

-- A new block `i` of zeros.
pub record New (s : Sfs) (i : ℕ) (s' : Sfs) : Type 0 where
  pub extends : Extends s s'
  pub was : free s i ≡ true
  pub used : Used s' i
  pub zeros : (k : ℕ) → s'.disk i k ≡ 0
  pub counter : s.unused_blocks ≡ s'.unused_blocks + 1

BlockTaken-Extends :
    (s s' : Sfs) (i : ℕ)
    → BlockTaken s i s'
    → ((b : ℕ) → free s b ≡ false → (k : ℕ) → s'.disk b k ≡ s.disk b k)
    → s'.faults ≡ rest_faults s.faults
    → Extends s s'
BlockTaken-Extends s s' i t d f = record {
  valid = t.valid;
  blocks = t.blocks;
  taken = λ j h. ground (arith, t.now j);
  disk = d;
  faults = λ h. faulty-rest s.faults (sym (ap faulty f) ∙ h);
}

pub block_alloc-Post :
    (s : Sfs)
    → IsSfs s
    → Post (λ i s'. New s i s') (λ s'. Extends s s' × Short 1 s) (sfs_block_alloc s)
block_alloc-Post s v = elim (sfs_block_alloc_lem s v) [
  | inl (e, clear) ↦
      rw e
        (Extends-refl v, inr (omega (arith, v.counted, count_none (free s) s.freemap.nbits clear)))
  | inr (i, s', t, inl (quiet, e, d, f)) ↦
      let zeroed : (b k : ℕ) → s'.disk b k ≡ (if b == i then 0 else s.disk b k) =
        λ b k. ap (λ x. x b k) d in
      let other : (b : ℕ) → free s b ≡ false → (k : ℕ) → s'.disk b k ≡ s.disk b k = λ b h k.
        elim (Bool-cases (b == i)) [
          | inl here ↦
              let b_i : b ≡ i = ground arith in absurd (ground (arith, ap (free s) b_i, t.was))
          | inr there ↦ ground (arith, zeroed b k)
        ] in
      let (z, l) = v.inside i t.was in
      rw e (record {
        extends = BlockTaken-Extends s s' i t other f;
        was = t.was;
        used = record {
          above = z;
          below = omega (arith, l, t.blocks);
          busy = ground (arith, t.now i);
        };
        zeros = λ k. ground (arith, zeroed i k);
        counter = t.counter;
      })
  | inr (i, s', t, inr (x, fault, e, d, f)) ↦
      let same : (b : ℕ) → free s b ≡ false → (k : ℕ) → s'.disk b k ≡ s.disk b k =
        λ b h k. ap (λ x. x b k) d in
      rw e (BlockTaken-Extends s s' i t same f, inl (faulty-next s.faults fault))
]

-- A block that was not in use before `s` is given back.
pub block_free-Post :
    (s0 s : Sfs) (i : ℕ)
    → Extends s0 s
    → free s0 i ≡ true
    → Used s i
    → Post (λ _ s'. Extends s0 s') (λ _. ⊥) (sfs_block_free i s)
block_free-Post s0 s i x idle u = elim (sfs_block_free_lem s i x.valid u.above u.below) [
  | inl (busy, (s', e, g)) ↦ rw e (record {
    valid = g.valid;
    blocks = g.blocks ∙ x.blocks;
    taken = λ j h. elim (Bool-cases (j == i)) [
      | inl here ↦ let j_i : j ≡ i = ground arith in ap (free s0) j_i ∙ idle
      | inr there ↦ x.taken j (ground (arith, g.now j))
    ];
    disk = λ b h k. ap (λ d. d b k) g.disk ∙ x.disk b h k;
    faults = λ h. x.faults (sym (ap faulty g.faults) ∙ h);
  })
  | inr (free, e) ↦ absurd (ground (arith, u.busy))
]
