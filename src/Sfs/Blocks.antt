-- ===== src/Sfs/Blocks.antt =====
-- Taking and giving back blocks: sfs_block_inuse, sfs_block_alloc and sfs_block_free of
-- ucore_os/kern/fs/sfs/sfs_inode.c.
use dora_aos2019_homework.Prelude.{
  ℕ, ◌+◌, ◌-◌, ◌^◌, ◌<◌, ◌≤◌, ◌≡◌, refl, ◌⊎◌, inl, inr, Bool, true, false, not, ◌&&◌, ◌||◌, none,
  some, ltb, ◌==◌, arith, Option-cases,
}
use dora_aos2019_homework.Prelude.Int.{ℤ}
use dora_aos2019_homework.Bitmap.{Bitmap}
use dora_aos2019_homework.Bitmap.Words.{free_at, Taken}
use dora_aos2019_homework.Bitmap.Alloc.{IsBitmap, bitmap_alloc_lem, bitmap_test_lem}
use dora_aos2019_homework.Sfs.{
  Sfs, done, failed, e_no_mem, next_fault, rest_faults, write_block, dop_io, sfs_rwblock_nolock,
  sfs_clear_block, sfs_block_inuse, clear_taken, sfs_block_alloc,
}
use dora_aos2019_homework.Sfs.Counts.{count, count_without}

abbrev pub free : Sfs → ℕ → Bool
free s i = free_at s.freemap.words i

-- The free blocks are blocks of the disk but for the superblock, and `unused_blocks` counts them.
pub record IsSfs (s : Sfs) : Type 0 where
  pub map : IsBitmap s.freemap
  pub room : s.blocks ≤ s.freemap.nbits
  pub small : s.freemap.nbits < 2 ^ 32
  pub inside : (i : ℕ) → free s i ≡ true → (0 < i) × (i < s.blocks)
  pub counted : s.unused_blocks ≡ count (free s) s.freemap.nbits

pub record Used (s : Sfs) (i : ℕ) : Type 0 where
  pub above : 0 < i
  pub below : i < s.blocks
  pub busy : free s i ≡ false

-- Block `i` is taken in `s'`, and no other block is taken or given back.
pub record BlockTaken (s : Sfs) (i : ℕ) (s' : Sfs) : Type 0 where
  pub valid : IsSfs s'
  pub was : free s i ≡ true
  pub lowest : (j : ℕ) → j < i → free s j ≡ false
  pub now : (j : ℕ) → free s' j ≡ (not (j == i) && free s j)
  pub counter : s.unused_blocks ≡ s'.unused_blocks + 1
  pub blocks : s'.blocks ≡ s.blocks

pub sfs_block_inuse_lem :
    (s : Sfs) (i : ℕ)
    → IsSfs s
    → 0 < i
    → i < s.blocks
    → sfs_block_inuse i s ≡ done (not (free s i)) s
unfolding sfs_block_inuse
sfs_block_inuse_lem s i v z l =
    let inside : (not (i == 0) && ltb i s.blocks) ≡ true = ground arith in
    rw (inside, bitmap_test_lem s.freemap i v.map (omega (arith, v.room))) refl

-- How a transfer of one block goes.
pub rwblock_lem :
    (buf : ℕ → ℕ) (i : ℕ) (write : Bool) (s : Sfs)
    → 0 < i
    → i < s.blocks
    → sfs_rwblock_nolock buf i write true s ≡ dop_io buf i write s
unfolding sfs_rwblock_nolock
rwblock_lem buf i write s z l =
    let inside : ((not (i == 0) || not true) && ltb i s.blocks) ≡ true = ground arith in
    rw inside refl

-- The state once a transfer has been tried.
abbrev pub tried : Sfs → Sfs
tried s = record s { faults = rest_faults s.faults }

pub write_lem :
    (buf : ℕ → ℕ) (i : ℕ) (s : Sfs)
    → next_fault s.faults ≡ none
    → dop_io buf i true s ≡ done buf (record (tried s) { disk = write_block i buf s.disk })
unfolding dop_io
write_lem buf i s e = rw (dop_io, e) refl

pub read_lem :
    (buf : ℕ → ℕ) (i : ℕ) (s : Sfs)
    → next_fault s.faults ≡ none
    → dop_io buf i false s ≡ done (s.disk i) (tried s)
unfolding dop_io
read_lem buf i s e = rw (dop_io, e) refl

pub fault_lem :
    (buf : ℕ → ℕ) (i : ℕ) (write : Bool) (s : Sfs) {e : ℤ}
    → next_fault s.faults ≡ some e
    → dop_io buf i write s ≡ failed e (tried s)
unfolding dop_io
fault_lem buf i write s e = rw (dop_io, e) refl

-- The state once bitmap_alloc has returned `i` and the new bitmap.
abbrev pub taken_state : Sfs → Bitmap → Sfs
taken_state s b = record s {
  unused_blocks = s.unused_blocks - 1;
  super_dirty = true;
  freemap = b;
  faults = rest_faults s.faults;
}

taken_state-BlockTaken :
    (s : Sfs) (i : ℕ) (b : Bitmap) (d : ℕ → ℕ → ℕ)
    → IsSfs s
    → i < s.freemap.nbits
    → IsBitmap b
    → b.nbits ≡ s.freemap.nbits
    → Taken s.freemap.words i b.words
    → BlockTaken s i (record (taken_state s b) { disk = d })
taken_state-BlockTaken s i b d v l w n t =
    let counts = count_without (free s) (free_at b.words) i s.freemap.nbits l t.was t.now in
    record {
      valid = record {
        map = w;
        room = omega (arith, v.room, n);
        small = omega (arith, v.small, n);
        inside = λ j h. v.inside j (ground (arith, t.now j));
        counted = rw n (omega (arith, counts, v.counted));
      };
      was = t.was;
      lowest = t.lowest;
      now = t.now;
      counter = omega (arith, counts, v.counted);
      blocks = refl;
    }

-- The rest of sfs_block_alloc: only the transfer can fail.
clear_taken_lem :
    (s : Sfs) (i : ℕ) (b : Bitmap)
    → IsSfs s
    → i < s.freemap.nbits
    → IsBitmap b
    → b.nbits ≡ s.freemap.nbits
    → Taken s.freemap.words i b.words
    → clear_taken i (record s { freemap = b }) ≡ (elim (next_fault s.faults) [
      | some e ↦ failed e (taken_state s b)
      | none ↦ done i (record (taken_state s b) { disk = write_block i (λ _. 0) s.disk })
    ])
unfolding clear_taken sfs_clear_block
clear_taken_lem s i b v l w n t =
    let taken = taken_state-BlockTaken s i b s.disk v l w n t in
    let s1 : Sfs = record s {
      unused_blocks = s.unused_blocks - 1;
      super_dirty = true;
      freemap = b;
    } in
    let s1-IsSfs : IsSfs s1 = record {
      map = w;
      room = taken.valid.room;
      small = taken.valid.small;
      inside = taken.valid.inside;
      counted = taken.valid.counted;
    } in
    let (z, below) = v.inside i t.was in
    let enough : ltb 0 s.unused_blocks ≡ true = ground (arith, taken.counter) in
    let busy : not (free s1 i) ≡ true = ground (arith, t.now i) in
    rw
      (
        enough,
        sfs_block_inuse_lem s1 i s1-IsSfs z below,
        busy,
        rwblock_lem (λ _. 0) i true s1 z below,
      )
      (elim (Option-cases (next_fault s.faults)) [
        | inl e ↦ rw (write_lem (λ _. 0) i s1 e, e) refl
        | inr (f, e) ↦ rw (fault_lem (λ _. 0) i true s1 e, e) refl
      ])

-- sfs_block_alloc on a valid file system never panics. It fails with -E_NO_MEM and changes nothing
-- when no block is free. Otherwise it takes the lowest free block, counts it, and leaves the file
-- system valid: it returns that block, and the block on the disk is all zeros, when the device takes
-- the transfer; it returns the error of the device, with the block taken all the same, when it does not.
pub sfs_block_alloc_lem :
    (s : Sfs)
    → IsSfs s
    → ((sfs_block_alloc s ≡ failed e_no_mem s) × ((i : ℕ) → free s i ≡ false))
      ⊎ ((i : ℕ) × (s' : Sfs) × BlockTaken s i s'
          × (((next_fault s.faults ≡ none)
                × (sfs_block_alloc s ≡ done i s')
                × (s'.disk ≡ write_block i (λ _. 0) s.disk)
                × (s'.faults ≡ rest_faults s.faults))
              ⊎ ((e : ℤ) × (next_fault s.faults ≡ some e)
                  × (sfs_block_alloc s ≡ failed e s')
                  × (s'.disk ≡ s.disk)
                  × (s'.faults ≡ rest_faults s.faults))))
unfolding sfs_block_alloc
sfs_block_alloc_lem s v = elim (bitmap_alloc_lem s.freemap v.map) [
  | inl (e, clear) ↦ inl (rw e refl, clear)
  | inr (i, b, e, l, w, n, m, t) ↦
      let taken = clear_taken_lem s i b v l w n t in
      let d = write_block i (λ _. 0) s.disk in
      elim (Option-cases (next_fault s.faults)) [
        | inl quiet ↦ inr (
          i,
          record (taken_state s b) { disk = d },
          taken_state-BlockTaken s i b d v l w n t,
          inl (quiet, rw (e, taken, quiet) refl, refl, refl),
        )
        | inr (f, fault) ↦ inr (
          i,
          taken_state s b,
          taken_state-BlockTaken s i b s.disk v l w n t,
          inr (f, fault, rw (e, taken, fault) refl, refl, refl),
        )
      ]
]
