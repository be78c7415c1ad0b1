-- ===== src/Sfs/Tests.antt =====
-- A file system of 32 blocks, with blocks 5, 6 and 7 free, and a file in blocks 3 and 4
-- (ucore_os/kern/fs/sfs/sfs_inode.c).
use dora_aos2019_homework.Prelude.{
  ℕ, zero, suc, ◌+◌, ◌<◌, ◌≡◌, refl, sym, subst, ◌⊎◌, inl, inr, true, false, none, some, List, [],
  ◌∷◌, get_elem?, ◌==◌, if◌then◌else◌, arith, Bool-cases,
}
use dora_aos2019_homework.Prelude.Int.{ℤ, negsuc}
use dora_aos2019_homework.Bitmap.{Bitmap, bit}
use dora_aos2019_homework.Bitmap.Words.{free_at}
use dora_aos2019_homework.Sfs.{
  Sfs, Inode, done, failed, stop, e_no_mem, next_fault, rest_faults, write_block, sfs_block_alloc,
  sfs_block_free, sfs_bmap_get_nolock, sfs_bmap_truncate_nolock,
}
use dora_aos2019_homework.Sfs.Posts.{Post}
use dora_aos2019_homework.Sfs.Counts.{count}
use dora_aos2019_homework.Sfs.Blocks.{free, IsSfs, Used, BlockTaken, sfs_block_alloc_lem}
use dora_aos2019_homework.Sfs.Extends.{faulty, Extends, Short, Given, sfs_block_free_lem}
use dora_aos2019_homework.Sfs.Maps.{or_none, mapped, InodeIn}
use dora_aos2019_homework.Sfs.Grown.{Gets}
use dora_aos2019_homework.Sfs.Grow.{sfs_bmap_get_nolock_lem}
use dora_aos2019_homework.Sfs.Shrunk.{Removed}
use dora_aos2019_homework.Sfs.Truncate.{sfs_bmap_truncate_nolock_lem}

abbrev map_of_three : Bitmap
map_of_three = record { nbits = 32; nwords = 1; words = 224 ∷ [] }

abbrev small_disk : Sfs
small_disk = record {
  blocks = 32;
  unused_blocks = 3;
  super_dirty = false;
  freemap = map_of_three;
  disk = λ b i. 0;
  faults = none ∷ some (negsuc 2) ∷ [];
}

free_blocks-bounds : (i : ℕ) → free_at (224 ∷ []) i ≡ true → (0 < i) × (i < 32)
unfolding free_at bit
free_blocks-bounds zero h = absurd (ground arith)
free_blocks-bounds (suc i) h = (omega arith, ground arith)

small_disk-IsSfs : IsSfs small_disk
unfolding count free_at bit
small_disk-IsSfs = record {
  map = record {
    whole = (omega arith, tt);
    size = refl;
    room = omega arith;
    within = λ i h. let (z, l) = free_blocks-bounds i h in l;
  };
  room = omega arith;
  small = omega arith;
  inside = free_blocks-bounds;
  counted = refl;
}

abbrev zeros : ℕ → List ℕ
zeros zero = []
zeros (suc n) = 0 ∷ zeros n

zeros_none : (n j : ℕ) → or_none (get_elem? (zeros n) j) ≡ 0
zeros_none zero j = refl
zeros_none (suc n) zero = refl
zeros_none (suc n) (suc j) = zeros_none n j

abbrev two_blocks : Inode
two_blocks = record { blocks = 2; direct = 3 ∷ 4 ∷ zeros 10; indirect = 0; dirty = false }

two_blocks-map :
    (j : ℕ) → mapped small_disk two_blocks j ≡ (if j == 0 then 3 else (if j == 1 then 4 else 0))
unfolding mapped
two_blocks-map zero = refl
two_blocks-map (suc zero) = refl
two_blocks-map (suc (suc j)) = ground (arith, zeros_none 10 j)

in_use : (i : ℕ) → (i ≡ 3) ⊎ (i ≡ 4) → Used small_disk i
unfolding free_at bit
in_use i (inl e) =
    subst (λ i. Used small_disk i) (sym e)
      (record { above = omega arith; below = omega arith; busy = refl })
in_use i (inr e) =
    subst (λ i. Used small_disk i) (sym e)
      (record { above = omega arith; below = omega arith; busy = refl })

two_blocks-InodeIn : InodeIn small_disk two_blocks
two_blocks-InodeIn = record {
  size = refl;
  table = λ n. absurd (n refl);
  used = λ j n. in_use (mapped small_disk two_blocks j) (elim (Bool-cases (j == 0)) [
    | inl first ↦ inl (ground (arith, two_blocks-map j))
    | inr other ↦ inr (ground (arith, two_blocks-map j, n))
  ]);
  own = λ j k e n. ground (arith, two_blocks-map j, two_blocks-map k);
  apart = λ j e. refl;
}

sfs_block_alloc_lem_example :
    ((sfs_block_alloc small_disk ≡ failed e_no_mem small_disk)
      × ((i : ℕ) → free small_disk i ≡ false))
    ⊎ ((i : ℕ) × (s' : Sfs) × BlockTaken small_disk i s'
        × (((next_fault small_disk.faults ≡ none)
              × (sfs_block_alloc small_disk ≡ done i s')
              × (s'.disk ≡ write_block i (λ _. 0) small_disk.disk)
              × (s'.faults ≡ rest_faults small_disk.faults))
            ⊎ ((e : ℤ) × (next_fault small_disk.faults ≡ some e)
                × (sfs_block_alloc small_disk ≡ failed e s')
                × (s'.disk ≡ small_disk.disk)
                × (s'.faults ≡ rest_faults small_disk.faults))))
sfs_block_alloc_lem_example = sfs_block_alloc_lem small_disk small_disk-IsSfs

sfs_block_free_lem_example :
    ((free small_disk 4 ≡ false)
      × ((s' : Sfs) × (sfs_block_free 4 small_disk ≡ done tt s') × Given small_disk 4 s'))
    ⊎ ((free small_disk 4 ≡ true) × (sfs_block_free 4 small_disk ≡ stop))
sfs_block_free_lem_example =
    sfs_block_free_lem small_disk 4 small_disk-IsSfs (omega arith) (omega arith)

sfs_bmap_get_nolock_lem_example :
    Post
      (Gets small_disk two_blocks 13 true)
      (λ s'.
        Extends small_disk s'
        × ((true ≡ true) × Short 2 small_disk ⊎ (faulty small_disk.faults ≡ true)))
      (sfs_bmap_get_nolock two_blocks 13 true small_disk)
sfs_bmap_get_nolock_lem_example =
    sfs_bmap_get_nolock_lem small_disk two_blocks 13 true small_disk-IsSfs two_blocks-InodeIn
      (omega arith)

sfs_bmap_truncate_nolock_lem_example :
    Post
      (λ sin' s'.
        (sin'.dirty ≡ true)
        × (sin'.blocks + 1 ≡ 2)
        × Removed small_disk two_blocks 1 (record sin' { blocks = 2 }) s')
      (λ s'.
        Extends small_disk s'
        × (s'.freemap ≡ small_disk.freemap)
        × (faulty small_disk.faults ≡ true))
      (sfs_bmap_truncate_nolock two_blocks small_disk)
sfs_bmap_truncate_nolock_lem_example =
    sfs_bmap_truncate_nolock_lem small_disk two_blocks small_disk-IsSfs two_blocks-InodeIn
      (λ z. ground arith)
