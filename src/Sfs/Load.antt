-- ===== src/Sfs/Load.antt =====
-- Blocks of a directory in order: sfs_bmap_load_nolock of ucore_os/kern/fs/sfs/sfs_inode.c.
use dora_aos2019_homework.Prelude.{ℕ, ◌+◌, ◌<◌, ◌≡◌, ◌≢◌, ◌==◌, if◌then◌else◌}
use dora_aos2019_homework.Sfs.{Sfs, Inode}
use dora_aos2019_homework.Sfs.Blocks.{IsSfs, Used}
use dora_aos2019_homework.Sfs.Extends.{Extends}
use dora_aos2019_homework.Sfs.Maps.{mapped, InodeIn}

-- Entry `index` names the block `ino` in use, the other entries are as they were, and the inode still
-- has a block for every entry below its number of blocks.
pub record Loaded (s : Sfs) (sin : Inode) (index ino : ℕ) (sin' : Inode) (s' : Sfs) : Type 0 where
  pub valid : IsSfs s'
  pub inode : InodeIn s' sin'
  pub used : Used s' ino
  pub now : (j : ℕ) → mapped s' sin' j ≡ (if j == index then ino else mapped s sin j)
  pub blocks : sin'.blocks ≡ (if index == sin.blocks then sin.blocks + 1 else sin.blocks)
  pub full : (j : ℕ) → j < sin'.blocks → mapped s' sin' j ≢ 0
