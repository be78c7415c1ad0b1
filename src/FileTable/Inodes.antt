-- ===== src/FileTable/Inodes.antt =====
-- The virtual file system as the descriptor table calls it: the operations of vfs.h and inode.h
-- (ucore_os/kern/fs/vfs), which dispatch to a file system through the inode.
use dora_aos2019_homework.Prelude.{ℕ, ◌⊎◌}
use dora_aos2019_homework.Prelude.Int.{ℤ}
use dora_aos2019_homework.IoBuf.{IoBuf}

-- `World` is the state behind the inodes, memory included. An operation returns its error code, 0 for
-- success.
pub record Vfs : Type 1 where
  pub Node : Type 0
  pub World : Type 0
  pub vfs_open : ℕ → ℕ → World → (ℤ ⊎ Node) × World
  pub vfs_close : Node → World → World
  pub vop_read : Node → IoBuf → World → ℤ × IoBuf × World
  pub vop_write : Node → IoBuf → World → ℤ × IoBuf × World
  pub vop_fstat : Node → World → (ℤ ⊎ ℤ) × World
  pub vop_tryseek : Node → ℤ → World → ℤ × World
  pub vop_fsync : Node → World → ℤ × World
  pub vop_getdirentry : Node → IoBuf → World → ℤ × IoBuf × World
  pub vop_ref_inc : Node → World → World
  pub vop_open_inc : Node → World → World
