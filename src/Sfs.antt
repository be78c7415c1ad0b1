-- ===== src/Sfs.antt =====
-- The blocks of the simple file system: ucore_os/kern/fs/sfs/sfs.h, the block transfers of
-- ucore_os/kern/fs/sfs/sfs_io.c, and the block maps of inodes in ucore_os/kern/fs/sfs/sfs_inode.c.
-- The locks are left out: one process runs in the file system.
pub mod Posts
pub mod Counts
pub mod Blocks
pub mod Extends
pub mod Buffers
pub mod Maps
pub mod Entries
pub mod Grown
pub mod Direct
pub mod Grow
pub mod Shrunk
pub mod Load
pub mod Shrink
pub mod Truncate
mod Tests
use dora_aos2019_homework.Prelude.{
  ℕ, zero, suc, ◌+◌, ◌-◌, ◌*◌, ◌/◌, ◌%◌, ◌^◌, Bool, true, false, not, ◌&&◌, ◌||◌, Option, none,
  some, List, [], ◌∷◌, Outcome, ok, panic, ltb, leb, ◌==◌, if◌then◌else◌, get_elem?, set,
}
use dora_aos2019_homework.Prelude.Int.{ℤ, negsuc}
use dora_aos2019_homework.Bitmap.{Bitmap, bitmap_alloc, bitmap_test, bitmap_free, bitmap_getdata}

-- `SFS_BLKSIZE`, `SFS_NDIRECT`, `SFS_BLK_NENTRY` and `-E_NO_MEM`
abbrev pub blksize : ℕ
blksize = 4096

abbrev pub ndirect : ℕ
ndirect = 12

abbrev pub blk_nentry : ℕ
blk_nentry = blksize / 4

abbrev pub e_no_mem : ℤ
e_no_mem = negsuc 3

-- `struct sfs_fs` and the superblock in it. The device is `disk`, entry by entry of 32 bits, and
-- `faults`, what the coming calls of dop_io return: `none` is 0, and so is the end of the list.
pub record Sfs : Type 0 where
  pub blocks : ℕ
  pub unused_blocks : ℕ
  pub super_dirty : Bool
  pub freemap : Bitmap
  pub disk : ℕ → ℕ → ℕ
  pub faults : List (Option ℤ)

-- `struct sfs_inode`, with the fields of `din` that the block map uses.
pub record Inode : Type 0 where
  pub blocks : ℕ
  pub direct : List ℕ
  pub indirect : ℕ
  pub dirty : Bool

-- `failed` returns an error code other than 0, `done` returns 0 and stores a value, `stop` is a panic.
pub data Reply {ℓ} (A : Type ℓ) : Type ℓ where
  done : A → Sfs → Reply A
  failed : ℤ → Sfs → Reply A
  stop : Reply A

infixl 5 ◌▷◌
abbrev pub ◌▷◌ {ℓ κ} : {A : Type ℓ} {B : Type κ} → Reply A → (A → Sfs → Reply B) → Reply B
done a s ▷ f = f a s
failed e s ▷ f = failed e s
stop ▷ f = stop

-- `goto failed_cleanup` on an error, with what is cleaned up there.
abbrev pub cleanup {ℓ} : {A : Type ℓ} → (Sfs → Reply (Unit {0})) → Reply A → Reply A
cleanup undo (done a s) = done a s
cleanup undo (failed e s) = undo s ▷ λ _ s'. failed e s'
cleanup undo stop = stop

-- `assert(b)`
abbrev pub check : Bool → Sfs → Reply (Unit {0})
check true s = done tt s
check false s = stop

-- A call that can panic and changes nothing of the file system.
abbrev pub lift {ℓ} : {A : Type ℓ} → Outcome A → Sfs → Reply A
lift (ok a) s = done a s
lift panic s = stop

-- What dop_io returns.
abbrev pub rest_faults : List (Option ℤ) → List (Option ℤ)
rest_faults [] = []
rest_faults (f ∷ fs) = fs

abbrev pub next_fault : List (Option ℤ) → Option ℤ
next_fault [] = none
next_fault (f ∷ fs) = f

-- Block `blkno` of the disk with the content `buf`.
abbrev pub write_block : ℕ → (ℕ → ℕ) → (ℕ → ℕ → ℕ) → ℕ → ℕ → ℕ
write_block blkno buf disk b i = if b == blkno then buf i else disk b i

-- A transfer that fails moves nothing.
unfoldable pub dop_io : (ℕ → ℕ) → ℕ → Bool → Sfs → Reply (ℕ → ℕ)
dop_io buf blkno write s =
    let s' : Sfs = record s { faults = rest_faults s.faults } in
    elim (next_fault s.faults) [
      | some e ↦ failed e s'
      | none ↦
          if write
          then done buf (record s' { disk = write_block blkno buf s.disk })
          else done (s.disk blkno) s'
    ]

-- The buffer, of one block, goes in and comes out.
unfoldable pub sfs_rwblock_nolock : (ℕ → ℕ) → ℕ → Bool → Bool → Sfs → Reply (ℕ → ℕ)
sfs_rwblock_nolock buf blkno write checked s =
    check ((not (blkno == 0) || not checked) && ltb blkno s.blocks) s ▷ λ _ s.
    dop_io buf blkno write s

-- The loop, on `nblks`; block `k` of the buffer is next.
unfoldable pub rw_from : ℕ → (ℕ → ℕ → ℕ) → ℕ → ℕ → Bool → Sfs → Reply (ℕ → ℕ → ℕ)
rw_from k buf blkno zero write s = done buf s
rw_from k buf blkno (suc nblks) write s = sfs_rwblock_nolock (buf k) blkno write true s ▷ λ b s.
    rw_from (k + 1) (write_block k b buf) (blkno + 1) nblks write s

unfoldable pub sfs_rwblock : (ℕ → ℕ → ℕ) → ℕ → ℕ → Bool → Sfs → Reply (ℕ → ℕ → ℕ)
sfs_rwblock buf blkno nblks write s = rw_from 0 buf blkno nblks write s

unfoldable pub sfs_rblock : (ℕ → ℕ → ℕ) → ℕ → ℕ → Sfs → Reply (ℕ → ℕ → ℕ)
sfs_rblock buf blkno nblks s = sfs_rwblock buf blkno nblks false s

unfoldable pub sfs_wblock : (ℕ → ℕ → ℕ) → ℕ → ℕ → Sfs → Reply (ℕ → ℕ → ℕ)
sfs_wblock buf blkno nblks s = sfs_rwblock buf blkno nblks true s

-- `offset >= 0 && offset < SFS_BLKSIZE && offset + len <= SFS_BLKSIZE` for an entry of four bytes.
abbrev pub in_block : ℕ → Bool
in_block index = ltb (index * 4) blksize && leb (index * 4 + 4) blksize

-- `sfs_rbuf` of the entry of four bytes with number `index`.
unfoldable pub sfs_rbuf : ℕ → ℕ → Sfs → Reply ℕ
sfs_rbuf blkno index s = check (in_block index) s ▷ λ _ s.
    sfs_rwblock_nolock (λ _. 0) blkno false true s ▷ λ sfs_buffer s. done (sfs_buffer index) s

-- `sfs_wbuf` of the entry of four bytes with number `index`.
unfoldable pub sfs_wbuf : ℕ → ℕ → ℕ → Sfs → Reply (Unit {0})
sfs_wbuf value blkno index s = check (in_block index) s ▷ λ _ s.
    sfs_rwblock_nolock (λ _. 0) blkno false true s ▷ λ sfs_buffer s.
    sfs_rwblock_nolock (λ i. if i == index then value else sfs_buffer i) blkno true true s ▷ λ _ s.
    done tt s

-- The loop, on `nblks`.
unfoldable pub sfs_clear_block : ℕ → ℕ → Sfs → Reply (Unit {0})
sfs_clear_block blkno zero s = done tt s
sfs_clear_block blkno (suc nblks) s =
    sfs_rwblock_nolock (λ _. 0) blkno true true s ▷ λ _ s. sfs_clear_block (blkno + 1) nblks s

-- `sfs_freemap_blocks(super)`
abbrev pub freemap_blocks : ℕ → ℕ
freemap_blocks blocks = (blocks + blksize * 8 - 1) / (blksize * 8)

-- Word `i` of the list; behind the list there is other memory.
abbrev pub word_or_0 : Option ℕ → ℕ
word_or_0 none = 0
word_or_0 (some w) = w

unfoldable pub sfs_sync_freemap : Sfs → Reply (ℕ → ℕ → ℕ)
unfolding bitmap_getdata
sfs_sync_freemap s =
    let (words, len) = bitmap_getdata s.freemap in
    sfs_wblock (λ k i. word_or_0 (get_elem? words (k * blk_nentry + i))) 2 (freemap_blocks s.blocks)
      s

unfoldable pub sfs_block_inuse : ℕ → Sfs → Reply Bool
sfs_block_inuse ino s =
    if not (ino == 0) && ltb ino s.blocks
    then (lift (bitmap_test s.freemap ino) s ▷ λ free s. done (not free) s)
    else stop

-- A block just taken: the counter, the assertions, and the block is cleared.
unfoldable pub clear_taken : ℕ → Sfs → Reply ℕ
clear_taken ino s = check (ltb 0 s.unused_blocks) s ▷ λ _ s.
    sfs_block_inuse ino (record s { unused_blocks = s.unused_blocks - 1; super_dirty = true })
    ▷ λ inuse s. check inuse s ▷ λ _ s. sfs_clear_block ino 1 s ▷ λ _ s. done ino s

unfoldable pub sfs_block_alloc : Sfs → Reply ℕ
sfs_block_alloc s = lift (bitmap_alloc s.freemap) s ▷ λ found s. elim found [
  | none ↦ failed e_no_mem s
  | some (ino, freemap) ↦ clear_taken ino (record s { freemap = freemap })
]

unfoldable pub sfs_block_free : ℕ → Sfs → Reply (Unit {0})
sfs_block_free ino s = sfs_block_inuse ino s ▷ λ inuse s. check inuse s ▷ λ _ s.
    lift (bitmap_free s.freemap ino) s ▷ λ freemap s. done tt (record s {
      freemap = freemap;
      unused_blocks = (s.unused_blocks + 1) % 2 ^ 32;
      super_dirty = true;
    })

-- A block for entry `index` of the entry block `ent`, which is new when it is not `entp`.
unfoldable pub fill_entry : ℕ → ℕ → ℕ → Sfs → Reply (ℕ × ℕ)
fill_entry entp ent index s =
    cleanup (λ s. if ent == entp then done tt s else sfs_block_free ent s)
      (sfs_block_alloc s ▷ λ ino s.
        cleanup (λ s. sfs_block_free ino s) (sfs_wbuf ino ent index s) ▷ λ _ s. done (ent, ino) s)

-- The first number that comes out is `*entp`, the second `*ino_store`.
unfoldable pub sfs_bmap_get_sub_nolock : ℕ → ℕ → Bool → Sfs → Reply (ℕ × ℕ)
sfs_bmap_get_sub_nolock entp index create s = check (ltb index blk_nentry) s ▷ λ _ s.
    if entp == 0
    then (if create
        then (sfs_block_alloc s ▷ λ ent s. fill_entry entp ent index s)
        else done (entp, 0) s)
    else sfs_rbuf entp index s ▷ λ ino s.
        if not (ino == 0) || not create then done (entp, ino) s else fill_entry entp entp index s

-- `din->direct[index]`; an index off the array is a fault.
unfoldable pub direct_at : Inode → ℕ → Sfs → Reply ℕ
direct_at sin index s = elim (get_elem? sin.direct index) [ none ↦ stop | some ino ↦ done ino s ]

abbrev pub set_direct : Inode → ℕ → ℕ → Inode
set_direct sin index ino = record sin { direct = set sin.direct index ino; dirty = true }

-- `assert(ino == 0 || sfs_block_inuse(sfs, ino))` and the store to `*ino_store`.
unfoldable pub store_ino : ℕ → Inode → Sfs → Reply (ℕ × Inode)
store_ino ino sin s =
    if ino == 0
    then done (ino, sin) s
    else sfs_block_inuse ino s ▷ λ inuse s. check inuse s ▷ λ _ s. done (ino, sin) s

unfoldable pub get_direct : Inode → ℕ → Bool → Sfs → Reply (ℕ × Inode)
get_direct sin index create s = direct_at sin index s ▷ λ ino s.
    if ino == 0 && create
    then (sfs_block_alloc s ▷ λ ino s. store_ino ino (set_direct sin index ino) s)
    else store_ino ino sin s

unfoldable pub get_indirect : Inode → ℕ → Bool → Sfs → Reply (ℕ × Inode)
get_indirect sin index create s =
    sfs_bmap_get_sub_nolock sin.indirect index create s ▷ λ (ent, ino) s.
    if ent == sin.indirect
    then store_ino ino sin s
    else check (sin.indirect == 0) s ▷ λ _ s.
        store_ino ino (record sin { indirect = ent; dirty = true }) s

-- The block goes out with the inode.
unfoldable pub sfs_bmap_get_nolock : Inode → ℕ → Bool → Sfs → Reply (ℕ × Inode)
sfs_bmap_get_nolock sin index create s =
    if ltb index ndirect
    then get_direct sin index create s
    else (if ltb (index - ndirect) blk_nentry
        then get_indirect sin (index - ndirect) create s
        else stop)

unfoldable pub sfs_bmap_free_sub_nolock : ℕ → ℕ → Sfs → Reply (Unit {0})
sfs_bmap_free_sub_nolock ent index s = sfs_block_inuse ent s ▷ λ inuse s.
    check (inuse && ltb index blk_nentry) s ▷ λ _ s. sfs_rbuf ent index s ▷ λ ino s.
    if ino == 0 then done tt s else sfs_wbuf 0 ent index s ▷ λ _ s. sfs_block_free ino s

unfoldable pub free_direct : Inode → ℕ → Sfs → Reply Inode
free_direct sin index s = direct_at sin index s ▷ λ ino s.
    if ino == 0 then done sin s else sfs_block_free ino s ▷ λ _ s. done (set_direct sin index 0) s

-- The inode goes out.
unfoldable pub sfs_bmap_free_nolock : Inode → ℕ → Sfs → Reply Inode
sfs_bmap_free_nolock sin index s =
    if ltb index ndirect
    then free_direct sin index s
    else (if ltb (index - ndirect) blk_nentry && not (sin.indirect == 0)
        then (sfs_bmap_free_sub_nolock sin.indirect (index - ndirect) s ▷ λ _ s. done sin s)
        else done sin s)

unfoldable pub sfs_bmap_load_nolock : Inode → ℕ → Sfs → Reply (ℕ × Inode)
sfs_bmap_load_nolock sin index s = check (leb index sin.blocks) s ▷ λ _ s.
    sfs_bmap_get_nolock sin index (index == sin.blocks) s ▷ λ (ino, sin') s.
    sfs_block_inuse ino s ▷ λ inuse s. check inuse s ▷ λ _ s.
    done (ino, if index == sin.blocks then record sin' { blocks = sin'.blocks + 1 } else sin') s

unfoldable pub sfs_bmap_truncate_nolock : Inode → Sfs → Reply Inode
sfs_bmap_truncate_nolock sin s = check (not (sin.blocks == 0)) s ▷ λ _ s.
    sfs_bmap_free_nolock sin (sin.blocks - 1) s ▷ λ sin' s.
    done (record sin' { blocks = sin'.blocks - 1; dirty = true }) s
