-- ===== src/Sfs/Truncate.antt =====
-- The end of a file: sfs_bmap_free_nolock and sfs_bmap_truncate_nolock of
-- ucore_os/kern/fs/sfs/sfs_inode.c.
use dora_aos2019_homework.Prelude.{
  ℕ, ◌+◌, ◌-◌, ◌≤◌, ◌≡◌, refl, subst, ◌≢◌, inl, inr, true, false, not, ◌&&◌, ltb, ◌==◌, arith,
  Bool-cases,
}
use dora_aos2019_homework.Sfs.{
  Sfs, Inode, ndirect, blk_nentry, sfs_bmap_free_sub_nolock, sfs_bmap_free_nolock,
  sfs_bmap_truncate_nolock,
}
use dora_aos2019_homework.Sfs.Posts.{Post, Post-bind}
use dora_aos2019_homework.Sfs.Blocks.{IsSfs}
use dora_aos2019_homework.Sfs.Extends.{faulty, Extends, Extends-refl}
use dora_aos2019_homework.Sfs.Maps.{mapped, InodeIn}
use dora_aos2019_homework.Sfs.Shrunk.{Removed}
use dora_aos2019_homework.Sfs.Shrink.{RemoveKept, empty_entry, free_direct-Post, free_sub-Post}

-- Behind the entries that the inode has there is nothing.
mapped-off :
    (s : Sfs) (sin : Inode) (index : ℕ)
    → 12 ≤ index
    → (ltb (index - ndirect) blk_nentry && not (sin.indirect == 0)) ≡ false
    → mapped s sin index ≡ 0
unfolding mapped
mapped-off s sin index l nothing = ground arith

Removed-recount :
    (s s' : Sfs) (sin sin' : Inode) (index : ℕ)
    → Removed s sin index sin' s'
    → Removed s sin index (record sin' { blocks = sin.blocks; dirty = true }) s'
unfolding mapped
Removed-recount s s' sin sin' index r =
    let i = r.inode in
    record {
      valid = r.valid;
      inode = record {
        size = i.size;
        table = i.table;
        used = i.used;
        own = i.own;
        apart = i.apart;
      };
      blocks = refl;
      now = r.now;
      row = r.row;
      counter = r.counter;
      disk = r.disk;
      faults = r.faults;
    }

free_nolock-Post :
    (s : Sfs) (sin : Inode) (index : ℕ)
    → IsSfs s
    → InodeIn s sin
    → Post (Removed s sin index) (RemoveKept s) (sfs_bmap_free_nolock sin index s)
unfolding sfs_bmap_free_nolock
free_nolock-Post s sin index v m = elim (Bool-cases (ltb index ndirect)) [
  | inl low ↦ rw low (free_direct-Post s sin index v m (ground arith))
  | inr high ↦ elim (Bool-cases (ltb (index - ndirect) blk_nentry && not (sin.indirect == 0))) [
    | inl there ↦
        let back : index - 12 + 12 ≡ index = ground arith in
        let t : sin.indirect ≢ 0 = λ e. ground arith in
        rw (high, there)
          (Post-bind (Removed s sin index) (RemoveKept s)
            (sfs_bmap_free_sub_nolock sin.indirect (index - 12) s) _
            (free_sub-Post s sin (index - 12) v m (ground arith) t)
            (λ _ s' r. subst (λ i. Removed s sin i sin s') back r) (λ s' k. k))
    | inr nothing ↦
        let empty : mapped s sin index ≡ 0 = mapped-off s sin index (ground arith) nothing in
        rw (high, nothing) (empty_entry s s sin index m empty (Extends-refl v) refl refl refl)
  ]
]

-- sfs_bmap_truncate_nolock of an inode with blocks, on a valid file system whose inode it is, never
-- panics. When it returns 0, the last entry is empty, its block, if it had one, is free and counted, no
-- other block is given back or taken, the other entries and the blocks but for the entry block are as they
-- were, the inode has one block less and is dirty, and both stay valid. It fails only when the device
-- does; then no block is given back and blocks in use keep their content.
pub sfs_bmap_truncate_nolock_lem :
    (s : Sfs) (sin : Inode)
    → IsSfs s
    → InodeIn s sin
    → sin.blocks ≢ 0
    → Post
        (λ sin' s'.
          (sin'.dirty ≡ true)
          × (sin'.blocks + 1 ≡ sin.blocks)
          × Removed s sin (sin.blocks - 1) (record sin' { blocks = sin.blocks }) s')
        (λ s'. Extends s s' × (s'.freemap ≡ s.freemap) × (faulty s.faults ≡ true))
        (sfs_bmap_truncate_nolock sin s)
unfolding sfs_bmap_truncate_nolock
sfs_bmap_truncate_nolock_lem s sin v m n =
    let some_left : not (sin.blocks == 0) ≡ true = ground arith in
    rw some_left (
      Post-bind
        (λ sin' s'.
          (sin'.dirty ≡ true)
          × (sin'.blocks + 1 ≡ sin.blocks)
          × Removed s sin (sin.blocks - 1) (record sin' { blocks = sin.blocks }) s')
        (RemoveKept s) (sfs_bmap_free_nolock sin (sin.blocks - 1) s) _
        (free_nolock-Post s sin (sin.blocks - 1) v m)
        (λ sin' s' r.
          (refl, omega (arith, r.blocks, n), Removed-recount s s' sin sin' (sin.blocks - 1) r))
        (λ s' k. k))
