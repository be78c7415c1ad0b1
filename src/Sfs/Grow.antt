-- ===== src/Sfs/Grow.antt =====
-- A block for an entry of an inode: sfs_bmap_get_nolock of ucore_os/kern/fs/sfs/sfs_inode.c.
use dora_aos2019_homework.Prelude.{
  ℕ, ◌+◌, ◌-◌, ◌<◌, ◌≡◌, refl, sym, subst, ◌∙◌, ap, ◌≢◌, ◌⊎◌, inl, inr, Bool, true, false, length,
  get_elem?, ltb, ◌==◌, if◌then◌else◌, arith, Bool-cases,
}
use dora_aos2019_homework.Sfs.{
  Sfs, Inode, ◌▷◌, check, ndirect, blk_nentry, store_ino, get_indirect, sfs_bmap_get_sub_nolock,
  sfs_bmap_get_nolock,
}
use dora_aos2019_homework.Sfs.Posts.{Post, Post-bind}
use dora_aos2019_homework.Sfs.Blocks.{free, IsSfs, Used}
use dora_aos2019_homework.Sfs.Extends.{faulty, Extends, Short}
use dora_aos2019_homework.Sfs.Entries.{SubGets, Filled, bmap_get_sub-Post}
use dora_aos2019_homework.Sfs.Maps.{entry_of, mapped, InodeIn, mapped-indirect, Used-Extends}
use dora_aos2019_homework.Sfs.Grown.{Added, Gets, grown-InodeIn}
use dora_aos2019_homework.Sfs.Direct.{store_ino_lem, GetKept, get_direct-Post}

-- Where the entries of an inode with entry block `ent` are.
mapped-Filled :
    (s s' : Sfs) (sin sin' : Inode) (index ino : ℕ)
    → InodeIn s sin
    → sin'.direct ≡ sin.direct
    → Filled s sin.indirect index sin'.indirect ino s'
    → index < 1024
    → (j : ℕ) → mapped s' sin' j ≡ (if j == index + 12 then ino else mapped s sin j)
unfolding mapped
mapped-Filled s s' sin sin' index ino m d f l j = elim (Bool-cases (ltb j 12)) [
  | inl low ↦
      let same : get_elem? sin'.direct j ≡ get_elem? sin.direct j = ap (λ xs. get_elem? xs j) d in
      ground (arith, same)
  | inr high ↦ ground (arith, f.now (j - 12))
]

new_indirect :
    (s s' : Sfs) (sin sin' : Inode) (index ino : ℕ)
    → InodeIn s sin
    → sin'.direct ≡ sin.direct
    → sin'.blocks ≡ sin.blocks
    → Filled s sin.indirect index sin'.indirect ino s'
    → index < 1024
    → Added s sin (index + 12) ino sin' s'
new_indirect s s' sin sin' index ino m d c f l =
    let now = mapped-Filled s s' sin sin' index ino m d f l in
    let busy : (b : ℕ) → free s b ≡ false → free s' b ≡ false = λ b h.
      elim (Bool-cases (free s' b)) [
        | inl idle ↦ absurd (ground (arith, f.taken b))
        | inr used ↦ used
      ] in
    let stay : (b : ℕ) → Used s b → Used s' b = λ b u. record {
      above = u.above;
      below = omega (arith, u.below, f.blocks);
      busy = busy b u.busy;
    } in
    let table : (sin'.indirect ≡ sin.indirect)
        ⊎ (Used s' sin'.indirect × (free s sin'.indirect ≡ true)) =
      elim f.fresh [ inl e ↦ inl e | inr (z, idle) ↦ inr (f.table, idle) ] in
    record {
      valid = f.valid;
      inode =
          grown-InodeIn s s' sin sin' (index + 12) ino m (ap length d ∙ m.size) stay f.idle f.used
            f.other table now;
      blocks = c;
      idle = f.idle;
      used = f.used;
      zeros = f.zeros;
      now = now;
      taken = f.taken;
      disk = λ b h ne k.
          f.disk b h
            (λ e. elim f.fresh [
              | inl same ↦ ne (e ∙ same)
              | inr (z, idle) ↦ absurd (ground (arith, ap (free s) e))
            ])
            k;
      faults = f.faults;
    }

indirect_found :
    (s s' : Sfs) (sin : Inode) (index ent ino : ℕ) (create : Bool)
    → InodeIn s sin
    → index < 1024
    → SubGets s sin.indirect index create (ent, ino) s'
    → Post (Gets s sin (index + 12) create) (GetKept s create) (
        if ent == sin.indirect
        then store_ino ino sin s'
        else check (sin.indirect == 0) s' ▷ λ _ s.
            store_ino ino (record sin { indirect = ent; dirty = true }) s)
indirect_found s s' sin index ent ino create m l (inl (known, e, value, fm, d, x)) =
    let entry : mapped s sin (index + 12) ≡ entry_of s sin.indirect index =
      mapped-indirect s sin (index + 12) (omega arith) (omega arith)
      ∙ ap (entry_of s sin.indirect) (omega arith) in
    let is : ino ≡ mapped s sin (index + 12) = value ∙ sym entry in
    let u : ino ≢ 0 → Used s' ino = λ n.
      Used-Extends ino x (subst (λ b. Used s b) (sym is) (m.used (index + 12) (λ z. n (is ∙ z)))) in
    let same : (ent == sin.indirect) ≡ true = ground (arith, e) in
    rw (same, store_ino_lem s' ino sin x.valid u)
      (inl (record {
        known = elim known [ inl n ↦ inl (λ z. n (sym entry ∙ z)) | inr unwanted ↦ inr unwanted ];
        value = is;
        inode = refl;
        freemap = fm;
        disk = d;
        extends = x;
      }))
indirect_found s s' sin index ent ino create m l (inr (empty, wanted, f)) =
    let entry : mapped s sin (index + 12) ≡ 0 =
      mapped-indirect s sin (index + 12) (omega arith) (omega arith)
      ∙ ap (entry_of s sin.indirect) (omega arith)
      ∙ empty in
    elim (Bool-cases (ent == sin.indirect)) [
      | inl old ↦
          let e : ent ≡ sin.indirect = ground arith in
          let f' = subst (λ t. Filled s sin.indirect index t ino s') e f in
          rw (old, store_ino_lem s' ino sin f.valid (λ _. f.used))
            (inr (entry, wanted, new_indirect s s' sin sin index ino m refl refl f' l))
      | inr new ↦
          let sin1 : Inode = record sin { indirect = ent; dirty = true } in
          let none_yet : (sin.indirect == 0) ≡ true = elim f.fresh [
            | inl e ↦ absurd (ground arith)
            | inr (z, idle) ↦ ground arith
          ] in
          rw (new, none_yet, store_ino_lem s' ino sin1 f.valid (λ _. f.used))
            (inr (entry, wanted, new_indirect s s' sin sin1 index ino m refl refl f l))
    ]

get_indirect-Post :
    (s : Sfs) (sin : Inode) (index : ℕ) (create : Bool)
    → IsSfs s
    → InodeIn s sin
    → index < 1024
    → Post (Gets s sin (index + 12) create) (GetKept s create) (get_indirect sin index create s)
unfolding get_indirect
get_indirect-Post s sin index create v m l =
    Post-bind (Gets s sin (index + 12) create) (GetKept s create)
      (sfs_bmap_get_sub_nolock sin.indirect index create s) _
      (bmap_get_sub-Post s sin.indirect index create v m.table l)
      (λ (ent, ino) s' g. indirect_found s s' sin index ent ino create m l g) (λ s' k. k)

-- sfs_bmap_get_nolock, at an index that an inode can have, on a valid file system whose inode is one of
-- its own, never fails an assertion. When it returns 0, the block it stores is the one that the entry
-- names already, or 0 when the entry is empty and no block is wanted, and nothing is changed; or else
-- the entry was empty and now names a new block of zeros, in use and free before, all other entries name
-- what they named, blocks in use keep their content but for the entry block, and the file system and the
-- inode stay valid. When it fails, the inode and the content of the blocks in use stay as they were, and
-- either the device failed or a block was wanted and fewer than two were free.
pub sfs_bmap_get_nolock_lem :
    (s : Sfs) (sin : Inode) (index : ℕ) (create : Bool)
    → IsSfs s
    → InodeIn s sin
    → index < 12 + 1024
    → Post
        (Gets s sin index create)
        (λ s'. Extends s s' × ((create ≡ true) × Short 2 s ⊎ (faulty s.faults ≡ true)))
        (sfs_bmap_get_nolock sin index create s)
unfolding sfs_bmap_get_nolock
sfs_bmap_get_nolock_lem s sin index create v m l = elim (Bool-cases (ltb index ndirect)) [
  | inl low ↦ rw low (get_direct-Post s sin index create v m (ground arith))
  | inr high ↦
      let within : ltb (index - ndirect) blk_nentry ≡ true = ground arith in
      let back : index - 12 + 12 ≡ index = ground arith in
      rw (high, within)
        (subst
          (λ i.
            Post (Gets s sin i create) (GetKept s create) (get_indirect sin (index - 12) create s))
          back (get_indirect-Post s sin (index - 12) create v m (ground arith)))
]
