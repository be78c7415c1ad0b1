-- ===== src/Sfs/Shrink.antt =====
-- Giving back the block of an entry: the two parts of sfs_bmap_free_nolock of
-- ucore_os/kern/fs/sfs/sfs_inode.c.
use dora_aos2019_homework.Prelude.{
  ℕ, ◌+◌, ◌-◌, ◌<◌, ◌≡◌, refl, sym, ◌∙◌, ap, ◌≢◌, inl, inr, true, false, not, ◌&&◌, ◌||◌,
  length-set, ltb, ◌==◌, if◌then◌else◌, arith, Bool-cases,
}
use dora_aos2019_homework.Sfs.{
  Sfs, Inode, ◌▷◌, blk_nentry, set_direct, sfs_rbuf, sfs_wbuf, sfs_block_free, free_direct,
  sfs_bmap_free_sub_nolock,
}
use dora_aos2019_homework.Sfs.Posts.{Post, Post-bind}
use dora_aos2019_homework.Sfs.Blocks.{free, IsSfs, tried, sfs_block_inuse_lem}
use dora_aos2019_homework.Sfs.Extends.{
  faulty, faulty-rest, Given, sfs_block_free_lem, Extends, Extends-refl, Extends-trans,
}
use dora_aos2019_homework.Sfs.Buffers.{rbuf-Post, tried-Extends, Wrote, wbuf-Post}
use dora_aos2019_homework.Sfs.Maps.{
  or_none, mapped, mapped-disk, InodeIn, mapped-direct, mapped-indirect, Used-Extends,
  mapped-Extends,
}
use dora_aos2019_homework.Sfs.Direct.{direct_some, direct_at_lem, mapped-set_direct}
use dora_aos2019_homework.Sfs.Shrunk.{Removed, shrunk-InodeIn}

-- After an error: nothing is given back.
abbrev pub RemoveKept : Sfs → Sfs → Type 0
RemoveKept s s' = Extends s s' × (s'.freemap ≡ s.freemap) × (faulty s.faults ≡ true)

-- The empty entry stays as it is.
pub empty_entry :
    (s s' : Sfs) (sin : Inode) (index : ℕ)
    → InodeIn s sin
    → mapped s sin index ≡ 0
    → Extends s s'
    → s'.freemap ≡ s.freemap
    → s'.unused_blocks ≡ s.unused_blocks
    → s'.disk ≡ s.disk
    → Removed s sin index sin s'
empty_entry s s' sin index m z x f c d =
    let now : (j : ℕ) → mapped s' sin j ≡ (if j == index then 0 else mapped s sin j) = λ j.
      elim (Bool-cases (j == index)) [
        | inl at ↦
            let e : j ≡ index = ground arith in
            ground (arith, mapped-Extends sin x m.table j, ap (mapped s sin) e)
        | inr off ↦ ground (arith, mapped-Extends sin x m.table j)
      ] in
    let map : (b : ℕ) → free s' b ≡ free s b = λ b. ap (λ t. free (record s { freemap = t }) b) f in
    let row : (b : ℕ) → free s' b ≡ (b == mapped s sin index && not (b == 0) || free s b) =
      λ b. ground (arith, map b) in
    record {
      valid = x.valid;
      inode = shrunk-InodeIn s s' sin sin index m m.size refl x.blocks now row;
      blocks = refl;
      now = now;
      row = row;
      counter = ground (arith, c);
      disk = λ b n k. ap (λ t. t b k) d;
      faults = x.faults;
    }

pub free_direct-Post :
    (s : Sfs) (sin : Inode) (index : ℕ)
    → IsSfs s
    → InodeIn s sin
    → index < 12
    → Post (Removed s sin index) (RemoveKept s) (free_direct sin index s)
unfolding free_direct
free_direct-Post s sin index v m l =
    let (ino, e) = direct_some sin.direct index (omega (arith, m.size)) in
    let value : mapped s sin index ≡ ino = mapped-direct s sin index l ∙ ap or_none e in
    elim (Bool-cases (ino == 0)) [
      | inl empty ↦
          rw (direct_at_lem sin index s e, empty)
            (empty_entry s s sin index m (ground arith) (Extends-refl v) refl refl refl)
      | inr there ↦
          let u = m.used index (λ z. ground arith) in
          elim (sfs_block_free_lem s ino v (omega (arith, u.above, value))
            (omega (arith, u.below, value))) [
              | inr (idle, f) ↦ absurd (ground (arith, u.busy, ap (free s) value))
              | inl (busy, (s', f, g)) ↦
                  let sin' = set_direct sin index 0 in
                  let row : (b : ℕ)
                      → free s' b ≡ (b == mapped s sin index && not (b == 0) || free s b) =
                    λ b. ground (arith, g.now b) in
                  let now : (j : ℕ)
                      → mapped s' sin' j ≡ (if j == index then 0 else mapped s sin j) =
                    mapped-set_direct s s' sin index 0 m l (mapped-disk s s' sin g.disk) in
                  rw (direct_at_lem sin index s e, there, f)
                    (record {
                      valid = g.valid;
                      inode =
                          shrunk-InodeIn s s' sin sin' index m
                            (length-set sin.direct index 0 ∙ m.size) refl g.blocks now row;
                      blocks = refl;
                      now = now;
                      row = row;
                      counter = ground (arith, g.counter);
                      disk = λ b n k. ap (λ t. t b k) g.disk;
                      faults = λ h. sym (ap faulty g.faults) ∙ h;
                    })
            ]
    ]

-- The entry block once entry `index` is 0 and its block `ino` is given back.
cleared :
    (s s2 s3 : Sfs) (sin : Inode) (index ino : ℕ)
    → InodeIn s sin
    → index < 1024
    → sin.indirect ≢ 0
    → mapped s sin (index + 12) ≡ ino
    → ino ≢ 0
    → Wrote (tried s) sin.indirect index 0 s2
    → Given s2 ino s3
    → Removed s sin (index + 12) sin s3
unfolding mapped
cleared s s2 s3 sin index ino m l t e n w g =
    let map : (b : ℕ) → free s2 b ≡ free s b =
      λ b. ap (λ f. free (record s { freemap = f }) b) w.freemap in
    let disk : (c k : ℕ)
        → s3.disk c k ≡ (if c == sin.indirect && k == index then 0 else s.disk c k) =
      λ c k. ap (λ d. d c k) g.disk ∙ w.disk c k in
    let row : (b : ℕ) → free s3 b ≡ (b == mapped s sin (index + 12) && not (b == 0) || free s b) =
      λ b. ground (arith, g.now b, map b, n) in
    let there : (sin.indirect == 0) ≡ false = ground arith in
    let now : (j : ℕ) → mapped s3 sin j ≡ (if j == index + 12 then 0 else mapped s sin j) =
      λ j. ground (arith, disk sin.indirect (j - 12)) in
    record {
      valid = g.valid;
      inode = shrunk-InodeIn s s3 sin sin (index + 12) m m.size refl (g.blocks ∙ w.blocks) now row;
      blocks = refl;
      now = now;
      row = row;
      counter = ground (arith, g.counter, w.counter, e, n);
      disk = λ b ne k. ground (arith, disk b k, ne);
      faults = λ h. faulty-rest s.faults (w.faults (sym (ap faulty g.faults) ∙ h));
    }

clear_entry :
    (s : Sfs) (sin : Inode) (index ino : ℕ)
    → IsSfs s
    → InodeIn s sin
    → index < 1024
    → sin.indirect ≢ 0
    → mapped s sin (index + 12) ≡ ino
    → ino ≢ 0
    → Post
        (λ _ s'. Removed s sin (index + 12) sin s')
        (RemoveKept s)
        (sfs_wbuf 0 sin.indirect index (tried s) ▷ λ _ s. sfs_block_free ino s)
clear_entry s sin index ino v m l t e n =
    let x = tried-Extends s v in
    let table = Used-Extends sin.indirect x (m.table t) in
    let u = m.used (index + 12) (λ z. n (sym e ∙ z)) in
    Post-bind (λ _ s'. Removed s sin (index + 12) sin s') (RemoveKept s)
      (sfs_wbuf 0 sin.indirect index (tried s)) _
      (wbuf-Post (tried s) sin.indirect index 0 x.valid table l)
      (λ _ s2 w.
        let below : ino < s2.blocks = omega (arith, u.below, e, w.blocks) in
        elim (sfs_block_free_lem s2 ino w.valid (omega (arith, u.above, e)) below) [
          | inl (busy, (s3, f, g)) ↦ rw f (cleared s s2 s3 sin index ino m l t e n w g)
          | inr (idle, f) ↦
              let same = ap (λ f. free (record s { freemap = f }) ino) w.freemap in
              absurd (ground (arith, idle, same, u.busy, ap (free s) e))
        ])
      (λ s' (y, f, h). (Extends-trans x y, f, faulty-rest s.faults h))

pub free_sub-Post :
    (s : Sfs) (sin : Inode) (index : ℕ)
    → IsSfs s
    → InodeIn s sin
    → index < 1024
    → sin.indirect ≢ 0
    → Post
        (λ _ s'. Removed s sin (index + 12) sin s')
        (RemoveKept s)
        (sfs_bmap_free_sub_nolock sin.indirect index s)
unfolding sfs_bmap_free_sub_nolock
free_sub-Post s sin index v m l t =
    let u = m.table t in
    let x = tried-Extends s v in
    let fits : ltb index blk_nentry ≡ true = ground arith in
    let there : (sin.indirect == 0) ≡ false = ground arith in
    let entry : mapped s sin (index + 12) ≡ s.disk sin.indirect index =
      mapped-indirect s sin (index + 12) (omega arith) (omega arith)
      ∙ rw there (ap (s.disk sin.indirect) (omega arith)) in
    rw (sfs_block_inuse_lem s sin.indirect v u.above u.below, u.busy, fits)
      (Post-bind (λ _ s'. Removed s sin (index + 12) sin s') (RemoveKept s)
        (sfs_rbuf sin.indirect index s) _ (rbuf-Post s sin.indirect index u l)
        (λ ino s' (value, e). elim (Bool-cases (ino == 0)) [
          | inl empty ↦
              rw (empty, e)
                (empty_entry s (tried s) sin (index + 12) m (ground (arith, entry)) x refl refl
                  refl)
          | inr full ↦
              rw (full, e)
                (clear_entry s sin index ino v m l t (entry ∙ sym value) (λ z. ground arith))
        ])
        (λ s' (e, f). rw e (x, refl, f)))
