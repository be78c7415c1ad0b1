-- ===== src/Sfs/Buffers.antt =====
-- Entries of a block: sfs_rbuf and sfs_wbuf of ucore_os/kern/fs/sfs/sfs_io.c.
use dora_aos2019_homework.Prelude.{
  ℕ, ◌<◌, ◌≡◌, refl, ap, inl, inr, true, false, ◌&&◌, ◌==◌, if◌then◌else◌, arith, Bool-cases,
  Option-cases,
}
use dora_aos2019_homework.Sfs.{Sfs, in_block, next_fault, sfs_rbuf, sfs_wbuf}
use dora_aos2019_homework.Sfs.Posts.{Post}
use dora_aos2019_homework.Sfs.Blocks.{
  IsSfs, Used, tried, write_lem, read_lem, fault_lem, rwblock_lem,
}
use dora_aos2019_homework.Sfs.Extends.{faulty, faulty-rest, faulty-next, Extends}

pub tried-Extends : (s : Sfs) → IsSfs s → Extends s (tried s)
tried-Extends s v = record {
  valid = record {
    map = v.map;
    room = v.room;
    small = v.small;
    inside = v.inside;
    counted = v.counted;
  };
  blocks = refl;
  taken = λ j h. h;
  disk = λ b h i. refl;
  faults = faulty-rest s.faults;
}

-- sfs_rbuf reads the entry, or fails as the device does.
pub rbuf-Post :
    (s : Sfs) (b index : ℕ)
    → Used s b
    → index < 1024
    → Post
        (λ v s'. (v ≡ s.disk b index) × (s' ≡ tried s))
        (λ s'. (s' ≡ tried s) × (faulty s.faults ≡ true))
        (sfs_rbuf b index s)
unfolding sfs_rbuf
rbuf-Post s b index u l =
    let fits : in_block index ≡ true = ground arith in
    let io = rwblock_lem (λ _. 0) b false s u.above u.below in
    elim (Option-cases (next_fault s.faults)) [
      | inl quiet ↦ rw (fits, io, read_lem (λ _. 0) b s quiet) (refl, refl)
      | inr (e, fault) ↦
          rw (fits, io, fault_lem (λ _. 0) b false s fault) (refl, faulty-next s.faults fault)
    ]

-- Entry `index` of block `b` is `value` in `s'`, and nothing else changes.
pub record Wrote (s : Sfs) (b index value : ℕ) (s' : Sfs) : Type 0 where
  pub valid : IsSfs s'
  pub blocks : s'.blocks ≡ s.blocks
  pub freemap : s'.freemap ≡ s.freemap
  pub counter : s'.unused_blocks ≡ s.unused_blocks
  pub disk : (c k : ℕ) → s'.disk c k ≡ (if c == b && k == index then value else s.disk c k)
  pub faults : faulty s'.faults ≡ true → faulty s.faults ≡ true

-- sfs_wbuf writes the entry, or fails as the device does and writes nothing.
pub wbuf-Post :
    (s : Sfs) (b index value : ℕ)
    → IsSfs s
    → Used s b
    → index < 1024
    → Post
        (λ _ s'. Wrote s b index value s')
        (λ s'. Extends s s' × (s'.freemap ≡ s.freemap) × (faulty s.faults ≡ true))
        (sfs_wbuf value b index s)
unfolding sfs_wbuf
wbuf-Post s b index value v u l =
    let fits : in_block index ≡ true = ground arith in
    let s1 = tried s in
    let x = tried-Extends s v in
    let read = rwblock_lem (λ _. 0) b false s u.above u.below in
    let buf : ℕ → ℕ = λ i. if i == index then value else s.disk b i in
    let write = rwblock_lem buf b true s1 u.above u.below in
    elim (Option-cases (next_fault s.faults)) [
      | inr (e, fault) ↦
          rw (fits, read, fault_lem (λ _. 0) b false s fault) (x, refl, faulty-next s.faults fault)
      | inl quiet ↦ elim (Option-cases (next_fault s1.faults)) [
        | inr (e, fault) ↦
            let y = tried-Extends s1 x.valid in
            rw (fits, read, read_lem (λ _. 0) b s quiet, write, fault_lem buf b true s1 fault)
              (
                record {
                  valid = y.valid;
                  blocks = refl;
                  taken = λ j h. h;
                  disk = λ b h i. refl;
                  faults = λ h. x.faults (y.faults h);
                },
                refl,
                faulty-rest s.faults (faulty-next s1.faults fault),
              )
        | inl quiet' ↦
            let y = tried-Extends s1 x.valid in
            let w = y.valid in
            rw (fits, read, read_lem (λ _. 0) b s quiet, write, write_lem buf b s1 quiet')
              (record {
                valid = record {
                  map = w.map;
                  room = w.room;
                  small = w.small;
                  inside = w.inside;
                  counted = w.counted;
                };
                blocks = refl;
                freemap = refl;
                counter = refl;
                disk = λ c k. elim (Bool-cases (c == b)) [
                  | inl here ↦
                      let c_b : c ≡ b = ground arith in ground (arith, ap (λ c. s.disk c k) c_b)
                  | inr there ↦ ground arith
                ];
                faults = λ h. x.faults (y.faults h);
              })
      ]
    ]
