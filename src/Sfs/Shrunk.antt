-- ===== src/Sfs/Shrunk.antt =====
-- An inode that loses a block to sfs_bmap_free_nolock of ucore_os/kern/fs/sfs/sfs_inode.c.
use dora_aos2019_homework.Prelude.{
  ℕ, ◌+◌, ◌≡◌, sym, subst, ◌∙◌, ◌≢◌, inl, inr, true, not, ◌&&◌, ◌||◌, length, ◌==◌, if◌then◌else◌,
  arith, Bool-cases,
}
use dora_aos2019_homework.Sfs.{Sfs, Inode}
use dora_aos2019_homework.Sfs.Blocks.{free, IsSfs, Used}
use dora_aos2019_homework.Sfs.Extends.{faulty}
use dora_aos2019_homework.Sfs.Maps.{mapped, InodeIn}

-- Entry `index` is empty, its block is free, and nothing else of the inode changes.
pub record Removed (s : Sfs) (sin : Inode) (index : ℕ) (sin' : Inode) (s' : Sfs) : Type 0 where
  pub valid : IsSfs s'
  pub inode : InodeIn s' sin'
  pub blocks : sin'.blocks ≡ sin.blocks
  pub now : (j : ℕ) → mapped s' sin' j ≡ (if j == index then 0 else mapped s sin j)
  pub row : (b : ℕ) → free s' b ≡ (b == mapped s sin index && not (b == 0) || free s b)
  pub counter : s'.unused_blocks ≡ s.unused_blocks + (if mapped s sin index == 0 then 0 else 1)
  pub disk : (b : ℕ) → b ≢ sin.indirect → (k : ℕ) → s'.disk b k ≡ s.disk b k
  pub faults : faulty s'.faults ≡ true → faulty s.faults ≡ true

pub shrunk-InodeIn :
    (s s' : Sfs) (sin sin' : Inode) (index : ℕ)
    → InodeIn s sin
    → length sin'.direct ≡ 12
    → sin'.indirect ≡ sin.indirect
    → s'.blocks ≡ s.blocks
    → ((j : ℕ) → mapped s' sin' j ≡ (if j == index then 0 else mapped s sin j))
    → ((b : ℕ) → free s' b ≡ (b == mapped s sin index && not (b == 0) || free s b))
    → InodeIn s' sin'
shrunk-InodeIn s s' sin sin' index m size same blocks now row =
    let gone : (j : ℕ) → j ≡ index → mapped s' sin' j ≡ 0 = λ j e. ground (arith, now j) in
    let there : (j : ℕ) → j ≢ index → mapped s' sin' j ≡ mapped s sin j =
      λ j e. ground (arith, now j) in
    let stay : (b : ℕ) → Used s b → b ≢ mapped s sin index → Used s' b = λ b u n. record {
      above = u.above;
      below = omega (arith, u.below, blocks);
      busy = ground (arith, row b, u.busy, n);
    } in
    record {
      size = size;
      table = λ n.
          subst (λ b. Used s' b) (sym same)
            (stay sin.indirect (m.table (λ z. n (same ∙ z)))
              (λ e. n (same ∙ m.apart index (sym e))));
      used = λ j n. elim (Bool-cases (j == index)) [
        | inl at ↦ absurd (n (gone j (ground arith)))
        | inr off ↦
            let off_j = there j (λ z. ground arith) in
            let some_j : mapped s sin j ≢ 0 = λ z. n (off_j ∙ z) in
            let other : mapped s sin j ≢ mapped s sin index =
              λ e. let same_j = m.own j index e some_j in ground arith in
            subst (λ b. Used s' b) (sym off_j) (stay (mapped s sin j) (m.used j some_j) other)
      ];
      own = λ j k e n. elim (Bool-cases (j == index)) [
        | inl at ↦ absurd (n (gone j (ground arith)))
        | inr off ↦
            let off_j = there j (λ z. ground arith) in
            elim (Bool-cases (k == index)) [
              | inl at' ↦ absurd (n (e ∙ gone k (ground arith)))
              | inr off' ↦
                  let off_k = there k (λ z. ground arith) in
                  m.own j k (sym off_j ∙ e ∙ off_k) (λ z. n (off_j ∙ z))
            ]
      ];
      apart = λ j e. elim (Bool-cases (j == index)) [
        | inl at ↦ sym e ∙ gone j (ground arith)
        | inr off ↦
            let off_j = there j (λ z. ground arith) in same ∙ m.apart j (sym off_j ∙ e ∙ same)
      ];
    }
