-- ===== src/Sfs/Grown.antt =====
-- An inode that gets a block from sfs_bmap_get_nolock of ucore_os/kern/fs/sfs/sfs_inode.c.
use dora_aos2019_homework.Prelude.{
  ℕ, ◌≡◌, sym, subst, ◌∙◌, ap, ◌≢◌, ◌⊎◌, inl, inr, Bool, true, false, length, ◌==◌, if◌then◌else◌,
  arith, Bool-cases,
}
use dora_aos2019_homework.Sfs.{Sfs, Inode}
use dora_aos2019_homework.Sfs.Blocks.{free, IsSfs, Used}
use dora_aos2019_homework.Sfs.Extends.{faulty, Extends}
use dora_aos2019_homework.Sfs.Maps.{mapped, InodeIn}

-- Entry `index` of the inode is `ino` already, or is 0 and stays so.
pub record Found (s : Sfs) (sin : Inode) (index : ℕ) (create : Bool) (ino : ℕ) (sin' : Inode)
    (s' : Sfs) : Type 0 where
  pub known : (mapped s sin index ≢ 0) ⊎ (create ≡ false)
  pub value : ino ≡ mapped s sin index
  pub inode : sin' ≡ sin
  pub freemap : s'.freemap ≡ s.freemap
  pub disk : s'.disk ≡ s.disk
  pub extends : Extends s s'

-- Entry `index` of the inode is the new block `ino`, of zeros, and the other entries are as they were.
pub record Added (s : Sfs) (sin : Inode) (index : ℕ) (ino : ℕ) (sin' : Inode) (s' : Sfs)
    : Type 0 where
  pub valid : IsSfs s'
  pub inode : InodeIn s' sin'
  pub blocks : sin'.blocks ≡ sin.blocks
  pub idle : free s ino ≡ true
  pub used : Used s' ino
  pub zeros : (k : ℕ) → s'.disk ino k ≡ 0
  pub now : (j : ℕ) → mapped s' sin' j ≡ (if j == index then ino else mapped s sin j)
  pub taken : (j : ℕ) → free s' j ≡ true → free s j ≡ true
  pub disk : (b : ℕ) → free s b ≡ false → b ≢ sin.indirect → (k : ℕ) → s'.disk b k ≡ s.disk b k
  pub faults : faulty s'.faults ≡ true → faulty s.faults ≡ true

abbrev pub Gets : Sfs → Inode → ℕ → Bool → ℕ × Inode → Sfs → Type 0
Gets s sin index create (ino, sin') s' =
    Found s sin index create ino sin' s'
    ⊎ ((mapped s sin index ≡ 0) × (create ≡ true) × Added s sin index ino sin' s')

-- An inode with one more block.
pub grown-InodeIn :
    (s s' : Sfs) (sin sin' : Inode) (index ino : ℕ)
    → InodeIn s sin
    → length sin'.direct ≡ 12
    → ((b : ℕ) → Used s b → Used s' b)
    → free s ino ≡ true
    → Used s' ino
    → ino ≢ sin'.indirect
    → (sin'.indirect ≡ sin.indirect) ⊎ (Used s' sin'.indirect × (free s sin'.indirect ≡ true))
    → ((j : ℕ) → mapped s' sin' j ≡ (if j == index then ino else mapped s sin j))
    → InodeIn s' sin'
grown-InodeIn s s' sin sin' index ino m size stay idle u apart table now =
    let busy : (j : ℕ) → mapped s sin j ≢ 0 → free s (mapped s sin j) ≡ false =
      λ j n. let w = m.used j n in w.busy in
    let not_new : (b j : ℕ) → free s b ≡ true → b ≡ mapped s sin j → b ≢ 0 → ⊥ = λ b j f e n.
      let old = busy j (λ z. n (e ∙ z)) in absurd (ground (arith, f, old, ap (free s) e)) in
    let here : (j : ℕ) → j ≡ index → mapped s' sin' j ≡ ino = λ j e. ground (arith, now j) in
    let there : (j : ℕ) → j ≢ index → mapped s' sin' j ≡ mapped s sin j =
      λ j e. ground (arith, now j) in
    let some_ino : ino ≢ 0 = λ z. ground (arith, u.above) in
    record {
      size = size;
      table = λ n. elim table [
        | inl e ↦ subst (λ b. Used s' b) (sym e) (stay sin.indirect (m.table (λ z. n (e ∙ z))))
        | inr (w, f) ↦ w
      ];
      used = λ j n. elim (Bool-cases (j == index)) [
        | inl at ↦ subst (λ b. Used s' b) (sym (here j (ground arith))) u
        | inr off ↦
            let e = there j (λ z. ground arith) in
            subst (λ b. Used s' b) (sym e) (stay (mapped s sin j) (m.used j (λ z. n (e ∙ z))))
      ];
      own = λ j k e n. elim (Bool-cases (j == index)) [
        | inl at ↦
            let at_j = here j (ground arith) in
            elim (Bool-cases (k == index)) [
              | inl at' ↦ ground arith
              | inr off' ↦
                  let off_k = there k (λ z. ground arith) in
                  absurd (not_new ino k idle (sym at_j ∙ e ∙ off_k) some_ino)
            ]
        | inr off ↦
            let off_j = there j (λ z. ground arith) in
            elim (Bool-cases (k == index)) [
              | inl at' ↦
                  let at_k = here k (ground arith) in
                  absurd (not_new ino j idle (sym at_k ∙ sym e ∙ off_j) some_ino)
              | inr off' ↦
                  let off_k = there k (λ z. ground arith) in
                  m.own j k (sym off_j ∙ e ∙ off_k) (λ z. n (off_j ∙ z))
            ]
      ];
      apart = λ j e. elim (Bool-cases (j == index)) [
        | inl at ↦ absurd (apart (sym (here j (ground arith)) ∙ e))
        | inr off ↦
            let off_j = there j (λ z. ground arith) in
            elim table [
              | inl same ↦ same ∙ m.apart j (sym off_j ∙ e ∙ same)
              | inr (w, f) ↦
                  absurd (not_new sin'.indirect j f (sym e ∙ off_j) (λ z. ground (arith, w.above)))
            ]
      ];
    }
