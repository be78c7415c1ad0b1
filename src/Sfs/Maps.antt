-- ===== src/Sfs/Maps.antt =====
-- The block map of an inode as one table (`struct sfs_disk_inode` of ucore_os/kern/fs/sfs/sfs.h).
use dora_aos2019_homework.Prelude.{
  ℕ, ◌+◌, ◌-◌, ◌<◌, ◌≤◌, ◌≡◌, sym, subst, ◌∙◌, ap, ◌≢◌, inl, inr, Option, none, some, length,
  get_elem?, ltb, ◌==◌, if◌then◌else◌, arith, Bool-cases,
}
use dora_aos2019_homework.Sfs.{Sfs, Inode, ndirect, blk_nentry}
use dora_aos2019_homework.Sfs.Blocks.{Used}
use dora_aos2019_homework.Sfs.Extends.{Extends, Extends-busy}

-- Entry `k` of the entry block `ent`; block 0 stands for no entry block.
abbrev pub entry_of : Sfs → ℕ → ℕ → ℕ
entry_of s ent k = if ent == 0 then 0 else s.disk ent k

abbrev pub or_none : Option ℕ → ℕ
or_none none = 0
or_none (some ino) = ino

-- The block with number `j` of the inode; 0 stands for none.
unfoldable pub mapped : Sfs → Inode → ℕ → ℕ
mapped s sin j =
    if ltb j ndirect
    then or_none (get_elem? sin.direct j)
    else (if ltb (j - ndirect) blk_nentry then entry_of s sin.indirect (j - ndirect) else 0)

-- Blocks of the inode are in use, and no two entries name the same one.
pub record InodeIn (s : Sfs) (sin : Inode) : Type 0 where
  pub size : length sin.direct ≡ ndirect
  pub table : sin.indirect ≢ 0 → Used s sin.indirect
  pub used : (j : ℕ) → mapped s sin j ≢ 0 → Used s (mapped s sin j)
  pub own : (j k : ℕ) → mapped s sin j ≡ mapped s sin k → mapped s sin j ≢ 0 → j ≡ k
  pub apart : (j : ℕ) → mapped s sin j ≡ sin.indirect → sin.indirect ≡ 0

pub mapped-direct :
    (s : Sfs) (sin : Inode) (j : ℕ) → j < 12 → mapped s sin j ≡ or_none (get_elem? sin.direct j)
unfolding mapped
mapped-direct s sin j l = ground arith

pub mapped-indirect :
    (s : Sfs) (sin : Inode) (j : ℕ)
    → 12 ≤ j
    → j < 12 + 1024
    → mapped s sin j ≡ entry_of s sin.indirect (j - 12)
unfolding mapped
mapped-indirect s sin j l h = ground arith

pub mapped-disk :
    (s s' : Sfs) (sin : Inode) → s'.disk ≡ s.disk → (j : ℕ) → mapped s' sin j ≡ mapped s sin j
unfolding mapped
mapped-disk s s' sin e j = ap (λ d. mapped (record s { disk = d }) sin j) e

pub Used-Extends : {s s' : Sfs} (i : ℕ) → Extends s s' → Used s i → Used s' i
Used-Extends {s} {s'} i x u = record {
  above = u.above;
  below = omega (arith, u.below, x.blocks);
  busy = Extends-busy s s' x i u.busy;
}

-- The map reads the same while its entry block stays as it is.
pub mapped-Extends :
    {s s' : Sfs} (sin : Inode)
    → Extends s s'
    → (sin.indirect ≢ 0 → Used s sin.indirect)
    → (j : ℕ) → mapped s' sin j ≡ mapped s sin j
unfolding mapped
mapped-Extends {s} {s'} sin x t j = elim (Bool-cases (sin.indirect == 0)) [
  | inl none_there ↦ ground (arith, none_there)
  | inr there ↦
      let u = t (λ e. ground arith) in ground (arith, x.disk sin.indirect u.busy (j - ndirect))
]

pub InodeIn-Extends : {s s' : Sfs} (sin : Inode) → Extends s s' → InodeIn s sin → InodeIn s' sin
InodeIn-Extends {s} {s'} sin x m =
    let same = mapped-Extends sin x m.table in
    record {
      size = m.size;
      table = λ n. Used-Extends sin.indirect x (m.table n);
      used = λ j n.
          subst (λ i. Used s' i) (sym (same j))
            (Used-Extends (mapped s sin j) x (m.used j (λ e. n (same j ∙ e))));
      own = λ j k e n. m.own j k (sym (same j) ∙ e ∙ same k) (λ z. n (same j ∙ z));
      apart = λ j e. m.apart j (sym (same j) ∙ e);
    }
