-- ===== src/Sfs/Entries.antt =====
-- A block for an entry of an entry block: sfs_bmap_get_sub_nolock of
-- ucore_os/kern/fs/sfs/sfs_inode.c.
use dora_aos2019_homework.Prelude.{
  ℕ, ◌+◌, ◌<◌, ◌≤◌, ◌≡◌, refl, sym, subst, ◌∙◌, ap, ◌≢◌, ◌⊎◌, inl, inr, Bool, true, false, not,
  ◌||◌, ltb, ◌==◌, if◌then◌else◌, arith, Bool-cases,
}
use dora_aos2019_homework.Sfs.{
  Sfs, done, ◌▷◌, cleanup, sfs_rbuf, sfs_wbuf, sfs_block_alloc, sfs_block_free, fill_entry,
  sfs_bmap_get_sub_nolock, blk_nentry,
}
use dora_aos2019_homework.Sfs.Posts.{Post, Post-imp, Post-bind, Post-cleanup}
use dora_aos2019_homework.Sfs.Blocks.{free, IsSfs, Used, tried}
use dora_aos2019_homework.Sfs.Extends.{
  faulty, Extends, Extends-trans, Extends-refl, Short, New, block_alloc-Post, block_free-Post,
}
use dora_aos2019_homework.Sfs.Buffers.{rbuf-Post, tried-Extends, Wrote, wbuf-Post}
use dora_aos2019_homework.Sfs.Maps.{entry_of, Used-Extends}

-- The entry block `ent` is `entp` or new, and its entry `index` names the new block `ino`.
pub record Filled (s : Sfs) (entp index ent ino : ℕ) (s' : Sfs) : Type 0 where
  pub valid : IsSfs s'
  pub blocks : s'.blocks ≡ s.blocks
  pub taken : (j : ℕ) → free s' j ≡ true → free s j ≡ true
  pub disk : (b : ℕ) → free s b ≡ false → b ≢ ent → (k : ℕ) → s'.disk b k ≡ s.disk b k
  pub faults : faulty s'.faults ≡ true → faulty s.faults ≡ true
  pub fresh : (ent ≡ entp) ⊎ ((entp ≡ 0) × (free s ent ≡ true))
  pub table : Used s' ent
  pub idle : free s ino ≡ true
  pub used : Used s' ino
  pub other : ino ≢ ent
  pub now : (k : ℕ) → entry_of s' ent k ≡ (if k == index then ino else entry_of s entp k)
  pub zeros : (k : ℕ) → s'.disk ino k ≡ 0

-- An entry block that can be written to: `entp` itself, or a new one.
pub record Ready (s0 : Sfs) (entp ent : ℕ) (s : Sfs) : Type 0 where
  pub extends : Extends s0 s
  pub used : Used s ent
  pub fresh : (ent ≡ entp) ⊎ ((entp ≡ 0) × (free s0 ent ≡ true))
  pub same : (k : ℕ) → entry_of s ent k ≡ entry_of s0 entp k
  pub counter : s0.unused_blocks ≤ s.unused_blocks + 1

written-Filled :
    (s0 s s1 s' : Sfs) (entp ent index ino : ℕ)
    → Ready s0 entp ent s
    → New s ino s1
    → Wrote s1 ent index ino s'
    → Filled s0 entp index ent ino s'
written-Filled s0 s s1 s' entp ent index ino r n w =
    let u1 = Used-Extends ent n.extends r.used in
    let up = Extends-trans r.extends n.extends in
    let map : (j : ℕ) → free s' j ≡ free s1 j =
      λ j. ap (λ m. free (record s { freemap = m }) j) w.freemap in
    let apart : ino ≢ ent = λ e. absurd (ground (arith, n.was, r.used.busy, ap (free s) e)) in
    let moved : (i : ℕ) → Used s1 i → Used s' i = λ i u. record {
      above = u.above;
      below = omega (arith, u.below, w.blocks);
      busy = map i ∙ u.busy;
    } in
    record {
      valid = w.valid;
      blocks = w.blocks ∙ up.blocks;
      taken = λ j h. up.taken j (sym (map j) ∙ h);
      disk = λ b h ne k. ground (arith, w.disk b k, up.disk b h k, ne);
      faults = λ h. up.faults (w.faults h);
      fresh = r.fresh;
      table = moved ent u1;
      idle = r.extends.taken ino n.was;
      used = moved ino n.used;
      other = apart;
      now = λ k.
          ground (arith, w.disk ent k, n.extends.disk ent r.used.busy k, r.same k, r.used.above);
      zeros = λ k. ground (arith, w.disk ino k, n.zeros k, apart);
    }

abbrev Entry : Sfs → ℕ → ℕ → ℕ → ℕ × ℕ → Sfs → Type 0
Entry s0 entp index ent (ent', ino) s' = (ent' ≡ ent) × Filled s0 entp index ent ino s'

abbrev Held : Sfs → Sfs → Sfs → Type 0
Held s0 s s' = Extends s s' × Short 2 s0

-- The new block goes into the entry, or back.
wbuf_cleanup-Post :
    (s0 s s1 : Sfs) (entp ent index ino : ℕ)
    → Ready s0 entp ent s
    → New s ino s1
    → index < 1024
    → Post
        (Entry s0 entp index ent)
        (Held s0 s)
        (cleanup (λ s. sfs_block_free ino s) (sfs_wbuf ino ent index s1) ▷ λ _ s. done (ent, ino) s)
wbuf_cleanup-Post s0 s s1 entp ent index ino r n l =
    let x1 = n.extends in
    let Unwritten : Sfs → Type 0 =
      λ s'. Extends s1 s' × (s'.freemap ≡ s1.freemap) × (faulty s1.faults ≡ true) in
    let u = Used-Extends ent x1 r.used in
    Post-bind (Entry s0 entp index ent) (Held s0 s) _ (λ _ s. done (ent, ino) s)
      (Post-cleanup (λ _ s'. Wrote s1 ent index ino s') Unwritten (Held s0 s) _ _
        (wbuf-Post s1 ent index ino x1.valid u l)
        (λ s2 (x, m, f).
          Post-imp (λ _. Held s0 s) (Held s0 s) (sfs_block_free ino s2)
            (block_free-Post s s2 ino (Extends-trans x1 x) n.was (Used-Extends ino x n.used))
            (λ _ s3 y. (y, inl (r.extends.faults (x1.faults f)))) (λ s3 e. absurd e)))
      (λ _ s' w. (refl, written-Filled s0 s s1 s' entp ent index ino r n w)) (λ s' k. k)

fill_entry-Post :
    (s0 s : Sfs) (entp ent index : ℕ)
    → Ready s0 entp ent s
    → index < 1024
    → Post
        (Entry s0 entp index ent)
        (λ s'. Extends s0 s' × Short 2 s0)
        (fill_entry entp ent index s)
unfolding fill_entry
fill_entry-Post s0 s entp ent index r l =
    let Done = Entry s0 entp index ent in
    let Kept = Held s0 s in
    Post-cleanup Done Kept (λ s'. Extends s0 s' × Short 2 s0) _ _
      (Post-bind {P = New s} Done Kept (sfs_block_alloc s) _ (block_alloc-Post s r.extends.valid)
        (λ ino s1 n. wbuf_cleanup-Post s0 s s1 entp ent index ino r n l)
        (λ s' (x, short). (
          x,
          elim short [
            | inl f ↦ inl (r.extends.faults f)
            | inr few ↦ inr (omega (arith, few, r.counter))
          ],
        )))
      (λ s' (x, short). elim (Bool-cases (ent == entp)) [
        | inl old ↦ rw old (Extends-trans r.extends x, short)
        | inr new ↦ elim r.fresh [
          | inl e ↦ absurd (ground arith)
          | inr (z, idle) ↦ rw new (
              Post-imp (λ _ s3. Extends s0 s3 × Short 2 s0) (λ s3. Extends s0 s3 × Short 2 s0) _
                (block_free-Post s0 s' ent (Extends-trans r.extends x) idle
                  (Used-Extends ent x r.used))
                (λ _ s3 y. (y, short)) (λ s3 e. absurd e))
        ]
      ])

-- What sfs_bmap_get_sub_nolock stores.
abbrev pub SubGets : Sfs → ℕ → ℕ → Bool → ℕ × ℕ → Sfs → Type 0
SubGets s entp index create (ent, ino) s' =
    ((((entry_of s entp index ≢ 0) ⊎ (create ≡ false))
      × (ent ≡ entp)
      × (ino ≡ entry_of s entp index)
      × (s'.freemap ≡ s.freemap)
      × (s'.disk ≡ s.disk)
      × Extends s s'))
    ⊎ ((entry_of s entp index ≡ 0) × (create ≡ true) × Filled s entp index ent ino s')

abbrev pub SubKept : Sfs → Bool → Sfs → Type 0
SubKept s create s' = Extends s s' × ((create ≡ true) × Short 2 s ⊎ (faulty s.faults ≡ true))

new_table :
    (s : Sfs) (entp index : ℕ)
    → IsSfs s
    → entp ≡ 0
    → index < 1024
    → Post
        (SubGets s entp index true)
        (SubKept s true)
        (sfs_block_alloc s ▷ λ ent s. fill_entry entp ent index s)
new_table s entp index v z l =
    Post-bind (SubGets s entp index true) (SubKept s true) (sfs_block_alloc s) _
      (block_alloc-Post s v)
      (λ ent s1 n.
        let r : Ready s entp ent s1 = record {
          extends = n.extends;
          used = n.used;
          fresh = inr (z, n.was);
          same = λ k. ground (arith, n.zeros k);
          counter = omega (arith, n.counter);
        } in
        Post-imp (SubGets s entp index true) (SubKept s true) (fill_entry entp ent index s1)
          (fill_entry-Post s s1 entp ent index r l)
          (λ (ent', ino) s' (e, f).
            inr (ground arith, refl, subst (λ t. Filled s entp index t ino s') (sym e) f))
          (λ s' (x, short). (x, inl (refl, short))))
      (λ s' (x, short).
        (x, inl (refl, elim short [ inl f ↦ inl f | inr few ↦ inr (omega (arith, few)) ])))

old_table :
    (s : Sfs) (entp index : ℕ) (create : Bool)
    → IsSfs s
    → Used s entp
    → index < 1024
    → Post (SubGets s entp index create) (SubKept s create) (
        sfs_rbuf entp index s ▷ λ ino s.
        if not (ino == 0) || not create then done (entp, ino) s else fill_entry entp entp index s)
old_table s entp index create v u l =
    let there : (entp == 0) ≡ false = ground (arith, u.above) in
    let x = tried-Extends s v in
    let r : Ready s entp entp (tried s) = record {
      extends = x;
      used = Used-Extends entp x u;
      fresh = inl refl;
      same = λ k. refl;
      counter = omega arith;
    } in
    Post-bind (SubGets s entp index create) (SubKept s create) (sfs_rbuf entp index s) _
      (rbuf-Post s entp index u l)
      (λ ino s' (value, e).
        let entry : entry_of s entp index ≡ ino = ground arith in
        elim (Bool-cases (not (ino == 0) || not create)) [
          | inl known ↦
              let old : (entry_of s entp index ≢ 0) ⊎ (create ≡ false) = elim (Bool-cases create) [
                | inl wanted ↦ inl (λ z. ground arith)
                | inr unwanted ↦ inr unwanted
              ] in
              rw (known, e) (inl (old, refl, sym entry, refl, refl, x))
          | inr unknown ↦
              let empty : entry_of s entp index ≡ 0 = ground arith in
              let wanted : create ≡ true = ground arith in
              rw (unknown, e)
                (Post-imp (SubGets s entp index create) (SubKept s create)
                  (fill_entry entp entp index (tried s))
                  (fill_entry-Post s (tried s) entp entp index r l)
                  (λ (ent', ino) s' (e, f).
                    inr (empty, wanted, subst (λ t. Filled s entp index t ino s') (sym e) f))
                  (λ s' (x, short). (x, inl (wanted, short))))
        ])
      (λ s' (e, f). rw e (x, inr f))

pub bmap_get_sub-Post :
    (s : Sfs) (entp index : ℕ) (create : Bool)
    → IsSfs s
    → (entp ≢ 0 → Used s entp)
    → index < 1024
    → Post
        (SubGets s entp index create)
        (SubKept s create)
        (sfs_bmap_get_sub_nolock entp index create s)
unfolding sfs_bmap_get_sub_nolock
bmap_get_sub-Post s entp index create v t l =
    let fits : ltb index blk_nentry ≡ true = ground arith in
    elim (Bool-cases (entp == 0)) [
      | inl z ↦ elim (Bool-cases create) [
        | inl wanted ↦ rw (fits, z, wanted) (new_table s entp index v (ground arith) l)
        | inr unwanted ↦
            rw (fits, z, unwanted) (inl (inr refl, refl, ground arith, refl, refl, Extends-refl v))
      ]
      | inr there ↦ rw (fits, there) (old_table s entp index create v (t (λ e. ground arith)) l)
    ]
