-- ===== src/PageAlloc/Rejoin.antt =====
-- Where a freed block goes on the free list: default_free_pages of ucore_os/kern/mm/default_pmm.c.
use dora_aos2019_homework.Prelude.{
  ℕ, ◌+◌, ◌^◌, ◌≤◌, ◌<◌, ◌≡◌, sym, ◌∙◌, ap, ap₂, ◌≢◌, ◌⊎◌, inl, inr, Bool, true, false, ◌||◌, List,
  [], ◌∷◌, arith, ok, ◌==◌, Bool-cases, subst,
}
use dora_aos2019_homework.Memory.Blocks.{within}
use dora_aos2019_homework.PageAlloc.{Page, Pages, merge_loop, insert_block}
use dora_aos2019_homework.PageAlloc.Blocks.{Chain, cover, Chain-same, cover_same, total_same}
use dora_aos2019_homework.PageAlloc.Merge.{
  Joined, joined_down, merge_cons, step_down, step_keep, merge_loop-Up, insert_front, insert_behind,
  Up-Joined,
}

-- No block of the list shares a page with the freed one.
abbrev pub AllApart : ℕ → Pages → List ℕ → Type 0
AllApart base pg [] = Unit
AllApart base pg (p ∷ ps) =
    ((p + (pg p).property ≤ base) ⊎ (base + (pg base).property ≤ p)) × AllApart base pg ps

Chain-raise :
    (base : ℕ) (ps : List ℕ) (hi : ℕ) (pg : Pages)
    → Chain pg base ps hi
    → AllApart base pg ps
    → base + (pg base).property ≤ hi
    → Chain pg (base + (pg base).property) ps hi
Chain-raise base [] hi pg c a h = h
Chain-raise base (p ∷ ps) hi pg (l, s, f, c) (inl b, a) h = absurd (omega arith)
Chain-raise base (p ∷ ps) hi pg (l, s, f, c) (inr b, a) h = (b, s, f, c)

module _ (p base : ℕ) (pg : Pages) (touch : p + (pg p).property ≡ base)
    (some_pages : 0 < (pg p).property) where
  down_base :
      joined_down p base pg p ≡ record (pg p) { property = (pg p).property + (pg base).property }
  unfolding joined_down
  down_base = ground arith

  down_other : (q : ℕ) → q ≢ base → q ≢ p → joined_down p base pg q ≡ pg q
  unfolding joined_down
  down_other q n m = ground arith

within_swap :
    (p m base n a : ℕ) (c : Bool)
    → p + m ≡ base
    → (within p (m + n) a || c) ≡ (within base n a || (within p m a || c))
within_swap p m base n a c e = ground arith

within_over : (x y z : Bool) → (x || (y || z)) ≡ (y || (x || z))
within_over x y z = ground arith

pub record Inserted (base lo : ℕ) (ps : List ℕ) (hi : ℕ) (pg : Pages) : Type 0 where
  pub b : ℕ
  pub qs : List ℕ
  pub rs : List ℕ
  pub pg' : Pages
  pub merges : merge_loop ps base pg ≡ (b, qs, pg')
  pub inserts : insert_block b pg' qs ≡ ok rs
  pub joined : Joined base lo ps hi pg b rs pg'

-- The freed block lies before the rest of the list.
Inserted-front :
    (base lo : ℕ) (ps : List ℕ) (hi : ℕ) (pg : Pages)
    → hi < 2 ^ 32
    → 0 < (pg base).property
    → (pg base).is_head ≡ true
    → lo ≤ base
    → Chain pg (base + (pg base).property) ps hi
    → Inserted base lo ps hi pg
Inserted-front base lo ps hi pg w s f l c =
    let (qs, (pg', (e, u))) =
      merge_loop-Up base (base + (pg base).property) ps hi pg w s f (omega arith) c in
    record {
      b = base;
      qs = qs;
      rs = base ∷ qs;
      pg' = pg';
      merges = e;
      inserts = insert_front base pg' qs u.gap;
      joined = Up-Joined base (base + (pg base).property) lo ps hi pg pg' qs u l (omega arith) s;
    }

-- The freed block touches the block before it.
Inserted-touch :
    (p base lo : ℕ) (ps : List ℕ) (hi : ℕ) (pg : Pages)
    → hi < 2 ^ 32
    → 0 < (pg base).property
    → lo ≤ p
    → 0 < (pg p).property
    → (pg p).is_head ≡ true
    → p + (pg p).property ≡ base
    → base + (pg base).property ≤ hi
    → Chain pg (base + (pg base).property) ps hi
    → Inserted base lo (p ∷ ps) hi pg
Inserted-touch p base lo ps hi pg w s l sp fp touch room c =
    let pg1 = joined_down p base pg in
    let grown : (pg1 p).property ≡ (pg p).property + (pg base).property =
      ap (λ (r : Page). r.property) (down_base p base pg touch sp) in
    let same : (q : ℕ) → base + (pg base).property ≤ q → pg1 q ≡ pg q =
      λ q k. down_other p base pg touch sp q (λ e. omega arith) (λ e. omega arith) in
    let (qs, (pg', (e, u))) =
      merge_loop-Up p (base + (pg base).property) ps hi pg1 w (omega (arith, grown))
        (ap (λ (r : Page). r.is_head) (down_base p base pg touch sp) ∙ fp) (omega (arith, grown))
        (Chain-same (base + (pg base).property) ps hi same c) in
    record {
      b = p;
      qs = qs;
      rs = p ∷ qs;
      pg' = pg';
      merges =
          merge_cons p base p p ps qs pg pg1 pg' false
            (step_down p base pg touch (omega arith) (omega arith)) e;
      inserts = insert_front p pg' qs u.gap;
      joined = record {
        above = l;
        chain = (l, omega (arith, u.grows, grown), u.head, u.chain);
        covers = λ a.
            u.covers a
            ∙ (ap₂ (λ n b. within p n a || b) grown
                  (cover_same (base + (pg base).property) ps hi a same c)
                ∙ within_swap p (pg p).property base (pg base).property a (cover pg ps a) touch);
        counts =
            omega (arith, u.counts, grown, total_same (base + (pg base).property) ps hi same c);
        before = λ q k.
            u.before q (omega arith) (λ e'. omega arith)
            ∙ down_other p base pg touch sp q (λ e'. omega arith) (λ e'. omega arith);
      };
    }

-- The freed block lies further behind.
Inserted-cons :
    (p base lo : ℕ) (ps : List ℕ) (hi : ℕ) (pg : Pages)
    → lo ≤ p
    → 0 < (pg p).property
    → (pg p).is_head ≡ true
    → p + (pg p).property < base
    → Inserted base (p + (pg p).property) ps hi pg
    → Inserted base lo (p ∷ ps) hi pg
Inserted-cons p base lo ps hi pg l sp fp apart r =
    let kept : r.pg' p ≡ pg p = r.joined.before p (omega arith) in
    let size : (r.pg' p).property ≡ (pg p).property = ap (λ (x : Page). x.property) kept in
    record {
      b = r.b;
      qs = p ∷ r.qs;
      rs = p ∷ r.rs;
      pg' = r.pg';
      merges =
          merge_cons p base base r.b ps r.qs pg pg r.pg' true
            (step_keep p base pg (λ e. omega arith) (λ e. omega arith)) r.merges;
      inserts = insert_behind r.b p r.pg' r.qs r.rs (omega (arith, r.joined.above)) r.inserts;
      joined = record {
        above = omega (arith, r.joined.above);
        chain = (
          l,
          omega (arith, size),
          ap (λ (x : Page). x.is_head) kept ∙ fp,
          subst (λ n. Chain r.pg' (p + n) r.rs hi) (sym size) r.joined.chain,
        );
        covers = λ a.
            ap₂ (λ n c. within p n a || c) size (r.joined.covers a)
            ∙ within_over (within p (pg p).property a) (within base (pg base).property a)
                (cover pg ps a);
        counts = omega (arith, size, r.joined.counts);
        before = λ q k. r.joined.before q (omega arith);
      };
    }

pub merge_insert :
    (base lo : ℕ) (ps : List ℕ) (hi : ℕ) (pg : Pages)
    → hi < 2 ^ 32
    → 0 < (pg base).property
    → (pg base).is_head ≡ true
    → lo ≤ base
    → base + (pg base).property ≤ hi
    → Chain pg lo ps hi
    → AllApart base pg ps
    → Inserted base lo ps hi pg
merge_insert base lo [] hi pg w s f l room c a = Inserted-front base lo [] hi pg w s f l room
merge_insert base lo (p ∷ ps) hi pg w s f l room (lp, sp, fp, c) (inr behind, a) =
    Inserted-front base lo (p ∷ ps) hi pg w s f l (behind, sp, fp, c)
merge_insert base lo (p ∷ ps) hi pg w s f l room (lp, sp, fp, c) (inl before, a) =
    elim (Bool-cases (p + (pg p).property == base)) [
      | inl touches ↦
          let touch : p + (pg p).property ≡ base = ground arith in
          Inserted-touch p base lo ps hi pg w s lp sp fp touch room
            (Chain-raise base ps hi pg (subst (λ n. Chain pg n ps hi) touch c) a room)
      | inr apart ↦
          Inserted-cons p base lo ps hi pg lp sp fp (ground arith)
            (merge_insert base (p + (pg p).property) ps hi pg w s f before room c a)
    ]
