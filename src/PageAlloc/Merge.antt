-- ===== src/PageAlloc/Merge.antt =====
-- A freed block is joined with the blocks next to it: the loops of default_free_pages
-- (ucore_os/kern/mm/default_pmm.c).
use dora_aos2019_homework.Prelude.{
  ℕ, ◌+◌, ◌^◌, ◌≤◌, ◌<◌, ◌≡◌, refl, ◌∙◌, ap, ap₂, ◌≢◌, inl, inr, Bool, true, false, ◌||◌, List, [],
  ◌∷◌, arith, ok, ◌==◌, if◌then◌else◌, Bool-cases,
}
use dora_aos2019_homework.Memory.Blocks.{within}
use dora_aos2019_homework.PageAlloc.{Page, Pages, put, merge_step, merge_loop, insert_block}
use dora_aos2019_homework.PageAlloc.Blocks.{
  Chain, cover, total, Chain-le, Chain-lower, Chain-same, cover_same, total_same,
}

pub merge_cons :
    (p base b1 b : ℕ) (ps qs : List ℕ) (pg pg1 pg2 : Pages) (keep : Bool)
    → merge_step p base pg ≡ (keep, b1, pg1)
    → merge_loop ps b1 pg1 ≡ (b, qs, pg2)
    → merge_loop (p ∷ ps) base pg ≡ (b, if keep then p ∷ qs else qs, pg2)
unfolding merge_loop
merge_cons p base b1 b ps qs pg pg1 pg2 keep e f = rw (e, f) refl

-- The block behind the freed one joins it.
pub joined_up : ℕ → ℕ → Pages → Pages
joined_up p base pg =
    let grown =
      put pg base (record (pg base) { property = (pg base).property + (pg p).property }) in
    put grown p (record (grown p) { is_head = false })

-- The freed block joins the one before it.
unfoldable pub joined_down : ℕ → ℕ → Pages → Pages
joined_down p base pg =
    let grown = put pg p (record (pg p) { property = (pg p).property + (pg base).property }) in
    put grown base (record (grown base) { is_head = false })

pub step_up :
    (p base : ℕ) (pg : Pages)
    → base + (pg base).property ≡ p
    → (pg base).property + (pg p).property < 2 ^ 32
    → merge_step p base pg ≡ (false, base, joined_up p base pg)
unfolding merge_step joined_up
step_up p base pg e h = ground arith

pub step_down :
    (p base : ℕ) (pg : Pages)
    → p + (pg p).property ≡ base
    → p < base
    → (pg p).property + (pg base).property < 2 ^ 32
    → merge_step p base pg ≡ (false, p, joined_down p base pg)
unfolding merge_step joined_down
step_down p base pg e l h = ground arith

pub step_keep :
    (p base : ℕ) (pg : Pages)
    → base + (pg base).property ≢ p
    → p + (pg p).property ≢ base
    → merge_step p base pg ≡ (true, base, pg)
unfolding merge_step
step_keep p base pg e f = ground (arith, e, f)

-- Blocks that begin behind the end of the freed one stay.
merge_loop-behind :
    (lo base : ℕ) (ps : List ℕ) (hi : ℕ) (pg : Pages)
    → Chain pg lo ps hi
    → base + (pg base).property < lo
    → merge_loop ps base pg ≡ (base, ps, pg)
unfolding merge_loop
merge_loop-behind lo base [] hi pg c h = refl
merge_loop-behind lo base (p ∷ ps) hi pg (l, s, f, c) h =
    merge_cons p base base base ps ps pg pg pg true
      (step_keep p base pg (λ e. omega arith) (λ e. omega arith))
      (merge_loop-behind (p + (pg p).property) base ps hi pg c (omega arith))

abbrev pub Gap : ℕ → List ℕ → Type 0
Gap end [] = Unit
Gap end (q ∷ qs) = end < q

-- The blocks behind the freed one: those that touch it are in it now, the others are as before.
pub record Up (base lo : ℕ) (ps : List ℕ) (hi : ℕ) (pg : Pages) (qs : List ℕ) (pg' : Pages)
    : Type 0 where
  pub head : (pg' base).is_head ≡ true
  pub grows : (pg base).property ≤ (pg' base).property
  pub gap : Gap (base + (pg' base).property) qs
  pub chain : Chain pg' (base + (pg' base).property) qs hi
  pub covers :
      (a : ℕ)
      → (within base (pg' base).property a || cover pg' qs a)
        ≡ (within base (pg base).property a || cover pg ps a)
  pub counts : (pg' base).property + total pg' qs ≡ (pg base).property + total pg ps
  pub before : (q : ℕ) → q < lo → q ≢ base → pg' q ≡ pg q

Up-rest :
    (base lo : ℕ) (ps : List ℕ) (hi : ℕ) (pg : Pages)
    → (pg base).is_head ≡ true
    → base + (pg base).property ≤ lo
    → Chain pg lo ps hi
    → Gap (base + (pg base).property) ps
    → Up base lo ps hi pg ps pg
Up-rest base lo ps hi pg f h c g = record {
  head = f;
  grows = omega arith;
  gap = g;
  chain = Chain-lower pg lo (base + (pg base).property) ps hi h c;
  covers = λ a. refl;
  counts = refl;
  before = λ q k n. refl;
}

module _ (p base : ℕ) (pg : Pages) (touch : base + (pg base).property ≡ p)
    (some_pages : 0 < (pg base).property) where
  up_base :
      joined_up p base pg base
      ≡ record (pg base) { property = (pg base).property + (pg p).property }
  unfolding joined_up
  up_base = ground arith

  up_other : (q : ℕ) → q ≢ base → q ≢ p → joined_up p base pg q ≡ pg q
  unfolding joined_up
  up_other q n m = ground arith

pub within_join :
    (p m q n a : ℕ) (c : Bool)
    → p + m ≡ q
    → (within p (m + n) a || c) ≡ (within p m a || (within q n a || c))
within_join p m q n a c e = ground arith

pub merge_loop-Up :
    (base lo : ℕ) (ps : List ℕ) (hi : ℕ) (pg : Pages)
    → hi < 2 ^ 32
    → 0 < (pg base).property
    → (pg base).is_head ≡ true
    → base + (pg base).property ≤ lo
    → Chain pg lo ps hi
    → (qs : List ℕ) × ((pg' : Pages) × ((merge_loop ps base pg ≡ (base, qs, pg'))
          × Up base lo ps hi pg qs pg'))
unfolding merge_loop
merge_loop-Up base lo [] hi pg w s f h c = ([], (pg, (refl, Up-rest base lo [] hi pg f h c tt)))
merge_loop-Up base lo (p ∷ ps) hi pg w s f h (l, sp, fp, c) =
    elim (Bool-cases (base + (pg base).property == p)) [
      | inr apart ↦
          let further : base + (pg base).property < p = ground arith in
          let stays : merge_loop ps base pg ≡ (base, ps, pg) =
            merge_loop-behind (p + (pg p).property) base ps hi pg c (omega arith) in
          (
            p ∷ ps,
            (
              pg,
              (
                merge_cons p base base base ps ps pg pg pg true
                    (step_keep p base pg (λ e. omega arith) (λ e. omega arith)) stays,
                Up-rest base lo (p ∷ ps) hi pg f h (l, sp, fp, c) further,
              ),
            ),
          )
      | inl touches ↦
          let touch : base + (pg base).property ≡ p = ground arith in
          let pg1 = joined_up p base pg in
          let grown : (pg1 base).property ≡ (pg base).property + (pg p).property =
            ap (λ (r : Page). r.property) (up_base p base pg touch s) in
          let room = Chain-le pg (p + (pg p).property) ps hi c in
          let same : (q : ℕ) → p + (pg p).property ≤ q → pg1 q ≡ pg q =
            λ q k. up_other p base pg touch s q (λ e. omega arith) (λ e. omega arith) in
          let (qs, (pg', (e, u))) =
            merge_loop-Up base (p + (pg p).property) ps hi pg1 w (omega (arith, grown))
              (ap (λ (r : Page). r.is_head) (up_base p base pg touch s) ∙ f) (omega (arith, grown))
              (Chain-same (p + (pg p).property) ps hi same c) in
          (
            qs,
            (
              pg',
              (
                merge_cons p base base base ps qs pg pg1 pg' false
                    (step_up p base pg touch (omega (arith, room))) e,
                record {
                  head = u.head;
                  grows = omega (arith, u.grows, grown);
                  gap = u.gap;
                  chain = u.chain;
                  covers = λ a.
                      u.covers a
                      ∙ (ap₂ (λ n b. within base n a || b) grown
                            (cover_same (p + (pg p).property) ps hi a same c)
                          ∙ within_join base (pg base).property p (pg p).property a (cover pg ps a)
                              touch);
                  counts =
                      omega (arith, u.counts, grown, total_same (p + (pg p).property) ps hi same c);
                  before = λ q k n.
                      u.before q (omega arith) n
                      ∙ up_other p base pg touch s q n (λ e. omega arith);
                },
              ),
            ),
          )
    ]

-- The free list with the freed block `base` in it, `size` pages long.
pub record Joined (base lo : ℕ) (ps : List ℕ) (hi : ℕ) (pg : Pages) (b : ℕ) (rs : List ℕ)
    (pg' : Pages) : Type 0 where
  pub above : lo ≤ b
  pub chain : Chain pg' lo rs hi
  pub covers : (a : ℕ) → cover pg' rs a ≡ (within base (pg base).property a || cover pg ps a)
  pub counts : total pg' rs ≡ (pg base).property + total pg ps
  pub before : (q : ℕ) → q < lo → pg' q ≡ pg q

pub insert_front :
    (b : ℕ) (pg : Pages) (qs : List ℕ)
    → Gap (b + (pg b).property) qs
    → insert_block b pg qs ≡ ok (b ∷ qs)
unfolding insert_block
insert_front b pg [] g = refl
insert_front b pg (q ∷ qs) g = ground arith

pub insert_behind :
    (b p : ℕ) (pg : Pages) (qs rs : List ℕ)
    → p < b
    → insert_block b pg qs ≡ ok rs
    → insert_block b pg (p ∷ qs) ≡ ok (p ∷ rs)
unfolding insert_block
insert_behind b p pg qs rs h e = ground (arith, e)

-- The freed block lies before all blocks of the list.
pub Up-Joined :
    (base lo' lo : ℕ) (ps : List ℕ) (hi : ℕ) (pg pg' : Pages) (qs : List ℕ)
    → Up base lo' ps hi pg qs pg'
    → lo ≤ base
    → base < lo'
    → 0 < (pg base).property
    → Joined base lo ps hi pg base (base ∷ qs) pg'
Up-Joined base lo' lo ps hi pg pg' qs u l h s = record {
  above = l;
  chain = (l, omega (arith, u.grows), u.head, u.chain);
  covers = u.covers;
  counts = u.counts;
  before = λ q k. u.before q (omega arith) (λ e. omega arith);
}
