-- ===== src/PageAlloc/Free.antt =====
-- Freeing pages: default_free_pages of ucore_os/kern/mm/default_pmm.c.
use dora_aos2019_homework.Prelude.{
  ℕ, zero, suc, ◌+◌, ◌%◌, ◌^◌, ◌≤◌, ◌<◌, ◌≡◌, refl, sym, ◌∙◌, ap, ap₂, ◌⊎◌, inl, inr, Bool, true,
  false, ◌||◌, List, [], ◌∷◌, arith, ok, ltb, leb, Bool-cases, subst,
}
use dora_aos2019_homework.Memory.Blocks.{within}
use dora_aos2019_homework.PageAlloc.{
  Page, Pages, put, FreeArea, clear_pages, merge_loop, insert_block, default_free_pages,
}
use dora_aos2019_homework.PageAlloc.Blocks.{Chain, cover, total, IsValid, Chain-le}
use dora_aos2019_homework.PageAlloc.Rejoin.{AllApart, merge_insert}

-- The `n` pages from `p` on are in use: neither reserved nor the head of a free block.
abbrev pub InUse : ℕ → ℕ → Pages → Type 0
InUse p n pg = (q : ℕ) → p ≤ q → q < p + n → ((pg q).reserved ≡ false) × ((pg q).is_head ≡ false)

clear_pages_lem :
    (n p : ℕ) (pg : Pages)
    → InUse p n pg
    → (pg' : Pages) × ((clear_pages n p pg ≡ ok pg')
        × ((q : ℕ) → within p n q ≡ false → pg' q ≡ pg q))
unfolding clear_pages
clear_pages_lem zero p pg u = (pg, (refl, λ q h. refl))
clear_pages_lem (suc n) p pg u =
    let pg1 = put pg p (record (pg p) { reserved = false; is_head = false; ref = 0 }) in
    let here = u p (omega arith) (omega arith) in
    let (pg', (e, same)) =
      clear_pages_lem n (p + 1) pg1
        (λ q l h. let there = u q (omega arith) (omega arith) in ground arith) in
    (pg', (ground (arith, e), λ q h. same q (ground arith) ∙ ground arith))

-- The blocks of the list share no page with the `n` pages from `base` on.
abbrev pub Clear : ℕ → ℕ → Pages → List ℕ → Type 0
Clear base n pg ps = (q : ℕ) → within base n q ≡ true → cover pg ps q ≡ false

apart_blocks :
    (p m base n : ℕ) (b c : Bool)
    → 0 < m
    → 0 < n
    → (within p m base || b) ≡ false
    → (within base n p ≡ true → (within p m p || c) ≡ false)
    → (p + m ≤ base) ⊎ (base + n ≤ p)
apart_blocks p m base n b c hm hn h k = elim (Bool-cases (leb (p + m) base)) [
  | inl below ↦ inl (ground arith)
  | inr over ↦ elim (Bool-cases (leb (base + n) p)) [
    | inl above ↦ inr (ground arith)
    | inr inside ↦ absurd (overlap (ground arith) (ground arith))
  ]
]
  where
    overlap : base < p + m → p < base + n → ⊥
    overlap x y = elim (Bool-cases (leb p base)) [
      | inl le ↦ absurd (ground arith)
      | inr gt ↦ let no_cover = k (ground arith) in absurd (ground arith)
    ]

record Unchanged (base n lo : ℕ) (ps : List ℕ) (hi : ℕ) (pg pg' : Pages) : Type 0 where
  chain : Chain pg' lo ps hi
  covers : (a : ℕ) → cover pg' ps a ≡ cover pg ps a
  counts : total pg' ps ≡ total pg ps
  apart : AllApart base pg' ps

blocks-Unchanged :
    (base n lo : ℕ) (ps : List ℕ) (hi : ℕ) (pg pg' : Pages)
    → 0 < n
    → (pg' base).property ≡ n
    → ((q : ℕ) → within base n q ≡ false → pg' q ≡ pg q)
    → Clear base n pg ps
    → Chain pg lo ps hi
    → Unchanged base n lo ps hi pg pg'
blocks-Unchanged base n lo [] hi pg pg' s z same d c = record {
  chain = c;
  covers = λ a. refl;
  counts = refl;
  apart = tt;
}
blocks-Unchanged base n lo (p ∷ ps) hi pg pg' s z same d (l, sp, fp, c) =
    let first = d base (ground arith) in
    let other = d p in
    let apart : (p + (pg p).property ≤ base) ⊎ (base + n ≤ p) =
      apart_blocks p (pg p).property base n (cover pg ps base) (cover pg ps p) sp s first other in
    let kept : pg' p ≡ pg p = same p (ground arith) in
    let size : (pg' p).property ≡ (pg p).property = ap (λ (x : Page). x.property) kept in
    let r =
      blocks-Unchanged base n (p + (pg p).property) ps hi pg pg' s z same
        (λ q w. let all = d q w in ground arith) c in
    record {
      chain = (
        l,
        omega (arith, size),
        ap (λ (x : Page). x.is_head) kept ∙ fp,
        subst (λ m. Chain pg' (p + m) ps hi) (sym size) r.chain,
      );
      covers = λ a. ap₂ (λ m b. within p m a || b) size (r.covers a);
      counts = omega (arith, size, r.counts);
      apart = (
        subst (λ m. (p + m ≤ base) ⊎ (base + (pg' base).property ≤ p)) (sym size)
            (subst (λ m. (p + (pg p).property ≤ base) ⊎ (base + m ≤ p)) (sym z) apart),
        r.apart,
      );
    }

-- The free pages are those of before and the freed ones, and the invariant holds.
pub record Freed (npage base n : ℕ) (a a' : FreeArea) : Type 0 where
  pub valid : IsValid npage a'
  pub covers :
      (q : ℕ) → cover a'.pages a'.free_list q ≡ (within base n q || cover a.pages a.free_list q)
  pub counts : a'.nr_free ≡ a.nr_free + n

abbrev headed : ℕ → ℕ → Pages → Pages
headed base n pg = put pg base (record (pg base) { property = n; is_head = true })

free_runs :
    (base n b : ℕ) (qs rs : List ℕ) (a : FreeArea) (pg pg' : Pages)
    → 0 < n
    → clear_pages n base a.pages ≡ ok pg
    → merge_loop a.free_list base (headed base n pg) ≡ (b, qs, pg')
    → insert_block b pg' qs ≡ ok rs
    → default_free_pages base n a
      ≡ ok (record { pages = pg'; free_list = rs; nr_free = (a.nr_free + n) % 2 ^ 32 })
unfolding default_free_pages
free_runs base n b qs rs a pg pg' hn e m i =
    let test : ltb 0 n ≡ true = ground arith in rw (test, e, m, i) refl

module _ (npage base n : ℕ) {a : FreeArea} (v : IsValid npage a) (hn : 0 < n)
    (room : base + n ≤ npage) (used : InUse base n a.pages)
    (clear : Clear base n a.pages a.free_list) where
  freed :
      (pg : Pages)
      → clear_pages n base a.pages ≡ ok pg
      → ((q : ℕ) → within base n q ≡ false → pg q ≡ a.pages q)
      → (a' : FreeArea) × ((default_free_pages base n a ≡ ok a') × Freed npage base n a a')
  freed pg e same =
      let pg1 = headed base n pg in
      let kept : (q : ℕ) → within base n q ≡ false → pg1 q ≡ a.pages q =
        λ q w. ground (arith, same q w) in
      let size : (pg1 base).property ≡ n = ground arith in
      let u = blocks-Unchanged base n 0 a.free_list npage a.pages pg1 hn size kept clear v.chain in
      let r =
        merge_insert base 0 a.free_list npage pg1 v.bound (omega (arith, size)) (ground arith)
          (omega arith) (omega (arith, size)) u.chain u.apart in
      let le = Chain-le r.pg' 0 r.rs npage r.joined.chain in
      let sum : total r.pg' r.rs ≡ a.nr_free + n =
        omega (arith, r.joined.counts, size, u.counts, v.count) in
      (
        record { pages = r.pg'; free_list = r.rs; nr_free = (a.nr_free + n) % 2 ^ 32 },
        (
          free_runs base n r.b r.qs r.rs a pg r.pg' hn e r.merges r.inserts,
          record {
            valid = record {
              bound = v.bound;
              chain = r.joined.chain;
              count = omega (arith, sum, le, v.bound);
            };
            covers = λ q. r.joined.covers q ∙ ap₂ (λ m c. within base m q || c) size (u.covers q);
            counts = omega (arith, sum, le, v.bound);
          },
        ),
      )

  -- default_free_pages of n > 0 pages in use, none of them in a free block, never fails on a valid
  -- allocator: exactly those pages have become free, the count has grown by n, and the invariant holds,
  -- however the freed block touches the ones around it.
  pub default_free_pages_lem :
      (a' : FreeArea) × ((default_free_pages base n a ≡ ok a') × Freed npage base n a a')
  default_free_pages_lem =
      let (pg, (e, same)) = clear_pages_lem n base a.pages used in freed pg e same
