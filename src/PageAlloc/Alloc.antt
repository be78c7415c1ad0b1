-- ===== src/PageAlloc/Alloc.antt =====
-- Allocation takes the front of the first block that is large enough: default_alloc_pages of
-- ucore_os/kern/mm/default_pmm.c.
use dora_aos2019_homework.Prelude.{
  ℕ, ◌+◌, ◌-◌, ◌%◌, ◌^◌, ◌≤◌, ◌<◌, ◌≡◌, refl, sym, ◌∙◌, ap, ◌⊎◌, inl, inr, true, false, ◌&&◌, not,
  Option, none, some, List, [], ◌∷◌, ◌++◌, arith, ok, ltb, leb, if◌then◌else◌, Bool-cases,
}
use dora_aos2019_homework.Memory.Blocks.{within}
use dora_aos2019_homework.PageAlloc.{
  Pages, put, FreeArea, find_fit, take_block, default_alloc_pages,
}
use dora_aos2019_homework.PageAlloc.Blocks.{
  Chain, cover, total, IsValid, Chain-le, Chain-lower, Chain-same, cover_same, total_same,
  cover_below,
}

abbrev pub AllSmaller : ℕ → Pages → List ℕ → Type 0
AllSmaller n pg [] = Unit
AllSmaller n pg (p ∷ ps) = ((pg p).property < n) × AllSmaller n pg ps

-- The block `p` is the first of the list with `n` pages.
pub record FirstFit (n : ℕ) (pg : Pages) (ps before : List ℕ) (p : ℕ) (behind : List ℕ)
    : Type 0 where
  pub parts : ps ≡ before ++ p ∷ behind
  pub fits : n ≤ (pg p).property
  pub smaller : AllSmaller n pg before

find_fit_cases :
    (n : ℕ) (pg : Pages) (ps : List ℕ)
    → ((find_fit n pg ps ≡ none) × AllSmaller n pg ps)
      ⊎ ((before : List ℕ) × (p : ℕ) × (behind : List ℕ) × (find_fit n pg ps
            ≡ some (before, p, behind))
          × FirstFit n pg ps before p behind)
unfolding find_fit
find_fit_cases n pg [] = inl (refl, tt)
find_fit_cases n pg (q ∷ ps) = elim (Bool-cases (leb n (pg q).property)) [
  | inl fits ↦ inr ([], q, ps, rw fits, record { parts = refl; fits = ground arith; smaller = tt })
  | inr small ↦ elim (find_fit_cases n pg ps) [
    | inl (e, all) ↦ inl (rw (small, e), (ground arith, all))
    | inr (before, p, behind, e, first) ↦ inr (
      q ∷ before,
      p,
      behind,
      rw (small, e),
      record {
        parts = ap (λ xs. q ∷ xs) first.parts;
        fits = first.fits;
        smaller = (ground arith, first.smaller);
      },
    )
  ]
]

-- The pages and the list after the block `p` has given `n` pages away.
split_pages : ℕ → ℕ → Pages → Pages
split_pages n p pg =
    let size = (pg p).property in
    let split =
      if ltb n size
      then put pg (p + n) (record (pg (p + n)) { property = size - n; is_head = true })
      else pg in
    put split p (record (split p) { is_head = false })

split_list : ℕ → ℕ → Pages → List ℕ → List ℕ
split_list n p pg behind = if ltb n (pg p).property then (p + n) ∷ behind else behind

module _ (n p : ℕ) (pg : Pages) (behind : List ℕ) (hi : ℕ) (pos_n : 0 < n)
    (fits : n ≤ (pg p).property) where
  later : (q : ℕ) → p + (pg p).property ≤ q → split_pages n p pg q ≡ pg q
  unfolding split_pages
  later q h = ground arith

  earlier : (q : ℕ) → q < p → split_pages n p pg q ≡ pg q
  unfolding split_pages
  earlier q h = ground arith

  at_rest :
      ltb n (pg p).property ≡ true
      → split_pages n p pg (p + n)
        ≡ record (pg (p + n)) { property = (pg p).property - n; is_head = true }
  unfolding split_pages
  at_rest split = ground arith

  -- The list from the block `p` on: valid, without its first `n` pages, and as much smaller.
  record Split (lo : ℕ) (xs ys : List ℕ) : Type 0 where
    chain : Chain (split_pages n p pg) lo ys hi
    covers : (a : ℕ) → cover (split_pages n p pg) ys a ≡ (cover pg xs a && not (within p n a))
    counts : total (split_pages n p pg) ys + n ≡ total pg xs

  Split-here :
      (lo : ℕ) → Chain pg lo (p ∷ behind) hi → Split lo (p ∷ behind) (split_list n p pg behind)
  unfolding split_list
  Split-here lo (h, s, f, c) =
      let tail_cover : (a : ℕ) → cover (split_pages n p pg) behind a ≡ cover pg behind a =
        λ a. cover_same (p + (pg p).property) behind hi a later c in
      let tail_chain : Chain (split_pages n p pg) (p + (pg p).property) behind hi =
        Chain-same (p + (pg p).property) behind hi later c in
      let tail_total : total (split_pages n p pg) behind ≡ total pg behind =
        total_same (p + (pg p).property) behind hi later c in
      elim (Bool-cases (ltb n (pg p).property)) [
        | inl split ↦
            let there : p + n + ((pg p).property - n) ≡ p + (pg p).property = ground arith in
            rw split (record {
              chain = rw (at_rest split, there) (omega arith, ground arith, refl, tail_chain);
              covers = λ a.
                  rw (at_rest split, tail_cover a)
                    (ground (arith, cover_below pg (p + (pg p).property) behind hi a c));
              counts = rw (at_rest split, tail_total) (ground arith);
            })
        | inr whole ↦ rw whole (record {
          chain =
              Chain-lower (split_pages n p pg) (p + (pg p).property) lo behind hi (omega arith)
                tail_chain;
          covers = λ a.
              rw (tail_cover a)
                (ground (arith, cover_below pg (p + (pg p).property) behind hi a c));
          counts = rw tail_total (ground arith);
        })
      ]

  split_lem :
      (before : List ℕ) (lo : ℕ)
      → Chain pg lo (before ++ p ∷ behind) hi
      → (lo ≤ p) × Split lo (before ++ p ∷ behind) (before ++ split_list n p pg behind)
  split_lem [] lo c = (c.0, Split-here lo c)
  split_lem (q ∷ before) lo (h, s, f, c) =
      let (le, rest) = split_lem before (q + (pg q).property) c in
      let same : split_pages n p pg q ≡ pg q = earlier q (omega arith) in
      (
        omega arith,
        record {
          chain = rw same (h, s, f, rest.chain);
          covers = λ a. rw (same, rest.covers a) (ground arith);
          counts = rw same (omega (arith, rest.counts));
        },
      )

-- The outcome of a request for `n` pages at once.
pub data Allocated (npage n : ℕ) (a : FreeArea) : Option ℕ × FreeArea → Type 0 where
  refused : AllSmaller n a.pages a.free_list → Allocated npage n a (none, a)
  given :
      {before : List ℕ} {p : ℕ} {behind : List ℕ} {a' : FreeArea}
      → FirstFit n a.pages a.free_list before p behind
      → IsValid npage a'
      → a'.nr_free + n ≡ a.nr_free
      → ((q : ℕ)
          → cover a'.pages a'.free_list q ≡ (cover a.pages a.free_list q && not (within p n q)))
      → Allocated npage n a (some p, a')

too_large : (n : ℕ) (pg : Pages) (ps : List ℕ) → total pg ps < n → AllSmaller n pg ps
too_large n pg [] h = tt
too_large n pg (p ∷ ps) h = (omega arith, too_large n pg ps (omega arith))

take_block-Allocated :
    (npage n : ℕ) {a : FreeArea} (before : List ℕ) (p : ℕ) (behind : List ℕ)
    → IsValid npage a
    → 0 < n
    → FirstFit n a.pages a.free_list before p behind
    → Allocated npage n a (some p, take_block n before p behind a)
unfolding take_block split_pages split_list
take_block-Allocated npage n {a} before p behind v h first =
    let whole : Chain a.pages 0 (before ++ p ∷ behind) npage = rw first.parts at v.chain in
    let counted : a.nr_free ≡ total a.pages (before ++ p ∷ behind) =
      v.count ∙ ap (total a.pages) first.parts in
    let bounded : total a.pages (before ++ p ∷ behind) ≤ npage =
      omega (arith, Chain-le a.pages 0 (before ++ p ∷ behind) npage whole) in
    let (le, s) = split_lem n p a.pages behind npage h first.fits before 0 whole in
    let less : (a.nr_free + 2 ^ 32 - n) % 2 ^ 32 + n ≡ a.nr_free =
      omega (arith, s.counts, v.bound) in
    given first
      (record { bound = v.bound; chain = s.chain; count = omega (arith, s.counts, v.bound) }) less
      (λ q. s.covers q ∙ ap (λ ps. cover a.pages ps q && not (within p n q)) (sym first.parts))

-- default_alloc_pages of n > 0 pages never fails on a valid allocator: it refuses exactly when no block has
-- n pages, and changes nothing then; otherwise it returns the first block that has them, exactly those n
-- pages are no longer free, the count has fallen by n, and the invariant holds.
pub default_alloc_pages_lem :
    (npage n : ℕ) {a : FreeArea}
    → IsValid npage a
    → 0 < n
    → (r : Option ℕ × FreeArea) × (default_alloc_pages n a ≡ ok r) × Allocated npage n a r
unfolding default_alloc_pages
default_alloc_pages_lem npage n {a} v h = elim (Bool-cases (ltb a.nr_free n)) [
  | inl short ↦
      ((none, a), ground arith, refused (too_large n a.pages a.free_list (ground (arith, v.count))))
  | inr enough ↦ elim (find_fit_cases n a.pages a.free_list) [
    | inl (e, all) ↦ ((none, a), ground (arith, e), refused all)
    | inr (before, p, behind, e, first) ↦ (
      (some p, take_block n before p behind a),
      ground (arith, e),
      take_block-Allocated npage n before p behind v h first,
    )
  ]
]
