-- ===== src/Kernel/Links.antt =====
-- Lists of addresses, as `list_entry_t` chains hold them (ucore_os/libs/list.h).
use dora_aos2019_homework.Prelude.{
  ℕ, ◌+◌, ◌≡◌, refl, Bool, true, false, ◌||◌, ◌&&◌, not, List, [], ◌∷◌, ◌++◌, arith, ◌==◌,
  if◌then◌else◌, length,
}

-- Whether `a` is on the list.
abbrev pub has : ℕ → List ℕ → Bool
has a [] = false
has a (x ∷ xs) = a == x || has a xs

-- `list_del`: unlinks the node `a`.
unfoldable pub unlink : ℕ → List ℕ → List ℕ
unlink a [] = []
unlink a (x ∷ xs) = if a == x then xs else x ∷ unlink a xs

-- No node stands twice.
abbrev pub distinct : List ℕ → Bool
distinct [] = true
distinct (x ∷ xs) = not (has x xs) && distinct xs

pub has-append : (a : ℕ) (xs ys : List ℕ) → has a (xs ++ ys) ≡ (has a xs || has a ys)
has-append a [] ys = refl
has-append a (x ∷ xs) ys = ground (arith, has-append a xs ys)

pub distinct-snoc :
    (xs : List ℕ) (a : ℕ) → distinct xs ≡ true → has a xs ≡ false → distinct (xs ++ a ∷ []) ≡ true
distinct-snoc [] a d h = refl
distinct-snoc (x ∷ xs) a d h = ground (arith, has-append x xs (a ∷ []), distinct-snoc xs a)

pub has-unlink :
    (b a : ℕ) (xs : List ℕ) → distinct xs ≡ true → has b (unlink a xs) ≡ (not (b == a) && has b xs)
unfolding unlink
has-unlink b a [] d = ground arith
has-unlink b a (x ∷ xs) d = ground (arith, has-unlink b a xs)

pub distinct-unlink : (a : ℕ) (xs : List ℕ) → distinct xs ≡ true → distinct (unlink a xs) ≡ true
unfolding unlink
distinct-unlink a [] d = refl
distinct-unlink a (x ∷ xs) d = ground (arith, has-unlink x a xs, distinct-unlink a xs)

pub length-unlink : (a : ℕ) (xs : List ℕ) → has a xs ≡ true → length (unlink a xs) + 1 ≡ length xs
unfolding unlink
length-unlink a [] h = cc
length-unlink a (x ∷ xs) h = ground (arith, length-unlink a xs)
