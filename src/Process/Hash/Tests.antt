-- ===== src/Process/Hash/Tests.antt =====
-- Tests and witnesses for the search by process number.
use dora_aos2019_homework.Prelude.{
  ℕ, ◌-◌, ◌<◌, ◌^◌, ◌≡◌, refl, ◌⊎◌, true, false, map, [], ◌∷◌, arith,
}
use dora_aos2019_homework.Kernel.Links.{has}
use dora_aos2019_homework.Prelude.Int.{pos}
use dora_aos2019_homework.Process.Hash.{
  hash32, pid_hashfn, HashLists, hash_proc, find_in, find_proc,
}
use dora_aos2019_homework.Process.Hash.Lookup.{IsHashed, find_proc_lem, hash_proc-IsHashed}
use dora_aos2019_homework.Process.Hash.Range.{hash32_bound}

-- The process at address 100 + n has number n.
abbrev empty_lists : HashLists
empty_lists = record { lists = λ _. []; pid = λ p. p - 100 }

empty_lists-IsHashed : IsHashed [] empty_lists
empty_lists-IsHashed = record {
  listed = λ list p. refl;
  once = refl;
  no_null = refl;
  apart = λ list. refl;
}

init-IsHashed : IsHashed (101 ∷ []) (hash_proc 101 empty_lists)
init-IsHashed = hash_proc-IsHashed [] empty_lists 101 empty_lists-IsHashed (omega arith) refl refl

abbrev two_hashed : HashLists
two_hashed = hash_proc 105 (hash_proc 101 empty_lists)

two_hashed-IsHashed : IsHashed (105 ∷ 101 ∷ []) two_hashed
unfolding hash_proc
two_hashed-IsHashed =
    hash_proc-IsHashed (101 ∷ []) (hash_proc 101 empty_lists) 105 init-IsHashed (omega arith) refl
      refl

find_proc_lem_example :
    ((find_proc (pos 5) two_hashed ≡ 0) × (has 5 (map two_hashed.pid (105 ∷ 101 ∷ [])) ≡ false))
    ⊎ ((has (find_proc (pos 5) two_hashed) (105 ∷ 101 ∷ []) ≡ true)
        × (two_hashed.pid (find_proc (pos 5) two_hashed) ≡ 5)
        × ((q : ℕ)
            → has q (105 ∷ 101 ∷ []) ≡ true
            → two_hashed.pid q ≡ 5
            → q ≡ find_proc (pos 5) two_hashed))
find_proc_lem_example =
    find_proc_lem (105 ∷ 101 ∷ []) two_hashed 5 two_hashed-IsHashed (omega arith) (omega arith)

five_found : find_proc (pos 5) two_hashed ≡ 105
unfolding find_proc find_in hash_proc pid_hashfn hash32
five_found = refl

hash32_bound_example : hash32 8191 10 < 2 ^ 10
hash32_bound_example = hash32_bound 8191 10 (omega arith) (omega arith)
