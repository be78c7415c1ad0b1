-- ===== src/Process/Hash/Lookup.antt =====
-- What a search by process number finds (ucore_os/kern/process/proc.c, ucore_os/libs/hash.c).
use dora_aos2019_homework.Prelude.{
  ℕ, ◌<◌, ◌≡◌, refl, sym, ◌∙◌, ap, ◌⊎◌, inl, inr, true, false, ◌&&◌, List, [], ◌∷◌, map, ◌==◌,
  arith, Bool-cases,
}
use dora_aos2019_homework.Prelude.Int.{pos}
use dora_aos2019_homework.Kernel.Links.{has, distinct, unlink, has-unlink, distinct-unlink}
use dora_aos2019_homework.Process.Pid.{max_pid}
use dora_aos2019_homework.Process.Hash.{
  pid_hashfn, HashLists, hash_proc, unhash_proc, find_in, find_proc,
}

-- The processes `procs`, of different numbers, stand on the hash lists, each on that of its number.
pub record IsHashed (procs : List ℕ) (h : HashLists) : Type 0 where
  pub listed : (list p : ℕ) → has p (h.lists list) ≡ (has p procs && list == pid_hashfn (h.pid p))
  pub once : distinct (map h.pid procs) ≡ true
  pub no_null : has 0 procs ≡ false
  pub apart : (list : ℕ) → distinct (h.lists list) ≡ true

pub has-map :
    (pid : ℕ → ℕ) (p : ℕ) (ps : List ℕ) → has p ps ≡ true → has (pid p) (map pid ps) ≡ true
has-map pid p [] h = h
has-map pid p (q ∷ qs) h = elim (Bool-cases (p == q)) [
  | inl here ↦ let e : pid p ≡ pid q = ap pid (ground arith) in ground arith
  | inr there ↦ ground (arith, has-map pid p qs)
]

-- Processes of different numbers that have the same number are the same.
same_number :
    (pid : ℕ → ℕ) (p q : ℕ) (ps : List ℕ)
    → distinct (map pid ps) ≡ true
    → has p ps ≡ true
    → has q ps ≡ true
    → pid p ≡ pid q
    → p ≡ q
same_number pid p q [] d h g e = ground arith
same_number pid p q (r ∷ rs) d h g e =
    let p_r : p ≡ r → pid p ≡ pid r = λ x. ap pid x in
    let q_r : q ≡ r → pid q ≡ pid r = λ x. ap pid x in
    ground (arith, has-map pid p rs, has-map pid q rs, same_number pid p q rs)

-- A search finds a process of that number, or there is none.
pub find_in_cases :
    (n : ℕ) (pid : ℕ → ℕ) (ps : List ℕ)
    → ((find_in n pid ps ≡ 0) × (has n (map pid ps) ≡ false))
      ⊎ ((has (find_in n pid ps) ps ≡ true) × (pid (find_in n pid ps) ≡ n))
unfolding find_in
find_in_cases n pid [] = inl (refl, refl)
find_in_cases n pid (p ∷ ps) = elim (Bool-cases (pid p == n)) [
  | inl here ↦
      let e : find_in n pid (p ∷ ps) ≡ p = ground arith in
      inr (ground arith, ap pid e ∙ ground arith)
  | inr there ↦
      let e : find_in n pid (p ∷ ps) ≡ find_in n pid ps = ground arith in
      elim (find_in_cases n pid ps) [
        | inl (z, h) ↦ inl (e ∙ z, ground arith)
        | inr (h, w) ↦ inr (ground arith, ap pid e ∙ w)
      ]
]

-- The search of one hash list finds what a search of all the processes finds.
pub find_proc-find_in :
    (procs : List ℕ) (h : HashLists) (n : ℕ)
    → IsHashed procs h
    → 0 < n
    → n < max_pid
    → find_proc (pos n) h ≡ find_in n h.pid procs
unfolding find_proc
find_proc-find_in procs h n v z b =
    let hashed = h.lists (pid_hashfn n) in
    let list_part : (q : ℕ) → has q hashed ≡ true → has q procs ≡ true =
      λ q g. ground (arith, v.listed (pid_hashfn n) q) in
    let number_part : (q : ℕ) → has q procs ≡ true → h.pid q ≡ n → has q hashed ≡ true =
      λ q g e. ground (arith, v.listed (pid_hashfn n) q, ap pid_hashfn e) in
    let in_list : find_proc (pos n) h ≡ find_in n h.pid hashed = ground arith in
    let found = find_in n h.pid procs in
    let found_here = find_in n h.pid hashed in
    in_list ∙ elim (find_in_cases n h.pid hashed) [
      | inl (z, g) ↦ elim (find_in_cases n h.pid procs) [
        | inl (z', g') ↦ z ∙ sym z'
        | inr (g', e') ↦
            absurd (ground (arith, has-map h.pid found hashed (number_part found g' e'), e'))
      ]
      | inr (g, e) ↦ elim (find_in_cases n h.pid procs) [
        | inl (z', g') ↦
            absurd (ground (arith, has-map h.pid found_here procs (list_part found_here g), e))
        | inr (g', e') ↦
            same_number h.pid found_here found procs v.once (list_part found_here g) g' (e ∙ sym e')
      ]
    ]

-- For a number between 0 and MAX_PID, find_proc returns NULL when no process has that number, and
-- otherwise a process of that number, and no other process has it.
pub find_proc_lem :
    (procs : List ℕ) (h : HashLists) (n : ℕ)
    → IsHashed procs h
    → 0 < n
    → n < max_pid
    → ((find_proc (pos n) h ≡ 0) × (has n (map h.pid procs) ≡ false))
      ⊎ ((has (find_proc (pos n) h) procs ≡ true)
          × (h.pid (find_proc (pos n) h) ≡ n)
          × ((q : ℕ) → has q procs ≡ true → h.pid q ≡ n → q ≡ find_proc (pos n) h))
find_proc_lem procs h n v z b =
    let same = find_proc-find_in procs h n v z b in
    rw same (elim (find_in_cases n h.pid procs) [
      | inl none_there ↦ inl none_there
      | inr (g, e) ↦
          inr (
            g,
            e,
            λ q i w. same_number h.pid q (find_in n h.pid procs) procs v.once i g (w ∙ sym e),
          )
    ])

-- On the list of the processes, the one of a number is found.
find_in-member :
    (p : ℕ) (pid : ℕ → ℕ) (ps : List ℕ)
    → distinct (map pid ps) ≡ true
    → has p ps ≡ true
    → find_in (pid p) pid ps ≡ p
find_in-member p pid ps d h = elim (find_in_cases (pid p) pid ps) [
  | inl (z, g) ↦ absurd (ground (arith, has-map pid p ps h))
  | inr (g, e) ↦ same_number pid (find_in (pid p) pid ps) p ps d g h e
]

pub find_proc-member :
    (procs : List ℕ) (h : HashLists) (p : ℕ)
    → IsHashed procs h
    → has p procs ≡ true
    → 0 < h.pid p
    → h.pid p < max_pid
    → find_proc (pos (h.pid p)) h ≡ p
find_proc-member procs h p v i z b =
    find_proc-find_in procs h (h.pid p) v z b ∙ find_in-member p h.pid procs v.once i

pub hash_proc-IsHashed :
    (procs : List ℕ) (h : HashLists) (p : ℕ)
    → IsHashed procs h
    → 0 < p
    → has p procs ≡ false
    → has (h.pid p) (map h.pid procs) ≡ false
    → IsHashed (p ∷ procs) (hash_proc p h)
unfolding hash_proc
hash_proc-IsHashed procs h p v z new u = record {
  listed = λ list q. elim (Bool-cases (q == p)) [
    | inl own ↦
        let e : pid_hashfn (h.pid q) ≡ pid_hashfn (h.pid p) =
          ap (λ t. pid_hashfn (h.pid t)) (ground arith) in
        ground (arith, v.listed list q)
    | inr other ↦ ground (arith, v.listed list q)
  ];
  once = ground (arith, v.once);
  no_null = ground (arith, v.no_null);
  apart = λ list. ground (arith, v.apart list, v.listed list p);
}

pub distinct_of_map :
    (pid : ℕ → ℕ) (ps : List ℕ) → distinct (map pid ps) ≡ true → distinct ps ≡ true
distinct_of_map pid [] d = refl
distinct_of_map pid (p ∷ ps) d = elim (Bool-cases (has p ps)) [
  | inl twice ↦ ground (arith, has-map pid p ps)
  | inr fresh ↦ ground (arith, distinct_of_map pid ps)
]

has-map-unlink :
    (pid : ℕ → ℕ) (n p : ℕ) (ps : List ℕ)
    → has n (map pid ps) ≡ false
    → has n (map pid (unlink p ps)) ≡ false
unfolding unlink
has-map-unlink pid n p [] h = refl
has-map-unlink pid n p (q ∷ qs) h = elim (Bool-cases (p == q)) [
  | inl here ↦
      let e : unlink p (q ∷ qs) ≡ qs = ground arith in ap (λ t. has n (map pid t)) e ∙ ground arith
  | inr there ↦
      let e : unlink p (q ∷ qs) ≡ q ∷ unlink p qs = ground arith in
      ap (λ t. has n (map pid t)) e ∙ ground (arith, has-map-unlink pid n p qs)
]

distinct-map-unlink :
    (pid : ℕ → ℕ) (p : ℕ) (ps : List ℕ)
    → distinct (map pid ps) ≡ true
    → distinct (map pid (unlink p ps)) ≡ true
unfolding unlink
distinct-map-unlink pid p [] d = refl
distinct-map-unlink pid p (q ∷ qs) d = elim (Bool-cases (p == q)) [
  | inl here ↦
      let e : unlink p (q ∷ qs) ≡ qs = ground arith in
      ap (λ t. distinct (map pid t)) e ∙ ground arith
  | inr there ↦
      let e : unlink p (q ∷ qs) ≡ q ∷ unlink p qs = ground arith in
      ap (λ t. distinct (map pid t)) e
      ∙ ground (arith, has-map-unlink pid (pid q) p qs, distinct-map-unlink pid p qs)
]

-- unhash_proc takes a process off its hash list and leaves the hash lists right for the processes
-- that are left.
pub unhash_proc-IsHashed :
    (procs : List ℕ) (h : HashLists) (p : ℕ)
    → IsHashed procs h
    → IsHashed (unlink p procs) (unhash_proc p h)
unfolding unhash_proc
unhash_proc-IsHashed procs h p v =
    let apart_procs = distinct_of_map h.pid procs v.once in
    record {
      listed = λ list q. ground (
        arith,
        has-unlink q p (h.lists list) (v.apart list),
        has-unlink q p procs apart_procs,
        v.listed list q,
      );
      once = distinct-map-unlink h.pid p procs v.once;
      no_null = ground (arith, has-unlink 0 p procs apart_procs, v.no_null);
      apart = λ list. distinct-unlink p (h.lists list) (v.apart list);
    }
