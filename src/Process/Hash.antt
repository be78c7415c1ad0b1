-- ===== src/Process/Hash.antt =====
-- Finding a process by its number: hash32 (ucore_os/libs/hash.c), and the hash lists of
-- ucore_os/kern/process/proc.c. A `struct proc_struct *` is an address, 0 is `NULL`.
pub mod Lookup
pub mod Range
mod Tests
use dora_aos2019_homework.Prelude.{
  ℕ, ◌-◌, ◌*◌, ◌/◌, ◌%◌, ◌^◌, ◌&&◌, List, [], ◌∷◌, ltb, ◌==◌, if◌then◌else◌,
}
use dora_aos2019_homework.Prelude.Int.{ℤ, pos, negsuc}
use dora_aos2019_homework.Kernel.{update}
use dora_aos2019_homework.Kernel.Links.{unlink}
use dora_aos2019_homework.Process.Pid.{max_pid}

-- `GOLDEN_RATIO_PRIME_32`
abbrev pub golden_ratio_prime_32 : ℕ
golden_ratio_prime_32 = 0x9e370001

unfoldable pub hash32 : ℕ → ℕ → ℕ
hash32 val bits = (val * golden_ratio_prime_32) % 2 ^ 32 / 2 ^ (32 - bits)

-- `HASH_LIST_SIZE`, the number of hash lists
abbrev pub hash_list_size : ℕ
hash_list_size = 2 ^ 10

unfoldable pub pid_hashfn : ℕ → ℕ
unfolding hash32
pid_hashfn x = hash32 x 10

-- `hash_list` by the number of the list, and `pid` by the address of the process.
pub record HashLists : Type 0 where
  pub lists : ℕ → List ℕ
  pub pid : ℕ → ℕ

unfoldable pub hash_proc : ℕ → HashLists → HashLists
hash_proc proc h =
    let list = pid_hashfn (h.pid proc) in
    record h { lists = update h.lists list (proc ∷ h.lists list) }

-- `hash_link` stands on one list at most.
unfoldable pub unhash_proc : ℕ → HashLists → HashLists
unhash_proc proc h = record h { lists = λ list. unlink proc (h.lists list) }

-- The first process of a list that has the number, or `NULL`.
unfoldable pub find_in : ℕ → (ℕ → ℕ) → List ℕ → ℕ
find_in n pid [] = 0
find_in n pid (proc ∷ procs) =
    let rest = find_in n pid procs in if pid proc == n then proc else rest

unfoldable pub find_proc : ℤ → HashLists → ℕ
find_proc (negsuc _) h = 0
find_proc (pos n) h =
    if ltb 0 n && ltb n max_pid then find_in n h.pid (h.lists (pid_hashfn n)) else 0
