-- ===== src/Process/Kill/Tests.antt =====
-- Tests and witnesses for do_kill.
use dora_aos2019_homework.Prelude.{[]}
use dora_aos2019_homework.Kernel.Sample.{sample}
use dora_aos2019_homework.Process.Hash.{HashLists, hash_proc}
use dora_aos2019_homework.Process.Kill.{Signals}

-- Process 3 of the sample kernel has the number 3 and sleeps on a semaphore.
abbrev third_hashed : HashLists
third_hashed = hash_proc 3 (record { lists = λ _. []; pid = λ p. p })

abbrev unmarked : Signals
unmarked = record { kernel = sample; hash = third_hashed; flags = λ _. 0 }
