-- ===== src/Process/Pid/Tests.antt =====
-- Runs of get_pid (ucore_os/kern/process/proc.c).
use dora_aos2019_homework.Prelude.{◌≡◌, refl, inl, some, [], ◌∷◌, arith}
use dora_aos2019_homework.Process.Pid.{PidState, scan, repeat_scan, get_pid}
use dora_aos2019_homework.Process.Pid.Fresh.{IsSafe, Unused, get_pid-Unused}

-- The numbers wrapped around; 1 and 2 are taken, and 2 stands before 1.
abbrev wrapped : PidState
wrapped = record { last_pid = 8191; next_safe = 8192 }

wrapped-IsSafe : IsSafe (2 ∷ 1 ∷ 8191 ∷ []) wrapped
wrapped-IsSafe = record {
  bound = omega arith;
  last = omega arith;
  gap = (inl (omega arith), (inl (omega arith), (inl (omega arith), tt)));
}

get_pid_wraps :
    get_pid (2 ∷ 1 ∷ 8191 ∷ []) wrapped ≡ some (record { last_pid = 3; next_safe = 8191 })
unfolding get_pid repeat_scan scan
get_pid_wraps = refl

get_pid-Unused_example :
    (s' : PidState) × ((get_pid (2 ∷ 1 ∷ 8191 ∷ []) wrapped ≡ some s')
      × Unused (2 ∷ 1 ∷ 8191 ∷ []) s')
get_pid-Unused_example =
    get_pid-Unused (2 ∷ 1 ∷ 8191 ∷ []) wrapped 9 wrapped-IsSafe refl (omega arith) (omega arith)
