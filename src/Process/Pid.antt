-- ===== src/Process/Pid.antt =====
-- Process numbers: get_pid of ucore_os/kern/process/proc.c.
pub mod Fresh
mod Tests
use dora_aos2019_homework.Prelude.{
  ℕ, zero, suc, ◌+◌, ◌&&◌, Option, none, some, List, [], ◌∷◌, ltb, leb, ◌==◌, if◌then◌else◌,
}

-- `MAX_PID`, twice `MAX_PROCESS`
abbrev pub max_pid : ℕ
max_pid = 8192

-- The static variables of `get_pid`.
pub record PidState : Type 0 where
  pub last_pid : ℕ
  pub next_safe : ℕ

abbrev pub initial : PidState
initial = record { last_pid = max_pid; next_safe = max_pid }

-- How the loop over `proc_list` ends: with both variables, or by `goto repeat` with `last_pid`.
pub data Scan : Type 0 where
  done : ℕ → ℕ → Scan
  again : ℕ → Scan

-- The loop over the process numbers on `proc_list`.
unfoldable pub scan : List ℕ → ℕ → ℕ → Scan
scan [] last_pid next_safe = done last_pid next_safe
scan (pid ∷ pids) last_pid next_safe =
    let on = scan pids (last_pid + 1) next_safe in
    let off =
      scan pids last_pid (if ltb last_pid pid && ltb pid next_safe then pid else next_safe) in
    if pid == last_pid
    then (if leb next_safe (last_pid + 1)
        then again (if leb max_pid (last_pid + 1) then 1 else last_pid + 1)
        else on)
    else off

-- From the label `inside`; `none` is fuel run out.
unfoldable pub repeat_scan : ℕ → List ℕ → ℕ → Option PidState
repeat_scan zero pids last_pid = none
repeat_scan (suc n) pids last_pid = elim (scan pids last_pid max_pid) [
  | done l s ↦ some (record { last_pid = l; next_safe = s })
  | again l ↦ repeat_scan n pids l
]

-- The new process number is the new `last_pid`. The fuel is twice the number of process numbers.
unfoldable pub get_pid : List ℕ → PidState → Option PidState
get_pid pids s =
    let fresh = s.last_pid + 1 in
    if leb max_pid fresh
    then repeat_scan (max_pid + max_pid) pids 1
    else (if leb s.next_safe fresh
        then repeat_scan (max_pid + max_pid) pids fresh
        else some (record s { last_pid = fresh }))
