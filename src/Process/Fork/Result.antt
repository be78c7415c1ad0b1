-- ===== src/Process/Fork/Result.antt =====
-- What do_fork returns, on every path (ucore_os/kern/process/proc.c).
use dora_aos2019_homework.Prelude.{ℕ, true, false, ◌≤◌, ◌<◌, ◌≡◌, ◌≢◌, ◌⊎◌, List, ok}
use dora_aos2019_homework.Prelude.Int.{ℤ}
use dora_aos2019_homework.Process.Fork.{
  Host, Tasks, is_zero, e_no_mem, e_no_free_proc, max_process, copy_files, new_proc,
}
use dora_aos2019_homework.Process.Fork.Valid.{IsTasks}
use dora_aos2019_homework.Process.Fork.Linked.{IsForked}

module _ {H : Host} where
  -- What alloc_proc and then setup_kstack return, and the state that do_fork calls copy_files in.
  abbrev pub new_address : Tasks H → ℕ
  new_address t = (H.alloc_proc t.world).0

  abbrev pub stack_made : Tasks H → ℤ × H.World
  stack_made t = H.setup_kstack (new_address t) (H.alloc_proc t.world).1

  abbrev pub with_stack : Tasks H → Tasks H
  with_stack t =
      record (new_proc H (new_address t) (record t { world = (H.alloc_proc t.world).1 })) {
        world = (stack_made t).1;
      }

  -- Why no process is made: there are too many, or the call that do_fork makes in that place has failed.
  pub data Refused (clone_flags : ℕ) (t : Tasks H) : Type 0 where
    too_many : max_process ≤ t.family.nr_process → Refused clone_flags t
    no_memory : new_address t ≡ 0 → Refused clone_flags t
    no_kstack : is_zero (stack_made t).0 ≡ false → Refused clone_flags t
    no_files :
        (ret : ℤ) (t' : Tasks H)
        → is_zero (stack_made t).0 ≡ true
        → copy_files H clone_flags (new_address t) (with_stack t) ≡ ok (ret, t')
        → is_zero ret ≡ false
        → Refused clone_flags t
    no_mm :
        (ret : ℤ) (t' : Tasks H)
        → is_zero (stack_made t).0 ≡ true
        → copy_files H clone_flags (new_address t) (with_stack t) ≡ ok (ret, t')
        → is_zero ret ≡ true
        → is_zero (H.copy_mm clone_flags (new_address t) t'.world).0 ≡ false
        → Refused clone_flags t

  -- What do_fork returns for each cause.
  abbrev pub error_of : {clone_flags : ℕ} {t : Tasks H} → Refused clone_flags t → ℤ
  error_of (too_many _) = e_no_free_proc
  error_of (no_memory _) = e_no_mem
  error_of (no_kstack _) = e_no_mem
  error_of (no_files _ _ _ _ _) = e_no_mem
  error_of (no_mm _ _ _ _ _ _) = e_no_mem

  -- There is room for a process, and every call that can fail has succeeded.
  pub record Granted (clone_flags : ℕ) (t : Tasks H) : Type 0 where
    pub room : t.family.nr_process < max_process
    pub memory : new_address t ≢ 0
    pub kstack : is_zero (stack_made t).0 ≡ true
    pub ret : ℤ
    pub copied : Tasks H
    pub files : copy_files H clone_flags (new_address t) (with_stack t) ≡ ok (ret, copied)
    pub files_good : is_zero ret ≡ true
    pub mm : is_zero (H.copy_mm clone_flags (new_address t) copied.world).0 ≡ true

  -- A call that has made no process: there is a cause, it returns the error for that cause, and leaves
  -- the processes, their numbers and the lists they are on as they were.
  pub record IsFailed (clone_flags : ℕ) (t : Tasks H) (kids : ℕ → List ℕ) (r : ℤ × Tasks H)
      : Type 0 where
    pub cause : Refused clone_flags t
    pub returned : r.0 ≡ error_of cause
    pub tasks : IsTasks r.1 kids
    pub same_list : r.1.family.proc_list ≡ t.family.proc_list
    pub same_number : r.1.family.nr_process ≡ t.family.nr_process
    pub same_hash : r.1.hash ≡ t.hash
    pub same_pids : r.1.pids ≡ t.pids

  Finished : ℕ → Tasks H → (ℕ → List ℕ) → ℤ × Tasks H → Type 0
  Finished clone_flags t kids r =
      IsFailed clone_flags t kids r ⊎ (Granted clone_flags t × IsForked (new_address t) t kids r)
