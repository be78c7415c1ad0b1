-- ===== src/Process/Fork/Tests.antt =====
-- Tests and witnesses for do_fork.
use dora_aos2019_homework.Prelude.{
  ℕ, ◌+◌, ◌≡◌, refl, Option, some, List, [], Outcome, ok, arith, ◌==◌, if◌then◌else◌,
}
use dora_aos2019_homework.Prelude.Int.{ℤ, pos}
use dora_aos2019_homework.Process.Pid.{scan, repeat_scan, get_pid}
use dora_aos2019_homework.Process.Fork.{
  Host, Tasks, e_no_mem, copy_files, put_files, share_files, fork_mm, link_child, new_proc, do_fork,
}
use dora_aos2019_homework.Process.Fork.Files.{put_files-copy_files}

-- A host whose memory is the next free address; copy_mm fails without CLONE_VM.
abbrev sample_host : Host
sample_host = record {
  World = ℕ;
  alloc_proc = λ w. (w, w + 1);
  kfree = λ p w. w;
  setup_kstack = λ p w. (pos 0, w);
  put_kstack = λ p w. w;
  files_create = λ w. (w, w + 1);
  dup_files = λ to from w. (pos 0, w);
  files_destroy = λ files w. w;
  copy_mm = λ clone_flags p w. (if clone_flags == 0x900 then pos 0 else e_no_mem, w);
  copy_thread = λ p stack tf w. w;
  wakeup_proc = λ p w. w;
}

-- idleproc, at 50, runs and has made nobody yet; its open files are at 60.
abbrev idle_tasks : Tasks sample_host
idle_tasks = record {
  family = record {
    parent = λ _. 0;
    cptr = λ _. 0;
    yptr = λ _. 0;
    optr = λ _. 0;
    proc_list = [];
    nr_process = 1;
  };
  hash = record { lists = λ _. []; pid = λ _. 0 };
  pids = record { last_pid = 8192; next_safe = 8192 };
  current = 50;
  idleproc = 50;
  wait_state = λ _. 0;
  filesp = λ _. 60;
  files_count = λ _. pos 1;
  world = 100;
}

abbrev childless : ℕ → List ℕ
childless _ = []

put_files-copy_files_example :
    (t' : Tasks sample_host) × ((copy_files sample_host 0x800 100 idle_tasks ≡ ok (pos 0, t'))
      × (((files : ℕ) → (put_files sample_host 100 t').files_count files ≡ pos 1)
          × ((put_files sample_host 100 t').world ≡ 100)))
put_files-copy_files_example =
    put_files-copy_files sample_host 0x800 100 0 idle_tasks refl (λ e. ground arith) refl

abbrev returned : Outcome (Option (ℤ × Tasks sample_host)) → ℤ
returned (ok (some r)) = r.0
returned _ = pos 0

-- The first process that is made has number 1.
init_number : returned (do_fork sample_host 0x900 0 0 idle_tasks) ≡ pos 1
unfolding do_fork copy_files share_files fork_mm link_child new_proc get_pid repeat_scan scan
init_number = refl
