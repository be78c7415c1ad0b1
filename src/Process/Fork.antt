-- ===== src/Process/Fork.antt =====
-- Making a process: do_fork, copy_files and put_files (ucore_os/kern/process/proc.c). Structures are
-- named by their addresses, 0 is `NULL`.
pub mod Valid
pub mod Linked
pub mod Copied
pub mod Result
pub mod Files
mod Tests
use dora_aos2019_homework.Prelude.{
  ℕ, ◌+◌, ◌-◌, ◌/◌, ◌%◌, Bool, false, not, Option, none, some, map, Outcome, ok, ◌>>=◌, ◌>>◌,
  assert, leb, ◌==◌, if◌then◌else◌,
}
use dora_aos2019_homework.Prelude.Int.{ℤ, pos, negsuc, ◌+ℤ◌, ◌-ℤ◌}
use dora_aos2019_homework.Kernel.{update}
use dora_aos2019_homework.Process.Pid.{PidState, get_pid}
use dora_aos2019_homework.Process.Hash.{HashLists, hash_proc}
use dora_aos2019_homework.Process.Family.{Family, set_links}

-- The memory that a process is made of, as do_fork calls for it: the heap (`alloc_proc` and `kfree`),
-- the kernel stacks, the address spaces, the open files and the scheduler. A call that can fail returns
-- `NULL` or a code other than 0.
pub record Host : Type 1 where
  pub World : Type 0
  pub alloc_proc : World → ℕ × World
  pub kfree : ℕ → World → World
  pub setup_kstack : ℕ → World → ℤ × World
  pub put_kstack : ℕ → World → World
  pub files_create : World → ℕ × World
  pub dup_files : ℕ → ℕ → World → ℤ × World
  pub files_destroy : ℕ → World → World
  pub copy_mm : ℕ → ℕ → World → ℤ × World
  pub copy_thread : ℕ → ℕ → ℕ → World → World
  pub wakeup_proc : ℕ → World → World

-- `MAX_PROCESS`, `-E_NO_FREE_PROC` and `-E_NO_MEM`
abbrev pub max_process : ℕ
max_process = 4096

abbrev pub e_no_free_proc : ℤ
e_no_free_proc = negsuc 4

abbrev pub e_no_mem : ℤ
e_no_mem = negsuc 3

-- `ret == 0`, of an `int`
abbrev pub is_zero : ℤ → Bool
is_zero (pos n) = n == 0
is_zero (negsuc n) = false

-- `clone_flags & CLONE_FS`
abbrev pub clone_fs : ℕ → Bool
clone_fs clone_flags = clone_flags / 0x800 % 2 == 1

module _ (H : Host) where
  open H use {
    World, alloc_proc, kfree, setup_kstack, put_kstack, files_create, dup_files, files_destroy,
    copy_mm, copy_thread, wakeup_proc,
  }

  -- The processes, by the fields that do_fork writes, and the reference counts of the open files. The
  -- number of a process that has none yet (-1) is left open.
  pub record Tasks : Type 0 where
    pub family : Family
    pub hash : HashLists
    pub pids : PidState
    pub current : ℕ
    pub idleproc : ℕ
    pub wait_state : ℕ → ℕ
    pub filesp : ℕ → ℕ
    pub files_count : ℕ → ℤ
    pub world : World

  -- `good_files_struct`
  unfoldable pub share_files : ℕ → ℕ → Tasks → ℤ × Tasks
  share_files files proc t = (
    pos 0,
    record t {
      files_count = update t.files_count files (t.files_count files +ℤ pos 1);
      filesp = update t.filesp proc files;
    },
  )

  -- After `files_create`, whose count of references is 0.
  unfoldable pub fill_files : ℕ → ℕ → ℕ → Tasks → ℤ × Tasks
  unfolding share_files
  fill_files files old proc t =
      let created = record t { files_count = update t.files_count files (pos 0) } in
      let copied = dup_files files old t.world in
      if is_zero copied.0
      then share_files files proc (record created { world = copied.1 })
      else (copied.0, record created { world = files_destroy files copied.1 })

  unfoldable pub copy_files : ℕ → ℕ → Tasks → Outcome (ℤ × Tasks)
  unfolding share_files fill_files
  copy_files clone_flags proc t =
      let old = t.filesp t.current in
      let created = files_create t.world in
      assert (not (old == 0))
      >> ok (
          if clone_fs clone_flags
          then share_files old proc t
          else (if created.0 == 0
              then (e_no_mem, record t { world = created.1 })
              else fill_files created.0 old proc (record t { world = created.1 })))

  unfoldable pub put_files : ℕ → Tasks → Tasks
  put_files proc t =
      let files = t.filesp proc in
      let count = t.files_count files -ℤ pos 1 in
      let dropped = record t { files_count = update t.files_count files count } in
      if files == 0
      then t
      else (if is_zero count
          then record dropped { world = files_destroy files t.world }
          else dropped)

  -- What `alloc_proc` writes, and then `proc->parent = current`.
  unfoldable pub new_proc : ℕ → Tasks → Tasks
  new_proc proc t = record t {
    family = record t.family {
      parent = update (update t.family.parent proc 0) proc t.current;
      cptr = update t.family.cptr proc 0;
      yptr = update t.family.yptr proc 0;
      optr = update t.family.optr proc 0;
    };
    wait_state = update t.wait_state proc 0;
    filesp = update t.filesp proc 0;
  }

  -- The block that runs with interrupts off, and `wakeup_proc`; `none` is `get_pid` out of fuel.
  unfoldable pub link_child : ℕ → Tasks → Option (ℤ × Tasks)
  link_child proc t = elim (get_pid (map t.hash.pid t.family.proc_list) t.pids) [
    | none ↦ none
    | some s ↦
        let numbered = record t.hash { pid = update t.hash.pid proc s.last_pid } in
        some (
          pos s.last_pid,
          record t {
            pids = s;
            hash = hash_proc proc numbered;
            family = set_links proc t.family;
            world = wakeup_proc proc t.world;
          },
        )
  ]

  -- The labels at the end of do_fork. Nothing jumps to `bad_fork_cleanup_fs`.
  unfoldable pub bad_fork_cleanup_proc : ℕ → Tasks → Tasks
  bad_fork_cleanup_proc proc t = record t { world = kfree proc t.world }

  unfoldable pub bad_fork_cleanup_kstack : ℕ → Tasks → Tasks
  unfolding bad_fork_cleanup_proc
  bad_fork_cleanup_kstack proc t =
      bad_fork_cleanup_proc proc (record t { world = put_kstack proc t.world })

  unfoldable pub bad_fork_cleanup_fs : ℕ → Tasks → Tasks
  bad_fork_cleanup_fs proc t = bad_fork_cleanup_kstack proc (put_files proc t)

  -- From the call of copy_mm on; `copied` is what copy_files returned.
  unfoldable pub fork_mm : ℕ → ℕ → ℕ → ℕ → ℤ × Tasks → Option (ℤ × Tasks)
  unfolding link_child bad_fork_cleanup_kstack
  fork_mm clone_flags stack tf proc copied =
      let t = copied.1 in
      let mm = copy_mm clone_flags proc t.world in
      if is_zero copied.0
      then (if is_zero mm.0
          then link_child proc (record t { world = copy_thread proc stack tf mm.1 })
          else some (e_no_mem, bad_fork_cleanup_kstack proc (record t { world = mm.1 })))
      else some (e_no_mem, bad_fork_cleanup_kstack proc t)

  unfoldable pub do_fork : ℕ → ℕ → ℕ → Tasks → Outcome (Option (ℤ × Tasks))
  unfolding new_proc copy_files fork_mm bad_fork_cleanup_proc
  do_fork clone_flags stack tf t =
      let made = alloc_proc t.world in
      let proc = made.0 in
      let t1 = new_proc proc (record t { world = made.1 }) in
      let stacked = setup_kstack proc made.1 in
      let t2 = record t1 { world = stacked.1 } in
      if leb max_process t.family.nr_process
      then ok (some (e_no_free_proc, t))
      else (if proc == 0
          then ok (some (e_no_mem, record t { world = made.1 }))
          else assert (t1.wait_state t.current == 0)
            >> (if is_zero stacked.0
                then copy_files clone_flags proc t2
                  >>= (λ copied. ok (fork_mm clone_flags stack tf proc copied))
                else ok (some (e_no_mem, bad_fork_cleanup_proc proc t2))))
