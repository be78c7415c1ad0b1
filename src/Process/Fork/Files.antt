-- ===== src/Process/Fork/Files.antt =====
-- The references to the open files that do_fork takes (ucore_os/kern/process/proc.c).
use dora_aos2019_homework.Prelude.{
  ℕ, suc, ◌<◌, ◌≡◌, sym, ◌∙◌, ap, ◌≢◌, inl, inr, true, false, some, ok, leb, arith, ◌==◌,
  Bool-cases,
}
use dora_aos2019_homework.Prelude.Int.{pos, ◌+ℤ◌, ◌-ℤ◌}
use dora_aos2019_homework.Kernel.{update}
use dora_aos2019_homework.Process.Fork.{
  Host, Tasks, is_zero, clone_fs, e_no_mem, max_process, share_files, copy_files, put_files,
  new_proc, bad_fork_cleanup_proc, bad_fork_cleanup_kstack, fork_mm, do_fork,
}

add_subtract : (k : ℕ) → (pos (suc k) +ℤ pos 1) -ℤ pos 1 ≡ pos (suc k)
unfolding ◌+ℤ◌ ◌-ℤ◌
add_subtract k = ground arith

update-same : {A : Type 0} → (f : ℕ → A) (p : ℕ) (a : A) → update f p a p ≡ a
update-same f p a = ground arith

module _ (H : Host) where
  -- References are left: put_files counts one less.
  put_files_left :
      (p old k : ℕ) (t : Tasks H)
      → t.filesp p ≡ old
      → (old == 0) ≡ false
      → t.files_count old -ℤ pos 1 ≡ pos (suc k)
      → put_files H p t ≡ record t { files_count = update t.files_count old (pos (suc k)) }
  unfolding put_files
  put_files_left p old k t e n c =
      let more : is_zero (pos (suc k)) ≡ false = ground arith in rw (e, n, c, more)

  -- With CLONE_FS, put_files undoes copy_files: the reference that the new process has taken to the open
  -- files of the running one, which have `k + 1` references, is given back, and no memory is touched.
  pub put_files-copy_files :
      (clone_flags p k : ℕ) (t : Tasks H)
      → clone_fs clone_flags ≡ true
      → t.filesp t.current ≢ 0
      → t.files_count (t.filesp t.current) ≡ pos (suc k)
      → (t' : Tasks H) × ((copy_files H clone_flags p t ≡ ok (pos 0, t'))
          × (((files : ℕ) → (put_files H p t').files_count files ≡ t.files_count files)
              × ((put_files H p t').world ≡ t.world)))
  unfolding copy_files share_files put_files
  put_files-copy_files clone_flags p k t shared n c =
      let old = t.filesp t.current in
      let t' = record t {
        files_count = update t.files_count old (t.files_count old +ℤ pos 1);
        filesp = update t.filesp p old;
      } in
      let some_files : (old == 0) ≡ false = ground arith in
      let count : t'.files_count old ≡ pos (suc k) +ℤ pos 1 =
        update-same t.files_count old (t.files_count old +ℤ pos 1) ∙ ap (λ c. c +ℤ pos 1) c in
      let left =
        put_files_left p old k t' (update-same t.filesp p old) some_files
          (ap (λ c. c -ℤ pos 1) count ∙ add_subtract k) in
      let given_back : (files : ℕ)
          → update t'.files_count old (pos (suc k)) files ≡ t.files_count files =
        λ files. elim (Bool-cases (files == old)) [
          | inl own ↦
              let e : old ≡ files = ground arith in
              let now : update t'.files_count old (pos (suc k)) files ≡ pos (suc k) =
                ground arith in
              now ∙ sym c ∙ ap (λ f. t.files_count f) e
          | inr other ↦ ground arith
        ] in
      (
        t',
        (
          ground arith,
          (λ files. ap (λ t. t.files_count files) left ∙ given_back files, ap (λ t. t.world) left),
        ),
      )

  -- When copy_mm fails under CLONE_FS, do_fork returns -E_NO_MEM, and the open files of the running process
  -- keep the reference that copy_files took: the count has grown by one.
  do_fork_leak :
      (clone_flags stack tf : ℕ) (t : Tasks H)
      → clone_fs clone_flags ≡ true
      → t.filesp t.current ≢ 0
      → t.wait_state t.current ≡ 0
      → t.family.nr_process < max_process
      → (H.alloc_proc t.world).0 ≢ 0
      → t.current ≢ (H.alloc_proc t.world).0
      → is_zero (H.setup_kstack (H.alloc_proc t.world).0 (H.alloc_proc t.world).1).0 ≡ true
      → is_zero
          (H.copy_mm clone_flags
            (H.alloc_proc t.world).0
            (H.setup_kstack (H.alloc_proc t.world).0 (H.alloc_proc t.world).1).1).0
        ≡ false
      → (t' : Tasks H) × ((do_fork H clone_flags stack tf t ≡ ok (some (e_no_mem, t')))
          × (t'.files_count (t.filesp t.current) ≡ t.files_count (t.filesp t.current) +ℤ pos 1))
  unfolding do_fork copy_files share_files fork_mm new_proc bad_fork_cleanup_kstack
      bad_fork_cleanup_proc
  do_fork_leak clone_flags stack tf t shared n z room m c stacked mm =
      let p = (H.alloc_proc t.world).0 in
      let made = H.alloc_proc t.world in
      let copied = H.copy_mm clone_flags p (H.setup_kstack p made.1).1 in
      let old = t.filesp t.current in
      let not_full : leb max_process t.family.nr_process ≡ false = ground arith in
      let some_memory : (p == 0) ≡ false = ground arith in
      let awake : update t.wait_state p 0 t.current ≡ 0 = ground arith in
      let own_files : update t.filesp p 0 t.current ≡ old = ground arith in
      let some_files : (old == 0) ≡ false = ground arith in
      let t' = record (new_proc H p t) {
        files_count = update t.files_count old (t.files_count old +ℤ pos 1);
        filesp = update (update t.filesp p 0) p old;
        world = H.kfree p (H.put_kstack p copied.1);
      } in
      (
        t',
        (
          rw (not_full, some_memory, awake, stacked, own_files, some_files, shared, mm),
          update-same t.files_count old (t.files_count old +ℤ pos 1),
        ),
      )
