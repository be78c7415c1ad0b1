-- ===== src/Process/Fork/Copied.antt =====
-- What copy_files changes (ucore_os/kern/process/proc.c).
use dora_aos2019_homework.Prelude.{ℕ, ◌≡◌, ◌≢◌, inl, inr, List, ok, arith, ◌==◌, Bool-cases}
use dora_aos2019_homework.Prelude.Int.{ℤ, pos, ◌+ℤ◌}
use dora_aos2019_homework.Kernel.{update}
use dora_aos2019_homework.Process.Fork.{
  Host, Tasks, is_zero, clone_fs, e_no_mem, share_files, fill_files, copy_files,
}
use dora_aos2019_homework.Process.Fork.Valid.{IsTasks}

module _ {H : Host} where
  -- The processes with other open files and another memory.
  unfoldable pub with_files : (ℕ → ℤ) → (ℕ → ℕ) → H.World → Tasks H → Tasks H
  with_files counts files w t = record t { files_count = counts; filesp = files; world = w }

  pub with_files-IsTasks :
      (counts : ℕ → ℤ) (files : ℕ → ℕ) (w : H.World) (t : Tasks H) (kids : ℕ → List ℕ)
      → IsTasks t kids
      → IsTasks (with_files counts files w t) kids
  unfolding with_files
  with_files-IsTasks counts files w t kids v = record {
    family = v.family;
    hashed = v.hashed;
    safe = v.safe;
    counted = v.counted;
    listed = v.listed;
    childless = v.childless;
    related = v.related;
    running = v.running;
  }

  -- Where the open files are copied, only the counts, the pointers to them and memory change.
  pub copy_files_cases :
      (clone_flags p : ℕ) (t : Tasks H)
      → t.filesp t.current ≢ 0
      → (ret : ℤ) × (counts : ℕ → ℤ) × (files : ℕ → ℕ) × (w : H.World) × (copy_files H clone_flags p
            t
          ≡ ok (ret, with_files counts files w t))
  unfolding copy_files share_files fill_files with_files
  copy_files_cases clone_flags p t n =
      let created = H.files_create t.world in
      let old = t.filesp t.current in
      let files = created.0 in
      let zeroed = update t.files_count files (pos 0) in
      let copied = H.dup_files files old created.1 in
      elim (Bool-cases (clone_fs clone_flags)) [
        | inl shared ↦ (
          pos 0,
          update t.files_count old (t.files_count old +ℤ pos 1),
          update t.filesp p old,
          t.world,
          ground arith,
        )
        | inr own ↦ elim (Bool-cases (files == 0)) [
          | inl none_made ↦ (e_no_mem, t.files_count, t.filesp, created.1, ground arith)
          | inr made ↦ elim (Bool-cases (is_zero copied.0)) [
            | inl good ↦ (
              pos 0,
              update zeroed files (zeroed files +ℤ pos 1),
              update t.filesp p files,
              copied.1,
              ground arith,
            )
            | inr bad ↦ (copied.0, zeroed, t.filesp, H.files_destroy files copied.1, ground arith)
          ]
        ]
      ]
