-- ===== src/FileTable/Process.antt =====
-- The descriptor table of a process that ends: files_closeall of ucore_os/kern/fs/fs.c.
use dora_aos2019_homework.Prelude.{ℕ, zero, suc, ◌+◌, ◌-◌, Outcome, ok, ◌>>=◌, ◌>>◌, if◌then◌else◌}
use dora_aos2019_homework.FileTable.Inodes.{Vfs}
use dora_aos2019_homework.FileTable.{Files, load, nentry, is_opened, check_files, fd_array_close}

module _ (V : Vfs) where
  open V use {World}

  -- One round of the loop.
  unfoldable pub close_if_open : ℕ → Files V → World → Outcome (Files V × World)
  close_if_open i fs w =
      load V fs i >>= (λ f. if is_opened f.status then fd_array_close V i fs w else ok (fs, w))

  -- The loop from entry `i` on, with the number of its rounds.
  unfoldable pub close_from : ℕ → ℕ → Files V → World → Outcome (Files V × World)
  close_from zero i fs w = ok (fs, w)
  close_from (suc n) i fs w = close_if_open i fs w >>= (λ (fs', w'). close_from n (i + 1) fs' w')

  -- The first two entries, stdin and stdout, are skipped.
  unfoldable pub files_closeall : Files V → World → Outcome (Files V × World)
  files_closeall fs w = check_files V fs >> close_from (nentry - 2) 2 fs w
