-- ===== src/FileTable/Tests.antt =====
-- Runs of ucore_os/kern/fs/file.c on a table with one open descriptor, over a file system whose reads
-- and writes move at most three bytes and whose opens all succeed.
use dora_aos2019_homework.Prelude.{
  ℕ, zero, suc, ◌+◌, ◌-◌, ◌≡◌, refl, subst, ◌∙◌, ap, inr, true, false, none, some, List, [], ◌∷◌,
  arith, ok, ◌==◌, length, ltb, get_elem?, if◌then◌else◌,
}
use dora_aos2019_homework.Prelude.Int.{pos, ◌+ℤ◌}
use dora_aos2019_homework.IoBuf.{IoBuf, iobuf_init, used}
use dora_aos2019_homework.FileTable.{File, Files, put, fd_none, fd_opened, find_free, nentry, no_fd}
use dora_aos2019_homework.FileTable.Inodes.{Vfs}
use dora_aos2019_homework.FileTable.Calls.{access, file_open, file_close, file_read, file_dup}
use dora_aos2019_homework.FileTable.Entries.{IsQuiet}
use dora_aos2019_homework.FileTable.Keeps.{IsOpen, file_close_lem, file_read_keeps}
use dora_aos2019_homework.FileTable.Process.{files_closeall}
use dora_aos2019_homework.FileTable.CloseAll.{closings, ClosedFrom, files_closeall_lem}
use dora_aos2019_homework.FileTable.Opening.{IsLowest, file_open_lem, file_dup_lem}

-- A transfer moves what is left of the buffer, three bytes at most.
abbrev move_three : IoBuf → IoBuf
move_three iob =
    let n = if ltb 3 iob.io_resid then 3 else iob.io_resid in
    record iob {
      io_base = iob.io_base + n;
      io_resid = iob.io_resid - n;
      io_offset = iob.io_offset +ℤ pos n;
    }

-- The world counts the operations.
abbrev counting : Vfs
counting = record {
  Node = ℕ;
  World = ℕ;
  vfs_open = λ path flags w. (inr path, w + 1);
  vfs_close = λ node w. w + 1;
  vop_read = λ node iob w. (pos 0, move_three iob, w + 1);
  vop_write = λ node iob w. (pos 0, move_three iob, w + 1);
  vop_fstat = λ node w. (inr (pos 0), w);
  vop_tryseek = λ node p w. (pos 0, w);
  vop_fsync = λ node w. (pos 0, w + 1);
  vop_getdirentry = λ node iob w. (pos 0, iob, w);
  vop_ref_inc = λ node w. w + 1;
  vop_open_inc = λ node w. w + 1;
}

abbrev free_entry : ℕ → File counting
free_entry i = record {
  status = fd_none;
  readable = false;
  writable = false;
  fd = i;
  offset = pos 0;
  node = none;
  open_count = 0;
}

abbrev open_entry : ℕ → File counting
open_entry i = record (free_entry i) {
  status = fd_opened;
  readable = true;
  writable = true;
  node = some 7;
  open_count = 1;
}

unfoldable entries : (ℕ → File counting) → ℕ → ℕ → List (File counting)
entries f b zero = []
entries f b (suc n) = f b ∷ entries f (b + 1) n

length-entries : (f : ℕ → File counting) (b n : ℕ) → length (entries f b n) ≡ n
unfolding entries
length-entries f b zero = refl
length-entries f b (suc n) = omega (arith, length-entries f (b + 1) n)

entries_at :
    (f : ℕ → File counting) (b n i : ℕ) (g : File counting)
    → get_elem? (entries f b n) i ≡ some g
    → g ≡ f (b + i)
unfolding entries
entries_at f b zero i g e = cc
entries_at f b (suc n) zero g e = ground arith
entries_at f b (suc n) (suc i) g e =
    let same : b + 1 + i ≡ b + suc i = omega arith in entries_at f (b + 1) n i g e ∙ ap f same

-- Descriptor 0 is open on the inode 7.
abbrev part : Files counting
part = record {
  fd_array = entries (λ i. if i == 0 then open_entry 0 else free_entry i) 0 145;
  files_count = 1;
}

abbrev full : Files counting
full = record { fd_array = entries open_entry 0 145; files_count = 1 }

part-IsQuiet : IsQuiet counting part
part-IsQuiet = record {
  alive = omega arith;
  size = length-entries (λ i. if i == 0 then open_entry 0 else free_entry i) 0 145;
  numbered = λ i f e.
      let same = entries_at (λ i. if i == 0 then open_entry 0 else free_entry i) 0 145 i f e in
      rw same (ground arith);
  quiet_entry = λ i f e.
      let same = entries_at (λ i. if i == 0 then open_entry 0 else free_entry i) 0 145 i f e in
      rw same (ground arith);
}

full-IsQuiet : IsQuiet counting full
full-IsQuiet = record {
  alive = omega arith;
  size = length-entries open_entry 0 145;
  numbered = λ i f e. rw (entries_at open_entry 0 145 i f e) (ground arith);
  quiet_entry = λ i f e. rw (entries_at open_entry 0 145 i f e) refl;
}

part-IsOpen : IsOpen counting part 0 (open_entry 0) 7
unfolding entries
part-IsOpen = record {
  table = part-IsQuiet;
  small = omega arith;
  at = record { holds = refl };
  opened = refl;
  held = refl;
}

part-IsLowest : IsLowest counting part 1 (free_entry 1)
unfolding entries
part-IsLowest = record {
  table = part-IsQuiet;
  before = λ j g h e.
      let first : some (open_entry 0) ≡ some g =
        let zero_only : j ≡ 0 = omega arith in
        subst (λ t. get_elem? part.fd_array t ≡ some g) zero_only e in
      let same : open_entry 0 ≡ g = cc in rw (← same) refl;
  at = record { holds = refl };
  free = refl;
}

full_none : (b n : ℕ) → find_free counting b (entries open_entry b n) ≡ none
unfolding entries find_free
full_none b zero = refl
full_none b (suc n) = full_none (b + 1) n

file_close_lem_example :
    (file_close counting (pos 0) part 0
      ≡ ok (
        pos 0,
        put counting part 0 (record (open_entry 0) { status = fd_none; open_count = 0 }),
        1,
      ))
    × IsQuiet counting
        (put counting part 0 (record (open_entry 0) { status = fd_none; open_count = 0 }))
file_close_lem_example = file_close_lem counting part-IsOpen 0

file_read_keeps_example :
    let iob = move_three (iobuf_init 100 5 (pos 0)) in
    let fs' = put counting part 0 (record (open_entry 0) { offset = pos 0 +ℤ pos (used iob) }) in
    (file_read counting (pos 0) 100 5 part 0 ≡ ok (pos 0, used iob, fs', 1)) × IsQuiet counting fs'
file_read_keeps_example = file_read_keeps counting part-IsOpen 100 5 0

read_write : access 2 ≡ some (true, true)
unfolding access
read_write = refl

file_open_lem_example :
    let fs' = put counting part 1 (record (free_entry 1) {
      status = fd_opened;
      open_count = 1;
      offset = pos 0;
      node = some 9;
      readable = true;
      writable = true;
    }) in
    (file_open counting 9 2 part 0 ≡ ok (pos 1, fs', 1)) × IsQuiet counting fs'
file_open_lem_example =
    file_open_lem counting part-IsLowest 9 2 (true, true) 0 read_write refl (inr 9) 1 refl

file_dup_lem_example :
    let fs' = put counting part 1 (record (open_entry 0) { fd = 1; open_count = 1 }) in
    (file_dup counting (pos 0) no_fd part 0 ≡ ok (pos 1, fs', 2)) × IsQuiet counting fs'
file_dup_lem_example = file_dup_lem counting part-IsLowest part-IsOpen 0

files_closeall_lem_example :
    (fs' : Files counting) × (w' : ℕ) × (files_closeall counting full 0 ≡ ok (fs', w'))
    × (w' ≡ closings counting (nentry - 2) 2 (entries open_entry 0 145) 0)
    × ClosedFrom counting 2 full fs'
files_closeall_lem_example = files_closeall_lem counting full 0 full-IsQuiet
