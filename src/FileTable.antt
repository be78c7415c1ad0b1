-- ===== src/FileTable.antt =====
-- The open files of a process: ucore_os/kern/fs/file.h and the descriptor table of
-- ucore_os/kern/fs/file.c. A `struct file *` is an index into the table.
pub mod Inodes
pub mod Calls
pub mod Entries
pub mod Keeps
pub mod Opening
pub mod Process
pub mod CloseAll
mod Tests
use dora_aos2019_homework.Prelude.{
  ℕ, zero, suc, ◌+◌, ◌-◌, ◌/◌, ◌⊎◌, inl, inr, Bool, true, false, ◌&&◌, ◌||◌, Option, none, some,
  List, [], ◌∷◌, Outcome, ok, panic, ◌>>=◌, ◌>>◌, assert, ltb, ◌==◌, if◌then◌else◌,
}
use dora_aos2019_homework.Prelude.{get_elem?, set}
use dora_aos2019_homework.Prelude.Int.{ℤ, pos, negsuc, pos_part}
use Inodes.{Vfs}

pub data Status : Type 0 where
  fd_none fd_init fd_opened fd_closed : Status

abbrev pub is_none : Status → Bool
is_none fd_none = true
is_none _ = false

abbrev pub is_init : Status → Bool
is_init fd_init = true
is_init _ = false

abbrev pub is_opened : Status → Bool
is_opened fd_opened = true
is_opened _ = false

abbrev pub is_closed : Status → Bool
is_closed fd_closed = true
is_closed _ = false

-- `FILES_STRUCT_NENTRY`: what fits a page behind `struct files_struct` (24 bytes) at 28 bytes a file.
abbrev pub nentry : ℕ
nentry = (4096 - 24) / 28

-- `-E_INVAL`, `-E_BUSY`, `-E_MAX_OPEN` and `NO_FD`
abbrev pub e_inval : ℤ
e_inval = negsuc 2

abbrev pub e_busy : ℤ
e_busy = negsuc 14

abbrev pub e_max_open : ℤ
e_max_open = negsuc 21

abbrev pub no_fd : ℤ
no_fd = negsuc 0x9526

abbrev pub eq_ℤ : ℤ → ℤ → Bool
eq_ℤ (pos a) (pos b) = a == b
eq_ℤ (negsuc a) (negsuc b) = a == b
eq_ℤ _ _ = false

-- `testfd(fd)`
abbrev pub testfd : ℤ → Bool
testfd (pos n) = ltb n nentry
testfd (negsuc n) = false

module _ (V : Vfs) where
  open V use {Node, World, vfs_close, vop_ref_inc, vop_open_inc}

  pub record File : Type 0 where
    pub status : Status
    pub readable : Bool
    pub writable : Bool
    pub fd : ℕ
    pub offset : ℤ
    pub node : Option Node
    pub open_count : ℕ

  -- `struct files_struct`, but for the working directory and the semaphore.
  pub record Files : Type 0 where
    pub fd_array : List File
    pub files_count : ℕ

  abbrev pub put : Files → ℕ → File → Files
  put fs i f = record fs { fd_array = set fs.fd_array i f }

  -- `*file`; an index off the table is a fault.
  unfoldable pub load : Files → ℕ → Outcome File
  load fs i = elim (get_elem? fs.fd_array i) [ none ↦ panic | some f ↦ ok f ]

  -- The loop of `fd_array_init`; the fields that it leaves unset are given by `f`.
  unfoldable pub fd_array_init : File → ℕ → ℕ → List File
  fd_array_init f fd zero = []
  fd_array_init f fd (suc n) =
      record f { open_count = 0; status = fd_none; fd = fd } ∷ fd_array_init f (fd + 1) n

  -- `get_fd_array`
  abbrev pub check_files : Files → Outcome (Unit {0})
  check_files fs = assert (ltb 0 fs.files_count)

  -- The search of `fd_array_alloc`: the first free entry from index `i` on.
  unfoldable pub find_free : ℕ → List File → Option ℕ
  find_free i [] = none
  find_free i (f ∷ fs) =
      let rest = find_free (i + 1) fs in if is_none f.status then some i else rest

  -- `inl` is the error code, `inr` the index that goes to `*file_store`.
  unfoldable pub pick_entry : ℤ → Files → Outcome (ℤ ⊎ ℕ)
  unfolding find_free load
  pick_entry fd fs =
      if eq_ℤ fd no_fd
      then (elim (find_free 0 fs.fd_array) [ none ↦ ok (inl e_max_open) | some i ↦ ok (inr i) ])
      else (if testfd fd
          then load fs (pos_part fd)
            >>= (λ f. ok (if is_none f.status then inr (pos_part fd) else inl e_busy))
          else ok (inl e_inval))

  unfoldable pub take_entry : ℕ → Files → Outcome Files
  unfolding load
  take_entry i fs = do
    f ← load fs i
    assert (f.open_count == 0)
    ok (put fs i (record f { status = fd_init; node = none }))

  unfoldable pub fd_array_alloc : ℤ → Files → Outcome (ℤ ⊎ ℕ × Files)
  unfolding pick_entry take_entry
  fd_array_alloc fd fs = do
    check_files fs
    picked ← pick_entry fd fs
    elim picked [ inl e ↦ ok (inl e) | inr i ↦ take_entry i fs >>= (λ fs'. ok (inr (i, fs'))) ]

  -- `vfs_close(file->node)`; a null node is a fault.
  abbrev pub close_node : Option Node → World → Outcome World
  close_node none w = panic
  close_node (some n) w = ok (vfs_close n w)

  unfoldable pub fd_array_free : ℕ → Files → World → Outcome (Files × World)
  unfolding load
  fd_array_free i fs w = do
    f ← load fs i
    assert (is_init f.status || is_closed f.status)
    assert (f.open_count == 0)
    w' ← (if is_closed f.status then close_node f.node w else ok w)
    ok (put fs i (record f { status = fd_none }), w')

  unfoldable pub fd_array_acquire : ℕ → Files → Outcome Files
  unfolding load
  fd_array_acquire i fs = do
    f ← load fs i
    assert (is_opened f.status)
    ok (put fs i (record f { open_count = f.open_count + 1 }))

  unfoldable pub fd_array_release : ℕ → Files → World → Outcome (Files × World)
  unfolding load fd_array_free
  fd_array_release i fs w = do
    f ← load fs i
    assert (is_opened f.status || is_closed f.status)
    assert (ltb 0 f.open_count)
    let fs' = put fs i (record f { open_count = f.open_count - 1 })
    (if f.open_count - 1 == 0 then fd_array_free i fs' w else ok (fs', w))

  abbrev pub is_some : Option Node → Bool
  is_some none = false
  is_some (some _) = true

  unfoldable pub fd_array_open : ℕ → Files → Outcome Files
  unfolding load
  fd_array_open i fs = do
    f ← load fs i
    assert (is_init f.status && is_some f.node)
    ok (put fs i (record f { status = fd_opened; open_count = f.open_count + 1 }))

  unfoldable pub fd_array_close : ℕ → Files → World → Outcome (Files × World)
  unfolding load fd_array_free
  fd_array_close i fs w = do
    f ← load fs i
    assert (is_opened f.status)
    assert (ltb 0 f.open_count)
    let fs' = put fs i (record f { status = fd_closed; open_count = f.open_count - 1 })
    (if f.open_count - 1 == 0 then fd_array_free i fs' w else ok (fs', w))

  -- `vop_ref_inc(node), vop_open_inc(node)`; a null node is a fault.
  abbrev pub retain_node : Option Node → World → Outcome World
  retain_node none w = panic
  retain_node (some n) w = ok (vop_open_inc n (vop_ref_inc n w))

  unfoldable pub fd_array_dup : ℕ → ℕ → Files → World → Outcome (Files × World)
  unfolding load fd_array_open
  fd_array_dup to from fs w = do
    t ← load fs to
    f ← load fs from
    assert (is_init t.status && is_opened f.status)
    w' ← retain_node f.node w
    let t' = record t {
      offset = f.offset;
      readable = f.readable;
      writable = f.writable;
      node = f.node;
    }
    fs' ← fd_array_open to (put fs to t')
    ok (fs', w')

  -- `none` is `-E_INVAL`.
  unfoldable pub fd2file : ℤ → Files → Outcome (Option ℕ)
  unfolding load
  fd2file fd fs =
      if testfd fd
      then (do
        check_files fs
        f ← load fs (pos_part fd)
        ok (if is_opened f.status && f.fd == pos_part fd then some (pos_part fd) else none))
      else ok none
