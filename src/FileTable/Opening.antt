-- ===== src/FileTable/Opening.antt =====
-- Opening and duplicating descriptors: ucore_os/kern/fs/file.c.
use dora_aos2019_homework.Prelude.{
  ℕ, zero, suc, ◌+◌, ◌<◌, ◌≡◌, refl, sym, ◌∙◌, ap, ◌≢◌, ◌⊎◌, inl, inr, Bool, true, false, none,
  some, List, [], ◌∷◌, arith, ok, Bool-cases,
}
use dora_aos2019_homework.Prelude.{get_elem?}
use dora_aos2019_homework.Prelude.Int.{ℤ, pos}
use dora_aos2019_homework.FileTable.Inodes.{Vfs}
use dora_aos2019_homework.FileTable.{
  File, Files, put, is_none, e_max_open, no_fd, find_free, fd_array_alloc, fd_array_free,
  fd_array_open, fd_array_dup, fd_none, fd_init, fd_opened,
}
use dora_aos2019_homework.FileTable.Calls.{
  access, appends, file_open, file_dup, finish_open, open_node,
}
use dora_aos2019_homework.FileTable.Entries.{
  IsAt-put_ne, IsQuiet, IsAt, load-at, IsAt-put, put-put, put-IsQuiet,
}
use dora_aos2019_homework.FileTable.Keeps.{IsOpen, fd2file_open}

module _ (V : Vfs) where
  open V use {Node, World, vfs_open, vfs_close, vop_fstat}

  -- What the search of fd_array_alloc finds is free, and no entry before it is.
  pub find_free_sound :
      (b : ℕ) (xs : List (File V)) {j : ℕ}
      → find_free V b xs ≡ some j
      → (k : ℕ) × (f : File V) × (j ≡ b + k)
        × (get_elem? xs k ≡ some f)
        × (is_none f.status ≡ true)
        × ((m : ℕ) (g : File V) → m < k → get_elem? xs m ≡ some g → is_none g.status ≡ false)
  unfolding find_free
  find_free_sound b [] e = cc
  find_free_sound b (x ∷ xs) {j} e = elim (Bool-cases (is_none x.status)) [
    | inl free ↦ (0, x, ground arith, refl, free, λ m g h. absurd (omega arith))
    | inr busy ↦
        let (k, f, at, found, free, before) = find_free_sound (b + 1) xs {j = j} (ground arith) in
        (suc k, f, omega arith, found, free, earlier busy k before)
  ]
    where
      earlier :
          is_none x.status ≡ false
          → (k : ℕ)
          → ((m : ℕ) (g : File V) → m < k → get_elem? xs m ≡ some g → is_none g.status ≡ false)
          → (m : ℕ) (g : File V) → m < suc k
          → get_elem? (x ∷ xs) m ≡ some g
          → is_none g.status ≡ false
      earlier busy k before zero g h e = let same : x ≡ g = cc in rw (← same) busy
      earlier busy k before (suc m) g h e = before m g (omega arith) e

  -- A free entry with none before it is what the search of fd_array_alloc finds.
  find_free_first :
      (b : ℕ) (xs : List (File V)) (k : ℕ) (f : File V)
      → get_elem? xs k ≡ some f
      → is_none f.status ≡ true
      → ((m : ℕ) (g : File V) → m < k → get_elem? xs m ≡ some g → is_none g.status ≡ false)
      → find_free V b xs ≡ some (b + k)
  unfolding find_free
  find_free_first b [] k f at free before = cc
  find_free_first b (x ∷ xs) zero f at free before =
      let same : x ≡ f = cc in
      let here : is_none x.status ≡ true = rw same free in ground (arith, here)
  find_free_first b (x ∷ xs) (suc k) f at free before =
      let rest = find_free_first (b + 1) xs k f at free (λ m g h. before (suc m) g (omega arith)) in
      ground (arith, before 0 x (omega arith) refl, rest)

  -- The lowest free entry of a quiet table: it is free, and the entries before it are in use.
  pub record IsLowest (fs : Files V) (i : ℕ) (f : File V) : Type 0 where
    pub table : IsQuiet V fs
    pub before :
        (j : ℕ) (g : File V) → j < i → get_elem? fs.fd_array j ≡ some g → is_none g.status ≡ false
    pub at : IsAt V fs i f
    pub free : f.status ≡ fd_none

  module _ {fs : Files V} {i : ℕ} {f : File V} (l : IsLowest fs i f) where
    reserved : File V
    reserved = record f { status = fd_init; node = none }

    found_lowest : find_free V 0 fs.fd_array ≡ some i
    found_lowest =
        find_free_first 0 fs.fd_array i f l.at.holds (ground (arith, l.free)) l.before
        ∙ ap some (omega arith)

    alloc_lowest : fd_array_alloc V no_fd fs ≡ ok (inr (i, put V fs i reserved))
    unfolding fd_array_alloc reserved
    alloc_lowest =
        ground (
          arith,
          l.table.alive,
          found_lowest,
          l.at.holds,
          l.free,
          l.table.quiet_entry i f l.at.holds,
        )

    free_reserved :
        (w : World)
        → fd_array_free V i (put V fs i reserved) w ≡ ok (put V fs i (record f { node = none }), w)
    unfolding fd_array_free reserved
    free_reserved w = ground (
      arith,
      (IsAt-put V l.at reserved).holds,
      l.free,
      l.table.quiet_entry i f l.at.holds,
      put-put V l.at reserved (record f { node = none }),
    )

    opened : Bool × Bool → Node → ℤ → File V
    opened (readable, writable) node start = record f {
      status = fd_opened;
      open_count = 1;
      offset = start;
      node = some node;
      readable = readable;
      writable = writable;
    }

    ready : Bool × Bool → Node → ℤ → File V
    ready (readable, writable) node start = record f {
      status = fd_init;
      offset = start;
      node = some node;
      readable = readable;
      writable = writable;
    }

    open_ready :
        (rw' : Bool × Bool) (node : Node) (start : ℤ)
        → fd_array_open V i (put V fs i (ready rw' node start))
          ≡ ok (put V fs i (opened rw' node start))
    unfolding fd_array_open ready opened
    open_ready (r, wr) node start =
        let g : File V = ready (r, wr) node start in
        ground (
          arith,
          (IsAt-put V l.at g).holds,
          l.free,
          l.table.quiet_entry i f l.at.holds,
          put-put V l.at g (opened (r, wr) node start),
        )

    finish :
        (rw' : Bool × Bool) (node : Node) (start : ℤ) (w : World)
        → finish_open V i rw' node start (put V fs i reserved) w
          ≡ ok (pos i, put V fs i (opened rw' node start), w)
    unfolding finish_open reserved ready
    finish (r, wr) node start w = rw (load-at V (IsAt-put V l.at reserved)) (
        rw (put-put V l.at reserved (ready (r, wr) node start))
          (rw (open_ready (r, wr) node start) (rw (l.table.numbered i f l.at.holds))))

    -- The entry that `open` makes.
    abbrev pub entry : Bool × Bool → Node → ℤ → File V
    entry (readable, writable) node start = record f {
      status = fd_opened;
      open_count = 1;
      offset = start;
      node = some node;
      readable = readable;
      writable = writable;
    }

    -- open without O_APPEND, with a valid access mode, on a quiet table with a free entry: if the file system
    -- opens the file, the lowest free descriptor is returned, open on that inode at offset 0 with the rights of
    -- the mode; if it refuses, its error is returned and the entry is free again. No other entry changes, and
    -- the table stays quiet.
    pub file_open_lem :
        (path flags : ℕ) (rw' : Bool × Bool) (w : World)
        → access flags ≡ some rw'
        → appends flags ≡ false
        → (r : ℤ ⊎ Node) (w' : World) → vfs_open path flags w ≡ (r, w')
        → let fs' =
            put V fs i
              (elim r [ inl e ↦ record f { node = none } | inr node ↦ entry rw' node (pos 0) ]) in
          (file_open V path flags fs w ≡ ok (elim r [ inl e ↦ e | inr node ↦ pos i ], fs', w'))
          × IsQuiet V fs'
    unfolding file_open open_node opened
    file_open_lem path flags rw' w mode plain (inl e) w' opens = (
      ground (arith, mode, alloc_lowest, opens, free_reserved w'),
      put-IsQuiet V l.at l.table _ (l.table.numbered i f l.at.holds)
          (ground (arith, l.free, l.table.quiet_entry i f l.at.holds)),
    )
    file_open_lem path flags (readable, writable) w mode plain (inr node) w' opens = (
      ground (arith, mode, plain, alloc_lowest, opens, finish (readable, writable) node (pos 0) w'),
      put-IsQuiet V l.at l.table _ (l.table.numbered i f l.at.holds) refl,
    )

  -- With every entry of a quiet table in use, open with a valid access mode returns -E_MAX_OPEN and
  -- changes nothing.
  pub file_open_full :
      (path flags : ℕ) (rw' : Bool × Bool) {fs : Files V} (w : World)
      → access flags ≡ some rw'
      → IsQuiet V fs
      → find_free V 0 fs.fd_array ≡ none
      → file_open V path flags fs w ≡ ok (e_max_open, fs, w)
  unfolding file_open fd_array_alloc
  file_open_full path flags rw' {fs} w mode q full = ground (arith, mode, full, q.alive)

  module _ {fs : Files V} {i n : ℕ} {f g : File V} {node : Node} (l : IsLowest fs i f)
      (o : IsOpen V fs n g node) where
    apart : i ≢ n
    apart e =
        let same : some f ≡ some g = sym l.at.holds ∙ ap (get_elem? fs.fd_array) e ∙ o.at.holds in
        let entries : f ≡ g = cc in
        let statuses : fd_none ≡ fd_opened =
          sym l.free ∙ ap (λ (h : File V). h.status) entries ∙ o.opened in
        cc

    copy : File V
    copy = record f {
      status = fd_opened;
      open_count = 1;
      offset = g.offset;
      node = some node;
      readable = g.readable;
      writable = g.writable;
    }

    dup_reserved :
        (w : World)
        → fd_array_dup V i n (put V fs i (record f { status = fd_init; node = none })) w
          ≡ ok (put V fs i copy, V.vop_open_inc node (V.vop_ref_inc node w))
    unfolding fd_array_dup copy
    dup_reserved w =
        let a : File V = record f { status = fd_init; node = none } in
        let b : File V = record f {
          status = fd_init;
          offset = g.offset;
          node = g.node;
          readable = g.readable;
          writable = g.writable;
        } in
        ground (
          arith,
          (IsAt-put V l.at a).holds,
          (IsAt-put_ne V l.at a apart o.at).holds,
          (IsAt-put V l.at b).holds,
          o.opened,
          o.held,
          l.free,
          l.table.quiet_entry i f l.at.holds,
          put-put V l.at a b,
          put-put V l.at b copy,
        )

    -- dup of an open descriptor into the lowest free one, in a quiet table: the copy is open on the same
    -- inode at the same offset with the same rights and a reference count of its own, the inode gains one
    -- reference and one opening, no other entry changes, and the table stays quiet.
    pub file_dup_lem :
        (w : World)
        → let fs' = put V fs i (record g { fd = i; open_count = 1 }) in
          (file_dup V (pos n) no_fd fs w
            ≡ ok (pos i, fs', V.vop_open_inc node (V.vop_ref_inc node w)))
          × IsQuiet V fs'
    unfolding file_dup reserved copy
    file_dup_lem w = (
      rw (fd2file_open V o) (
          rw (alloc_lowest l) (
            rw (dup_reserved w) (
              rw (load-at V (IsAt-put V l.at copy))
                (ground (arith, o.opened, o.held, l.table.numbered i f l.at.holds))))),
      put-IsQuiet V l.at l.table _ refl (ground (arith, o.opened, o.held)),
    )
