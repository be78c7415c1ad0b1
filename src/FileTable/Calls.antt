-- ===== src/FileTable/Calls.antt =====
-- The system-call side of ucore_os/kern/fs/file.c: open, close, read, write, seek, fstat, fsync,
-- getdirentry, dup and testfd on the descriptor table.
use dora_aos2019_homework.Prelude.{
  ℕ, ◌/◌, ◌%◌, ◌⊎◌, inl, inr, Bool, true, false, ◌&&◌, not, Option, none, some, Outcome, ok, panic,
  ◌>>=◌, ◌==◌, if◌then◌else◌,
}
use dora_aos2019_homework.Prelude.Int.{ℤ, pos, ◌+ℤ◌}
use dora_aos2019_homework.IoBuf.{IoBuf, iobuf_init, used}
use dora_aos2019_homework.FileTable.Inodes.{Vfs}
use dora_aos2019_homework.FileTable.{
  File, Files, put, load, is_opened, e_inval, no_fd, eq_ℤ, fd_array_alloc, fd_array_free,
  fd_array_acquire, fd_array_release, fd_array_open, fd_array_close, fd_array_dup, fd2file,
}

-- `(readable, writable)` for `open_flags & O_ACCMODE`
unfoldable pub access : ℕ → Option (Bool × Bool)
access flags =
    let mode = flags % 4 in
    if mode == 0
    then some (true, false)
    else (if mode == 1 then some (false, true) else (if mode == 2 then some (true, true) else none))

-- `open_flags & O_APPEND`
abbrev pub appends : ℕ → Bool
appends flags = flags / 32 % 2 == 1

module _ (V : Vfs) where
  open V use {
    Node, World, vfs_open, vfs_close, vop_read, vop_write, vop_fstat, vop_tryseek, vop_fsync,
    vop_getdirentry,
  }

  -- The tail of `file_open`, with the position to start from.
  unfoldable pub finish_open :
      ℕ → Bool × Bool → Node → ℤ → Files V → World → Outcome (ℤ × Files V × World)
  finish_open i (readable, writable) node start fs w = do
    f ← load V fs i
    let f' = record f { offset = start; node = some node; readable = readable; writable = writable }
    fs' ← fd_array_open V i (put V fs i f')
    ok (pos f.fd, fs', w)

  unfoldable pub open_node :
      ℕ → Bool × Bool → ℕ → Node → Files V → World → Outcome (ℤ × Files V × World)
  open_node i rw flags node fs w =
      if appends flags
      then (let (r, w') = vop_fstat node w in
          elim r [
            | inl e ↦ fd_array_free V i fs (vfs_close node w') >>= (λ (fs', w''). ok (e, fs', w''))
            | inr size ↦ finish_open i rw node size fs w'
          ])
      else finish_open i rw node (pos 0) fs w

  unfoldable pub file_open : ℕ → ℕ → Files V → World → Outcome (ℤ × Files V × World)
  file_open path flags fs w = elim (access flags) [
    | none ↦ ok (e_inval, fs, w)
    | some rw ↦ do
      got ← fd_array_alloc V no_fd fs
      elim got [
        | inl e ↦ ok (e, fs, w)
        | inr (i, fs') ↦
            let (r, w') = vfs_open path flags w in
            elim r [
              | inl e ↦ fd_array_free V i fs' w' >>= (λ (fs'', w''). ok (e, fs'', w''))
              | inr node ↦ open_node i rw flags node fs' w'
            ]
      ]
  ]

  unfoldable pub file_close : ℤ → Files V → World → Outcome (ℤ × Files V × World)
  file_close fd fs w = do
    found ← fd2file V fd fs
    elim found [
      | none ↦ ok (e_inval, fs, w)
      | some i ↦ fd_array_close V i fs w >>= (λ (fs', w'). ok (pos 0, fs', w'))
    ]

  -- Between `fd_array_acquire` and `fd_array_release`: the call of the inode, and the new offset of
  -- the file if it is still open.
  abbrev transfer_on :
      (Node → IoBuf → World → ℤ × IoBuf × World)
      → ℕ
      → ℕ
      → ℕ
      → File V
      → Node
      → Files V
      → World
      → Outcome (ℤ × ℕ × Files V × World)
  transfer_on io i base len f node fs w = do
    let (ret, iob, w') = io node (iobuf_init base len f.offset) w
    g ← load V fs i
    let moved = if is_opened g.status then record g { offset = g.offset +ℤ pos (used iob) } else g
    (fs', w'') ← fd_array_release V i (put V fs i moved) w'
    ok (ret, used iob, fs', w'')

  -- `vop_read(file->node, iob)` on a null node is a fault.
  abbrev transfer :
      (Node → IoBuf → World → ℤ × IoBuf × World)
      → ℕ
      → ℕ
      → ℕ
      → File V
      → Files V
      → World
      → Outcome (ℤ × ℕ × Files V × World)
  transfer io i base len f fs w = do
    fs' ← fd_array_acquire V i fs
    elim f.node [ none ↦ panic | some node ↦ transfer_on io i base len f node fs' w ]

  -- The second result is what goes to `*copied_store`.
  unfoldable pub file_read : ℤ → ℕ → ℕ → Files V → World → Outcome (ℤ × ℕ × Files V × World)
  file_read fd base len fs w = do
    found ← fd2file V fd fs
    elim found [
      | none ↦ ok (e_inval, 0, fs, w)
      | some i ↦ load V fs i >>= (λ f.
          if not f.readable then ok (e_inval, 0, fs, w) else transfer vop_read i base len f fs w)
    ]

  unfoldable pub file_write : ℤ → ℕ → ℕ → Files V → World → Outcome (ℤ × ℕ × Files V × World)
  file_write fd base len fs w = do
    found ← fd2file V fd fs
    elim found [
      | none ↦ ok (e_inval, 0, fs, w)
      | some i ↦ load V fs i >>= (λ f.
          if not f.writable then ok (e_inval, 0, fs, w) else transfer vop_write i base len f fs w)
    ]

  -- Where `whence` says that `pos` counts from, or the error.
  unfoldable pub seek_target : ℤ → ℕ → File V → Node → World → (ℤ ⊎ ℤ) × World
  seek_target at whence f node w =
      if whence == 0
      then (inr at, w)
      else (if whence == 1
          then (inr (at +ℤ f.offset), w)
          else (if whence == 2
              then (let (r, w') = vop_fstat node w in
                  (elim r [ inl e ↦ inl e | inr size ↦ inr (at +ℤ size) ], w'))
              else (inl e_inval, w)))

  unfoldable pub seek_to : ℕ → (ℤ ⊎ ℤ) → Node → Files V → World → Outcome (ℤ × Files V × World)
  seek_to i (inl e) node fs w = ok (e, fs, w)
  seek_to i (inr at) node fs w = do
    let (ret, w') = vop_tryseek node at w
    f ← load V fs i
    ok (ret, if eq_ℤ ret (pos 0) then put V fs i (record f { offset = at }) else fs, w')

  -- A null node is a fault.
  unfoldable pub file_seek : ℤ → ℤ → ℕ → Files V → World → Outcome (ℤ × Files V × World)
  file_seek fd at whence fs w = do
    found ← fd2file V fd fs
    elim found [
      | none ↦ ok (e_inval, fs, w)
      | some i ↦ do
        f ← load V fs i
        fs' ← fd_array_acquire V i fs
        elim f.node [
          | none ↦ panic
          | some node ↦ do
            let (target, w') = seek_target at whence f node w
            (ret, fs'', w'') ← seek_to i target node fs' w'
            (fs3, w3) ← fd_array_release V i fs'' w''
            ok (ret, fs3, w3)
        ]
    ]

  -- The calls that only ask the inode, between acquire and release.
  abbrev ask {ℓ} :
      {A : Type ℓ}
      → (Node → World → A × World)
      → A
      → ℤ
      → Files V
      → World
      → Outcome (A × Files V × World)
  ask op refused fd fs w = do
    found ← fd2file V fd fs
    elim found [
      | none ↦ ok (refused, fs, w)
      | some i ↦ do
        f ← load V fs i
        fs' ← fd_array_acquire V i fs
        elim f.node [
          | none ↦ panic
          | some node ↦ do
            let (ret, w') = op node w
            (fs'', w'') ← fd_array_release V i fs' w'
            ok (ret, fs'', w'')
        ]
    ]

  -- `inr` is the size that goes to the `struct stat`.
  unfoldable pub file_fstat : ℤ → Files V → World → Outcome ((ℤ ⊎ ℤ) × Files V × World)
  file_fstat = ask vop_fstat (inl e_inval)

  unfoldable pub file_fsync : ℤ → Files V → World → Outcome (ℤ × Files V × World)
  file_fsync = ask vop_fsync e_inval

  -- The directory entry's buffer of 256 bytes is at `name`; the new `direntp->offset` is returned.
  unfoldable pub file_getdirentry :
      ℤ → ℕ → ℤ → Files V → World → Outcome ((ℤ × ℤ) × Files V × World)
  file_getdirentry fd name offset =
      ask
        (λ node w.
          let (ret, iob, w') = vop_getdirentry node (iobuf_init name 256 offset) w in
          ((ret, if eq_ℤ ret (pos 0) then offset +ℤ pos (used iob) else offset), w'))
        (e_inval, offset) fd

  unfoldable pub file_dup : ℤ → ℤ → Files V → World → Outcome (ℤ × Files V × World)
  file_dup fd1 fd2 fs w = do
    found ← fd2file V fd1 fs
    elim found [
      | none ↦ ok (e_inval, fs, w)
      | some from ↦ do
        got ← fd_array_alloc V fd2 fs
        elim got [
          | inl e ↦ ok (e, fs, w)
          | inr (to, fs') ↦ do
            (fs'', w') ← fd_array_dup V to from fs' w
            g ← load V fs'' to
            ok (pos g.fd, fs'', w')
        ]
    ]

  unfoldable pub file_testfd : ℤ → Bool → Bool → Files V → Outcome Bool
  file_testfd fd readable writable fs = do
    found ← fd2file V fd fs
    elim found [
      | none ↦ ok false
      | some i ↦
          load V fs i
          >>= (λ f. ok (not (readable && not f.readable) && not (writable && not f.writable)))
    ]
