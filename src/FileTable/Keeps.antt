-- ===== src/FileTable/Keeps.antt =====
-- What the calls of ucore_os/kern/fs/file.c do to the descriptor table.
use dora_aos2019_homework.Prelude.{ℕ, ◌-◌, ◌<◌, ◌≡◌, refl, some, arith, ok, if◌then◌else◌}
use dora_aos2019_homework.Prelude.Int.{ℤ, pos, ◌+ℤ◌}
use dora_aos2019_homework.IoBuf.{iobuf_init, used}
use dora_aos2019_homework.FileTable.Inodes.{Vfs}
use dora_aos2019_homework.FileTable.{
  File, Files, put, load, nentry, e_inval, fd_array_acquire, fd_array_release, fd_array_close,
  fd2file, fd_none, fd_opened, fd_closed,
}
use dora_aos2019_homework.FileTable.Calls.{file_close, file_read, file_write}
use dora_aos2019_homework.FileTable.Entries.{IsQuiet, IsAt, load-at, IsAt-put, put-put, put-IsQuiet}

module _ (V : Vfs) where
  open V use {Node, World, vfs_open, vfs_close, vop_read, vop_write}

  -- An open descriptor of a quiet table.
  pub record IsOpen (fs : Files V) (n : ℕ) (f : File V) (node : Node) : Type 0 where
    pub table : IsQuiet V fs
    pub small : n < nentry
    pub at : IsAt V fs n f
    pub opened : f.status ≡ fd_opened
    pub held : f.node ≡ some node

  module _ {fs : Files V} {n : ℕ} {f : File V} {node : Node} (o : IsOpen fs n f node) where
    pub once : f.open_count ≡ 1
    once = ground (arith, o.table.quiet_entry n f o.at.holds, o.opened)

    pub fd2file_open : fd2file V (pos n) fs ≡ ok (some n)
    unfolding fd2file
    fd2file_open =
        ground
          (arith, o.at.holds, o.table.alive, o.small, o.opened, o.table.numbered n f o.at.holds)

    pub close_open :
        (w : World)
        → fd_array_close V n fs w
          ≡ ok (put V fs n (record f { status = fd_none; open_count = 0 }), vfs_close node w)
    unfolding fd_array_close
    close_open w =
        let g : File V = record f { status = fd_closed; open_count = f.open_count - 1 } in
        ground (
          arith,
          o.at.holds,
          once,
          o.opened,
          o.held,
          (IsAt-put V o.at g).holds,
          put-put V o.at g (record f { status = fd_none; open_count = 0 }),
        )

    -- close of an open descriptor succeeds: it closes the inode once, frees that entry, leaves every other
    -- entry alone and keeps the table quiet.
    pub file_close_lem :
        (w : World)
        → (file_close V (pos n) fs w
            ≡ ok (
              pos 0,
              put V fs n (record f { status = fd_none; open_count = 0 }),
              vfs_close node w,
            ))
          × IsQuiet V (put V fs n (record f { status = fd_none; open_count = 0 }))
    unfolding file_close
    file_close_lem w = (
      rw fd2file_open (rw (close_open w)),
      put-IsQuiet V o.at o.table _ (o.table.numbered n f o.at.holds) refl,
    )

    acquire_open : fd_array_acquire V n fs ≡ ok (put V fs n (record f { open_count = 2 }))
    unfolding fd_array_acquire
    acquire_open = ground (arith, o.at.holds, once, o.opened)

    -- Releasing the second reference of the open file, its offset wherever the call has put it.
    release_open :
        (offset : ℤ) (fs' : Files V) (w : World)
        → fs' ≡ put V fs n (record f { open_count = 2; offset = offset })
        → fd_array_release V n fs' w
          ≡ ok (put V fs n (record f { offset = offset; open_count = 1 }), w)
    unfolding fd_array_release
    release_open offset fs' w e =
        let g : File V = record f { open_count = 2; offset = offset } in
        rw e (
          ground (
            arith,
            (IsAt-put V o.at g).holds,
            o.opened,
            put-put V o.at g (record f { offset = offset; open_count = 1 }),
          ))

    load_open : load V fs n ≡ ok f
    load_open = load-at V o.at

    after_io : ℕ → File V
    after_io count = record f { offset = f.offset +ℤ pos count; open_count = 1 }

    taken : File V
    taken = record f { open_count = 2 }

    -- The part of a transfer behind the call of the inode.
    release_moved :
        (count : ℕ) (w : World)
        → fd_array_release V n
            (put V
              (put V fs n taken)
              n
              (record f { open_count = 2; offset = f.offset +ℤ pos count }))
            w
          ≡ ok (put V fs n (after_io count), w)
    unfolding taken after_io
    release_moved count w =
        release_open (f.offset +ℤ pos count) _ w
          (put-put V o.at taken (record f { open_count = 2; offset = f.offset +ℤ pos count }))

    pub file_read_lem :
        (base len : ℕ) (w : World)
        → let (ret, iob, w') = vop_read node (iobuf_init base len f.offset) w in
          let fs' = put V fs n (record f { offset = f.offset +ℤ pos (used iob); open_count = 1 }) in
          file_read V (pos n) base len fs w
          ≡ (if f.readable then ok (ret, used iob, fs', w') else ok (e_inval, 0, fs, w))
    unfolding file_read taken after_io
    file_read_lem base len w =
        let (ret, iob, w') = vop_read node (iobuf_init base len f.offset) w in
        ground (
          arith,
          fd2file_open,
          load_open,
          acquire_open,
          o.held,
          o.opened,
          load-at V (IsAt-put V o.at taken),
          release_moved (used iob) w',
        )

    -- read on an open descriptor: refused without a change if it is not readable. Otherwise the
    -- inode reads at the file's offset, the offset advances by what was read, its reference count is back
    -- where it was, every other entry is untouched, and the table is quiet again.
    pub file_read_keeps :
        (base len : ℕ) (w : World)
        → let (ret, iob, w') = vop_read node (iobuf_init base len f.offset) w in
          let fs' = put V fs n (record f { offset = f.offset +ℤ pos (used iob) }) in
          (file_read V (pos n) base len fs w
            ≡ (if f.readable then ok (ret, used iob, fs', w') else ok (e_inval, 0, fs, w)))
          × IsQuiet V fs'
    file_read_keeps base len w =
        let (ret, iob, w') = vop_read node (iobuf_init base len f.offset) w in
        (
          ground (arith, file_read_lem base len w, once),
          put-IsQuiet V o.at o.table _ (o.table.numbered n f o.at.holds)
              (o.table.quiet_entry n f o.at.holds),
        )

    -- write on an open descriptor: refused without a change if it is not writable. Otherwise the
    -- inode writes at the file's offset, the offset advances by what was written, its reference count is back
    -- where it was, every other entry is untouched, and the table is quiet again.
    pub file_write_keeps :
        (base len : ℕ) (w : World)
        → let (ret, iob, w') = vop_write node (iobuf_init base len f.offset) w in
          let fs' = put V fs n (record f { offset = f.offset +ℤ pos (used iob) }) in
          (file_write V (pos n) base len fs w
            ≡ (if f.writable then ok (ret, used iob, fs', w') else ok (e_inval, 0, fs, w)))
          × IsQuiet V fs'
    unfolding file_write taken after_io
    file_write_keeps base len w =
        let (ret, iob, w') = vop_write node (iobuf_init base len f.offset) w in
        (
          ground (
            arith,
            once,
            fd2file_open,
            load_open,
            acquire_open,
            o.held,
            o.opened,
            load-at V (IsAt-put V o.at taken),
            release_moved (used iob) w',
          ),
          put-IsQuiet V o.at o.table _ (o.table.numbered n f o.at.holds)
              (o.table.quiet_entry n f o.at.holds),
        )
