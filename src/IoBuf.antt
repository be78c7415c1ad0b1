-- ===== src/IoBuf.antt =====
-- The transfer buffer of ucore_os/kern/fs/iobuf.c: how far a read or a write has come.
pub mod Move
use dora_aos2019_homework.Prelude.{
  ℕ, ◌+◌, ◌-◌, Bool, Outcome, ok, ◌>>=◌, ◌>>◌, assert, ltb, leb, ◌==◌, if◌then◌else◌,
}
use dora_aos2019_homework.Prelude.Int.{ℤ, pos, ◌+ℤ◌}
use dora_aos2019_homework.Memory.{Memory, memset, memmove}

pub record IoBuf : Type 0 where
  pub io_base : ℕ
  pub io_offset : ℤ
  pub io_len : ℕ
  pub io_resid : ℕ

-- `iobuf_used(iob)`
abbrev pub used : IoBuf → ℕ
used iob = iob.io_len - iob.io_resid

unfoldable pub iobuf_init : ℕ → ℕ → ℤ → IoBuf
iobuf_init base len offset = record {
  io_base = base;
  io_offset = offset;
  io_len = len;
  io_resid = len;
}

unfoldable pub iobuf_skip : IoBuf → ℕ → Outcome IoBuf
iobuf_skip iob n = do
  assert (leb n iob.io_resid)
  ok (record iob {
    io_base = iob.io_base + n;
    io_offset = iob.io_offset +ℤ pos n;
    io_resid = iob.io_resid - n;
  })

-- `return (len == 0) ? 0 : -E_NO_MEM;`
pub data Moved : Type 0 where
  all_moved no_mem : Moved

abbrev moved : ℕ → Moved
moved left = if left == 0 then all_moved else no_mem

-- The bytes that one call transfers.
abbrev pub amount : IoBuf → ℕ → ℕ
amount iob len = if ltb len iob.io_resid then len else iob.io_resid

-- `m2b` copies from `data` into the buffer. The number is what goes to `*copiedp`.
unfoldable pub iobuf_move : IoBuf → ℕ → ℕ → Bool → Memory → Outcome (Moved × ℕ × IoBuf × Memory)
unfolding iobuf_skip
iobuf_move iob buf len m2b m =
    let alen = amount iob len in
    if ltb 0 alen
    then (do
      let m' = if m2b then memmove iob.io_base buf alen m else memmove buf iob.io_base alen m
      iob' ← iobuf_skip iob alen
      ok (moved (len - alen), alen, iob', m'))
    else ok (moved len, alen, iob, m)

unfoldable pub iobuf_move_zeros : IoBuf → ℕ → Memory → Outcome (Moved × ℕ × IoBuf × Memory)
unfolding iobuf_skip
iobuf_move_zeros iob len m =
    let alen = amount iob len in
    if ltb 0 alen
    then (do
      let m' = memset iob.io_base 0 alen m
      iob' ← iobuf_skip iob alen
      ok (moved (len - alen), alen, iob', m'))
    else ok (moved len, alen, iob, m)
