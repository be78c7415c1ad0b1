-- ===== src/IoBuf/Move.antt =====
-- What the transfers of ucore_os/kern/fs/iobuf.c move, and how the buffer's cursor follows.
use dora_aos2019_homework.Prelude.{Bool, ℕ, ◌+◌, ◌-◌, ◌≤◌, ◌≡◌, refl, arith, ok, if◌then◌else◌}
use dora_aos2019_homework.Prelude.Int.{pos, ◌+ℤ◌}
use dora_aos2019_homework.Memory.{memmove, Memory, memset}
use dora_aos2019_homework.Memory.Blocks.{memmove_lem, within, memset_lem}
use dora_aos2019_homework.Prelude.{leb, ltb, ◌-◌, Bool-cases, inl, inr}
use dora_aos2019_homework.IoBuf.{
  IoBuf, used, iobuf_skip, Moved, all_moved, no_mem, iobuf_move_zeros, iobuf_move, amount,
}

pub record IsValid (iob : IoBuf) : Type 0 where
  pub resid : iob.io_resid ≤ iob.io_len

-- The cursor after `n` bytes: base and offset have advanced by it, and the buffer keeps its length.
pub record Advanced (n : ℕ) (iob iob' : IoBuf) : Type 0 where
  pub base : iob'.io_base ≡ iob.io_base + n
  pub offset : iob'.io_offset ≡ iob.io_offset +ℤ pos n
  pub len : iob'.io_len ≡ iob.io_len
  pub resid : iob'.io_resid + n ≡ iob.io_resid

pub Advanced-used :
    {n : ℕ} {iob iob' : IoBuf}
    → IsValid iob
    → Advanced n iob iob'
    → IsValid iob' × (used iob' ≡ used iob + n)
Advanced-used {n} {iob} {iob'} v a = (record { resid = omega arith }, omega arith)

-- What a transfer of `len` bytes returns: the status, the bytes moved, the cursor.
abbrev pub status : ℕ → ℕ → Moved
status len resid = if leb len resid then all_moved else no_mem

-- iobuf_skip by at most what is left does not fail, and moves the cursor on by that many bytes.
pub iobuf_skip_lem :
    (iob : IoBuf) (n : ℕ)
    → n ≤ iob.io_resid
    → (iob' : IoBuf) × (iobuf_skip iob n ≡ ok iob') × Advanced n iob iob'
unfolding iobuf_skip
iobuf_skip_lem iob n h = (
  record iob {
    io_base = iob.io_base + n;
    io_offset = iob.io_offset +ℤ pos n;
    io_resid = iob.io_resid - n;
  },
  ground arith,
  record { base = refl; offset = refl; len = refl; resid = omega arith },
)

Advanced-zero : (iob : IoBuf) → Advanced 0 iob iob
unfolding ◌+ℤ◌
Advanced-zero iob = ground arith

-- iobuf_move_zeros never fails: it writes zeros to as many bytes as are wanted and left, and to no others,
-- advances the cursor by them, and reports -E_NO_MEM exactly when not all that were wanted fit.
pub iobuf_move_zeros_lem :
    (iob : IoBuf) (len : ℕ) (m : Memory)
    → let n = amount iob len in
      (iob' : IoBuf) × (m' : Memory) × (iobuf_move_zeros iob len m
        ≡ ok (status len iob.io_resid, n, iob', m'))
      × Advanced n iob iob'
      × ((a : ℕ) → m' a ≡ (if within iob.io_base n a then 0 else m a))
unfolding iobuf_move_zeros
iobuf_move_zeros_lem iob len m = elim (Bool-cases (ltb 0 (amount iob len))) [
  | inl nonempty ↦ (
    record iob {
      io_base = iob.io_base + amount iob len;
      io_offset = iob.io_offset +ℤ pos (amount iob len);
      io_resid = iob.io_resid - amount iob len;
    },
    memset iob.io_base 0 (amount iob len) m,
    ground arith,
    ground arith,
    λ a. memset_lem iob.io_base 0 (amount iob len) m a,
  )
  | inr nothing ↦ (iob, m, ground arith, ground (arith, Advanced-zero iob), λ a. ground arith)
]

-- The block that a transfer reads, and the one that it writes.
abbrev pub source : IoBuf → ℕ → Bool → ℕ
source iob buf m2b = if m2b then buf else iob.io_base

abbrev pub target : IoBuf → ℕ → Bool → ℕ
target iob buf m2b = if m2b then iob.io_base else buf

-- iobuf_move never fails: it copies as many bytes as are wanted and left, as they were before the call
-- and in the direction of m2b, changes no other byte, advances the cursor by them, and reports -E_NO_MEM
-- exactly when not all that were wanted fit.
pub iobuf_move_lem :
    (iob : IoBuf) (buf len : ℕ) (m2b : Bool) (m : Memory)
    → let n = amount iob len in
      (iob' : IoBuf) × (m' : Memory) × (iobuf_move iob buf len m2b m
        ≡ ok (status len iob.io_resid, n, iob', m'))
      × Advanced n iob iob'
      × ((a : ℕ)
          → m' a ≡ (
              if within (target iob buf m2b) n a
              then m (source iob buf m2b + (a - target iob buf m2b))
              else m a))
unfolding iobuf_move
iobuf_move_lem iob buf len m2b m = elim (Bool-cases (ltb 0 (amount iob len))) [
  | inl nonempty ↦ (
    record iob {
      io_base = iob.io_base + amount iob len;
      io_offset = iob.io_offset +ℤ pos (amount iob len);
      io_resid = iob.io_resid - amount iob len;
    },
    memmove (target iob buf m2b) (source iob buf m2b) (amount iob len) m,
    ground arith,
    ground arith,
    λ a. memmove_lem (target iob buf m2b) (source iob buf m2b) (amount iob len) m a,
  )
  | inr nothing ↦ (iob, m, ground arith, ground (arith, Advanced-zero iob), λ a. ground arith)
]
