-- ===== src/Memory.antt =====
-- Byte memory and the block operations of ucore_os/libs/string.c (memset, memmove, memcpy, memcmp),
-- each as the C loop over it. A byte is a number below 256.
pub mod Blocks
use dora_aos2019_homework.Prelude.{ℕ, zero, suc, ◌+◌, ◌-◌, ◌&&◌, ltb, ◌==◌, if◌then◌else◌}
use dora_aos2019_homework.Prelude.Int.{ℤ, pos, sub_ℕ}

-- The byte at each address.
abbrev pub Memory : Type 0
Memory = ℕ → ℕ

-- `*p = b`
unfoldable pub store : Memory → ℕ → ℕ → Memory
store m p b a = if a == p then b else m a

-- `while (n-- > 0) *p++ = c;`
pub memset : ℕ → ℕ → ℕ → Memory → Memory
memset p c zero m = m
memset p c (suc n) m = memset (p + 1) c n (store m p c)

-- `while (n-- > 0) *--d = *--s;`, entered with `s` and `d` behind the blocks.
pub copy_down : ℕ → ℕ → ℕ → Memory → Memory
copy_down d s zero m = m
copy_down d s (suc n) m = copy_down (d - 1) (s - 1) n (store m (d - 1) (m (s - 1)))

-- `while (n-- > 0) *d++ = *s++;`
unfoldable pub memcpy : ℕ → ℕ → ℕ → Memory → Memory
memcpy d s zero m = m
memcpy d s (suc n) m = memcpy (d + 1) (s + 1) n (store m d (m s))

pub memmove : ℕ → ℕ → ℕ → Memory → Memory
memmove d s n m = if ltb s d && ltb d (s + n) then copy_down (d + n) (s + n) n m else memcpy d s n m

-- The difference of the first two bytes that differ, as an `int`.
pub memcmp : ℕ → ℕ → ℕ → Memory → ℤ
memcmp v1 v2 zero m = pos 0
memcmp v1 v2 (suc n) m =
    let rest = memcmp (v1 + 1) (v2 + 1) n m in if m v1 == m v2 then rest else sub_ℕ (m v1) (m v2)
