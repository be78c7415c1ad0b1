-- ===== src/Vma/UserAccess.antt =====
-- The check of a user buffer before the kernel touches it: user_mem_check of ucore_os/kern/mm/vmm.c.
pub mod Covered
mod Tests
use dora_aos2019_homework.Prelude.{
  ℕ, zero, suc, ◌+◌, ◌/◌, ◌%◌, ◌^◌, Bool, true, false, ◌&&◌, ◌||◌, not, Option, none, some, ltb,
  ◌==◌, if◌then◌else◌,
}
use dora_aos2019_homework.Vma.{Vma, Mm, find_vma, user_access}

-- `vm_flags & (write ? VM_WRITE : VM_READ)`
abbrev pub allows : Bool → Vma → Bool
allows true v = v.vm_flags / 2 % 2 == 1
allows false v = v.vm_flags % 2 == 1

-- A write to the lowest page of a stack area: `VM_STACK` is bit 3.
abbrev pub below_stack : Bool → ℕ → Vma → Bool
below_stack write start v =
    write && (v.vm_flags / 8 % 2 == 1 && ltb start ((v.vm_start + 4096) % 2 ^ 32))

-- `start < vma->vm_start` and the two tests behind it.
abbrev pub refuses : Bool → ℕ → Vma → Bool
refuses write start v = ltb start v.vm_start || (not (allows write v) || below_stack write start v)

-- What the loop does with the area it found; `next` is the rest of the loop, from an address on.
abbrev pub check_area :
    Bool → ℕ → (ℕ → Mm → Option (Bool × Mm)) → Option Vma × Mm → Option (Bool × Mm)
check_area write start next (none, mm) = some (false, mm)
check_area write start next (some v, mm) =
    if refuses write start v then some (false, mm) else next v.vm_end mm

-- The loop runs on fuel; `none` is fuel run out.
unfoldable pub check_loop : ℕ → Bool → ℕ → ℕ → Mm → Option (Bool × Mm)
check_loop zero write start end mm = none
check_loop (suc n) write start end mm =
    if ltb start end
    then check_area write start (λ next mm'. check_loop n write next end mm') (find_vma start mm)
    else some (true, mm)

-- `user_mem_check` where `mm` is not `NULL`, its first branch; the other branch, for a kernel thread, is
-- left out. The fuel is one round more than the range has addresses.
unfoldable pub user_mem_check : ℕ → ℕ → Bool → Mm → Option (Bool × Mm)
unfolding check_loop
user_mem_check addr len write mm =
    let end = (addr + len) % 2 ^ 32 in
    if user_access addr end then check_loop (suc len) write addr end mm else some (false, mm)
