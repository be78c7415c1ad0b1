-- ===== src/Lib.antt =====
-- Verification of the ucore kernel of this repository (ucore_os).
--
-- The kernel schedules processes (kern/schedule) that block on wait queues and semaphores (kern/sync) and
-- are woken by timers, the keyboard and each other; it hands out physical pages (kern/mm/default_pmm.c),
-- keeps the address space of a process as a list of areas (kern/mm/vmm.c), and serves file system calls
-- through a table of descriptors (kern/fs/file.c). Each part is modelled by functions on an explicit state,
-- one for each function of the source and of the same name; a helper names a part of a function, such as
-- the body of a loop. A failing assert or a panic is the outcome `panic`, an error code is a value.
--
-- Prelude: Boolean tests, lists, outcomes and integers on the native numbers.
-- Memory, CString, CString/Strtol (libs/string.c): byte memory as a function from addresses; the block
--   and string functions in their portable branches.
-- IoBuf (kern/fs/iobuf.c): the cursor that file data moves through.
-- Kernel (kern/process/proc.h, kern/schedule/sched.h, kern/sync/wait.h): the state that the next four
--   share. Structures are named by their addresses; an intrusive list is the list of its members.
-- Kernel/Sched (kern/schedule/sched.c, kern/schedule/default_sched.c): the round-robin run queue,
--   wakeup_proc and schedule. The invariant is Kernel/Sched/Invariant.
-- Kernel/Timers (kern/schedule/sched.c): the list of relative expiry times; Kernel/Timers/Due reads it as
--   a list of absolute ticks.
-- Kernel/Waits (kern/sync/wait.c): wait queues. Kernel/Sem (kern/sync/sem.c): semaphores, against a
--   counter with a queue of waiting processes. A function that calls schedule is split there: the
--   scheduler runs other processes until this one is picked again.
-- Kernel/Sleep (do_sleep of kern/process/proc.c): the sleep for a time, on the timers; split as down is.
-- Kernel/Sample: a kernel that the examples run on.
-- FileTable (kern/fs/file.c, kern/fs/file.h, kern/fs/fs.h): the descriptors; FileTable/Process:
--   files_closeall (kern/fs/fs.c). The inodes and the file systems behind them are the record
--   FileTable/Inodes, a parameter of every definition.
-- PageAlloc (kern/mm/default_pmm.c): the first-fit free list of page blocks.
-- Vma (kern/mm/vmm.c): lookup and insertion of areas, and mm_map; Vma/Unmap: mm_unmap, with the ranges
--   that it calls unmap_range for; Vma/UserAccess: user_mem_check, which guards the kernel's accesses to
--   user buffers, for a process with an address space. One address space is modelled: of vm_mm it is
--   kept whether it points to it. A cache pointer to an area that is on no list is read as a miss.
-- Printfmt (libs/printfmt.c): printnum.
-- Process (kern/process/proc.c): Pid (get_pid), Family (set_links, remove_links and the loop of
--   do_exit that gives the children away), Hash (libs/hash.c and the hash lists: find_proc,
--   hash_proc, unhash_proc), Fork (do_fork, copy_files, put_files), which calls the other three,
--   Wait (do_wait from its label `repeat`: a round up to its call of schedule, with the states of the
--   processes beside the records of Fork, and what follows schedule), which undoes what they record,
--   and Kill (do_kill), which stands on Hash and on the scheduler of Kernel/Sched. What do_fork calls
--   for memory, stacks, address spaces, open files and the scheduler is the record Host, a parameter
--   of its definitions; Fork/Valid says when the records of all processes agree.
-- Bitmap (kern/fs/sfs/bitmap.c): the set of free disk blocks; Bitmap/Bits and Bitmap/Words read its
--   words as one row of bits.
-- Sfs (kern/fs/sfs/sfs_inode.c, kern/fs/sfs/sfs_io.c, kern/fs/sfs/sfs.h): the blocks of a file system on
--   the Bitmap, and the block map of an inode with its direct entries and its entry block. A reply is a
--   value or an error code with the state after it. The device is the content of its blocks and the list
--   of what its coming transfers return; a transfer that fails moves nothing, as in
--   kern/fs/devs/dev_disk0.c. Sfs/Posts is the logic that the proofs of these functions use, Sfs/Maps
--   reads the map of an inode as one table, Sfs/Extends says what taking blocks leaves alone. sfs_rbuf
--   and sfs_wbuf are modelled for the entries of four bytes that the block maps read and write.
-- Stdin (kern/fs/devs/dev_stdin.c): the ring of characters behind the keyboard.
--
-- Bounds and fuel: unsigned words wrap around where the source can make them (`% 2 ^ 32`); addresses
-- and lengths inside a block of memory are not taken near 2 ^ 32, and io offsets and counters of
-- processes, inodes and characters are not bounded. The counter of unused blocks wraps around, which it
-- never does while the freemap has fewer than 2 ^ 32 bits. wakeup_queue runs on one round more than the
-- queue has waits, which is enough. user_mem_check runs on one round more than the buffer has bytes,
-- since each round moves on. The loops of strlen, strcpy, strcmp, strtol, strchr and strfind run on
-- fuel; one step more than the string has characters is enough for strlen, strcpy and strcmp, and
-- one more than there are blanks and than there are digits for strtol. A value beyond the largest long,
-- which strtol does not detect, is a result of its own there. The value of a semaphore is an int: up
-- wraps around, and what it promises is stated below the largest int. get_pid scans the list of
-- processes at most twice MAX_PID times, which is enough when a number is free; printnum is no deeper
-- than its number; the loops of do_exit and do_wait need a round more than there are children. The
-- counts of references to open files are integers without bound.
--
-- Each function, or each part of one that is split at schedule, runs as one step here. The source turns
-- interrupts off for that in the scheduler, the timers, the semaphores, do_sleep, the page allocator
-- (pmm.c, around the calls of default_pmm.c) and the keyboard's buffer, and where do_fork, do_exit and
-- do_wait write the lists of processes. In file.c, vmm.c, the file system, do_kill and the rest of
-- do_fork and do_wait it does not: that no other process runs in between is an assumption there, and
-- the locks of address spaces and inodes are left out.
--
-- Not modelled: boot, drivers, traps, page tables, swapping, the directories, files and mounting of the
-- file systems, loading of programs, the directives of formatted output, and the user programs: they
-- work on hardware state, or are a later part of this library.
pub mod Prelude
pub mod Memory
pub mod IoBuf
pub mod Kernel
pub mod FileTable
pub mod PageAlloc
pub mod Vma
pub mod Stdin
pub mod CString
pub mod Process
pub mod Printfmt
pub mod Bitmap
pub mod Sfs
