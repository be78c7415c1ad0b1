-- ===== src/Process.antt =====
-- Processes: ucore_os/kern/process/proc.c.
pub mod Pid
pub mod Family
pub mod Hash
pub mod Fork
pub mod Wait
pub mod Kill
