-- ===== src/Syscall.antt =====
-- kernel/sys.cc and kernel/process.h: the system calls of one process.
pub mod Process
pub mod Files
pub mod Directory
pub mod Semaphores
pub mod Dispatch
pub mod Fork
pub mod Exec
