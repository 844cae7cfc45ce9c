-- ===== src/User.antt =====
-- The programs of t0.dir/sbin.
pub mod Wc
pub mod Shell
pub mod FirstFit
pub mod Grep
pub mod Cat
pub mod Exec
pub mod Libc
