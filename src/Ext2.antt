-- ===== src/Ext2.antt =====
-- kernel/ext2.h and kernel/ext2.cc: the read-only file system.
pub mod Layout
pub mod Mount
pub mod Inode
pub mod Directory
pub mod Path
