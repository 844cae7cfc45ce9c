-- ===== src/Tests.antt =====
-- The theorems at concrete inputs.
mod Disk
mod Folder
mod Memory
mod Threads
mod Calls
mod Lines
mod Blocks
mod Tiled
mod Sharing
mod Arrive
mod Rounds
mod Wait
mod Turn
mod Programs
mod Commands
mod Copies
mod Boot
mod Sectors
mod Stacks
mod Loads
mod Unmaps
