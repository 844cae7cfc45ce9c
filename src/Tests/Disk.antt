-- ===== src/Tests/Disk.antt =====
-- A small disk of eight sectors, and a file of two blocks on it.
use osfinal_project.Prelude.{
  ℕ, zero, suc, ◌+◌, ◌*◌, ◌%◌, ◌^◌, ◌≤◌, ◌<◌, ◌≡◌, refl, arith, some, List, [], ◌∷◌, slice,
  replicate, leb, ◌==◌, if◌then◌else◌,
}
use osfinal_project.BlockIo.{BlockIo, error, count, read_all}
use osfinal_project.BlockIo.Laws.{Holds, read_all-slice, read_all_past}
use osfinal_project.Ext2.Layout.{NodeData}
use osfinal_project.Ext2.Inode.{Node, block_number, node_io}
use osfinal_project.Ext2.Inode.Laws.{Mapped, file_byte, file_read_lem, block_number-direct}

-- A disk with the given bytes and 512-byte sectors.
abbrev pub disk_of : (ℕ → ℕ) → ℕ → BlockIo
disk_of f size = record {
  block_size = 512;
  size_in_bytes = size;
  read_block = λ k. some (slice f (k * 512) 512);
}

pub disk_of-Holds : (f : ℕ → ℕ) (size : ℕ) → size < 2 ^ 32 → Holds (disk_of f size) f
disk_of-Holds f size fit = record {
  sized = omega arith;
  block_fits = omega arith;
  fits = fit;
  blocks = λ k lt. refl;
}

abbrev bytes : ℕ → ℕ
bytes a = a % 256

abbrev small_disk : BlockIo
small_disk = disk_of bytes 4096

small_disk-Holds : Holds small_disk bytes
small_disk-Holds = disk_of-Holds bytes 4096 (omega arith)

read_all-slice_example : read_all small_disk 510 700 ≡ some (count 700 (slice bytes 510 700))
read_all-slice_example = read_all-slice small_disk-Holds 510 700 (omega arith) (omega arith)

read_all_past_example : read_all small_disk 5000 4 ≡ some error
read_all_past_example = read_all_past small_disk-Holds 5000 4 (omega arith)

-- An i-node of the type 8, a file, with two blocks of 1024 bytes.
abbrev info_of : ℕ → ℕ → List ℕ → NodeData
info_of mode size direct = record {
  mode = mode;
  uid = 0;
  size_low = size;
  atime = 0;
  ctime = 0;
  mtime = 0;
  dtime = 0;
  gid = 0;
  n_links = 1;
  n_sectors = 4;
  flags = 0;
  os1 = 0;
  direct = direct;
  indirect_1 = 0;
  indirect_2 = 0;
  indirect_3 = 0;
  gen = 0;
  reserved1 = 0;
  reserved2 = 0;
  fragment = 0;
  os2 = [];
}

-- A node of at most two blocks, 1 and 3 of the disk.
abbrev pub node_of : BlockIo → ℕ → ℕ → Node
node_of disk mode size = record {
  ide = disk;
  number = 12;
  block_size = 1024;
  info = info_of mode size (3 ∷ 1 ∷ replicate 10 0);
}

abbrev pub blocks_of : ℕ → ℕ
blocks_of zero = 3
blocks_of (suc k) = 1

two_named :
    (f : ℕ → ℕ) (mode size : ℕ)
    → (k : ℕ) → k * 1024 < size
    → size ≤ 2048
    → block_number (node_of (disk_of f 4096) mode size) k ≡ some (blocks_of k)
two_named f mode size zero lt le =
    block_number-direct (node_of (disk_of f 4096) mode size) 0 3 (omega arith) refl
two_named f mode size (suc zero) lt le =
    block_number-direct (node_of (disk_of f 4096) mode size) 1 1 (omega arith) refl
two_named f mode size (suc (suc k)) lt le = absurd (omega arith)

two_on_disk :
    (f : ℕ → ℕ) (mode size : ℕ)
    → (k : ℕ) → k * 1024 < size
    → size ≤ 2048
    → blocks_of k * 1024 + 1024 ≤ 4096
two_on_disk f mode size zero lt le = omega arith
two_on_disk f mode size (suc k) lt le = omega arith

pub node_of-Mapped :
    (f : ℕ → ℕ) (mode size : ℕ)
    → size ≤ 2048
    → Mapped (node_of (disk_of f 4096) mode size) blocks_of
node_of-Mapped f mode size le = record {
  large = omega arith;
  block_fits = omega arith;
  size_fits = omega arith;
  sectors = omega arith;
  named = λ k lt. two_named f mode size k lt le;
  on_disk = λ k lt. two_on_disk f mode size k lt le;
}

abbrev two_blocks : Node
two_blocks = node_of small_disk 0x8000 1500

file_read_lem_example :
    read_all (node_io two_blocks) 1000 100
    ≡ some (count 100 (slice (file_byte bytes 1024 blocks_of) 1000 100))
file_read_lem_example =
    file_read_lem small_disk-Holds (node_of-Mapped bytes 0x8000 1500 (omega arith)) 1000 100
      (omega arith) (omega arith)

-- The bytes of an i-node of a symbolic link to a name of five bytes.
abbrev link_bytes : ℕ → ℕ
link_bytes i = if i == 1 then 0xa0 else if i == 4 then 5 else if leb 40 i then b'a' else 0
