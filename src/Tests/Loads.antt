-- ===== src/Tests/Loads.antt =====
-- A program of one segment, which is the whole file of 84 bytes.
use osfinal_project.Prelude.{ℕ, ◌-◌, List, [], ◌∷◌, get_or, leb, if◌then◌else◌}
use osfinal_project.Ext2.Inode.{Node}
use osfinal_project.Ext2.Inode.Laws.{file_byte}
use osfinal_project.Tests.Disk.{disk_of, node_of, blocks_of}

abbrev program : List ℕ
program =
    0x7f ∷ b'E' ∷ b'L' ∷ b'F' ∷ 1 ∷ 1 ∷ 1 ∷ 0 ∷ 0 ∷ 0 ∷ 0 ∷ 0 ∷ 0 ∷ 0 ∷ 0 ∷ 0 ∷ 2 ∷ 0 ∷ 3 ∷ 0 ∷ 1
    ∷ 0 ∷ 0 ∷ 0 ∷ 0 ∷ 0 ∷ 0 ∷ 0x80 ∷ 52 ∷ 0 ∷ 0 ∷ 0 ∷ 0 ∷ 0 ∷ 0 ∷ 0 ∷ 0 ∷ 0 ∷ 0 ∷ 0 ∷ 52 ∷ 0 ∷ 32
    ∷ 0 ∷ 1 ∷ 0 ∷ 0 ∷ 0 ∷ 0 ∷ 0 ∷ 0 ∷ 0 ∷ 1 ∷ 0 ∷ 0 ∷ 0 ∷ 0 ∷ 0 ∷ 0 ∷ 0 ∷ 0 ∷ 0 ∷ 0 ∷ 0x80 ∷ 0 ∷ 0
    ∷ 0 ∷ 0 ∷ 84 ∷ 0 ∷ 0 ∷ 0 ∷ 84 ∷ 0 ∷ 0 ∷ 0 ∷ 5 ∷ 0 ∷ 0 ∷ 0 ∷ 0 ∷ 16 ∷ 0 ∷ 0 ∷ []

-- Its only block is the third of the disk.
abbrev on_disk : ℕ → ℕ
on_disk a = if leb 3072 a then get_or program (a - 3072) 0 else 0

abbrev file : Node
file = node_of (disk_of on_disk 4096) 0x8000 84

abbrev contents : ℕ → ℕ
contents = file_byte on_disk 1024 blocks_of
