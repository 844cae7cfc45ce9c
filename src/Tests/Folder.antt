-- ===== src/Tests/Folder.antt =====
-- A directory with two entries, and a file system around it.
use osfinal_project.Prelude.{ℕ, ◌-◌, ◌≡◌, ◌≢◌, refl, arith, true, some, List, [], ◌∷◌, get_or}
use osfinal_project.BlockIo.Laws.{Holds}
use osfinal_project.Ext2.Layout.{is_dir}
use osfinal_project.Ext2.Inode.{Node, node_io}
use osfinal_project.Ext2.Inode.Laws.{file_byte, node-Holds}
use osfinal_project.Ext2.Mount.{Ext2}
use osfinal_project.Ext2.Directory.{Entry, entries, find}
use osfinal_project.Ext2.Directory.Names.{text}
use osfinal_project.Ext2.Directory.Laws.{IsEntry, Laid, done, entry, entries-Laid, find-hit}
use osfinal_project.Ext2.Path.{find_path}
use osfinal_project.Ext2.Path.Laws.{components, walk, find_path-walk}
use osfinal_project.Tests.Disk.{disk_of, disk_of-Holds, node_of, blocks_of, node_of-Mapped}

-- The entries "." of i-node 12 and "ab" of i-node 5, in the third block of the disk.
abbrev folder_bytes : List ℕ
folder_bytes =
    12 ∷ 0 ∷ 0 ∷ 0 ∷ 12 ∷ 0 ∷ 1 ∷ 2 ∷ b'.' ∷ 0 ∷ 0 ∷ 0 ∷ 5 ∷ 0 ∷ 0 ∷ 0 ∷ 12 ∷ 0 ∷ 2 ∷ 1 ∷ b'a'
    ∷ b'b' ∷ 0 ∷ 0 ∷ []

abbrev folder_disk : ℕ → ℕ
folder_disk a = get_or folder_bytes (a - 3072) 0

abbrev pub folder : Node
folder = node_of (disk_of folder_disk 4096) 0x4000 24

abbrev pub folder_byte : ℕ → ℕ
folder_byte = file_byte folder_disk 1024 blocks_of

pub folder-Holds : Holds (node_io folder) folder_byte
folder-Holds =
    node-Holds (disk_of-Holds folder_disk 4096 (omega arith))
      (node_of-Mapped folder_disk 0x4000 24 (omega arith))

abbrev dot : Entry
dot = record { inode = 12; name = b'.' ∷ [] }

abbrev ab : Entry
ab = record { inode = 5; name = b'a' ∷ b'b' ∷ [] }

dot-IsEntry : IsEntry folder_byte 24 0 12 dot
dot-IsEntry = record {
  inode_field = refl;
  total_field = refl;
  length_field = refl;
  name_field = refl;
  short = omega arith;
  room = omega arith;
  inside = omega arith;
}

ab-IsEntry : IsEntry folder_byte 24 12 12 ab
ab-IsEntry = record {
  inode_field = refl;
  total_field = refl;
  length_field = refl;
  name_field = refl;
  short = omega arith;
  room = omega arith;
  inside = omega arith;
}

folder-Laid : Laid folder_byte 24 0 (dot ∷ ab ∷ [])
folder-Laid = entry dot dot-IsEntry (entry ab ab-IsEntry done)

folder-is_dir : is_dir folder.info ≡ true
unfolding is_dir
folder-is_dir = refl

dot_is_not_ab : text (b'.' ∷ []) ≢ text (b'a' ∷ b'b' ∷ [])
dot_is_not_ab e = cc

entries-Laid_example : entries folder ≡ some (dot ∷ ab ∷ [])
entries-Laid_example = entries-Laid folder folder-Holds folder-is_dir folder-Laid

find-hit_example : find folder (b'.' ∷ []) ≡ some 12
find-hit_example =
    find-hit folder folder-Holds folder-is_dir folder-Laid [] dot (ab ∷ []) (b'.' ∷ []) refl refl
      (dot_is_not_ab, tt)

-- One group of sixteen i-nodes, whose table starts at block 2.
abbrev small_fs : Ext2
small_fs = record {
  ide = disk_of folder_disk 4096;
  block_size = 1024;
  number_of_nodes = 16;
  number_of_blocks = 4;
  inode_size = 128;
  n_groups = 1;
  inode_tables = 2 ∷ [];
  inodes_per_group = 16;
}

find_path-walk_example :
    find_path small_fs (some folder) (b'/' ∷ b'.' ∷ b'/' ∷ b'x' ∷ [])
    ≡ walk small_fs (some folder) (components (b'/' ∷ b'.' ∷ b'/' ∷ b'x' ∷ []))
find_path-walk_example = find_path-walk small_fs (some folder) (b'/' ∷ b'.' ∷ b'/' ∷ b'x' ∷ [])
