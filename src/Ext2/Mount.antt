-- ===== src/Ext2/Mount.antt =====
-- The class `Ext2` of kernel/ext2.h: its constructor, and `get_node`.
pub mod Laws
use osfinal_project.Prelude.{
  ℕ, zero, suc, ◌+◌, ◌*◌, ◌/◌, ◌%◌, ◌^◌, Option, none, some, List, [], ◌∷◌, ◌>>=◌, ◌>>◌, assert,
  ltb, leb, ◌==◌, if◌then◌else◌, get_elem?,
}
use osfinal_project.Word.{add32, sub32, mul32}
use osfinal_project.BlockIo.{BlockIo, Count, error, count, read_all}
use osfinal_project.BlockIo.Typed.{read_value}
use osfinal_project.Ext2.Layout.{
  SuperBlock, superblock_size, decode_superblock, BlockGroup, block_group_size, decode_group,
  node_data_size, decode_node,
}
use osfinal_project.Ext2.Inode.{Node}

-- The numbers that the constructor keeps. `root`, `current` and `cwd` are the state of `Syscall.Dir`.
pub record Ext2 : Type 0 where
  pub ide : BlockIo
  pub block_size : ℕ
  pub number_of_nodes : ℕ
  pub number_of_blocks : ℕ
  pub inode_size : ℕ
  pub n_groups : ℕ
  pub inode_tables : List ℕ
  pub inodes_per_group : ℕ

-- `iNodeTables[i] = groupTable[i].inode_table` for `n` groups from group `i` on.
pub table_loop : List ℕ → ℕ → ℕ → List ℕ
table_loop table i zero = []
table_loop table i (suc n) =
    (decode_group table (i * block_group_size)).inode_table ∷ table_loop table (i + 1) n

-- `ASSERT(cnt == groupTableSize)`
whole_table : ℕ → Count → Option (List ℕ)
whole_table size error = none
whole_table size (count n bytes) = if n == size then some bytes else none

-- The constructor from the super block on. A shift by 32 or more is undefined, and a group of no
-- blocks is a division by 0; both are faults here.
pub mount_from : BlockIo → SuperBlock → Option Ext2
unfolding whole_table table_loop
mount_from ide sb =
    let shift = add32 sb.log_block_size 10 in
    let bs = 2 ^ shift in
    let groups = sub32 (add32 sb.blocks_count sb.blocks_per_group) 1 / sb.blocks_per_group in
    if leb 32 shift then none else if sb.blocks_per_group == 0 then none else do
      assert (leb sb.blocks_count (mul32 groups sb.blocks_per_group))
      r ← read_all ide (mul32 (add32 (1024 / bs) 1) bs) (mul32 block_group_size groups)
      table ← whole_table (mul32 block_group_size groups) r
      some (record {
        ide = ide;
        block_size = bs;
        number_of_nodes = sb.inodes_count;
        number_of_blocks = sb.blocks_count;
        inode_size = sb.inode_size;
        n_groups = groups;
        inode_tables = table_loop table 0 groups;
        inodes_per_group = sb.inodes_per_group;
      })

pub mount : BlockIo → Option Ext2
mount ide = do b ← read_value ide 1024 superblock_size; mount_from ide (decode_superblock b)

-- Where i-node `number` lies on the disk.
node_offset : Ext2 → ℕ → Option ℕ
node_offset fs number =
    let index = sub32 number 1 in
    let group_index = index / fs.inodes_per_group in
    do
      assert (ltb 0 number)
      assert (leb number fs.number_of_nodes)
      assert (ltb 0 fs.inodes_per_group)
      assert (ltb group_index fs.n_groups)
      base ← get_elem? fs.inode_tables group_index
      assert (leb base fs.number_of_blocks)
      some (add32 (mul32 base fs.block_size) (mul32 (index % fs.inodes_per_group) fs.inode_size))

-- `Ext2::get_node`. The third assertion of `node_offset` stands for the fault of a division by 0.
pub get_node : Ext2 → ℕ → Option Node
unfolding node_offset
get_node fs number = do
  offset ← node_offset fs number
  b ← read_value fs.ide offset node_data_size
  some (record { ide = fs.ide; number = number; block_size = fs.block_size; info = decode_node b })
