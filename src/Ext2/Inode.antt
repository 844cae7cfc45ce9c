-- ===== src/Ext2/Inode.antt =====
-- The class `Node` of kernel/ext2.h: an i-node as a block device over the disk.
pub mod Laws
pub mod Symbol
use osfinal_project.Prelude.{
  ℕ, ◌+◌, ◌-◌, ◌*◌, ◌/◌, ◌<◌, Option, none, some, List, ◌>>=◌, ◌>>◌, assert, ltb, ◌==◌,
  if◌then◌else◌, get_elem?,
}
use osfinal_project.Word.{add32, sub32, mul32, le32}
use osfinal_project.BlockIo.{BlockIo, Count, error, count, read_all}
use osfinal_project.BlockIo.Typed.{read_value}
use osfinal_project.Ext2.Layout.{NodeData}

-- `ide` is the device, here any block device.
pub record Node : Type 0 where
  pub ide : BlockIo
  pub number : ℕ
  pub block_size : ℕ
  pub info : NodeData

-- The number of the disk block with block `index` of the file: twelve direct blocks, then those of
-- one indirect block. Any other index is a panic.
pub block_number : Node → ℕ → Option ℕ
block_number n index =
    let refs_per_block = n.block_size / 4 in
    if ltb index 12
    then get_elem? n.info.direct index
    else if ltb index (add32 12 refs_per_block)
    then (do
      b ←
          read_value n.ide (add32 (mul32 n.info.indirect_1 n.block_size) (mul32 (sub32 index 12) 4))
            4
      some (le32 b 0))
    else none

-- `ASSERT(cnt == block_size)` on what `read_all` returns.
whole_block : ℕ → Count → Option (List ℕ)
whole_block size error = none
whole_block size (count n bytes) = if n == size then some bytes else none

-- `Node::read_block`. A block size below 512 is a division by 0.
pub read_block : Node → ℕ → Option (List ℕ)
unfolding whole_block
read_block n index = if n.block_size / 512 == 0 then none else do
  assert (ltb index (n.info.n_sectors / (n.block_size / 512)))
  block_index ← block_number n index
  r ← read_all n.ide (mul32 block_index n.block_size) n.block_size
  whole_block n.block_size r

-- The node as a `BlockIO`.
unfoldable pub node_io : Node → BlockIo
node_io n = record {
  block_size = n.block_size;
  size_in_bytes = n.info.size_low;
  read_block = read_block n;
}
