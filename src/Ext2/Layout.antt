-- ===== src/Ext2/Layout.antt =====
-- The on-disk structures of kernel/ext2.h, decoded from their little-endian bytes.
use osfinal_project.Prelude.{ℕ, ◌+◌, ◌/◌, ◌^◌, Bool, List, [], ◌∷◌, ◌==◌, take, drop}
use osfinal_project.Word.{le16, le32}

-- `struct SuperBlock`, 140 bytes.
pub record SuperBlock : Type 0 where
  pub inodes_count : ℕ
  pub blocks_count : ℕ
  pub reserved_blocks_count : ℕ
  pub free_blocks_count : ℕ
  pub free_inodes_count : ℕ
  pub first_data_block : ℕ
  pub log_block_size : ℕ
  pub log_frag_size : ℕ
  pub blocks_per_group : ℕ
  pub frags_per_group : ℕ
  pub inodes_per_group : ℕ
  pub mtime : ℕ
  pub wtime : ℕ
  pub mnt_count : ℕ
  pub max_mnt_count : ℕ
  pub magic : ℕ
  pub state : ℕ
  pub errors : ℕ
  pub minor_rev_level : ℕ
  pub lastcheck : ℕ
  pub checkinterval : ℕ
  pub creator_os : ℕ
  pub rev_level : ℕ
  pub def_resuid : ℕ
  pub def_resgid : ℕ
  pub first_inode : ℕ
  pub inode_size : ℕ
  pub block_group_nr : ℕ
  pub feature_compat : ℕ
  pub feature_incompat : ℕ
  pub feature_ro_compat : ℕ
  pub uuid : List ℕ
  pub volume_name : List ℕ
  pub algo_bitmap : ℕ

abbrev pub superblock_size : ℕ
superblock_size = 140

unfoldable pub decode_superblock : List ℕ → SuperBlock
decode_superblock b = record {
  inodes_count = le32 b 0;
  blocks_count = le32 b 4;
  reserved_blocks_count = le32 b 8;
  free_blocks_count = le32 b 12;
  free_inodes_count = le32 b 16;
  first_data_block = le32 b 20;
  log_block_size = le32 b 24;
  log_frag_size = le32 b 28;
  blocks_per_group = le32 b 32;
  frags_per_group = le32 b 36;
  inodes_per_group = le32 b 40;
  mtime = le32 b 44;
  wtime = le32 b 48;
  mnt_count = le16 b 52;
  max_mnt_count = le16 b 54;
  magic = le16 b 56;
  state = le16 b 58;
  errors = le16 b 60;
  minor_rev_level = le16 b 62;
  lastcheck = le32 b 64;
  checkinterval = le32 b 68;
  creator_os = le32 b 72;
  rev_level = le32 b 76;
  def_resuid = le16 b 80;
  def_resgid = le16 b 82;
  first_inode = le32 b 84;
  inode_size = le16 b 88;
  block_group_nr = le16 b 90;
  feature_compat = le32 b 92;
  feature_incompat = le32 b 96;
  feature_ro_compat = le32 b 100;
  uuid = take 16 (drop 104 b);
  volume_name = take 16 (drop 120 b);
  algo_bitmap = le32 b 136;
}

-- `struct BlockGroup`, 32 bytes.
pub record BlockGroup : Type 0 where
  pub block_bitmap : ℕ
  pub inode_bitmap : ℕ
  pub inode_table : ℕ
  pub free_blocks_count : ℕ
  pub free_inodes_count : ℕ
  pub used_dirs_count : ℕ
  pub pad : ℕ
  pub reserved : List ℕ

abbrev pub block_group_size : ℕ
block_group_size = 32

-- The group descriptor that starts at byte `i` of a buffer.
unfoldable pub decode_group : List ℕ → ℕ → BlockGroup
decode_group b i = record {
  block_bitmap = le32 b i;
  inode_bitmap = le32 b (i + 4);
  inode_table = le32 b (i + 8);
  free_blocks_count = le16 b (i + 12);
  free_inodes_count = le16 b (i + 14);
  used_dirs_count = le16 b (i + 16);
  pad = le16 b (i + 18);
  reserved = take 12 (drop (i + 20) b);
}

-- `struct NodeData`, 128 bytes; `direct` is `direct0` to `direct11`.
pub record NodeData : Type 0 where
  pub mode : ℕ
  pub uid : ℕ
  pub size_low : ℕ
  pub atime : ℕ
  pub ctime : ℕ
  pub mtime : ℕ
  pub dtime : ℕ
  pub gid : ℕ
  pub n_links : ℕ
  pub n_sectors : ℕ
  pub flags : ℕ
  pub os1 : ℕ
  pub direct : List ℕ
  pub indirect_1 : ℕ
  pub indirect_2 : ℕ
  pub indirect_3 : ℕ
  pub gen : ℕ
  pub reserved1 : ℕ
  pub reserved2 : ℕ
  pub fragment : ℕ
  pub os2 : List ℕ

abbrev pub node_data_size : ℕ
node_data_size = 128

unfoldable pub decode_node : List ℕ → NodeData
decode_node b = record {
  mode = le16 b 0;
  uid = le16 b 2;
  size_low = le32 b 4;
  atime = le32 b 8;
  ctime = le32 b 12;
  mtime = le32 b 16;
  dtime = le32 b 20;
  gid = le16 b 24;
  n_links = le16 b 26;
  n_sectors = le32 b 28;
  flags = le32 b 32;
  os1 = le32 b 36;
  direct =
      le32 b 40
      ∷ le32 b 44
      ∷ le32 b 48
      ∷ le32 b 52
      ∷ le32 b 56
      ∷ le32 b 60
      ∷ le32 b 64
      ∷ le32 b 68
      ∷ le32 b 72
      ∷ le32 b 76
      ∷ le32 b 80
      ∷ le32 b 84
      ∷ [];
  indirect_1 = le32 b 88;
  indirect_2 = le32 b 92;
  indirect_3 = le32 b 96;
  gen = le32 b 100;
  reserved1 = le32 b 104;
  reserved2 = le32 b 108;
  fragment = le32 b 112;
  os2 = take 12 (drop 116 b);
}

-- `mode >> 12`, and the three kinds of i-node that the kernel tells apart.
unfoldable get_type : NodeData → ℕ
get_type d = d.mode / 2 ^ 12

unfoldable pub is_dir : NodeData → Bool
unfolding get_type
is_dir d = get_type d == 4

unfoldable is_file : NodeData → Bool
unfolding get_type
is_file d = get_type d == 8

unfoldable pub is_symlink : NodeData → Bool
unfolding get_type
is_symlink d = get_type d == 0xa
