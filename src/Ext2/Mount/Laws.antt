-- ===== src/Ext2/Mount/Laws.antt =====
-- What mounting establishes, and where `get_node` finds an i-node.
use osfinal_project.Prelude.{
  ℕ, zero, suc, ◌+◌, ◌-◌, ◌*◌, ◌/◌, ◌%◌, ◌^◌, ◌≤◌, ◌<◌, ◌≡◌, refl, ap, arith, some, List, [], ◌∷◌,
  length, get_elem?, slice, >>=-eq-some,
}
use osfinal_project.BlockIo.{BlockIo}
use osfinal_project.BlockIo.Laws.{Holds}
use osfinal_project.BlockIo.Typed.{read_value, read_value-slice}
use osfinal_project.Ext2.Layout.{SuperBlock, superblock_size, decode_superblock, decode_node}
use osfinal_project.Ext2.Mount.{Ext2, table_loop, mount_from, mount, get_node}

length-table_loop : (table : List ℕ) (i n : ℕ) → length (table_loop table i n) ≡ n
unfolding table_loop
length-table_loop table i zero = refl
length-table_loop table i (suc n) = ap suc (length-table_loop table (i + 1) n)

get_elem?-some : (xs : List ℕ) (i : ℕ) → i < length xs → (x : ℕ) × (get_elem? xs i ≡ some x)
get_elem?-some [] i h = elim h [ ]
get_elem?-some (x ∷ xs) zero h = (x, refl)
get_elem?-some (x ∷ xs) (suc i) h = get_elem?-some xs i (omega arith)

-- A mounted file system has a table for each group.
pub record IsMounted (fs : Ext2) : Type 0 where
  pub tables : length fs.inode_tables ≡ fs.n_groups

mount_from-IsMounted :
    (ide : BlockIo) (sb : SuperBlock) {fs : Ext2} → mount_from ide sb ≡ some fs → IsMounted fs
unfolding mount_from
mount_from-IsMounted ide sb e = grind (arith, length-table_loop)

-- What `mount` returns has an i-node table for each block group.
mount-IsMounted : (ide : BlockIo) {fs : Ext2} → mount ide ≡ some fs → IsMounted fs
unfolding mount
mount-IsMounted ide e =
    let (b, _, from) = >>=-eq-some (read_value ide 1024 superblock_size) _ e in
    mount_from-IsMounted ide (decode_superblock b) from

module _ (fs : Ext2) {disk : ℕ → ℕ} (h : Holds fs.ide disk) where
  -- For an i-node number in range whose group has a table within the file system, `get_node`
  -- decodes the 128 bytes at entry `(number - 1) % inodes_per_group` of that table, which lie on
  -- the disk.
  get_node_lem :
      (number base : ℕ)
      → 0 < number
      → number < 2 ^ 32
      → number ≤ fs.number_of_nodes
      → 0 < fs.inodes_per_group
      → (number - 1) / fs.inodes_per_group < fs.n_groups
      → get_elem? fs.inode_tables ((number - 1) / fs.inodes_per_group) ≡ some base
      → base ≤ fs.number_of_blocks
      → base * fs.block_size + (number - 1) % fs.inodes_per_group * fs.inode_size + 128
        ≤ fs.ide.size_in_bytes
      → get_node fs number
        ≡ some (record {
          ide = fs.ide;
          number = number;
          block_size = fs.block_size;
          info = decode_node (
              slice disk
                (base * fs.block_size + (number - 1) % fs.inodes_per_group * fs.inode_size)
                128);
        })
  unfolding get_node
  get_node_lem number base pos fit max per group at blocks on = ground (
    arith,
    h.fits,
    read_value-slice h (base * fs.block_size + (number - 1) % fs.inodes_per_group * fs.inode_size)
        128 (omega arith) on,
  )

-- In a mounted file system every i-node number up to the count of the super block that lies in a
-- group has a table: `get_node` reads inside `iNodeTables`.
table-IsMounted :
    {fs : Ext2} (number : ℕ)
    → IsMounted fs
    → (number - 1) / fs.inodes_per_group < fs.n_groups
    → (base : ℕ) × (get_elem? fs.inode_tables ((number - 1) / fs.inodes_per_group) ≡ some base)
table-IsMounted {fs} number m lt = get_elem?-some fs.inode_tables _ (omega (arith, m.tables))
