-- ===== src/Ext2/Inode/Laws.antt =====
-- A file's bytes are those of the disk blocks that its i-node names.
use osfinal_project.Prelude.{
  ℕ, zero, suc, ◌+◌, ◌-◌, ◌*◌, ◌/◌, ◌%◌, ◌^◌, ◌≤◌, ◌<◌, ◌≡◌, refl, ap, ap₂, ◌∙◌, arith, some, ◌∷◌,
  get_elem?, slice, min,
}
use osfinal_project.BlockIo.{count, read_all}
use osfinal_project.BlockIo.Laws.{Holds, read_all-slice}
use osfinal_project.BlockIo.Typed.{read_value-slice}
use osfinal_project.Word.{le32}
use osfinal_project.Ext2.Inode.{Node, block_number, read_block, node_io}

-- The i-node names disk block `at k` for block `k` of the file, and all of them are on the disk.
pub record Mapped (n : Node) (at : ℕ → ℕ) : Type 0 where
  pub large : 512 ≤ n.block_size
  pub block_fits : n.block_size < 2 ^ 32
  pub size_fits : n.info.size_low < 2 ^ 32
  pub sectors : n.info.size_low ≤ n.info.n_sectors / (n.block_size / 512) * n.block_size
  pub named : (k : ℕ) → k * n.block_size < n.info.size_low → block_number n k ≡ some (at k)
  pub on_disk :
      (k : ℕ)
      → k * n.block_size < n.info.size_low
      → at k * n.block_size + n.block_size ≤ n.ide.size_in_bytes

-- Byte `i` of a file whose blocks are at `at` on a disk with the given contents.
abbrev pub file_byte : (ℕ → ℕ) → ℕ → (ℕ → ℕ) → ℕ → ℕ
file_byte disk bs at i = disk (at (i / bs) * bs + i % bs)

pub slice-cong :
    (f g : ℕ → ℕ) (a b n : ℕ)
    → ((i : ℕ) → i < n → f (a + i) ≡ g (b + i))
    → slice f a n ≡ slice g b n
slice-cong f g a b zero h = refl
slice-cong f g a b (suc n) h =
    ap₂ ◌∷◌ (ap f (omega arith) ∙ h 0 (omega arith) ∙ ap g (omega arith)) (
      slice-cong f g (suc a) (suc b) n
        (λ i lt. ap f (omega arith) ∙ h (suc i) (omega arith) ∙ ap g (omega arith)))

block_div : (k b i : ℕ) → i < b → (k * b + i) / b ≡ k
block_div k b i h = grind arith

block_mod : (k b i : ℕ) → i < b → (k * b + i) % b ≡ i
block_mod k b i h = grind arith

block_below : (k b s m : ℕ) → k * b < s → s ≤ m * b → k < m
block_below k b s m h l = grind arith

-- The first twelve blocks are named in the i-node.
pub block_number-direct :
    (n : Node) (k b : ℕ) → k < 12 → get_elem? n.info.direct k ≡ some b → block_number n k ≡ some b
unfolding block_number
block_number-direct n k b lt e = ground (arith, e)

module _ {n : Node} {disk at : ℕ → ℕ} (h : Holds n.ide disk) (m : Mapped n at) where
  open m use {large, block_fits, size_fits, sectors, named, on_disk}

  abbrev bs : ℕ
  bs = n.block_size

  block_slice : (k : ℕ) → slice (file_byte disk bs at) (k * bs) bs ≡ slice disk (at k * bs) bs
  block_slice k = slice-cong (file_byte disk bs at) disk (k * bs) (at k * bs) bs (λ i lt.
      ap disk (ap₂ (λ (q r : ℕ). at q * bs + r) (block_div k bs i lt) (block_mod k bs i lt)))

  read_block-slice :
      (k : ℕ)
      → k * bs < n.info.size_low
      → read_block n k ≡ some (slice (file_byte disk bs at) (k * bs) bs)
  unfolding read_block
  read_block-slice k lt = ground (
    arith,
    named k lt,
    block_slice k,
    on_disk k lt,
    block_below k bs n.info.size_low (n.info.n_sectors / (bs / 512)) lt sectors,
    read_all-slice h (at k * bs) bs block_fits,
    h.fits,
  )

  -- The i-node as a device holds the bytes of the file.
  pub node-Holds : Holds (node_io n) (file_byte disk bs at)
  unfolding node_io
  node-Holds = record {
    sized = omega arith;
    block_fits = block_fits;
    fits = size_fits;
    blocks = read_block-slice;
  }

  -- For a mapped i-node with its indirect block on the disk, file block `k` from 12 up to the end
  -- of the indirect table is the little-endian entry `k - 12` of that table.
  block_number-indirect :
      (k : ℕ)
      → 12 ≤ k
      → k < 12 + bs / 4
      → n.info.indirect_1 * bs + bs ≤ n.ide.size_in_bytes
      → block_number n k ≡ some (le32 (slice disk (n.info.indirect_1 * bs + (k - 12) * 4) 4) 0)
  unfolding block_number
  block_number-indirect k low high on = ground (
    arith,
    h.fits,
    read_value-slice h (n.info.indirect_1 * bs + (k - 12) * 4) 4 (omega arith) (omega arith),
  )

  -- For an i-node whose blocks are all on the disk, `read_all` of a 32-bit count from an offset up
  -- to the size of the file returns the bytes of that range of the file, across its blocks, with no
  -- panic.
  pub file_read_lem :
      (offset count' : ℕ)
      → count' < 2 ^ 32
      → offset ≤ n.info.size_low
      → read_all (node_io n) offset count'
        ≡ some (
            count
              (min count' (n.info.size_low - offset))
              (slice (file_byte disk bs at) offset (min count' (n.info.size_low - offset))))
  unfolding node_io
  file_read_lem offset count' fit le = read_all-slice node-Holds offset count' fit le
