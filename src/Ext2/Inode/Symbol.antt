-- ===== src/Ext2/Inode/Symbol.antt =====
-- `Node::get_symbol` of kernel/ext2.cc: where a symbolic link leads.
use osfinal_project.Prelude.{
  ℕ, zero, suc, ◌+◌, ◌*◌, ◌/◌, ◌%◌, ◌≤◌, ◌<◌, ◌≡◌, refl, ap, ap₂, ◌∙◌, arith, true, Option, none,
  some, List, [], ◌∷◌, ◌++◌, ◌>>=◌, ◌>>◌, assert, leb, ◌==◌, if◌then◌else◌, take, slice,
  slice-append, take-slice,
}
use osfinal_project.BlockIo.{BlockIo, Count, error, count, read_all}
use osfinal_project.Ext2.Layout.{NodeData, is_symlink, decode_node}
use osfinal_project.Ext2.Inode.{Node, node_io}

-- The four bytes of a `uint32_t` in memory.
abbrev bytes32 : ℕ → List ℕ
bytes32 w = (w % 256) ∷ (w / 256 % 256) ∷ (w / 65536 % 256) ∷ (w / 16777216 % 256) ∷ []

abbrev bytes_of_words : List ℕ → List ℕ
bytes_of_words [] = []
bytes_of_words (w ∷ ws) = bytes32 w ++ bytes_of_words ws

-- The sixty bytes of an i-node from `direct0` on: the block numbers, as they lie in memory.
abbrev link_area : NodeData → List ℕ
link_area d = bytes_of_words (d.direct ++ (d.indirect_1 ∷ d.indirect_2 ∷ d.indirect_3 ∷ []))

-- `ASSERT(cnt == sz)`
whole_link : ℕ → Count → Option (List ℕ)
whole_link sz error = none
whole_link sz (count n bytes) = if n == sz then some bytes else none

-- A target of at most 60 bytes lies in the i-node, a longer one in the blocks.
get_symbol : Node → Option (List ℕ)
unfolding whole_link
get_symbol n = do
  assert (is_symlink n.info)
  let sz = n.info.size_low
  if leb sz 60
      then some (take sz (link_area n.info))
      else (read_all (node_io n) 0 sz >>= whole_link sz)

bytes32-le32 :
    (a b c d : ℕ)
    → a < 256
    → b < 256
    → c < 256
    → d < 256
    → bytes32 (a + 256 * b + 65536 * c + 16777216 * d) ≡ a ∷ b ∷ c ∷ d ∷ []
bytes32-le32 a b c d ha hb hc hd = ground arith

-- The words that lie in memory from byte `i` on.
abbrev words : (ℕ → ℕ) → ℕ → ℕ → List ℕ
words f i zero = []
words f i (suc k) =
    (f i + 256 * f (i + 1) + 65536 * f (i + 2) + 16777216 * f (i + 3)) ∷ words f (i + 4) k

module _ (f : ℕ → ℕ) (byte : (i : ℕ) → f i < 256) where
  word_bytes :
      (i : ℕ)
      → bytes32 (f i + 256 * f (i + 1) + 65536 * f (i + 2) + 16777216 * f (i + 3)) ≡ slice f i 4
  word_bytes i =
      bytes32-le32 (f i) (f (i + 1)) (f (i + 2)) (f (i + 3)) (byte i) (byte (i + 1)) (byte (i + 2))
        (byte (i + 3))
      ∙ ap₂ (λ (a b : ℕ). f i ∷ f a ∷ f b ∷ f (i + 3) ∷ []) (omega arith) (omega arith)
      ∙ ap (λ (a : ℕ). f i ∷ f (suc i) ∷ f (suc (suc i)) ∷ f a ∷ []) (omega arith)

  bytes_of_words-words : (i k : ℕ) → bytes_of_words (words f i k) ≡ slice f i (4 * k)
  bytes_of_words-words i zero = refl
  bytes_of_words-words i (suc k) =
      ap₂ (λ (x y : List ℕ). x ++ y) (word_bytes i) (bytes_of_words-words (i + 4) k)
      ∙ slice-append f i 4 (4 * k)
      ∙ ap (λ (n : ℕ). slice f i n) (omega arith)

  -- Decoding an i-node keeps the sixty bytes of its block numbers.
  link_area-decode_node : link_area (decode_node (slice f 0 128)) ≡ slice f 40 60
  unfolding decode_node
  link_area-decode_node = bytes_of_words-words 40 15

  -- For an i-node that is decoded from its 128 bytes and is a symbolic link of at most 60 bytes,
  -- `get_symbol` returns the bytes from byte 40 of the i-node on.
  get_symbol-short :
      (ide : BlockIo) (number block_size : ℕ)
      → is_symlink (decode_node (slice f 0 128)) ≡ true
      → (decode_node (slice f 0 128)).size_low ≤ 60
      → let info = decode_node (slice f 0 128) in
        get_symbol (record { ide = ide; number = number; block_size = block_size; info = info })
        ≡ some (slice f 40 info.size_low)
  unfolding get_symbol
  get_symbol-short ide number block_size link short = ground (
    arith,
    link_area-decode_node,
    take-slice f 40 (decode_node (slice f 0 128)).size_low 60 short,
  )
