-- ===== src/Elf/Laws.antt =====
-- A program file that lies whole on the disk is loaded as the format of its headers says.
use osfinal_project.Prelude.{
  ℕ, ◌+◌, ◌-◌, ◌*◌, ◌^◌, ◌≤◌, ◌<◌, ◌≡◌, ◌⊎◌, ◌&&◌, leb, ltb, ◌==◌, if◌then◌else◌,
}
use osfinal_project.BlockIo.Laws.{Holds}
use osfinal_project.Ext2.Inode.{Node, node_io}
use osfinal_project.Elf.Format.{half, word, image}

-- Two memories with the same upper half, and with the same lower half.
abbrev Upper : (m s : ℕ → ℕ) → Type 0
Upper m s = (x : ℕ) → 2 ^ 31 ≤ x → x < 2 ^ 32 → m x ≡ s x

abbrev Lower : (m s : ℕ → ℕ) → Type 0
Lower m s = (x : ℕ) → x < 2 ^ 31 → m x ≡ s x

-- One segment of the image.
abbrev placed : (c m : ℕ → ℕ) → (a : ℕ) → ℕ → ℕ
placed c m a x =
    let vaddr = word c (a + 8) in
    if word c a == 1
    then (if leb vaddr x && ltb x (vaddr + word c (a + 16))
        then c (word c (a + 4) + (x - vaddr))
        else m x)
    else m x

module _ (file : Node) (c : ℕ → ℕ) (h : Holds (node_io file) c) where
  abbrev size : ℕ
  size = (node_io file).size_in_bytes

  -- What `load` leaves in the memory: the segments in the upper half, and nothing new in the lower one but in
  -- the two buffers.
  pub record Loaded (memory : ℕ → ℕ) (first second : ℕ) (t : ℕ → ℕ) : Type 0 where
    pub upper : Upper t (image c memory (word c 28) (half c 44))
    pub lower :
        (x : ℕ)
        → x < 2 ^ 31
        → (x < first) ⊎ (first + 52 ≤ x)
        → (x < second) ⊎ (second + half c 44 * 32 ≤ x)
        → t x ≡ memory x
