-- ===== src/Elf/Format.antt =====
-- The format of a program file, and what the decoded headers hold.
use osfinal_project.Prelude.{
  ℕ, zero, suc, ◌+◌, ◌-◌, ◌*◌, ◌^◌, ◌≤◌, ◌<◌, ◌≡◌, ◌≢◌, ◌⊎◌, ap, ◌∙◌, arith, true, List, ◌&&◌, leb,
  ltb, ◌==◌, if◌then◌else◌, get_or, slice,
}
use osfinal_project.Word.{le16, le32}
use osfinal_project.Ext2.Inode.Laws.{slice-cong}
use osfinal_project.Elf.{
  elf_header_of, program_header_of, decode_elf_header, decode_program_header, is_elf,
}

-- The little-endian numbers of a file.
abbrev pub half : (ℕ → ℕ) → ℕ → ℕ
half c a = c a + 256 * c (a + 1)

abbrev pub word : (ℕ → ℕ) → ℕ → ℕ
word c a = c a + 256 * c (a + 1) + 65536 * c (a + 2) + 16777216 * c (a + 3)

-- The memory after the segments whose headers lie in the file from `a` on, `n` of them. In a header the kind is at
-- 0, where 1 asks to load; the offset in the file at 4, the address at 8 and the size in the file at 16.
abbrev pub image : (contents memory : ℕ → ℕ) → (a n : ℕ) → ℕ → ℕ
image c m a zero = m
image c m a (suc n) =
    let vaddr = word c (a + 8) in
    let filesz = word c (a + 16) in
    image c
      (λ x.
        if word c a == 1
        then (if leb vaddr x && ltb x (vaddr + filesz)
            then c (word c (a + 4) + (x - vaddr))
            else m x)
        else m x)
      (a + 32) n

-- Every segment that is loaded lies in the file, of `size` bytes, and its place in the upper half of the
-- address space, which is that of the user.
abbrev pub InFile : (ℕ → ℕ) → (size a n : ℕ) → Type 0
InFile c size a zero = Unit {0}
InFile c size a (suc n) =
    ((word c a ≢ 1)
      ⊎ ((word c (a + 4) + word c (a + 16) ≤ size)
          × (2 ^ 31 ≤ word c (a + 8))
          × (word c (a + 8) + word c (a + 16) ≤ 2 ^ 32)))
    × InFile c size (a + 32) n

-- The format of the header of the file: its first bytes; program headers of 32 bytes, which lie in the file.
pub record IsProgram (c : ℕ → ℕ) (size : ℕ) : Type 0 where
  pub magic0 : c 0 ≡ 0x7f
  pub magic1 : c 1 ≡ b'E'
  pub magic2 : c 2 ≡ b'L'
  pub magic3 : c 3 ≡ b'F'
  pub whole : 52 ≤ size
  pub entry_size : half c 42 ≡ 32
  pub headers : word c 28 + half c 44 * 32 ≤ size
  pub segments : InFile c size (word c 28) (half c 44)

-- The buffers lie in the lower half of the address space, and apart.
pub record Apart (first second total : ℕ) : Type 0 where
  pub first_low : first + 52 ≤ 2 ^ 31
  pub second_low : second + total ≤ 2 ^ 31
  pub apart : (first + 52 ≤ second) ⊎ (second + total ≤ first)

pub get_or-slice : (f : ℕ → ℕ) (a n k : ℕ) → k < n → get_or (slice f a n) k 0 ≡ f (a + k)
get_or-slice f a zero k lt = absurd (omega (arith, lt))
get_or-slice f a (suc n) zero lt = ap f (omega arith)
get_or-slice f a (suc n) (suc k) lt =
    get_or-slice f (suc a) n k (omega (arith, lt)) ∙ ap f (omega arith)

le32-slice : (c : ℕ → ℕ) (a n i : ℕ) → i + 4 ≤ n → le32 (slice c a n) i ≡ word c (a + i)
le32-slice c a n i le =
    let e0 = get_or-slice c a n i (omega (arith, le)) in
    let e1 : get_or (slice c a n) (i + 1) 0 ≡ c (a + i + 1) =
      get_or-slice c a n (i + 1) (omega (arith, le)) ∙ ap c (omega arith) in
    let e2 : get_or (slice c a n) (i + 2) 0 ≡ c (a + i + 2) =
      get_or-slice c a n (i + 2) (omega (arith, le)) ∙ ap c (omega arith) in
    let e3 : get_or (slice c a n) (i + 3) 0 ≡ c (a + i + 3) =
      get_or-slice c a n (i + 3) (omega (arith, le)) ∙ ap c (omega arith) in
    omega (arith, e0, e1, e2, e3)

-- The memory from `a` on is that of the file from `o` on, for `n` bytes.
abbrev pub Same : (m : ℕ → ℕ) → (a : ℕ) → (c : ℕ → ℕ) → (o n : ℕ) → Type 0
Same m a c o n = (k : ℕ) → k < n → m (a + k) ≡ c (o + k)

-- The fields of a program header.
pub program_header-fields :
    (m c : ℕ → ℕ) (a o : ℕ)
    → Same m a c o 32
    → let p = decode_program_header m a in
      (p.type ≡ word c o)
      × (p.offset ≡ word c (o + 4))
      × (p.vaddr ≡ word c (o + 8))
      × (p.filesz ≡ word c (o + 16))
unfolding decode_program_header program_header_of
program_header-fields m c a o same =
    let e = slice-cong m c a o 32 same in
    (
      ap (λ (b : List ℕ). le32 b 0) e
          ∙ le32-slice c o 32 0 (omega arith)
          ∙ ap (word c) (omega arith),
      ap (λ (b : List ℕ). le32 b 4) e ∙ le32-slice c o 32 4 (omega arith),
      ap (λ (b : List ℕ). le32 b 8) e ∙ le32-slice c o 32 8 (omega arith),
      ap (λ (b : List ℕ). le32 b 16) e ∙ le32-slice c o 32 16 (omega arith),
    )

-- The fields of the header of the file.
pub elf_header-fields :
    (m c : ℕ → ℕ) (a : ℕ)
    → Same m a c 0 52
    → let h = decode_elf_header m a in
      (h.entry_point ≡ word c 24)
      × (h.phoff ≡ word c 28)
      × (h.phentsize ≡ half c 42)
      × (h.phnum ≡ half c 44)
unfolding decode_elf_header elf_header_of
elf_header-fields m c a same =
    let e = slice-cong m c a 0 52 same in
    (
      ap (λ (b : List ℕ). le32 b 24) e,
      ap (λ (b : List ℕ). le32 b 28) e,
      ap (λ (b : List ℕ). le16 b 42) e,
      ap (λ (b : List ℕ). le16 b 44) e,
    )

pub is_elf-magic :
    (m c : ℕ → ℕ) (a size : ℕ)
    → Same m a c 0 52
    → IsProgram c size
    → is_elf (decode_elf_header m a) ≡ true
unfolding is_elf decode_elf_header elf_header_of
is_elf-magic m c a size same p =
    let e = slice-cong m c a 0 52 same in
    let e0 = p.magic0 in
    let e1 = p.magic1 in
    let e2 = p.magic2 in
    let e3 = p.magic3 in
    ap (λ (b : List ℕ). is_elf (elf_header_of b)) e ∙ ground (arith, e0, e1, e2, e3)
