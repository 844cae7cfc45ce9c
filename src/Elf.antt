-- ===== src/Elf.antt =====
-- kernel/elf.h and kernel/elf.cc: a program file is loaded into the memory of a process.
pub mod Format
pub mod Stores
pub mod Laws
use osfinal_project.Prelude.{
  ℕ, zero, suc, ◌+◌, ◌-◌, ◌*◌, Bool, true, false, Option, none, some, List, [], ◌&&◌, ltb, leb,
  ◌==◌, if◌then◌else◌, get_or, length, take, drop, slice,
}
use osfinal_project.Word.{add32, sub32, le8, le16, le32}
use osfinal_project.BlockIo.{Count, error, count, read_all}
use osfinal_project.Ext2.Inode.{Node, node_io}

-- `struct ElfHeader`, 52 bytes.
pub record ElfHeader : Type 0 where
  pub magic : List ℕ
  pub cls : ℕ
  pub encoding : ℕ
  pub header_version : ℕ
  pub abi : ℕ
  pub abi_version : ℕ
  pub padding : List ℕ
  pub type : ℕ
  pub machine : ℕ
  pub version : ℕ
  pub entry_point : ℕ
  pub phoff : ℕ
  pub shoff : ℕ
  pub flags : ℕ
  pub ehsize : ℕ
  pub phentsize : ℕ
  pub phnum : ℕ
  pub shentsize : ℕ
  pub shnum : ℕ
  pub shstrndx : ℕ

abbrev elf_header_size : ℕ
elf_header_size = 52

-- The structure, from its bytes.
unfoldable pub elf_header_of : List ℕ → ElfHeader
elf_header_of b = record {
  magic = take 4 b;
  cls = le8 b 4;
  encoding = le8 b 5;
  header_version = le8 b 6;
  abi = le8 b 7;
  abi_version = le8 b 8;
  padding = take 7 (drop 9 b);
  type = le16 b 16;
  machine = le16 b 18;
  version = le32 b 20;
  entry_point = le32 b 24;
  phoff = le32 b 28;
  shoff = le32 b 32;
  flags = le32 b 36;
  ehsize = le16 b 40;
  phentsize = le16 b 42;
  phnum = le16 b 44;
  shentsize = le16 b 46;
  shnum = le16 b 48;
  shstrndx = le16 b 50;
}

-- The structure in memory from address `a` on.
unfoldable pub decode_elf_header : (ℕ → ℕ) → ℕ → ElfHeader
decode_elf_header m a = elf_header_of (slice m a elf_header_size)

-- `struct ProgramHeader`, 32 bytes.
pub record ProgramHeader : Type 0 where
  pub type : ℕ
  pub offset : ℕ
  pub vaddr : ℕ
  pub paddr : ℕ
  pub filesz : ℕ
  pub memsz : ℕ
  pub flags : ℕ
  pub align : ℕ

abbrev program_header_size : ℕ
program_header_size = 32

unfoldable pub program_header_of : List ℕ → ProgramHeader
program_header_of b = record {
  type = le32 b 0;
  offset = le32 b 4;
  vaddr = le32 b 8;
  paddr = le32 b 12;
  filesz = le32 b 16;
  memsz = le32 b 20;
  flags = le32 b 24;
  align = le32 b 28;
}

-- The structure in memory from address `a` on.
unfoldable pub decode_program_header : (ℕ → ℕ) → ℕ → ProgramHeader
decode_program_header m a = program_header_of (slice m a program_header_size)

-- A write of bytes from address `a` on.
abbrev pub write_bytes : (ℕ → ℕ) → ℕ → List ℕ → ℕ → ℕ
write_bytes m a bytes x =
    if leb a x && ltb x (a + length bytes) then get_or bytes (x - a) 0 else m x

-- A write of bytes from the 32-bit address `a` on, in an address space that ends at 2^32 and goes on at 0.
abbrev pub store_bytes : (ℕ → ℕ) → ℕ → List ℕ → ℕ → ℕ
store_bytes m a bytes x = if ltb (sub32 x a) (length bytes) then get_or bytes (sub32 x a) 0 else m x

-- What `read_all` put in its buffer; its count is not looked at.
pub bytes_read : Count → List ℕ
bytes_read error = []
bytes_read (count n bytes) = bytes

-- What the loop does for one program header.
pub load_segment : Node → (memory : ℕ → ℕ) → ProgramHeader → Option (ℕ → ℕ)
load_segment file memory cur = elim (cur.type == 1) [
  | false ↦ some memory
  | true ↦ elim (read_all (node_io file) cur.offset cur.filesz) [
    | none ↦ none
    | some r ↦ some (store_bytes memory cur.vaddr (bytes_read r))
  ]
]

-- The loop over the program headers, which lie 32 bytes apart in the buffer at `second`. The number of headers is
-- read again in each round from the header at `first`. `none` is out of fuel too.
pub load_loop : ℕ → Node → (first second : ℕ) → (memory : ℕ → ℕ) → (i : ℕ) → Option (ℕ → ℕ)
load_loop zero file first second memory i = none
load_loop (suc f) file first second memory i = elim (ltb i (decode_elf_header memory first).phnum) [
  | false ↦ some memory
  | true ↦
      elim (load_segment file memory
        (decode_program_header memory (add32 second (i * program_header_size)))) [
          | none ↦ none
          | some m ↦ load_loop f file first second m (i + 1)
        ]
]

-- Whether the file starts with 0x7f, 'E', 'L', 'F'.
unfoldable pub is_elf : ElfHeader → Bool
is_elf h =
    (get_or h.magic 0 0 == 0x7f)
    && (get_or h.magic 1 0 == b'E')
    && (get_or h.magic 2 0 == b'L')
    && (get_or h.magic 3 0 == b'F')

-- `ELF::load`: the entry point, and the memory. The heap gives the addresses of the two buffers, which lie in
-- the memory that the segments are loaded into.
pub load : ℕ → Node → (first second : ℕ) → (memory : ℕ → ℕ) → Option (ℕ × (ℕ → ℕ))
load f file first second memory = elim (read_all (node_io file) 0 elf_header_size) [
  | none ↦ none
  | some r ↦
      let m1 = store_bytes memory first (bytes_read r) in
      let h = decode_elf_header m1 first in
      elim (is_elf h) [
        | false ↦ none
        | true ↦ elim (read_all (node_io file) h.phoff (h.phnum * h.phentsize)) [
          | none ↦ none
          | some t ↦ elim (load_loop f file first second (store_bytes m1 second (bytes_read t)) 0) [
            | none ↦ none
            | some m ↦ some ((decode_elf_header m first).entry_point, m)
          ]
        ]
      ]
]
