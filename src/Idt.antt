-- ===== src/Idt.antt =====
-- kernel/idt.cc: the entries of the interrupt descriptor table. The table is a function from the index of a word.
pub mod Laws
use osfinal_project.Prelude.{
  ℕ, zero, suc, ◌+◌, ◌-◌, ◌*◌, ◌/◌, ◌%◌, ◌^◌, true, false, Option, none, some, ◌==◌, ltb,
  if◌then◌else◌, update,
}

-- The table has 256 entries of two words (kernel/mbr.S).
abbrev pub table_entries : ℕ
table_entries = 256

-- The two words of an entry, each a `uint32_t`: the handler is one, and the bits between its halves do not overlap
-- it, so that the source's `or` is a sum. A write behind the table is `none`.
abbrev pub set_entry : (ℕ → ℕ) → (kernel_cs index handler bits : ℕ) → Option (ℕ → ℕ)
set_entry idt kernel_cs index handler bits =
    if ltb index table_entries
    then some (
        update (update idt (2 * index) ((kernel_cs * 65536 + handler % 65536) % 2 ^ 32))
          (2 * index + 1) ((handler - handler % 65536 + bits) % 2 ^ 32))
    else none

-- `while (idt[i] != 0) i++`, with the words of the table that are left; a read behind it is `none`.
pub first_zero : ℕ → (ℕ → ℕ) → ℕ → Option ℕ
first_zero zero idt i = none
first_zero (suc f) idt i = elim (idt i == 0) [ true ↦ some i | false ↦ first_zero f idt (i + 1) ]

-- `IDT::interrupt`, with the number that it prints.
pub interrupt : (ℕ → ℕ) → (kernel_cs index handler : ℕ) → Option (ℕ × (ℕ → ℕ))
unfolding first_zero
interrupt idt kernel_cs index handler = elim (first_zero (2 * table_entries) idt 0) [
  | none ↦ none
  | some n ↦ elim (set_entry idt kernel_cs index handler 0x8e00) [
    | none ↦ none
    | some t ↦ some (n, t)
  ]
]

-- `IDT::trap`, for a privilege level below 4.
pub trap : (ℕ → ℕ) → (kernel_cs index handler dpl : ℕ) → Option (ℕ → ℕ)
trap idt kernel_cs index handler dpl = set_entry idt kernel_cs index handler (0x8f00 + dpl * 8192)
