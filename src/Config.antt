-- ===== src/Config.antt =====
-- kernel/config.h and kernel/config.cc: the size of the memory and the processors, from the tables that the
-- firmware left in memory. The structures are packed; their fields are read at their offsets.
pub mod Laws
pub mod Processors
use Prim.Native.Nat.{bit_or}
use osfinal_project.Prelude.{
  ℕ, zero, suc, ◌+◌, ◌-◌, ◌*◌, ◌/◌, ◌%◌, ◌^◌, Bool, true, false, Option, none, some, List, [], ◌∷◌,
  ◌++◌, ◌&&◌, ◌||◌, ◌==◌, ltb, if◌then◌else◌, set, slice,
}
use osfinal_project.Word.{add32, sub32, load16, load32}

-- What the boot sector asked the firmware for.
pub record MemInfo : Type 0 where
  pub ax : ℕ
  pub bx : ℕ
  pub cx : ℕ
  pub dx : ℕ

pub record ApicInfo : Type 0 where
  pub processor_id : ℕ
  pub apic_id : ℕ
  pub flags : ℕ

abbrev max_procs : ℕ
max_procs = 16

pub record Config : Type 0 where
  pub mem_size : ℕ
  pub n_other_procs : ℕ
  pub total_procs : ℕ
  pub local_apic : ℕ
  pub madt_flags : ℕ
  pub io_apic : ℕ
  pub apic_info : List ApicInfo
  pub oemid : List ℕ

-- Whether the bytes from `a` on are those.
pub iseq : (ℕ → ℕ) → ℕ → List ℕ → Bool
iseq m a [] = true
iseq m a (c ∷ cs) = (m a == c) && iseq m (a + 1) cs

-- Every 16th address from `start` on, below `end`; 0 is null. `none` is out of fuel.
pub find_rsd_in_range : ℕ → (ℕ → ℕ) → (start end : ℕ) → Option ℕ
unfolding iseq
find_rsd_in_range zero m start end = none
find_rsd_in_range (suc f) m start end = elim (ltb start end) [
  | false ↦ some 0
  | true ↦ elim (iseq m start (b'R' ∷ b'S' ∷ b'D' ∷ b' ' ∷ b'P' ∷ b'T' ∷ b'R' ∷ b' ' ∷ [])) [
    | true ↦ some start
    | false ↦ find_rsd_in_range f m (add32 start 16) end
  ]
]

find_rsd : (ℕ → ℕ) → Option ℕ
unfolding find_rsd_in_range
find_rsd m = elim (find_rsd_in_range 8193 m 0xE0000 0x100000) [
  | none ↦ none
  | some zero ↦ let base = load16 m 0x40E * 16 in find_rsd_in_range 65 m base (base + 1024)
  | some (suc p) ↦ some (suc p)
]

-- `sizeof(SDT)`, and the offsets of `Length` in it and of `rootSDT` in an `RSD`.
abbrev sdt_size : ℕ
sdt_size = 36

abbrev table_length : (ℕ → ℕ) → ℕ → ℕ
table_length m sdt = load32 m (sdt + 4)

-- The pointers from `others` on, `n` of them.
find_sdt_loop : (ℕ → ℕ) → (others : ℕ) → List ℕ → (n : ℕ) → ℕ
unfolding iseq
find_sdt_loop m others name zero = 0
find_sdt_loop m others name (suc n) =
    let rest = find_sdt_loop m (others + 4) name n in
    let h = load32 m others in if iseq m h name then h else rest

find_sdt : (ℕ → ℕ) → (rsdp : ℕ) → List ℕ → ℕ
unfolding find_sdt_loop
find_sdt m rsdp name =
    let rsdt = load32 m (rsdp + 16) in
    find_sdt_loop m (rsdt + sdt_size) name (sub32 (table_length m rsdt) sdt_size / 4)

-- The two ways in which the firmware answers: up to 15 MB in KB, and what is above 16 MB in units of 64 KB.
mem_above_1m : MemInfo → Option ℕ
mem_above_1m i =
    if (i.cx == 15 * 1024) || (i.dx == 0)
    then some (add32 (bit_or i.ax i.cx * 1024) (bit_or i.bx i.dx * 65536))
    else none

-- An entry of the table of processors, at `p`: that of the first processor is skipped, another one is put
-- into the array; an I/O controller is noted; the other kinds are skipped. A write behind the array is `none`.
pub note_entry : (ℕ → ℕ) → ℕ → Config → Option Config
note_entry m p c =
    if m p == 0
    then if m (p + 2) == 0
      then some c
      else if ltb c.n_other_procs max_procs
      then some (record c {
        n_other_procs = c.n_other_procs + 1;
        apic_info =
            set c.apic_info c.n_other_procs
              (record { processor_id = m (p + 2); apic_id = m (p + 3); flags = load32 m (p + 4) });
      })
      else none
    else if m p == 1
    then some (record c { io_apic = load32 m (p + 4) })
    else some c

-- `bytesForEntries > 0`, of an `int32_t`.
abbrev is_left : ℕ → Bool
is_left n = ltb 0 n && ltb n (2 ^ 31)

-- The loop over the entries; the pointer moves before it is read. `none` is out of fuel too.
pub madt_loop : ℕ → (ℕ → ℕ) → (entry_ptr bytes : ℕ) → Config → Option Config
unfolding note_entry
madt_loop zero m p n c = none
madt_loop (suc f) m p n c = elim (is_left n) [
  | false ↦ some c
  | true ↦
      let len = m (p + 1) in
      let q = add32 p len in
      elim (note_entry m q c) [ none ↦ none | some d ↦ madt_loop f m q (sub32 n len) d ]
]

-- `sizeof(MADT)`; its `localAddress` and `flags` lie behind the SDT.
abbrev madt_size : ℕ
madt_size = 44

config_init : ℕ → (ℕ → ℕ) → MemInfo → Config → Option Config
unfolding find_rsd find_sdt mem_above_1m madt_loop
config_init f m i c = elim (mem_above_1m i) [
  | none ↦ none
  | some above ↦ elim (find_rsd m) [
    | none ↦ none
    | some rsdp ↦
        let oemid = if rsdp == 0 then c.oemid else slice m (rsdp + 9) 6 ++ (0 ∷ []) in
        let madt = find_sdt m rsdp (b'A' ∷ b'P' ∷ b'I' ∷ b'C' ∷ []) in
        let start = record c {
          mem_size = add32 above (2 ^ 20);
          oemid = oemid;
          local_apic = load32 m (madt + 36);
          madt_flags = load32 m (madt + 40);
          n_other_procs = 0;
        } in
        elim (madt_loop f m (madt + madt_size) (sub32 (table_length m madt) madt_size) start) [
          | none ↦ none
          | some d ↦ some (record d { total_procs = d.n_other_procs + 1 })
        ]
  ]
]
