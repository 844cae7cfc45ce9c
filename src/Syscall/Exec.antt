-- ===== src/Syscall/Exec.antt =====
-- `execl` of kernel/sys.cc: a process forgets its semaphores and its children, gives its pages back, and gets a stack
-- and a program. The memory of the process, by virtual address, is that of Elf; its pages come back as they are
-- touched, which page faults do.
pub mod Stack
use osfinal_project.Prelude.{
  ℕ, zero, suc, ◌+◌, ◌-◌, ◌*◌, ◌/◌, ◌%◌, ◌^◌, Bool, true, false, Option, none, some, List, [], ◌∷◌,
  ◌||◌, ◌==◌, if◌then◌else◌, length, replicate, slice, get_or, map,
}
use osfinal_project.Word.{sub32}
use osfinal_project.PhysMem.{PhysMem, framedown}
use osfinal_project.Vmm.{entry, unmap}
use osfinal_project.Ext2.Mount.{Ext2}
use osfinal_project.Ext2.Inode.{Node}
use osfinal_project.Ext2.Path.{find_path}
use osfinal_project.Elf.{write_bytes, load}
use osfinal_project.Syscall.Process.{Pcb}
use osfinal_project.Syscall.Dispatch.{round4}

exec_tables : Pcb → Pcb
exec_tables p = record p { sp = replicate 10 none; cp = replicate 10 none }

-- The pages of one table, from entry `j` on.
unmap_table : PhysMem → (io_apic local_apic pt pd i j n : ℕ) → Option PhysMem
unmap_table s io_apic local_apic pt pd i j zero = some s
unmap_table s io_apic local_apic pt pd i j (suc n) =
    let va = i * 2 ^ 22 + j * 4096 in
    elim (if (s.memory (entry pt j) % 2 == 0) || (va == io_apic) || (va == local_apic)
      then some s
      else unmap s pd va) [
        | none ↦ none
        | some t ↦ unmap_table t io_apic local_apic pt pd i (j + 1) n
      ]

-- The tables of the private half, from entry `i` of the directory on.
unmap_loop : PhysMem → (io_apic local_apic pd i n : ℕ) → Option PhysMem
unfolding unmap_table
unmap_loop s io_apic local_apic pd i zero = some s
unmap_loop s io_apic local_apic pd i (suc n) =
    let pde = s.memory (entry pd i) in
    elim (if pde % 2 == 1
      then unmap_table s io_apic local_apic (framedown pde) pd i 0 1024
      else some s) [ none ↦ none | some t ↦ unmap_loop t io_apic local_apic pd (i + 1) n ]

exec_memory : PhysMem → (io_apic local_apic pd : ℕ) → Option PhysMem
unfolding unmap_loop
exec_memory s io_apic local_apic pd = unmap_loop s io_apic local_apic pd 512 512

-- `K::strlen`
unfoldable pub strlen : List ℕ → ℕ
strlen [] = 0
strlen (c ∷ cs) = let n = strlen cs in if c == 0 then 0 else suc n

-- `*p = value`
abbrev pub put_word : (ℕ → ℕ) → ℕ → ℕ → ℕ → ℕ
put_word m a v =
    write_bytes m a (v % 256 ∷ v / 256 % 256 ∷ v / 65536 % 256 ∷ v / 16777216 % 256 ∷ [])

-- An argument: the address of its copy in the kernel, and the bytes of the copy.
pub record Argument : Type 0 where
  pub address : ℕ
  pub bytes : List ℕ

-- The length of a string with its NUL, in whole words.
abbrev pub padded : Argument → ℕ
padded a = round4 (strlen a.bytes + 1)

-- The loop over the strings: each is copied to the stack pointer, which then moves down by its length.
pub put_strings : (ℕ → ℕ) → ℕ → List Argument → (ℕ → ℕ) × ℕ
put_strings m esp [] = (m, esp)
put_strings m esp (a ∷ rest) =
    let n = padded a in
    put_strings (write_bytes m esp (slice (λ k. get_or a.bytes k 0) 0 n)) (sub32 esp n) rest

-- The loop over the pointers, from the last argument to the first.
pub put_pointers : (ℕ → ℕ) → ℕ → List Argument → (ℕ → ℕ) × ℕ
put_pointers m esp [] = (m, esp)
put_pointers m esp (a ∷ rest) =
    let (m', e) = put_pointers m esp rest in (put_word m' e a.address, sub32 e 4)

-- The stack of the new program, with its pointer.
pub user_stack : (ℕ → ℕ) → List Argument → (ℕ → ℕ) × ℕ
unfolding put_strings put_pointers
user_stack m args =
    let (m1, e1) = put_strings m 0xefffe000 args in
    let (m2, e2) = put_pointers (put_word m1 e1 0) (sub32 e1 4) args in
    let m3 = put_word m2 e2 ((e2 + 4) % 2 ^ 32) in
    let e3 = sub32 e2 4 in (put_word m3 e3 (length args), e3)

-- From the stack to the switch to the program: its entry point, its memory and its stack pointer. `none` is
-- the panic when there is no such file, or a fault.
enter :
    Ext2
    → (root : Node) → (first second : ℕ) → (memory : ℕ → ℕ) → (path : List ℕ) → List Argument
    → Option (ℕ × (ℕ → ℕ) × ℕ)
enter fs root first second memory path args =
    let (m, esp) = user_stack memory args in
    elim (find_path fs (some root) path) [
      | none ↦ none
      | some none ↦ none
      | some (some file) ↦ elim (load (2 ^ 16) file first second m) [
        | none ↦ none
        | some (entry_point, m') ↦ some (entry_point, m', esp)
      ]
    ]

-- The stack of the first program, in `kernelMain` of kernel/kernel.cc: one argument, `init`.
init_stack : (ℕ → ℕ) → (ℕ → ℕ) × ℕ
init_stack m =
    let top : ℕ = 0xefffe000 in
    let pointer = top - 4 in
    let m1 = put_word m top 0 in
    let m2 = write_bytes m1 pointer (b'i' ∷ b'n' ∷ b'i' ∷ b't' ∷ []) in
    let m3 = put_word m2 (top - 8) 0 in
    let m4 = put_word m3 (top - 12) pointer in
    let m5 = put_word m4 (top - 16) (top - 12) in (put_word m5 (top - 20) 1, top - 20)
