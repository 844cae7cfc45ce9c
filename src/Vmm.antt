-- ===== src/Vmm.antt =====
-- kernel/vmm.cc: two-level page tables in physical memory (kernel/sys.cc has `map` and `unmap` once
-- more, word for word). A page directory is the address of its frame; an entry is a word of it.
pub mod Laws
pub mod Translate
pub mod Unmap
use osfinal_project.Prelude.{
  ℕ, zero, suc, ◌+◌, ◌-◌, ◌*◌, ◌/◌, ◌%◌, ◌^◌, true, false, Option, none, some, ◌>>=◌, ltb, leb,
  ◌==◌, ◌&&◌, if◌then◌else◌, update,
}
use osfinal_project.Word.{add32, sub32, mul32}
use osfinal_project.PhysMem.{Memory, PhysMem, frame_size, framedown, alloc_frame, dealloc_frame}

-- `va >> 22` and `(va >> 12) & 0x3FF`
abbrev pub pd_index : ℕ → ℕ
pd_index va = va / 2 ^ 22

abbrev pub pt_index : ℕ → ℕ
pt_index va = va / 2 ^ 12 % 1024

-- `x | 7` is `x` with its last three bits set; `x & 0xFFFFF000` is `framedown x`.
abbrev pub or7 : ℕ → ℕ
or7 x = x - x % 8 + 7

-- The address of entry `i` of a table at `t`, `&t[i]`.
abbrev pub entry : ℕ → ℕ → ℕ
entry t i = t + 4 * i

-- `m` with the word at `a` set.
abbrev pub store : PhysMem → ℕ → ℕ → PhysMem
store s a v = record s { memory = update s.memory a v }

-- The page table that holds the entry of `va`; it is made if the directory has none.
pub ensure_table : PhysMem → ℕ → ℕ → Option (ℕ × PhysMem)
ensure_table s pd va =
    let pde = s.memory (entry pd (pd_index va)) in
    if pde % 2 == 0
    then elim (alloc_frame s) [
      | none ↦ none
      | some (p, t) ↦ some (framedown (or7 p), store t (entry pd (pd_index va)) (or7 p))
    ]
    else some (framedown pde, s)

-- `map(pd, va, pa)`
pub map : PhysMem → ℕ → ℕ → ℕ → Option PhysMem
map s pd va pa = elim (ensure_table s pd va) [
  | none ↦ none
  | some (pt, t) ↦ some (store t (entry pt (pt_index va)) (or7 pa))
]

-- `unmap(pd, va)`; `invlpg` has no effect on memory.
pub unmap : PhysMem → ℕ → ℕ → Option PhysMem
unmap s pd va =
    let pde = s.memory (entry pd (pd_index va)) in
    let pt = framedown pde in
    let pte = s.memory (entry pt (pt_index va)) in
    if pde % 2 == 0
    then some s
    else if pte % 2 == 0
    then some s
    else dealloc_frame (store s (entry pt (pt_index va)) 0) (framedown pte)

-- `delete_pd`: the tables of the private half, the directory entries from 512 on, are freed, then
-- the directory.
delete_loop : PhysMem → ℕ → ℕ → ℕ → Option PhysMem
delete_loop s pd i zero = some s
delete_loop s pd i (suc n) =
    let pde = s.memory (entry pd i) in
    elim (if pde % 2 == 0 then some s else dealloc_frame s (framedown pde)) [
      | none ↦ none
      | some t ↦ delete_loop t pd (i + 1) n
    ]

delete_pd : PhysMem → ℕ → Option PhysMem
unfolding delete_loop
delete_pd s pd = do t ← delete_loop s pd 512 512; dealloc_frame t pd

-- The loop of `VMM::global_init`: each page of the lower half is mapped to itself.
init_loop : ℕ → PhysMem → ℕ → ℕ → ℕ → Option PhysMem
init_loop zero s shared mem_size va = none
init_loop (suc f) s shared mem_size va = elim (ltb va mem_size) [
  | false ↦ some s
  | true ↦ elim (map s shared va va) [
    | none ↦ none
    | some t ↦ init_loop f t shared mem_size (add32 va frame_size)
  ]
]

-- `VMM::global_init`, with the value of `shared` that it sets.
global_init : PhysMem → ℕ → Option (ℕ × PhysMem)
unfolding init_loop
global_init s mem_size = elim (alloc_frame s) [
  | none ↦ none
  | some (shared, t) ↦ do
    u ← init_loop (mem_size / frame_size + 1) t shared mem_size frame_size
    some (shared, u)
]

-- `memcpy(pd, shared, shared_size)` over words.
abbrev pub copy_words : Memory → ℕ → ℕ → ℕ → Memory
copy_words m to from bytes a = if leb to a && ltb a (to + bytes) then m (from + (a - to)) else m a

-- `make_pd`
make_pd : PhysMem → (shared mem_size io_apic local_apic : ℕ) → Option (ℕ × PhysMem)
make_pd s shared mem_size io_apic local_apic =
    let m4 = 4 * 1024 * 1024 in
    let shared_size = mul32 4 (sub32 (add32 mem_size m4) 1 / m4) in
    elim (alloc_frame s) [
      | none ↦ none
      | some (pd, t) ↦ do
        let t' = record t { memory = copy_words t.memory pd shared shared_size }
        u ← map t' pd io_apic io_apic
        v ← map u pd local_apic local_apic
        some (pd, v)
    ]

-- `vmm_pageFault`: a page of the private half gets a fresh frame; a fault below it is a panic. The
-- checks of the register that holds the page directory are left out.
page_fault : PhysMem → (pd va : ℕ) → Option PhysMem
page_fault s pd va =
    if ltb (framedown va) 0x80000000
    then none
    else elim (alloc_frame s) [ none ↦ none | some (pa, t) ↦ map t pd (framedown va) pa ]
