-- ===== src/Syscall/Fork.antt =====
-- `fork` and `wait` of kernel/sys.cc: what a child gets from its parent, and what the parent gets back.
pub mod Laws
use osfinal_project.Prelude.{
  ℕ, zero, suc, ◌+◌, ◌-◌, ◌*◌, ◌%◌, ◌^◌, Bool, true, false, Option, none, some, List, [], ◌∷◌, ◌||◌,
  ◌==◌, ltb, if◌then◌else◌, get_elem?, set, update,
}
use osfinal_project.PhysMem.{Memory, PhysMem, framedown, alloc_frame}
use osfinal_project.Vmm.{entry, map, copy_words}
use osfinal_project.Syscall.Process.{Pcb, minus_one}

-- The processes of the kernel, by their names, with the value of the future of each, once it is set.
pub record Processes : Type 0 where
  pub tables : ℕ → Pcb
  pub status : ℕ → Option ℕ

-- `while (index < 30 && cp[index - 20] != nullptr) index++`; `none` is the index 30.
unfoldable pub child_slot : ℕ → List (Option ℕ) → Option ℕ
child_slot i [] = none
child_slot i (none ∷ t) = some i
child_slot i (some k ∷ t) = child_slot (i + 1) t

-- `fork` on the tables of the process `parent`; `child` is the name of the new process.
pub fork_tables : Processes → (parent child : ℕ) → ℕ × Processes
unfolding child_slot
fork_tables s parent child =
    let p = s.tables parent in
    elim (child_slot 20 p.cp) [
      | none ↦ (minus_one, s)
      | some index ↦
          let p' = record p { cp = set p.cp (index - 20) (some child) } in
          let c = record (s.tables child) { fd = p.fd; sp = p.sp } in
          (index, record s { tables = update (update s.tables parent p') child c })
    ]

-- One page of the loop of `fork`: a page that is present, but for those of the two APICs, is copied to
-- a new frame. Physical memory is mapped to itself, so the copy is from frame to frame.
fork_page : PhysMem → (io_apic local_apic pt pd i j : ℕ) → Option PhysMem
fork_page s io_apic local_apic pt pd i j =
    let va = i * 2 ^ 22 + j * 4096 in
    let pte = s.memory (entry pt j) in
    if (pte % 2 == 0) || (va == io_apic) || (va == local_apic)
    then some s
    else elim (alloc_frame s) [
      | none ↦ none
      | some (pa, t) ↦ elim (map t pd va pa) [
        | none ↦ none
        | some u ↦ some (record u { memory = copy_words u.memory pa (framedown pte) 4096 })
      ]
    ]

-- The pages of one table, from entry `j` on.
fork_table : PhysMem → (io_apic local_apic pt pd i j n : ℕ) → Option PhysMem
unfolding fork_page
fork_table s io_apic local_apic pt pd i j zero = some s
fork_table s io_apic local_apic pt pd i j (suc n) =
    elim (fork_page s io_apic local_apic pt pd i j) [
      | none ↦ none
      | some t ↦ fork_table t io_apic local_apic pt pd i (j + 1) n
    ]

-- The tables of the private half, from entry `i` of the directory on.
fork_loop : PhysMem → (io_apic local_apic parent_pd pd i n : ℕ) → Option PhysMem
fork_loop s io_apic local_apic parent_pd pd i zero = some s
fork_loop s io_apic local_apic parent_pd pd i (suc n) =
    let pde = s.memory (entry parent_pd i) in
    elim (if pde % 2 == 1
      then fork_table s io_apic local_apic (framedown pde) pd i 0 1024
      else some s) [ none ↦ none | some t ↦ fork_loop t io_apic local_apic parent_pd pd (i + 1) n ]

-- The address space of the child, whose page directory is at `pd`.
fork_memory : PhysMem → (io_apic local_apic parent_pd pd : ℕ) → Option PhysMem
unfolding fork_loop
fork_memory s io_apic local_apic parent_pd pd = fork_loop s io_apic local_apic parent_pd pd 512 512

-- What `wait` does: it waits on while the future of the child is not set; otherwise it returns with
-- the value for `*status`.
pub data Waited : Type 0 where
  waits : Waited
  returned : (result : ℕ) → Option ℕ → Processes → Waited

-- `wait`; a number that is not that of an entry is a fault. Every process has a future from its
-- constructor on, so the test for a null one has no case here.
pub wait : Processes → (process id : ℕ) → Option Waited
wait s process id =
    let p = s.tables process in
    if ltb id 20 then none else elim (get_elem? p.cp (id - 20)) [
      | none ↦ none
      | some none ↦ some (returned minus_one none s)
      | some (some child) ↦ elim (s.status child) [
        | none ↦ some waits
        | some rc ↦
            let p' = record p { cp = set p.cp (id - 20) none } in
            some (returned 0 (some rc) (record s { tables = update s.tables process p' }))
      ]
    ]

-- `exit`: the future is set once; a second time is a failed assertion.
pub exit : Processes → (process rc : ℕ) → Option Processes
exit s process rc = elim (s.status process) [
  | some old ↦ none
  | none ↦ some (record s { status = update s.status process (some rc) })
]
