-- ===== src/Tests/Boot.antt =====
-- The search for the tables of the firmware, the loop over the processors, a generator and a gate.
use osfinal_project.Prelude.{ℕ, ◌+◌, ◌-◌, ◌*◌, ◌≡◌, refl, arith, some, [], ◌∷◌, get_or, replicate}
use osfinal_project.Config.{Config, find_rsd_in_range, madt_loop}
use osfinal_project.Config.Laws.{signature, First, find_rsd_in_range-First}
use osfinal_project.Config.Processors.{ends, Noted, madt_loop-Noted}
use osfinal_project.Idt.{trap, interrupt}
use osfinal_project.Idt.Laws.{Set, gate, gates-Set}

-- The signature at address 0x20.
abbrev firmware : ℕ → ℕ
firmware a = get_or signature (a - 0x20) 0

find_rsd_in_range-First_example :
    (p : ℕ) × (find_rsd_in_range 5 firmware 0 (0 + 16 * 4) ≡ some p) × First firmware 0 4 p
find_rsd_in_range-First_example = find_rsd_in_range-First 5 firmware 0 4 (omega arith) (omega arith)

-- Two processors and a controller, from address 100 on.
abbrev table : ℕ → ℕ
table a =
    get_or
      (0 ∷ 8 ∷ 0 ∷ 0 ∷ 1 ∷ 0 ∷ 0 ∷ 0 ∷ 0 ∷ 8 ∷ 1 ∷ 1 ∷ 1 ∷ 0 ∷ 0 ∷ 0 ∷ 1 ∷ 12 ∷ 2 ∷ 0 ∷ 0 ∷ 0 ∷ 0xc0
        ∷ 0xfe ∷ [])
      (a - 100) 0

abbrev no_config : Config
no_config = record {
  mem_size = 0;
  n_other_procs = 0;
  total_procs = 0;
  local_apic = 0;
  madt_flags = 0;
  io_apic = 0;
  apic_info = replicate 16 (record { processor_id = 0; apic_id = 0; flags = 0 });
  oemid = [];
}

madt_loop-Noted_example :
    (d : Config) × (madt_loop 4 table 100 28 no_config ≡ some d)
    × Noted table (ends 100 (8 ∷ 8 ∷ 12 ∷ [])) no_config d
madt_loop-Noted_example =
    madt_loop-Noted 4 table 100 (8 ∷ 8 ∷ 12 ∷ []) no_config (omega arith) (omega arith)
      (omega arith) (omega arith) refl (omega arith)

abbrev empty_table : ℕ → ℕ
empty_table i = 0

-- The trap gate of the system calls.
gates-Set_example :
    ((t : ℕ → ℕ) × (trap empty_table 8 48 0x101234 3 ≡ some t)
      × Set empty_table 48 (gate 15 3 8 0x101234) t)
    × ((m : ℕ) × (u : ℕ → ℕ) × (interrupt empty_table 8 48 0x101234 ≡ some (m, u))
        × Set empty_table 48 (gate 14 0 8 0x101234) u)
gates-Set_example =
    gates-Set empty_table 8 48 0x101234 3 0 (omega arith) (omega arith) (omega arith) (omega arith)
      (omega arith) refl
