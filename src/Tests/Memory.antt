-- ===== src/Tests/Memory.antt =====
-- An allocator of sixteen frames, and page tables in it.
use osfinal_project.Prelude.{
  ℕ, ◌%◌, ◌≡◌, ◌≢◌, refl, sym, subst, ◌∙◌, arith, some, [], ◌∷◌, ◌==◌, if◌then◌else◌,
}
use osfinal_project.PhysMem.{PhysMem, alloc_frame, dealloc_frame, framedown}
use osfinal_project.Chain.{end, link}
use osfinal_project.PhysMem.Laws.{IsAllocator, InUse}
use osfinal_project.PhysMem.Alloc.{Allocated, alloc_frame-Allocated, Freed, dealloc_frame-Freed}
use osfinal_project.Vmm.{entry, map}
use osfinal_project.Vmm.Laws.{IsDirectory}
use osfinal_project.Vmm.Translate.{Maps, map-Maps}

-- The range from 0x100000, with three frames handed out, the second of which is free again.
abbrev frames : PhysMem
frames = record { first_free = 0x101000; avail = 0x103000; limit = 0x110000; memory = λ a. 0 }

frames-IsAllocator : IsAllocator 0x100000 frames (0x101000 ∷ [])
frames-IsAllocator = record {
  above = omega arith;
  start_aligned = refl;
  avail_aligned = refl;
  limit_aligned = refl;
  began = omega arith;
  bounded = omega arith;
  fits = omega arith;
  frames = (refl, omega arith, omega arith, tt);
  chain = link (omega arith) refl end;
}

frames-InUse : InUse 0x100000 frames (0x101000 ∷ []) 0x100000
frames-InUse = record { aligned = refl; low = omega arith; high = omega arith; not_free = refl }

alloc_frame-Allocated_example :
    (p : ℕ) × (t : PhysMem) × (alloc_frame frames ≡ some (p, t))
    × Allocated 0x100000 frames (0x101000 ∷ []) p t
alloc_frame-Allocated_example =
    alloc_frame-Allocated frames (0x101000 ∷ []) frames-IsAllocator (λ e. omega arith)

dealloc_frame-Freed_example :
    (t : PhysMem) × (dealloc_frame frames 0x100000 ≡ some t)
    × Freed 0x100000 frames (0x101000 ∷ []) 0x100000 t
dealloc_frame-Freed_example =
    dealloc_frame-Freed frames (0x101000 ∷ []) 0x100000 frames-IsAllocator frames-InUse

-- The frame at 0x100000 is a page directory with one table, the frame at 0x102000.
abbrev tables : PhysMem
tables = record {
  first_free = 0x101000;
  avail = 0x103000;
  limit = 0x110000;
  memory = λ a. if a == 0x100800 then 0x102007 else 0;
}

tables-IsAllocator : IsAllocator 0x100000 tables (0x101000 ∷ [])
tables-IsAllocator = record {
  above = omega arith;
  start_aligned = refl;
  avail_aligned = refl;
  limit_aligned = refl;
  began = omega arith;
  bounded = omega arith;
  fits = omega arith;
  frames = (refl, omega arith, omega arith, tt);
  chain = link (omega arith) refl end;
}

only : (i : ℕ) → tables.memory (entry 0x100000 i) % 2 ≢ 0 → i ≡ 512
only i ne = ground arith

tables-IsDirectory : IsDirectory 0x100000 tables (0x101000 ∷ []) 0x100000
tables-IsDirectory = record {
  used = record { aligned = refl; low = omega arith; high = omega arith; not_free = refl };
  tables = λ i lt ne.
      subst
        (λ (j : ℕ).
          InUse 0x100000 tables (0x101000 ∷ []) (framedown (tables.memory (entry 0x100000 j))))
        (sym (only i ne))
        (record { aligned = refl; low = omega arith; high = omega arith; not_free = refl });
  apart = λ i lt ne.
      subst (λ (j : ℕ). framedown (tables.memory (entry 0x100000 j)) ≢ 0x100000) (sym (only i ne))
        (omega arith);
  once = λ i j li lj ni nj e. only i ni ∙ sym (only j nj);
}

-- A page of another four megabytes: a second table is allocated.
map-Maps_example :
    (t : PhysMem) × (map tables 0x100000 0xC0001000 0x5000 ≡ some t)
    × Maps 0x100000 tables 0x100000 0xC0001000 0x5000 t
map-Maps_example =
    map-Maps 0x5000 (omega arith) tables-IsAllocator tables-IsDirectory (λ e. omega arith)
