-- ===== src/Tests/Unmaps.antt =====
-- A page directory with one table, and one page in it, in the frames of an allocator.
use osfinal_project.Prelude.{
  ℕ, ◌%◌, ◌<◌, ◌≡◌, ◌≢◌, refl, sym, subst, ◌∙◌, arith, some, [], ◌∷◌, ◌==◌, if◌then◌else◌,
}
use osfinal_project.PhysMem.{PhysMem, framedown}
use osfinal_project.Chain.{end, link}
use osfinal_project.PhysMem.Laws.{IsAllocator, InUse}
use osfinal_project.Vmm.{entry, unmap}
use osfinal_project.Vmm.Laws.{IsDirectory}
use osfinal_project.Vmm.Unmap.{Unmaps, unmap-Unmaps}

-- The frame at 0x100000 is the directory, that at 0x102000 its table, and that at 0x103000 a page.
abbrev paged : PhysMem
paged = record {
  first_free = 0x101000;
  avail = 0x104000;
  limit = 0x110000;
  memory = λ a. if a == 0x100800 then 0x102007 else if a == 0x102004 then 0x103007 else 0;
}

paged-IsAllocator : IsAllocator 0x100000 paged (0x101000 ∷ [])
paged-IsAllocator = record {
  above = omega arith;
  start_aligned = refl;
  avail_aligned = refl;
  limit_aligned = refl;
  began = omega arith;
  bounded = omega arith;
  fits = omega arith;
  frames = (refl, omega arith, omega arith, tt);
  chain = link (omega arith) refl end;
}

one_table : (i : ℕ) → i < 1024 → paged.memory (entry 0x100000 i) % 2 ≢ 0 → i ≡ 512
one_table i lt ne = ground arith

paged-IsDirectory : IsDirectory 0x100000 paged (0x101000 ∷ []) 0x100000
paged-IsDirectory = record {
  used = record { aligned = refl; low = omega arith; high = omega arith; not_free = refl };
  tables = λ i lt ne.
      subst
        (λ (j : ℕ).
          InUse 0x100000 paged (0x101000 ∷ []) (framedown (paged.memory (entry 0x100000 j))))
        (sym (one_table i lt ne))
        (record { aligned = refl; low = omega arith; high = omega arith; not_free = refl });
  apart = λ i lt ne.
      subst (λ (j : ℕ). framedown (paged.memory (entry 0x100000 j)) ≢ 0x100000)
        (sym (one_table i lt ne)) (omega arith);
  once = λ i j li lj ni nj e. one_table i li ni ∙ sym (one_table j lj nj);
}

-- The page at 0x80001000 is given back.
unmap-Unmaps_example :
    (t : PhysMem) × (unmap paged 0x100000 0x80001000 ≡ some t)
    × Unmaps 0x100000 paged (0x101000 ∷ []) 0x100000 0x80001000 0x103000 t
unmap-Unmaps_example =
    unmap-Unmaps 0x103000 (omega arith) paged-IsAllocator paged-IsDirectory (λ e. omega arith)
      (λ e. omega arith) refl
      (record { aligned = refl; low = omega arith; high = omega arith; not_free = refl })
      (λ e. omega arith)
      (λ i lt ne.
        subst (λ (j : ℕ). framedown (paged.memory (entry 0x100000 j)) ≢ 0x103000)
          (sym (one_table i lt ne)) (omega arith))
