-- ===== src/Vmm/Translate.antt =====
-- The contract of `map`.
use osfinal_project.Prelude.{
  ℕ, ◌+◌, ◌/◌, ◌%◌, ◌^◌, ◌<◌, ◌≡◌, ◌≢◌, ap, ◌∙◌, arith, some, List, [], ◌==◌, if◌then◌else◌, drop,
  ℕ_discrete,
}
use osfinal_project.PhysMem.{PhysMem, frame_size, framedown, alloc_frame}
use osfinal_project.PhysMem.Laws.{IsAllocator}
use osfinal_project.PhysMem.Alloc.{Allocated, alloc_frame-Allocated}
use osfinal_project.Vmm.{pd_index, pt_index, or7, entry, store, ensure_table, map}
use osfinal_project.Vmm.Laws.{
  walk, IsDirectory, Tree, store-walk, store-Tree, filled, filled-Tree, filled-walk,
}

-- After `map(pd, va, pa)`: the invariants hold for some list of free frames, the page of `va` is
-- translated to the frame of `pa`, and every other address as before.
pub record Maps (start : ℕ) (s : PhysMem) (pd va pa : ℕ) (t : PhysMem) : Type 0 where
  pub free : List ℕ
  pub tree : Tree start pd t free
  pub translates :
      (w : ℕ)
      → w < 2 ^ 32
      → walk t.memory pd w ≡ (
          if va / 4096 == w / 4096
          then some (framedown pa + w % frame_size)
          else walk s.memory pd w)

module _ {start : ℕ} {s : PhysMem} {free : List ℕ} {pd va : ℕ} (pa : ℕ) (hv : va < 2 ^ 32) where
  map_present :
      IsAllocator start s free
      → IsDirectory start s free pd
      → s.memory (entry pd (pd_index va)) % 2 ≢ 0
      → (t : PhysMem) × (map s pd va pa ≡ some t) × Maps start s pd va pa t
  unfolding map ensure_table
  map_present a d there = (
    store s (entry (framedown (s.memory (entry pd (pd_index va)))) (pt_index va)) (or7 pa),
    ground arith,
    record {
      free = free;
      tree = store-Tree va (or7 pa) hv a d there;
      translates = λ w hw. store-walk d va pa w hv hw there;
    },
  )

  map_absent :
      IsDirectory start s free pd
      → s.memory (entry pd (pd_index va)) % 2 ≡ 0
      → (p : ℕ) (t : PhysMem) → alloc_frame s ≡ some (p, t)
      → Allocated start s free p t
      → (u : PhysMem) × (map s pd va pa ≡ some u) × Maps start s pd va pa u
  unfolding map ensure_table
  map_absent d empty p t e a = (
    store f (entry (framedown (f.memory (entry pd (pd_index va)))) (pt_index va)) (or7 pa),
    ground (arith, held),
    record {
      free = drop 1 free;
      tree = store-Tree va (or7 pa) hv tree.allocator tree.directory there;
      translates = λ w hw.
          store-walk tree.directory va pa w hv hw there
          ∙ ap (λ r. if va / 4096 == w / 4096 then some (framedown pa + w % frame_size) else r)
              (filled-walk hv d empty a w hw);
    },
  )
    where
      f : PhysMem
      f = filled hv d empty a

      tree : Tree start pd f (drop 1 free)
      tree = filled-Tree hv d empty a

      held : f.memory (entry pd (pd_index va)) ≡ or7 p
      held = ground arith

      there : f.memory (entry pd (pd_index va)) % 2 ≢ 0
      there = omega (arith, held)

  -- With a well-formed allocator and page directory and a free frame or one left in the range,
  -- `map(pd, va, pa)` succeeds for a 32-bit `va`. Afterwards the page of `va` is translated to the
  -- frame of `pa` and every other address as before, and the allocator and the directory are well-
  -- formed, also when a page table was allocated.
  pub map-Maps :
      IsAllocator start s free
      → IsDirectory start s free pd
      → (free ≡ [] → s.avail ≢ s.limit)
      → (t : PhysMem) × (map s pd va pa ≡ some t) × Maps start s pd va pa t
  map-Maps a d room = elim (ℕ_discrete (s.memory (entry pd (pd_index va)) % 2) 0) [
    | yes empty ↦
        let (p, t, e, al) = alloc_frame-Allocated s free a room in map_absent d empty p t e al
    | no there ↦ map_present a d there
  ]
