-- ===== src/Vmm/Unmap.antt =====
-- The contract of `unmap`.
use osfinal_project.Prelude.{
  ℕ, ◌/◌, ◌%◌, ◌^◌, ◌<◌, ◌≡◌, ◌≢◌, ap, sym, subst, ◌∙◌, arith, none, some, List, ◌∷◌, ◌==◌,
  if◌then◌else◌, ℕ_discrete,
}
use osfinal_project.PhysMem.{PhysMem, framedown, dealloc_frame}
use osfinal_project.PhysMem.Laws.{IsAllocator, InUse}
use osfinal_project.PhysMem.Alloc.{Freed, dealloc_frame-Freed}
use osfinal_project.Vmm.{pd_index, pt_index, entry, store, unmap}
use osfinal_project.Vmm.Laws.{walk, IsDirectory, Tree, store-Tree}

-- After `unmap(pd, va)` of a page whose frame was `f`: the frame is the first free one, the directory is
-- well-formed, the page is not translated, and every other address as before.
pub record Unmaps (start : ℕ) (s : PhysMem) (free : List ℕ) (pd va f : ℕ) (t : PhysMem)
    : Type 0 where
  pub tree : Tree start pd t (f ∷ free)
  pub translates :
      (w : ℕ)
      → w < 2 ^ 32
      → walk t.memory pd w ≡ (if va / 4096 == w / 4096 then none else walk s.memory pd w)

module _ {start : ℕ} {s : PhysMem} {free : List ℕ} {pd : ℕ} (d : IsDirectory start s free pd) where
  -- An entry of a table is cleared.
  clear-walk :
      (va w : ℕ)
      → va < 2 ^ 32
      → w < 2 ^ 32
      → s.memory (entry pd (pd_index va)) % 2 ≢ 0
      → let pt = framedown (s.memory (entry pd (pd_index va))) in
        walk (store s (entry pt (pt_index va)) 0).memory pd w
        ≡ (if va / 4096 == w / 4096 then none else walk s.memory pd w)
  unfolding walk
  clear-walk va w hv hw present = ground (
    arith,
    d.apart (pd_index va) (omega arith) present,
    d.tables (pd_index va) (omega arith) present,
    d.apart (pd_index w) (omega arith),
    d.tables (pd_index w) (omega arith),
    d.once (pd_index va) (pd_index w) (omega arith) (omega arith) present,
    d.used,
  )

  -- The first word of a frame that is no table changes.
  link-walk :
      (t : PhysMem) (f w : ℕ)
      → w < 2 ^ 32
      → InUse start s free f
      → f ≢ pd
      → ((i : ℕ) → i < 1024 → s.memory (entry pd i) % 2 ≢ 0 → framedown (s.memory (entry pd i)) ≢ f)
      → ((a : ℕ) → a ≢ f → t.memory a ≡ s.memory a)
      → walk t.memory pd w ≡ walk s.memory pd w
  unfolding walk
  link-walk t f w hw used other no_table same =
      let i = pd_index w in
      let pde = s.memory (entry pd i) in
      let aligned = d.used.aligned in
      let frame = used.aligned in
      let below : i < 1024 = omega (arith, hw) in
      let first : t.memory (entry pd i) ≡ pde =
        same (entry pd i) (omega (arith, aligned, frame, other)) in
      elim (ℕ_discrete (pde % 2) 0) [
        | yes absent ↦ ground (arith, first, absent)
        | no present ↦
            let table = d.tables i below present in
            let far = no_table i below present in
            let at = table.aligned in
            let second : t.memory (entry (framedown pde) (pt_index w))
                ≡ s.memory (entry (framedown pde) (pt_index w)) =
              same (entry (framedown pde) (pt_index w)) (omega (arith, at, frame, far)) in
            ground (arith, first, second, present)
      ]

  -- A frame that is neither the directory nor a table is freed.
  Freed-IsDirectory :
      (t : PhysMem) (f : ℕ)
      → Freed start s free f t
      → InUse start s free f
      → f ≢ pd
      → ((i : ℕ) → i < 1024 → s.memory (entry pd i) % 2 ≢ 0 → framedown (s.memory (entry pd i)) ≢ f)
      → IsDirectory start t (f ∷ free) pd
  Freed-IsDirectory t f freed used other no_table =
      let aligned = d.used.aligned in
      let frame = used.aligned in
      let same : (i : ℕ) → i < 1024 → s.memory (entry pd i) ≡ t.memory (entry pd i) =
        (λ i lt. sym (freed.outside (entry pd i) (omega (arith, lt, aligned, frame, other)))) in
      let there : (i : ℕ)
          → i < 1024
          → t.memory (entry pd i) % 2 ≢ 0
          → s.memory (entry pd i) % 2 ≢ 0 =
        (λ i lt. subst (λ (x : ℕ). x % 2 ≢ 0) (sym (same i lt))) in
      record {
        used = freed.kept pd d.used (λ e. other (sym e));
        tables = λ i lt ne.
            subst (λ (x : ℕ). InUse start t (f ∷ free) (framedown x)) (same i lt)
              (freed.kept (framedown (s.memory (entry pd i))) (d.tables i lt (there i lt ne))
                (no_table i lt (there i lt ne)));
        apart = λ i lt ne.
            subst (λ (x : ℕ). framedown x ≢ pd) (same i lt) (d.apart i lt (there i lt ne));
        once = λ i j li lj ni nj e.
            d.once i j li lj (there i li ni) (there j lj nj)
              (ap framedown (same i li) ∙ e ∙ ap framedown (sym (same j lj)));
      }

module _ (s : PhysMem) (pd va : ℕ) where
  unmap_steps :
      (t : PhysMem)
      → let pde = s.memory (entry pd (pd_index va)) in
        let pt = framedown pde in
        let pte = s.memory (entry pt (pt_index va)) in
        pde % 2 ≢ 0
        → pte % 2 ≢ 0
        → dealloc_frame (store s (entry pt (pt_index va)) 0) (framedown pte) ≡ some t
        → unmap s pd va ≡ some t
  unfolding unmap
  unmap_steps t present mapped freed = ground (arith, present, mapped, freed)

module _ {start : ℕ} {s : PhysMem} {free : List ℕ} {pd va : ℕ} where
  -- With a well-formed allocator and page directory, and a 32-bit `va` whose page is mapped to a
  -- frame in use that is neither the directory nor one of its tables: `unmap(pd, va)` succeeds.
  -- Afterwards the frame is the first free one, the page of `va` is not translated and every other
  -- address as before, and the allocator and the directory are well-formed.
  pub unmap-Unmaps :
      (f : ℕ)
      → va < 2 ^ 32
      → IsAllocator start s free
      → IsDirectory start s free pd
      → s.memory (entry pd (pd_index va)) % 2 ≢ 0
      → s.memory (entry (framedown (s.memory (entry pd (pd_index va)))) (pt_index va)) % 2 ≢ 0
      → framedown (s.memory (entry (framedown (s.memory (entry pd (pd_index va)))) (pt_index va)))
        ≡ f
      → InUse start s free f
      → f ≢ pd
      → ((i : ℕ) → i < 1024 → s.memory (entry pd i) % 2 ≢ 0 → framedown (s.memory (entry pd i)) ≢ f)
      → (t : PhysMem) × (unmap s pd va ≡ some t) × Unmaps start s free pd va f t
  unmap-Unmaps f hv a d present mapped at used other no_table =
      let pt = framedown (s.memory (entry pd (pd_index va))) in
      let u = store s (entry pt (pt_index va)) 0 in
      let tree = store-Tree va 0 hv a d present in
      let used' : InUse start u free f = record {
        aligned = used.aligned;
        low = used.low;
        high = used.high;
        not_free = used.not_free;
      } in
      let table = (d.tables (pd_index va) (omega (arith, hv)) present).aligned in
      let far = d.apart (pd_index va) (omega (arith, hv)) present in
      let aligned = d.used.aligned in
      let same : (i : ℕ) → i < 1024 → u.memory (entry pd i) ≡ s.memory (entry pd i) =
        (λ i lt. ground (arith, lt, table, far, aligned)) in
      let apart : (i : ℕ)
          → i < 1024
          → u.memory (entry pd i) % 2 ≢ 0
          → framedown (u.memory (entry pd i)) ≢ f =
        (λ i lt there at'.
          no_table i lt (subst (λ (x : ℕ). x % 2 ≢ 0) (same i lt) there)
            (ap framedown (sym (same i lt)) ∙ at')) in
      let (t, e, freed) = dealloc_frame-Freed u free f tree.allocator used' in
      (
        t,
        unmap_steps s pd va t present mapped (ap (dealloc_frame u) at ∙ e),
        record {
          tree = record {
            allocator = freed.valid;
            directory = Freed-IsDirectory tree.directory t f freed used' other apart;
          };
          translates = λ w hw.
              link-walk tree.directory t f w hw used' other apart freed.outside
              ∙ clear-walk d va w hv hw present;
        },
      )
