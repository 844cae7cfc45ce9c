-- ===== src/PhysMem/Alloc.antt =====
-- What `alloc_frame` and `dealloc_frame` do to an allocator and to the frames in use.
use osfinal_project.Prelude.{
  ℕ, ◌+◌, ◌≤◌, ◌<◌, ◌≡◌, ◌≢◌, ◌⊎◌, refl, ap, sym, subst, arith, false, none, some, List, [], ◌∷◌,
  update, drop, update_ne, update_self,
}
use osfinal_project.PhysMem.{frame_size, PhysMem, zero_frame, alloc_frame, dealloc_frame}
use osfinal_project.Chain.{has, Chain, end, link, Chain-frame}
use osfinal_project.PhysMem.Laws.{IsAllocator, InUse, has-aligned, zero_frame_other}

-- After an allocation: the frame is in use and was not, what was in use still is, the frame is
-- zeroed, and no word outside it has changed.
pub record Allocated (start : ℕ) (s : PhysMem) (free : List ℕ) (p : ℕ) (t : PhysMem) : Type 0 where
  pub valid : IsAllocator start t (drop 1 free)
  pub owned : InUse start t (drop 1 free) p
  pub kept : (q : ℕ) → InUse start s free q → InUse start t (drop 1 free) q × (q ≢ p)
  pub zeroed : (a : ℕ) → p ≤ a → a < p + frame_size → t.memory a ≡ 0
  pub outside : (a : ℕ) → (a < p) ⊎ (p + frame_size ≤ a) → t.memory a ≡ s.memory a

pub record HasFrame (start : ℕ) (s : PhysMem) (free : List ℕ) : Type 0 where
  pub frame : ℕ
  pub rest : PhysMem
  pub result : alloc_frame s ≡ some (frame, rest)
  pub allocated : Allocated start s free frame rest

-- With no free frame the next one of the range is taken.
alloc_next :
    {start : ℕ} (s : PhysMem)
    → IsAllocator start s []
    → s.first_free ≡ 0
    → s.avail ≢ s.limit
    → HasFrame start s []
unfolding alloc_frame
alloc_next {start} s v empty more = record {
  frame = s.avail;
  rest = record s { avail = s.avail + frame_size; memory = zero_frame s.memory s.avail };
  result = ground arith;
  allocated = record {
    valid = record {
      above = v.above;
      start_aligned = v.start_aligned;
      avail_aligned = omega arith;
      limit_aligned = v.limit_aligned;
      began = omega arith;
      bounded = omega arith;
      fits = v.fits;
      frames = tt;
      chain = subst (λ q. Chain (zero_frame s.memory s.avail) q []) (sym empty) end;
    };
    owned = ground arith;
    kept = λ q u. (
      record { aligned = u.aligned; low = u.low; high = omega arith; not_free = refl },
      omega arith,
    );
    zeroed = λ a lo hi. ground arith;
    outside = λ a o. ground arith;
  };
}

-- Otherwise the first free frame is taken off the list.
alloc_first :
    {start : ℕ} (s : PhysMem) (ps : List ℕ)
    → IsAllocator start s (s.first_free ∷ ps)
    → s.first_free ≢ 0
    → has s.first_free ps ≡ false
    → Chain s.memory (s.memory s.first_free) ps
    → HasFrame start s (s.first_free ∷ ps)
unfolding alloc_frame
alloc_first {start} s ps v nz fresh c = record {
  frame = s.first_free;
  rest = record s { first_free = s.memory s.first_free; memory = zero_frame s.memory s.first_free };
  result = ground arith;
  allocated = record {
    valid = record {
      above = v.above;
      start_aligned = v.start_aligned;
      avail_aligned = v.avail_aligned;
      limit_aligned = v.limit_aligned;
      began = v.began;
      bounded = v.bounded;
      fits = v.fits;
      frames = v.frames.3;
      chain = Chain-frame c (λ a e.
          let (al, _, _) = has-aligned start s.avail ps a v.frames.3 e in
          zero_frame_other s.memory s.first_free a v.frames.0 al
            (λ q. cc (ap (λ (x : ℕ). has x ps) q)));
    };
    owned = ground arith;
    kept = λ q u. (
      record { aligned = u.aligned; low = u.low; high = u.high; not_free = ground arith },
      ground arith,
    );
    zeroed = λ a lo hi. ground arith;
    outside = λ a o. ground arith;
  };
}

-- With a chain of free frames, or none and a range that is not used up, `alloc_frame` succeeds.
alloc_from :
    {start : ℕ} (s : PhysMem) (p : ℕ) (free : List ℕ)
    → Chain s.memory p free
    → s.first_free ≡ p
    → IsAllocator start s free
    → (free ≡ [] → s.avail ≢ s.limit)
    → HasFrame start s free
alloc_from s p free end e v more = alloc_next s v e (more refl)
alloc_from {start} s p free (link {ps = ps} nz fresh c) e v more =
    subst (λ q. HasFrame start s (q ∷ ps)) e
      (alloc_first s ps (subst (λ q. IsAllocator start s (q ∷ ps)) (sym e) v) (ground arith)
        (ground arith) (subst (λ q. Chain s.memory (s.memory q) ps) (sym e) c))

-- With a well-formed allocator and a free frame or one left in the range, `alloc_frame` succeeds.
-- The frame was not in use and now is, the frames in use stay so, the frame is zeroed, no word
-- outside it has changed, and the allocator is well-formed.
pub alloc_frame-Allocated :
    {start : ℕ} (s : PhysMem) (free : List ℕ)
    → IsAllocator start s free
    → (free ≡ [] → s.avail ≢ s.limit)
    → (p : ℕ) × (t : PhysMem) × (alloc_frame s ≡ some (p, t)) × Allocated start s free p t
alloc_frame-Allocated s free v more =
    let r = alloc_from s s.first_free free v.chain refl v more in
    (r.frame, r.rest, r.result, r.allocated)

-- With neither it panics.
alloc_frame_exhausted :
    {start : ℕ} (s : PhysMem)
    → IsAllocator start s []
    → s.first_free ≡ 0
    → s.avail ≡ s.limit
    → alloc_frame s ≡ none
unfolding alloc_frame
alloc_frame_exhausted s v empty full = ground arith

-- A frame in use goes back to the head of the free list; the others in use stay so, and only the
-- first word of the frame changes.
pub record Freed (start : ℕ) (s : PhysMem) (free : List ℕ) (p : ℕ) (t : PhysMem) : Type 0 where
  pub valid : IsAllocator start t (p ∷ free)
  pub kept : (q : ℕ) → InUse start s free q → q ≢ p → InUse start t (p ∷ free) q
  pub outside : (a : ℕ) → a ≢ p → t.memory a ≡ s.memory a

-- With a well-formed allocator, `dealloc_frame` of a frame in use succeeds. The frame is first on
-- the free list, the other frames in use stay so, only the first word of the frame has changed, and
-- the allocator is well-formed.
pub dealloc_frame-Freed :
    {start : ℕ} (s : PhysMem) (free : List ℕ) (p : ℕ)
    → IsAllocator start s free
    → InUse start s free p
    → (t : PhysMem) × (dealloc_frame s p ≡ some t) × Freed start s free p t
unfolding dealloc_frame
dealloc_frame-Freed {start} s free p v u = (
  record s { memory = update s.memory p s.first_free; first_free = p },
  ground arith,
  record {
    valid = record {
      above = v.above;
      start_aligned = v.start_aligned;
      avail_aligned = v.avail_aligned;
      limit_aligned = v.limit_aligned;
      began = v.began;
      bounded = v.bounded;
      fits = v.fits;
      frames = (u.aligned, u.low, u.high, v.frames);
      chain = link (omega arith) u.not_free (
          subst (λ q. Chain (update s.memory p s.first_free) q free)
            (sym (update_self s.memory p s.first_free))
            (Chain-frame v.chain (λ a e.
              update_ne s.memory p a s.first_free
                (λ q. cc (u.not_free, ap (λ (x : ℕ). has x free) q)))));
    };
    kept = λ q w ne. record {
      aligned = w.aligned;
      low = w.low;
      high = w.high;
      not_free = ground arith;
    };
    outside = λ a ne. ground arith;
  },
)
