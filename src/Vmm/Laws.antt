-- ===== src/Vmm/Laws.antt =====
-- What `map` does to the translation of addresses.
use osfinal_project.Prelude.{
  ℕ, ◌+◌, ◌/◌, ◌%◌, ◌^◌, ◌<◌, ◌≡◌, ◌≢◌, ◌⊎◌, inl, inr, ap, sym, subst, ◌∙◌, arith, Option, none,
  some, List, ◌==◌, if◌then◌else◌, update, update_ne, drop, ℕ_discrete,
}
use osfinal_project.PhysMem.{Memory, PhysMem, frame_size, framedown}
use osfinal_project.Chain.{has, Chain-frame}
use osfinal_project.PhysMem.Laws.{has-aligned, IsAllocator, InUse}
use osfinal_project.PhysMem.Alloc.{Allocated}
use osfinal_project.Vmm.{pd_index, pt_index, or7, entry, store}

-- The walk of the processor over the two levels of tables: the physical address of `va`, if both
-- entries have their present bit.
unfoldable pub walk : Memory → ℕ → ℕ → Option ℕ
walk m pd va =
    let pde = m (entry pd (pd_index va)) in
    let pte = m (entry (framedown pde) (pt_index va)) in
    if pde % 2 == 0
    then none
    else if pte % 2 == 0
    then none
    else some (framedown pte + va % frame_size)

-- A page directory: its frame and those of its tables are in use, and none serves twice.
pub record IsDirectory (start : ℕ) (s : PhysMem) (free : List ℕ) (pd : ℕ) : Type 0 where
  pub used : InUse start s free pd
  pub tables :
      (i : ℕ)
      → i < 1024
      → s.memory (entry pd i) % 2 ≢ 0
      → InUse start s free (framedown (s.memory (entry pd i)))
  pub apart :
      (i : ℕ) → i < 1024 → s.memory (entry pd i) % 2 ≢ 0 → framedown (s.memory (entry pd i)) ≢ pd
  pub once :
      (i j : ℕ)
      → i < 1024
      → j < 1024
      → s.memory (entry pd i) % 2 ≢ 0
      → s.memory (entry pd j) % 2 ≢ 0
      → framedown (s.memory (entry pd i)) ≡ framedown (s.memory (entry pd j))
      → i ≡ j

module _ {start : ℕ} {s : PhysMem} {free : List ℕ} {pd : ℕ} (d : IsDirectory start s free pd) where
  -- With its table present, an entry is written into the table.
  pub store-walk :
      (va pa w : ℕ)
      → va < 2 ^ 32
      → w < 2 ^ 32
      → s.memory (entry pd (pd_index va)) % 2 ≢ 0
      → let pt = framedown (s.memory (entry pd (pd_index va))) in
        walk (store s (entry pt (pt_index va)) (or7 pa)).memory pd w ≡ (
          if va / 4096 == w / 4096
          then some (framedown pa + w % frame_size)
          else walk s.memory pd w)
  unfolding walk
  store-walk va pa w hv hw present = ground (
    arith,
    d.apart (pd_index va) (omega arith) present,
    d.tables (pd_index va) (omega arith) present,
    d.apart (pd_index w) (omega arith),
    d.tables (pd_index w) (omega arith),
    d.once (pd_index va) (pd_index w) (omega arith) (omega arith) present,
    d.used,
  )

InUse-store :
    {start : ℕ} {s : PhysMem} {free : List ℕ} {p : ℕ} (a v : ℕ)
    → InUse start s free p
    → InUse start (store s a v) free p
InUse-store a v u = record {
  aligned = u.aligned;
  low = u.low;
  high = u.high;
  not_free = u.not_free;
}

-- A word of a frame in use can be written: the free list does not run through it.
store-IsAllocator :
    {start : ℕ} {s : PhysMem} {free : List ℕ} {p : ℕ} (i v : ℕ)
    → IsAllocator start s free
    → InUse start s free p
    → i < 1024
    → IsAllocator start (store s (entry p i) v) free
store-IsAllocator {start} {s} {free} {p} i v a u lt = record {
  above = a.above;
  start_aligned = a.start_aligned;
  avail_aligned = a.avail_aligned;
  limit_aligned = a.limit_aligned;
  began = a.began;
  bounded = a.bounded;
  fits = a.fits;
  frames = a.frames;
  chain = Chain-frame a.chain (λ q e.
      let (al, _, _) = has-aligned start s.avail free q a.frames e in
      update_ne s.memory (entry p i) q v (λ x. elim (ℕ_discrete p q) [
        | yes same ↦ cc (u.not_free, e, ap (λ (k : ℕ). has k free) same)
        | no other ↦ omega (arith, u.aligned)
      ]));
}

-- A state whose directory has the same entries, and in which what was in use still is.
same-IsDirectory :
    {start : ℕ} {s t : PhysMem} {free free' : List ℕ} {pd : ℕ}
    → IsDirectory start s free pd
    → ((q : ℕ) → InUse start s free q → InUse start t free' q)
    → ((i : ℕ) → i < 1024 → t.memory (entry pd i) ≡ s.memory (entry pd i))
    → IsDirectory start t free' pd
same-IsDirectory {start} {s} {t} {free} {free'} {pd} d keep same = record {
  used = keep pd d.used;
  tables = λ i lt e.
      subst (λ x. InUse start t free' (framedown x)) (sym (same i lt))
        (keep _ (d.tables i lt (subst (λ (x : ℕ). x % 2 ≢ 0) (same i lt) e)));
  apart = λ i lt e. ground (arith, d.apart i lt, same i lt);
  once = λ i j lt lt' e e' q. ground (arith, d.once i j lt lt', same i lt, same j lt');
}

-- The state after `map`, or after its first half.
pub record Tree (start pd : ℕ) (t : PhysMem) (free : List ℕ) : Type 0 where
  pub allocator : IsAllocator start t free
  pub directory : IsDirectory start t free pd

module _ {start : ℕ} {s : PhysMem} {free : List ℕ} {pd : ℕ} where
  -- Writing an entry into a table of the directory keeps both invariants.
  pub store-Tree :
      (va v : ℕ)
      → va < 2 ^ 32
      → IsAllocator start s free
      → IsDirectory start s free pd
      → s.memory (entry pd (pd_index va)) % 2 ≢ 0
      → Tree start pd
          (store s (entry (framedown (s.memory (entry pd (pd_index va)))) (pt_index va)) v)
          free
  store-Tree va v hv a d present = record {
    allocator =
        store-IsAllocator (pt_index va) v a (d.tables (pd_index va) (omega arith) present)
          (omega arith);
    directory = same-IsDirectory d (λ q u. InUse-store _ v u) same;
  }
    where
      same :
          (i : ℕ)
          → i < 1024
          → update s.memory
              (entry (framedown (s.memory (entry pd (pd_index va)))) (pt_index va))
              v
              (entry pd i)
            ≡ s.memory (entry pd i)
      same i lt = ground (
        arith,
        d.used,
        d.apart (pd_index va) (omega arith) present,
        d.tables (pd_index va) (omega arith) present,
      )

module _ {start : ℕ} {s : PhysMem} {free : List ℕ} {pd va p : ℕ} {t : PhysMem} (hv : va < 2 ^ 32)
    (d : IsDirectory start s free pd) (empty : s.memory (entry pd (pd_index va)) % 2 ≡ 0)
    (a : Allocated start s free p t) where
  abbrev pub filled : PhysMem
  filled = store t (entry pd (pd_index va)) (or7 p)

  -- An entry of the directory is the new one, or as it was.
  entry-filled :
      (i : ℕ)
      → i < 1024
      → ((i ≡ pd_index va) × (filled.memory (entry pd i) ≡ or7 p))
        ⊎ ((i ≢ pd_index va) × (filled.memory (entry pd i) ≡ s.memory (entry pd i)))
  entry-filled i lt = elim (ℕ_discrete i (pd_index va)) [
    | yes new ↦ inl (new, ground arith)
    | no old ↦ inr (old, ground (arith, a.outside (entry pd i), d.used, a.kept pd d.used, a.owned))
  ]

  frame-or7 : framedown (or7 p) ≡ p
  frame-or7 = omega (arith, a.owned)

  old_table :
      (i : ℕ)
      → i < 1024
      → s.memory (entry pd i) % 2 ≢ 0
      → InUse start t (drop 1 free) (framedown (s.memory (entry pd i)))
        × (framedown (s.memory (entry pd i)) ≢ p)
  old_table i lt e = a.kept _ (d.tables i lt e)

  pub filled-Tree : Tree start pd filled (drop 1 free)
  filled-Tree = record {
    allocator = store-IsAllocator (pd_index va) (or7 p) a.valid (a.kept pd d.used).0 (omega arith);
    directory = record {
      used = InUse-store _ (or7 p) (a.kept pd d.used).0;
      tables = λ i lt e. elim (entry-filled i lt) [
        | inl new ↦
            subst (λ x. InUse start filled (drop 1 free) x)
              (sym (ap (λ (x : ℕ). framedown x) new.1 ∙ frame-or7)) (InUse-store _ (or7 p) a.owned)
        | inr old ↦
            subst (λ x. InUse start filled (drop 1 free) (framedown x)) (sym old.1)
              (InUse-store _ (or7 p) (old_table i lt (subst (λ (x : ℕ). x % 2 ≢ 0) old.1 e)).0)
      ];
      apart =
          λ i lt e. ground (arith, entry-filled i lt, frame-or7, a.kept pd d.used, d.apart i lt);
      once = λ i j lt lt' e e' q. ground (
        arith,
        entry-filled i lt,
        entry-filled j lt',
        frame-or7,
        old_table i lt,
        old_table j lt',
        d.once i j lt lt',
      );
    };
  }

  -- A fresh table translates nothing, and the other tables are as they were.
  pub filled-walk : (w : ℕ) → w < 2 ^ 32 → walk filled.memory pd w ≡ walk s.memory pd w
  unfolding walk
  filled-walk w hw = elim (entry-filled (pd_index w) (omega arith)) [
    | inl new ↦
        ground
          (arith, frame-or7, a.zeroed (entry p (pt_index w)), a.owned, d.used, a.kept pd d.used)
    | inr old ↦ elim (ℕ_discrete (s.memory (entry pd (pd_index w)) % 2) 0) [
      | yes none_there ↦ ground arith
      | no there ↦ ground (
        arith,
        a.outside (entry (framedown (s.memory (entry pd (pd_index w)))) (pt_index w)),
        old_table (pd_index w) (omega arith) there,
        d.tables (pd_index w) (omega arith) there,
        d.apart (pd_index w) (omega arith) there,
        a.owned,
        d.used,
      )
    ]
  ]
