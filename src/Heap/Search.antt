-- ===== src/Heap/Search.antt =====
-- Which block `malloc` takes: the best of the first twenty that are large enough.
use osfinal_project.Prelude.{
  ℕ, zero, suc, ◌+◌, ◌^◌, ◌≤◌, ◌<◌, ◌≡◌, ◌≢◌, ◌⊎◌, inl, inr, refl, ap, ap₂, sym, ◌∙◌, arith, true,
  false, some, List, [], ◌∷◌, ltb, leb, if◌then◌else◌, subst, length, Bool-cases, dec_lt,
}
use osfinal_project.Chain.{has}
use osfinal_project.Heap.{Heap, size, is_avail, next, search}
use osfinal_project.Heap.FreeList.{FreeList}

-- Every block of the list is free, and smaller than the sentinel of `malloc`.
abbrev pub AllFree : Heap → List ℕ → Type 0
AllFree h [] = Unit {0}
AllFree h (x ∷ xs) = (0 < h.array x) × (h.array x < 0x7fffffff) × AllFree h xs

-- The first `n` blocks of the list that have `ints` words.
abbrev pub fits : Heap → ℕ → ℕ → List ℕ → List ℕ
fits h ints zero xs = []
fits h ints (suc n) [] = []
fits h ints (suc n) (x ∷ xs) =
    let others = fits h ints n xs in
    let all = fits h ints (suc n) xs in if leb ints (size h x) then x ∷ others else all

-- The smaller of the best so far and the candidates; the first of equals.
abbrev pub choose : Heap → ℕ → ℕ → List ℕ → ℕ × ℕ
choose h mx it [] = (mx, it)
choose h mx it (x ∷ xs) =
    let better = choose h (size h x) x xs in
    let same = choose h mx it xs in if ltb (size h x) mx then better else same

-- One round at a free block `p`.
module _ (f : ℕ) (h : Heap) (ints p mx it : ℕ) (nz : p ≢ 0) (av : is_avail h p ≡ true) where
  round_small :
      (n : ℕ)
      → leb ints (size h p) ≡ false
      → search (suc f) h ints p mx it (suc n) ≡ search f h ints (next h p) mx it (suc n)
  unfolding search
  round_small n e = ground (arith, av)

  round_last :
      leb ints (size h p) ≡ true
      → search (suc f) h ints p mx it 1
        ≡ some (if ltb (size h p) mx then (size h p, p) else (mx, it))
  unfolding search
  round_last e = ground (arith, av)

  round_more :
      (n : ℕ)
      → leb ints (size h p) ≡ true
      → search (suc f) h ints p mx it (suc (suc n)) ≡ (
          if ltb (size h p) mx
          then search f h ints (next h p) (size h p) p (suc n)
          else search f h ints (next h p) mx it (suc n))
  unfolding search
  round_more n e = ground (arith, av)

pub next_lem : (h : Heap) (x : ℕ) → x + 2 < 2 ^ 32 → next h x ≡ h.array (x + 1)
next_lem h x fit = ap h.array (omega arith)

is_avail_lem : (h : Heap) (x : ℕ) → 0 < h.array x → h.array x < 0x7fffffff → is_avail h x ≡ true
unfolding is_avail
is_avail_lem h x pos lt = ground arith

at_block :
    (f : ℕ) (h : Heap) (ints x mx it n : ℕ) (xs : List ℕ)
    → x ≢ 0
    → is_avail h x ≡ true
    → ((mx' it' m : ℕ)
        → search f h ints (next h x) mx' it' (suc m)
          ≡ some (choose h mx' it' (fits h ints (suc m) xs)))
    → search (suc f) h ints x mx it (suc n) ≡ some (choose h mx it (fits h ints (suc n) (x ∷ xs)))
at_block f h ints x mx it n xs nz av ih = elim (Bool-cases (leb ints (size h x))) [
  | inr small ↦ round_small f h ints x mx it nz av n small ∙ ih mx it n ∙ ground (arith, small)
  | inl large ↦ large_block n large
]
  where
    large_block :
        (n : ℕ)
        → leb ints (size h x) ≡ true
        → search (suc f) h ints x mx it (suc n)
          ≡ some (choose h mx it (fits h ints (suc n) (x ∷ xs)))
    large_block zero large = round_last f h ints x mx it nz av large ∙ ground (arith, large)
    large_block (suc m) large =
        round_more f h ints x mx it nz av m large
        ∙ ground (arith, large, ih (size h x) x m, ih mx it m)

pair-eq : {r : ℕ × ℕ} {a b : ℕ} → r.0 ≡ a → r.1 ≡ b → r ≡ (a, b)
pair-eq p q = ap₂ (λ (x y : ℕ). (x, y)) p q

-- The loop of `malloc` chooses among the first blocks that are large enough.
search_lem :
    (f : ℕ) (h : Heap) (ints pr p mx it n : ℕ) (xs : List ℕ)
    → FreeList h.array pr p xs
    → AllFree h xs
    → length xs < f
    → search f h ints p mx it (suc n) ≡ some (choose h mx it (fits h ints (suc n) xs))
unfolding search
search_lem zero h ints pr p mx it n xs l free lt = absurd (omega arith)
search_lem (suc f) h ints pr p mx it n [] l free lt = ground arith
search_lem (suc f) h ints pr p mx it n (x ∷ xs) l free lt =
    subst
      (λ (q : ℕ).
        search (suc f) h ints q mx it (suc n)
        ≡ some (choose h mx it (fits h ints (suc n) (x ∷ xs))))
      (sym (l.0))
      (at_block f h ints x mx it n xs l.1 (is_avail_lem h x free.0 free.1) (λ mx' it' m.
        search_lem f h ints x (next h x) mx' it' m xs
          (subst (λ (q : ℕ). FreeList h.array x q xs) (sym (next_lem h x l.2)) l.5) free.2
          (omega arith)))

-- No candidate is smaller.
abbrev NoneSmaller : Heap → ℕ → List ℕ → Type 0
NoneSmaller h mx [] = Unit {0}
NoneSmaller h mx (x ∷ xs) = (mx ≤ size h x) × NoneSmaller h mx xs

NoneSmaller-le :
    (h : Heap) (a b : ℕ) (xs : List ℕ) → a ≤ b → NoneSmaller h b xs → NoneSmaller h a xs
NoneSmaller-le h a b [] le s = tt
NoneSmaller-le h a b (x ∷ xs) le s = (omega (arith, s.0), NoneSmaller-le h a b xs le s.1)

-- The block that was chosen: none when there is no candidate; otherwise a candidate, of the size
-- returned, and none of them is smaller.
pub data Best (h : Heap) (cands : List ℕ) : ℕ × ℕ → Type 0 where
  nothing : cands ≡ [] → Best h cands (0x7fffffff, 0)
  block :
      {mx it : ℕ}
      → has it cands ≡ true
      → mx ≡ size h it
      → NoneSmaller h mx cands
      → Best h cands (mx, it)

-- What `choose` returns is the start or a candidate, and neither is smaller.
Chosen : Heap → ℕ → ℕ → List ℕ → ℕ × ℕ → Type 0
Chosen h mx it cands r =
    (r.0 ≤ mx)
    × NoneSmaller h r.0 cands
    × (((r.0 ≡ mx) × (r.1 ≡ it)) ⊎ ((has r.1 cands ≡ true) × (r.0 ≡ size h r.1)))

Chosen-better :
    (h : Heap) (mx it x : ℕ) (xs : List ℕ) (r : ℕ × ℕ)
    → size h x < mx
    → Chosen h (size h x) x xs r
    → Chosen h mx it (x ∷ xs) r
unfolding Chosen
Chosen-better h mx it x xs r lt c = (
  omega (arith, c.0),
  (c.0, c.1),
  elim (c.2) [
    | inl e ↦ inr (ground (arith, e.1), e.0 ∙ ap (size h) (sym (e.1)))
    | inr e ↦ inr (ground (arith, e.0), e.1)
  ],
)

Chosen-same :
    (h : Heap) (mx it x : ℕ) (xs : List ℕ) (r : ℕ × ℕ)
    → mx ≤ size h x
    → Chosen h mx it xs r
    → Chosen h mx it (x ∷ xs) r
unfolding Chosen
Chosen-same h mx it x xs r le c = (
  c.0,
  (omega (arith, c.0), c.1),
  elim (c.2) [ inl e ↦ inl e | inr e ↦ inr (ground (arith, e.0), e.1) ],
)

choose-Chosen :
    (h : Heap) (mx it : ℕ) (cands : List ℕ) → Chosen h mx it cands (choose h mx it cands)
unfolding Chosen
choose-Chosen h mx it [] = (omega arith, tt, inl (refl, refl))
choose-Chosen h mx it (x ∷ xs) = elim (dec_lt (size h x) mx) [
  | yes lt ↦
      subst (Chosen h mx it (x ∷ xs)) (ground arith)
        (Chosen-better h mx it x xs (choose h (size h x) x xs) lt (choose-Chosen h (size h x) x xs))
  | no ge ↦
      subst (Chosen h mx it (x ∷ xs)) (ground arith)
        (Chosen-same h mx it x xs (choose h mx it xs) (omega arith) (choose-Chosen h mx it xs))
]

-- Blocks below the sentinel cannot all be at least as large as it.
fits-nil :
    (h : Heap) (ints n : ℕ) (xs : List ℕ)
    → AllFree h xs
    → NoneSmaller h 0x7fffffff (fits h ints n xs)
    → fits h ints n xs ≡ []
fits-nil h ints zero xs free s = refl
fits-nil h ints (suc n) [] free s = refl
fits-nil h ints (suc n) (x ∷ xs) free s = elim (Bool-cases (leb ints (size h x))) [
  | inl large ↦ absurd (below (subst (NoneSmaller h 0x7fffffff) (taken large) s).0)
  | inr small ↦
      skipped small
      ∙ fits-nil h ints (suc n) xs free.2 (subst (NoneSmaller h 0x7fffffff) (skipped small) s)
]
  where
    taken : leb ints (size h x) ≡ true → fits h ints (suc n) (x ∷ xs) ≡ x ∷ fits h ints n xs
    taken e = ground (arith, e)

    skipped : leb ints (size h x) ≡ false → fits h ints (suc n) (x ∷ xs) ≡ fits h ints (suc n) xs
    skipped e = ground (arith, e)

    below : ¬ (0x7fffffff ≤ size h x)
    below le = ground (arith, free.0, free.1)

-- With a well-formed free list of at most `len` free blocks, the search of `malloc` ends without a
-- panic. It finds nothing when no block has `ints` words; otherwise it finds one of the first
-- twenty blocks that have, with its size, and none of these is smaller.
pub search-Best :
    (h : Heap) (ints : ℕ) (xs : List ℕ)
    → FreeList h.array 0 h.avail xs
    → AllFree h xs
    → length xs ≤ h.len
    → (r : ℕ × ℕ) × (search (h.len + 1) h ints h.avail 0x7fffffff 0 20 ≡ some r)
      × Best h (fits h ints 20 xs) r
unfolding Chosen
search-Best h ints xs l free le =
    let cands = fits h ints 20 xs in
    let r = choose h 0x7fffffff 0 cands in
    let (at_most, smallest, which) = choose-Chosen h 0x7fffffff 0 cands in
    (
      r,
      search_lem (h.len + 1) h ints 0 h.avail 0x7fffffff 0 19 xs l free (omega arith),
      elim which [
        | inl e ↦ subst (Best h cands) (sym (pair-eq (e.0) (e.1))) (
            nothing (
              fits-nil h ints 20 xs free (subst (λ (m : ℕ). NoneSmaller h m cands) (e.0) smallest)))
        | inr e ↦ block (e.0) (e.1) smallest
      ],
    )
