-- ===== src/User/FirstFit/Laws.antt =====
-- What `malloc` and `free` of t0.dir/sbin/heap.c do to the blocks of the heap.
use osfinal_project.Prelude.{
  ℕ, zero, suc, ◌+◌, ◌^◌, ◌≤◌, ◌<◌, ◌≡◌, ◌≢◌, inl, inr, refl, ap, ap₂, sym, ◌∙◌, arith, true, false,
  List, [], ◌∷◌, ◌++◌, some, length, leb, ◌==◌, if◌then◌else◌, subst, Bool-cases, ℕ_discrete,
}
use osfinal_project.Word.{add32, mul32}
use osfinal_project.Chain.{has}
use osfinal_project.Heap.{Heap, size, next, take_block, ints_for}
use osfinal_project.Heap.FreeList.{FreeList, ints_for-covers}
use osfinal_project.Heap.Search.{next_lem}
use osfinal_project.Heap.Tiles.{Block}
use osfinal_project.Heap.Hole.{IsHeap, IsHeap-at}
use osfinal_project.Heap.Malloc.{
  Allocated, exhausted, carved, take_block-Carved, free_size, nonnull,
}
use osfinal_project.Heap.Room.{has_room, block_at, room-block, free_word, IsHeap-few}
use osfinal_project.User.FirstFit.{first_fit, user_malloc}

-- No block of the list has `n` words.
abbrev NoneFits : Heap → ℕ → List ℕ → Type 0
NoneFits h n [] = Unit {0}
NoneFits h n (x ∷ xs) = (size h x < n) × NoneFits h n xs

-- The first block of the list that has `n` words, or 0.
pub data First (h : Heap) (n : ℕ) : List ℕ → ℕ → Type 0 where
  nowhere : {xs : List ℕ} → NoneFits h n xs → First h n xs 0
  here :
      {it : ℕ} (before after : List ℕ)
      → NoneFits h n before
      → n ≤ size h it
      → First h n (before ++ (it ∷ after)) it

First-later :
    (h : Heap) (n x it : ℕ) {xs : List ℕ} → size h x < n → First h n xs it → First h n (x ∷ xs) it
First-later h n x it small (nowhere none_fits) = nowhere (small, none_fits)
First-later h n x it small (here before after none_fits le) =
    here (x ∷ before) after (small, none_fits) le

module _ (f : ℕ) (h : Heap) (ints p : ℕ) (nz : p ≢ 0) where
  round_fits : ints ≤ size h p → first_fit (suc f) h ints p ≡ some p
  unfolding first_fit
  round_fits le = ground (arith, le)

  round_next : size h p < ints → first_fit (suc f) h ints p ≡ first_fit f h ints (next h p)
  unfolding first_fit
  round_next lt = ground (arith, lt)

first_fit_lem :
    (f : ℕ) (h : Heap) (ints pr p : ℕ) (xs : List ℕ)
    → FreeList h.array pr p xs
    → length xs < f
    → (it : ℕ) × (first_fit f h ints p ≡ some it) × First h ints xs it
unfolding first_fit
first_fit_lem zero h ints pr p xs l lt = absurd (omega arith)
first_fit_lem (suc f) h ints pr p [] l lt = (0, ground arith, nowhere tt)
first_fit_lem (suc f) h ints pr p (x ∷ xs) l lt = elim (Bool-cases (leb ints (size h x))) [
  | inl large ↦ (
    x,
    ap (first_fit (suc f) h ints) l.0 ∙ round_fits f h ints x l.1 (ground (arith, large)),
    here [] xs tt (ground (arith, large)),
  )
  | inr small ↦
      let lt' : size h x < ints = ground (arith, small) in
      let (it, e, first) =
        first_fit_lem f h ints x (next h x) xs
          (subst (λ (q : ℕ). FreeList h.array x q xs) (sym (next_lem h x l.2)) l.5) (omega arith) in
      (
        it,
        ap (first_fit (suc f) h ints) l.0 ∙ round_next f h ints x l.1 lt' ∙ e,
        First-later h ints x it lt' first,
      )
]

has-middle : (x : ℕ) (before after : List ℕ) → has x (before ++ (x ∷ after)) ≡ true
has-middle x [] after = ground arith
has-middle x (b ∷ bs) after = ground (arith, has-middle x bs after)

NoneFits-has : (h : Heap) (n z : ℕ) (xs : List ℕ) → NoneFits h n xs → has z xs ≡ true → size h z < n
NoneFits-has h n z [] none_fits i = cc
NoneFits-has h n z (x ∷ xs) none_fits i = elim (ℕ_discrete x z) [
  | yes same ↦ subst (λ (j : ℕ). size h j < n) same none_fits.0
  | no other ↦ NoneFits-has h n z xs none_fits.1 (ground (arith, i, other))
]

no_room :
    {h : Heap} {bs : List Block} {xs : List ℕ} (n : ℕ)
    → IsHeap h bs xs
    → NoneFits h n xs
    → has_room n bs ≡ false
no_room {h} {bs} {xs} n v none_fits = elim (Bool-cases (has_room n bs)) [
  | inr none_left ↦ none_left
  | inl room ↦
      let (z, s, le) = room-block h.array 0 h.len n bs v.tiled room in
      let word = free_word h.array 0 h.len z bs v.tiled s in
      let small = NoneFits-has h n z xs none_fits (v.members z ∙ s) in
      absurd (ground (arith, small, le, word.0, word.1, v.fits))
]

malloc_at :
    (h : Heap) (bytes it : ℕ)
    → bytes ≢ 0
    → first_fit (h.len + 1) h (ints_for bytes) h.avail ≡ some it
    → user_malloc h bytes
      ≡ some (
          if it == 0
          then (0, h)
          else (add32 h.base (mul32 4 (add32 it 1)), take_block h (ints_for bytes) (size h it) it))
unfolding user_malloc
malloc_at h bytes it nz e = ground (arith, e)

module _ {h : Heap} {bs : List Block} (bytes : ℕ) (pos : 0 < bytes) (fit : bytes + 3 < 2 ^ 32) where
  outcome :
      {zs : List ℕ} (it : ℕ)
      → IsHeap h bs zs
      → first_fit (h.len + 1) h (ints_for bytes) h.avail ≡ some it
      → First h (ints_for bytes) zs it
      → (r : ℕ × Heap) × (user_malloc h bytes ≡ some r) × Allocated h bs (ints_for bytes) r
  outcome it v e (nowhere none_fits) = (
    (0, h),
    malloc_at h bytes 0 (omega arith) e ∙ ground arith,
    exhausted (no_room (ints_for bytes) v none_fits),
  )
  outcome {zs} it v e (here before after none_fits le) =
      let member = has-middle it before after in
      let (xs, b, ys, split, fr, at) = block_at it bs (sym (v.members it) ∙ member) in
      let nz : 0 < it = nonnull h.array 0 h.avail zs it v.list member in
      let v' = IsHeap-at refl split v in
      let full : size h it ≡ b.size = ap (size h) (sym at) ∙ free_size xs b ys v' fr in
      let (ws, done) =
        take_block-Carved xs b ys (ints_for bytes) v' fr (ints_for-covers bytes fit).0
          (omega (arith, full, le)) (omega (arith, nz, at)) in
      let other : (it == 0) ≡ false = ground (arith, nz) in
      (
        (add32 h.base (mul32 4 (add32 b.start 1)), take_block h (ints_for bytes) b.size b.start),
        malloc_at h bytes it (omega arith) e
            ∙ rw other (
                ap₂
                  (λ (s i : ℕ).
                    some (add32 h.base (mul32 4 (add32 i 1)), take_block h (ints_for bytes) s i))
                  full (sym at)),
        carved xs b ys ws split fr (omega (arith, full, le)) done,
      )

-- The loop of `malloc` of the user heap, for a positive number of bytes less than 2^32 - 3 on a
-- well-formed heap, ends with the first block of the free list that has the words that the request
-- needs, or with 0 when none has. `malloc` then returns: the null pointer, with the heap as it was,
-- when no free block of the heap is large enough; otherwise the address behind the first word of a
-- free block that was carved as in the heap of the kernel, in a well-formed heap.
pub user_malloc-Allocated :
    (h : Heap) (bs : List Block) (zs : List ℕ) (bytes : ℕ)
    → IsHeap h bs zs
    → 0 < bytes
    → bytes + 3 < 2 ^ 32
    → (it : ℕ) × (first_fit (h.len + 1) h (ints_for bytes) h.avail ≡ some it)
      × First h (ints_for bytes) zs it
      × (r : ℕ × Heap) × (user_malloc h bytes ≡ some r)
      × Allocated h bs (ints_for bytes) r
user_malloc-Allocated h bs zs bytes v pos fit =
    let (it, e, first) =
      first_fit_lem (h.len + 1) h (ints_for bytes) 0 h.avail zs v.list
        (omega (arith, IsHeap-few v)) in
    let (r, done, allocated) = outcome bytes pos fit it v e first in
    (it, e, first, r, done, allocated)
