-- ===== src/Heap/Malloc.antt =====
-- What `malloc` of kernel/heap.cc does to the blocks of the heap.
use osfinal_project.Prelude.{
  ℕ, zero, suc, ◌+◌, ◌-◌, ◌^◌, ◌≤◌, ◌<◌, ◌≡◌, ◌≢◌, inl, inr, refl, ap, ap₂, sym, ◌∙◌, arith, true,
  false, List, [], ◌∷◌, ◌++◌, some, append_assoc, leb, if◌then◌else◌, subst, Bool-cases, dec_le,
  ℕ_discrete,
}
use osfinal_project.Word.{add32, sub32, mul32}
use osfinal_project.Chain.{has}
use osfinal_project.Heap.{
  Heap, size, remove, make_avail, make_taken, search, take_block, malloc, ints_for,
}
use osfinal_project.Heap.FreeList.{FreeList, ints_for-covers}
use osfinal_project.Heap.Search.{fits, Best, nothing, block, search-Best}
use osfinal_project.Heap.Tiles.{Block, Tiled-le}
use osfinal_project.Heap.Hole.{IsHeap, Hole, Hole-at, IsHeap-at, open_gap, close_gap, widen_right}
use osfinal_project.Heap.Fill.{taken_block, free_block, narrow_taken, narrow_free}
use osfinal_project.Heap.Room.{has_room, block_at, IsHeap-AllFree, IsHeap-few, fits-room}

-- What becomes of a free block of which `n` words are taken: the rest is a free block when it has four
-- words or more, and goes with the block when it has less.
abbrev carve : ℕ → Block → List Block
carve n b =
    if leb (n + 4) b.size
    then taken_block b.start n ∷ free_block (b.start + n) (b.size - n) ∷ []
    else taken_block b.start b.size ∷ []

-- The two outcomes of a request: no free block has the words, and nothing changes; or a free block
-- that has them is carved, and the address of its second word is returned.
pub data Allocated (h : Heap) (bs : List Block) (n : ℕ) : ℕ × Heap → Type 0 where
  exhausted : has_room n bs ≡ false → Allocated h bs n (0, h)
  carved :
      {t : Heap} (xs : List Block) (b : Block) (ys : List Block) (zs : List ℕ)
      → bs ≡ xs ++ (b ∷ ys)
      → b.is_free ≡ true
      → n ≤ b.size
      → IsHeap t (xs ++ (carve n b ++ ys)) zs
      → Allocated h bs n (add32 h.base (mul32 4 (add32 b.start 1)), t)

module _ (h : Heap) (n mx it : ℕ) (small : mx < 0x7fffffff) (fit : it + mx < 2 ^ 32)
    (le : n ≤ mx) where
  take_block-split :
      n + 4 ≤ mx
      → take_block h n mx it ≡ make_avail (make_taken (remove h it) it n) (it + n) (mx - n)
  unfolding take_block
  take_block-split room =
      let extra : sub32 mx n ≡ mx - n = omega arith in
      let at : add32 it n ≡ it + n = omega arith in rw (extra, at) ground (arith, room)

  take_block-whole : ¬ (n + 4 ≤ mx) → take_block h n mx it ≡ make_taken (remove h it) it mx
  unfolding take_block
  take_block-whole room =
      let extra : sub32 mx n ≡ mx - n = omega arith in rw extra ground (arith, room)

module _ (xs ys : List Block) (b : Block) (n : ℕ) where
  carve-split :
      n + 4 ≤ b.size
      → ((xs ++ (taken_block b.start n ∷ [])) ++ (free_block (b.start + n) (b.size - n) ∷ [])) ++ ys
        ≡ xs ++ (carve n b ++ ys)
  carve-split room =
      ap (λ (l : List Block). l ++ ys)
        (append_assoc xs (taken_block b.start n ∷ []) (free_block (b.start + n) (b.size - n) ∷ []))
      ∙ append_assoc xs (taken_block b.start n ∷ free_block (b.start + n) (b.size - n) ∷ []) ys
      ∙ ap (λ (l : List Block). xs ++ (l ++ ys))
          {x = taken_block b.start n ∷ free_block (b.start + n) (b.size - n) ∷ []}
          (ground (arith, room))

  carve-whole :
      ¬ (n + 4 ≤ b.size) → (xs ++ (taken_block b.start b.size ∷ [])) ++ ys ≡ xs ++ (carve n b ++ ys)
  carve-whole none_left =
      append_assoc xs (taken_block b.start b.size ∷ []) ys
      ∙ ap (λ (l : List Block). xs ++ (l ++ ys)) {x = taken_block b.start b.size ∷ []}
          (ground (arith, none_left))

pub take_block-Carved :
    {h : Heap} (xs : List Block) (b : Block) (ys : List Block) {zs : List ℕ} (n : ℕ)
    → IsHeap h (xs ++ (b ∷ ys)) zs
    → b.is_free ≡ true
    → 4 ≤ n
    → n ≤ b.size
    → 0 < b.start
    → (ws : List ℕ) × IsHeap (take_block h n b.size b.start) (xs ++ (carve n b ++ ys)) ws
take_block-Carved {h} xs b ys {zs} n v fr four le pos =
    let (s, hole) = open_gap xs (b ∷ ys) v in
    let at = hole.right.0 in
    let inside = Tiled-le h.array (s + 0 + b.size) h.len ys hole.right.4 in
    let fits = hole.fits in
    let (ws, wide) = widen_right b fr hole in
    let here : s ≡ b.start = omega (arith, at) in
    let wide' : Hole (remove h b.start) xs b.start b.size ys ws = Hole-at here (omega arith) wide in
    let small : b.size < 0x7fffffff = omega arith in
    let fit : b.start + b.size < 2 ^ 32 = omega arith in
    elim (dec_le (n + 4) b.size) [
      | yes room ↦
          let cut = narrow_taken wide' n (omega arith) le in
          let full = close_gap (narrow_free cut (omega arith) (omega arith)) in
          (
            (b.start + n) ∷ ws,
            IsHeap-at (sym (take_block-split h n b.size b.start small fit le room))
                (carve-split xs ys b n room) full,
          )
      | no none_left ↦
          let cut =
            close_gap (
              Hole-at refl (omega arith) (narrow_taken wide' b.size (omega arith) (omega arith))) in
          (
            ws,
            IsHeap-at (sym (take_block-whole h n b.size b.start small fit le none_left))
                (carve-whole xs ys b n none_left) cut,
          )
    ]

pub nonnull :
    (m : ℕ → ℕ) (pr p : ℕ) (xs : List ℕ) (z : ℕ) → FreeList m pr p xs → has z xs ≡ true → 0 < z
nonnull m pr p [] z l i = cc
nonnull m pr p (x ∷ xs) z l i = ground (arith, l.1, nonnull m x (m (x + 1)) xs z l.5)

fits-has :
    (h : Heap) (n k z : ℕ) (xs : List ℕ)
    → has z (fits h n k xs) ≡ true
    → (has z xs ≡ true) × (n ≤ size h z)
fits-has h n zero z xs i = cc
fits-has h n (suc k) z [] i = cc
fits-has h n (suc k) z (x ∷ xs) i = elim (Bool-cases (leb n (size h x))) [
  | inr small ↦
      let (there, le) = fits-has h n (suc k) z xs (ground (arith, i, small)) in
      (ground (arith, there), le)
  | inl large ↦ elim (ℕ_discrete x z) [
    | yes same ↦
        (ground (arith, same), subst (λ (j : ℕ). n ≤ size h j) same (ground (arith, large)))
    | no other ↦
        let (there, le) = fits-has h n k z xs (ground (arith, i, large, other)) in
        (ground (arith, there), le)
  ]
]

pub free_size :
    {h : Heap} (xs : List Block) (b : Block) (ys : List Block) {zs : List ℕ}
    → IsHeap h (xs ++ (b ∷ ys)) zs
    → b.is_free ≡ true
    → size h b.start ≡ b.size
free_size {h} xs b ys v fr =
    let (s, hole) = open_gap xs (b ∷ ys) v in
    let (at, _, word, _, rest) = hole.right in
    let inside = Tiled-le h.array (s + 0 + b.size) h.len ys rest in
    let fits = hole.fits in
    let here : h.array b.start ≡ b.size = ap h.array at ∙ word ∙ ground (arith, fr) in
    ground (arith, here)

malloc_found :
    (h : Heap) (bytes mx it : ℕ)
    → bytes ≢ 0
    → search (h.len + 1) h (ints_for bytes) h.avail 0x7fffffff 0 20 ≡ some (mx, it)
    → it ≢ 0
    → malloc h bytes
      ≡ some (add32 h.base (mul32 4 (add32 it 1)), take_block h (ints_for bytes) mx it)
unfolding malloc
malloc_found h bytes mx it nz e ne = ground (arith, e)

malloc_none :
    (h : Heap) (bytes mx : ℕ)
    → bytes ≢ 0
    → search (h.len + 1) h (ints_for bytes) h.avail 0x7fffffff 0 20 ≡ some (mx, 0)
    → malloc h bytes ≡ some (0, h)
unfolding malloc
malloc_none h bytes mx nz e = ground (arith, e)

outcome :
    (h : Heap) (bytes : ℕ) (bs : List Block) (zs : List ℕ) (r : ℕ × ℕ)
    → IsHeap h bs zs
    → 0 < bytes
    → bytes + 3 < 2 ^ 32
    → search (h.len + 1) h (ints_for bytes) h.avail 0x7fffffff 0 20 ≡ some r
    → Best h (fits h (ints_for bytes) 20 zs) r
    → (s : ℕ × Heap) × (malloc h bytes ≡ some s) × Allocated h bs (ints_for bytes) s
outcome h bytes bs zs r v pos fit e (nothing empty) = (
  (0, h),
  malloc_none h bytes 0x7fffffff (omega arith) e,
  exhausted (fits-room (ints_for bytes) 19 v empty),
)
outcome h bytes bs zs r v pos fit e (block {mx} {it} i size_it smallest) =
    let (i', le) = fits-has h (ints_for bytes) 20 it zs i in
    let (xs, b, ys, split, fr, at) = block_at it bs (sym (v.members it) ∙ i') in
    let nz = nonnull h.array 0 h.avail zs it v.list i' in
    let v' = IsHeap-at refl split v in
    let full : mx ≡ b.size = size_it ∙ ap (size h) (sym at) ∙ free_size xs b ys v' fr in
    let (ws, done) =
      take_block-Carved xs b ys (ints_for bytes) v' fr (ints_for-covers bytes fit).0
        (omega (arith, full, size_it, le)) (omega (arith, nz, at)) in
    (
      (add32 h.base (mul32 4 (add32 b.start 1)), take_block h (ints_for bytes) b.size b.start),
      malloc_found h bytes b.size b.start (omega arith)
          (e ∙ ap some (ap₂ (λ (x y : ℕ). (x, y)) full (sym at))) (omega (arith, nz, at)),
      carved xs b ys ws split fr (omega (arith, full, size_it, le)) done,
    )

-- `malloc` of a positive number of bytes, less than 2^32 - 3, on a heap whose blocks tile its array
-- and whose free list holds exactly the free ones, always returns. Either no free block has the
-- words that the request needs, the null pointer is returned and the heap is as it was; or one free
-- block that has them is replaced by a taken block of these words with the rest behind it as a free
-- block, or by a taken block of its whole size when fewer than four words would be left, the
-- address behind the first word of the taken block is returned, the blocks before and behind it are
-- the same, and the heap is again such a heap.
pub malloc-Allocated :
    (h : Heap) (bs : List Block) (zs : List ℕ) (bytes : ℕ)
    → IsHeap h bs zs
    → 0 < bytes
    → bytes + 3 < 2 ^ 32
    → (r : ℕ × Heap) × (malloc h bytes ≡ some r) × Allocated h bs (ints_for bytes) r
malloc-Allocated h bs zs bytes v pos fit =
    let (r, e, best) = search-Best h (ints_for bytes) zs v.list (IsHeap-AllFree v) (IsHeap-few v) in
    outcome h bytes bs zs r v pos fit e best
