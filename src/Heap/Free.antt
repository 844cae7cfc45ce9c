-- ===== src/Heap/Free.antt =====
-- What `free` of kernel/heap.cc does to the blocks of the heap.
use osfinal_project.Prelude.{
  ℕ, ◌+◌, ◌-◌, ◌*◌, ◌/◌, ◌^◌, ◌≤◌, ◌<◌, ◌≡◌, ◌≢◌, inl, inr, refl, ap, sym, ◌∙◌, arith, Bool, true,
  false, List, [], ◌∷◌, ◌++◌, some, append_assoc, ◌==◌, if◌then◌else◌, Bool-cases,
}
use osfinal_project.Word.{add32, sub32, mul32}
use osfinal_project.Heap.{
  Heap, size, left, right, remove, make_avail, is_avail, is_taken, join_block, free,
}
use osfinal_project.Heap.Tiles.{Block, mark, Tiled-le, Tiled-split, starts_free-append}
use osfinal_project.Heap.Hole.{IsHeap, Hole, Hole-at, IsHeap-at, open_gap, close_gap, widen_taken}
use osfinal_project.Heap.Fill.{free_block, narrow_free}
use osfinal_project.Heap.Malloc.{nonnull}
use osfinal_project.Heap.Absorb.{unless_free, detach, absorb_left, absorb_right}

-- `join_block`, with what it reads.
join_block_at :
    (h : Heap) (idx l r : ℕ) (lf rf : Bool)
    → left h idx ≡ l
    → right h idx ≡ r
    → is_avail h l ≡ lf
    → let a = if lf then remove h l else h in
      let b = if rf then remove a r else a in
      let sz = if lf then add32 (size h idx) (size a l) else size h idx in
      is_avail a r ≡ rf
      → join_block h idx
        ≡ make_avail b (if lf then l else idx) (if rf then add32 sz (size b r) else sz)
unfolding join_block
join_block_at h idx l r lf rf el er elf erf = rw (el, er, elf, erf) refl

-- The blocks that `free` leaves of a taken block and its neighbours.
abbrev pub merge : Block → Block → Block → List Block
merge l b r =
    let start = if l.is_free then l.start else b.start in
    let before = if l.is_free then l.size + b.size else b.size in
    let whole = if r.is_free then before + r.size else before in
    unless_free l.is_free l ++ (free_block start whole ∷ unless_free r.is_free r)

is_avail-mark :
    (h : Heap) (i : ℕ) (b : Block)
    → h.array i ≡ mark b
    → 2 ≤ b.size
    → b.size < 0x7fffffff
    → (is_avail h i ≡ b.is_free) × (size h i ≡ b.size)
unfolding is_avail
is_avail-mark h i b word two small = elim (Bool-cases b.is_free) [
  | inl fr ↦
      let w : h.array i ≡ b.size = word ∙ ground (arith, fr) in
      (ground (arith, w, fr), ground (arith, w))
  | inr taken ↦
      let w : h.array i ≡ 2 ^ 32 - b.size = word ∙ ground (arith, taken) in
      (ground (arith, w, taken), ground (arith, w))
]

regroup :
    (xs us : List Block) (f : Block) (vs ys : List Block)
    → ((xs ++ us) ++ (f ∷ [])) ++ (vs ++ ys) ≡ xs ++ ((us ++ (f ∷ vs)) ++ ys)
regroup [] [] f vs ys = refl
regroup [] (u ∷ us) f vs ys = ap (λ (l : List Block). u ∷ l) (regroup [] us f vs ys)
regroup (x ∷ xs) us f vs ys = ap (λ (l : List Block). x ∷ l) (regroup xs us f vs ys)

-- What `join_block` reads at a block between two others.
module _ (h : Heap) (xs : List Block) (s : ℕ) (l b r : Block) (ys : List Block) (zs : List ℕ)
    (v : Hole h (xs ++ (l ∷ [])) s 0 (b ∷ r ∷ ys) zs) where
  places :
      (s ≡ b.start)
      × (b.start ≡ l.start + l.size)
      × (r.start ≡ b.start + b.size)
      × (r.start + r.size ≤ h.len)
      × (2 ≤ l.size)
      × (2 ≤ b.size)
      × (2 ≤ r.size)
      × (h.len < 0x7fffffff)
  places =
      let (k, _, (at, big, _, _, past)) = Tiled-split h.array 0 s xs (l ∷ []) v.left in
      let (bat, bbig, _, _, (rat, rbig, _, _, rest)) = v.right in
      let inside = Tiled-le h.array (s + 0 + b.size + r.size) h.len ys rest in
      let fits = v.fits in
      (
        omega (arith, bat),
        omega (arith, bat, at, past),
        omega (arith, bat, rat),
        omega (arith, inside, rat),
        ground (arith, big),
        ground (arith, bbig),
        ground (arith, rbig),
        fits,
      )

  words :
      (h.array l.start ≡ mark l)
      × (h.array (b.start - 1) ≡ mark l)
      × (h.array b.start ≡ mark b)
      × (h.array r.start ≡ mark r)
  words =
      let (k, _, (at, big, head, foot, past)) = Tiled-split h.array 0 s xs (l ∷ []) v.left in
      let (bat, _, word, _, (rat, _, rword, _, _)) = v.right in
      let p = places in
      (
        ap h.array at ∙ head,
        ap h.array (omega (arith, p.1, at)) ∙ foot,
        ap h.array bat ∙ word,
        ap h.array rat ∙ rword,
      )

  left_lem : left h b.start ≡ l.start
  left_lem =
      let p = places in
      let index : sub32 b.start 1 ≡ b.start - 1 = omega (arith, p) in
      let same : size h (sub32 b.start 1) ≡ l.size =
        ap (size h) index ∙ (is_avail-mark h (b.start - 1) l words.1 p.4 (omega (arith, p))).1 in
      ap (λ (k : ℕ). add32 (sub32 (sub32 b.start 1) k) 1) same ∙ omega (arith, p)

  size_lem : size h b.start ≡ b.size
  size_lem = let p = places in (is_avail-mark h b.start b words.2 p.5 (omega (arith, p))).1

  right_lem : right h b.start ≡ r.start
  right_lem = let p = places in ap (λ (k : ℕ). add32 b.start k) size_lem ∙ omega (arith, p)

  left_avail : is_avail h l.start ≡ l.is_free
  left_avail = let p = places in (is_avail-mark h l.start l words.0 p.4 (omega (arith, p))).0

  abbrev start' : ℕ
  start' = if l.is_free then l.start else b.start

  abbrev before' : ℕ
  before' = if l.is_free then l.size + b.size else b.size

  abbrev whole' : ℕ
  whole' = if r.is_free then before' + r.size else before'

  abbrev a' : Heap
  a' = detach l.is_free h l.start

  join_block-Merged :
      b.is_free ≡ false
      → 4 ≤ b.size
      → (ws : List ℕ) × IsHeap (join_block h b.start) (xs ++ (merge l b r ++ ys)) ws
  join_block-Merged taken four =
      let p = places in
      let hole : Hole h (xs ++ (l ∷ [])) b.start b.size (r ∷ ys) zs =
        Hole-at p.0 (omega arith) (widen_taken b taken v) in
      let (us, wide, size_l) = absorb_left xs l l.is_free refl hole in
      let behind : r.start ≡ start' + before' = wide.right.0 in
      let avail_r : is_avail a' r.start ≡ r.is_free =
        (is_avail-mark a' r.start r (ap a'.array behind ∙ wide.right.2) p.6 (omega (arith, p))).0 in
      let (ws, wider, size_r) =
        absorb_right (xs ++ unless_free l.is_free l) r r.is_free refl wide in
      let full = close_gap (
        narrow_free wider
          (ground (
            arith,
            p,
            v.members l.start,
            starts_free-append l.start xs (l ∷ []),
            nonnull h.array 0 h.avail zs l.start v.list,
          ))
          (ground (arith, four))) in
      (
        start' ∷ ws,
        IsHeap-at
            (sym (
              join_block_at h b.start l.start r.start l.is_free r.is_free left_lem right_lem
                left_avail avail_r
              ∙ ap (make_avail (detach r.is_free a' r.start) start')
                  (ground (arith, p, size_lem, size_l, size_r))))
            (regroup xs (unless_free l.is_free l) (free_block start' whole')
              (unless_free r.is_free r) ys)
            full,
      )

free_index :
    (h : Heap) (i p : ℕ)
    → sub32 (sub32 p h.base / 4) 1 ≡ i
    → p ≢ 0
    → p ≢ h.base
    → is_taken h i ≡ true
    → free h p ≡ some (join_block h i)
unfolding free
free_index h i p index nz ne taken =
    let some_block : (p == 0) ≡ false = ground (arith, nz) in
    let no_base : (p == h.base) ≡ false = ground (arith, ne) in
    rw (some_block, no_base, index, taken) refl

free_at :
    (h : Heap) (i : ℕ)
    → h.base + 4 * (i + 1) < 2 ^ 32
    → is_taken h i ≡ true
    → free h (add32 h.base (mul32 4 (add32 i 1))) ≡ some (join_block h i)
free_at h i fit taken =
    free_index h i (add32 h.base (mul32 4 (add32 i 1))) (omega arith) (omega arith) (omega arith)
      taken

-- A block between two others lies inside the array.
pub between_lem :
    (h : Heap) (xs : List Block) (l b r : Block) (ys : List Block) (zs : List ℕ)
    → IsHeap h (xs ++ (l ∷ b ∷ r ∷ ys)) zs
    → b.start + 1 ≤ h.len
between_lem h xs l b r ys zs v =
    let (s, hole) =
      open_gap (xs ++ (l ∷ [])) (b ∷ r ∷ ys)
        (IsHeap-at refl (sym (append_assoc xs (l ∷ []) (b ∷ r ∷ ys))) v) in
    let p = places h xs s l b r ys zs hole in omega (arith, p)

-- `free` of the address of a taken block of four words or more that lies between two other blocks,
-- on a heap whose blocks tile its array, which ends below 2^32, and whose free list holds exactly
-- the free ones, returns such a heap again: the block and those of its two neighbours that are free
-- have become one free block, and the other blocks are the same.
pub free-Merged :
    (h : Heap) (xs : List Block) (l b r : Block) (ys : List Block) (zs : List ℕ)
    → IsHeap h (xs ++ (l ∷ b ∷ r ∷ ys)) zs
    → h.base + 4 * h.len < 2 ^ 32
    → b.is_free ≡ false
    → 4 ≤ b.size
    → (t : Heap) × (free h (add32 h.base (mul32 4 (add32 b.start 1))) ≡ some t)
      × (ws : List ℕ) × IsHeap t (xs ++ (merge l b r ++ ys)) ws
unfolding is_taken
free-Merged h xs l b r ys zs v fit taken four =
    let (s, hole) =
      open_gap (xs ++ (l ∷ [])) (b ∷ r ∷ ys)
        (IsHeap-at refl (sym (append_assoc xs (l ∷ []) (b ∷ r ∷ ys))) v) in
    let p = places h xs s l b r ys zs hole in
    let w = (words h xs s l b r ys zs hole).2 in
    (
      join_block h b.start,
      free_at h b.start (omega (arith, p)) (ground (arith, w, taken, p)),
      (join_block-Merged h xs s l b r ys zs hole taken four).0,
      (join_block-Merged h xs s l b r ys zs hole taken four).1,
    )
