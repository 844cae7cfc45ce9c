-- ===== src/Heap/Start.antt =====
-- `heapInit` of kernel/heap.cc: the blocks that the heap starts with.
use osfinal_project.Prelude.{
  ℕ, ◌+◌, ◌-◌, ◌/◌, ◌^◌, ◌≤◌, ◌<◌, ◌≡◌, inl, refl, sym, ◌∙◌, arith, List, [], ◌∷◌, ◌||◌, ◌==◌,
  if◌then◌else◌, subst,
}
use osfinal_project.Word.{sub32}
use osfinal_project.Heap.{Heap, make_avail, make_taken, heap_init}
use osfinal_project.Heap.FreeList.{FreeList, FreeList-frame, MadeAvail, make_avail-FreeList}
use osfinal_project.Heap.Tiles.{Block}
use osfinal_project.Heap.Hole.{IsHeap}
use osfinal_project.Heap.Fill.{taken_block, free_block, make_taken_lem, make_taken-rest}

-- A block of two words at either end, and a free block between them.
abbrev pub first_blocks : ℕ → List Block
first_blocks len = taken_block 0 2 ∷ free_block 2 (len - 4) ∷ taken_block (len - 2) 2 ∷ []

-- The three writes, on a heap of `len` words.
module _ (h : Heap) (empty : h.avail ≡ 0) (room : 8 ≤ h.len) (small : h.len < 0x7fffffff) where
  abbrev a' : Heap
  a' = make_taken h 0 2

  abbrev b' : Heap
  b' = make_avail a' 2 (h.len - 4)

  abbrev c' : Heap
  c' = make_taken b' (h.len - 2) 2

  words_a : (a : ℕ) → a'.array a ≡ (if (a == 0) || (a == 0 + 2 - 1) then 2 ^ 32 - 2 else h.array a)
  words_a = make_taken_lem h 0 2 (omega arith) (omega arith) (omega arith)

  avail_a : a'.avail ≡ 0
  avail_a = (make_taken-rest h 0 2).1 ∙ empty

  made : MadeAvail a' 2 (h.len - 4) [] b'
  made =
      make_avail-FreeList a' 2 (h.len - 4) [] (omega arith) (omega arith) (omega arith)
        (omega arith) tt avail_a

  words_c :
      (a : ℕ)
      → c'.array a
        ≡ (if (a == h.len - 2) || (a == h.len - 2 + 2 - 1) then 2 ^ 32 - 2 else b'.array a)
  words_c = make_taken_lem b' (h.len - 2) 2 (omega arith) (omega arith) (omega arith)

  outside : (a : ℕ) → a < 2 → c'.array a ≡ 2 ^ 32 - 2
  outside a lt =
      words_c a
      ∙ ground (arith, room, lt, made.outside a (inl lt) (λ ne. absurd (ne avail_a)), words_a a)

  len_c : c'.len ≡ h.len
  len_c = (make_taken-rest b' (h.len - 2) 2).0 ∙ made.same_len ∙ (make_taken-rest h 0 2).0

  started : IsHeap c' (first_blocks h.len) (2 ∷ [])
  started = record {
    tiled = (
      refl,
      omega arith,
      outside 0 (omega arith),
      outside 1 (omega arith),
      (
        refl,
        omega arith,
        words_c 2 ∙ ground (arith, made.header),
        words_c (2 + (h.len - 4) - 1) ∙ ground (arith, made.footer),
        (
          omega arith,
          omega arith,
          words_c (2 + (h.len - 4)) ∙ ground arith,
          words_c (2 + (h.len - 4) + 2 - 1) ∙ ground arith,
          omega (arith, len_c),
        ),
      ),
    );
    fits = omega (arith, len_c);
    list =
        subst (λ (j : ℕ). FreeList c'.array 0 j (2 ∷ [])) (sym (make_taken-rest b' (h.len - 2) 2).1)
          (FreeList-frame b'.array c'.array 0 b'.avail (2 ∷ [])
            (λ a i. words_c a ∙ ground (arith, i)) made.list);
    members = λ z. refl;
  }

-- `heapInit` on 32 bytes or more, with fewer than 2^31 - 1 words, while the free list is empty,
-- makes a heap of a taken block of two words at either end and one free block of all words between
-- them: the blocks tile the array, and the free list holds exactly the free one.
pub heap_init-IsHeap :
    (h : Heap) (base bytes : ℕ)
    → h.avail ≡ 0
    → 32 ≤ bytes
    → bytes / 4 < 0x7fffffff
    → IsHeap (heap_init h base bytes) (first_blocks (bytes / 4)) (2 ∷ [])
unfolding heap_init
heap_init-IsHeap h base bytes empty room small =
    let len = bytes / 4 in
    let four : sub32 len 4 ≡ len - 4 = omega arith in
    let two : sub32 len 2 ≡ len - 2 = omega arith in
    rw (four, two) (started (record h { base = base; len = bytes / 4 }) empty (omega arith) small)
