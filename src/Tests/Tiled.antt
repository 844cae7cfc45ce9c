-- ===== src/Tests/Tiled.antt =====
-- A heap of 14 words: a taken block of four words and a free one of six, between two of two words.
use osfinal_project.Prelude.{
  ℕ, ◌+◌, ◌-◌, ◌/◌, ◌^◌, ◌≡◌, refl, arith, some, List, [], ◌∷◌, ◌++◌, ◌==◌, ◌||◌, if◌then◌else◌,
}
use osfinal_project.Word.{add32, mul32}
use osfinal_project.Heap.{Heap, malloc, free, heap_init, ints_for}
use osfinal_project.Heap.Tiles.{Block}
use osfinal_project.Heap.Hole.{IsHeap}
use osfinal_project.Heap.Fill.{taken_block, free_block}
use osfinal_project.Heap.Start.{first_blocks, heap_init-IsHeap}
use osfinal_project.Heap.Malloc.{Allocated, malloc-Allocated}
use osfinal_project.User.FirstFit.{first_fit, user_malloc, user_free}
use osfinal_project.User.FirstFit.Free.{or_same, user_free-Merged}
use osfinal_project.User.FirstFit.Laws.{First, user_malloc-Allocated}
use osfinal_project.Heap.Free.{merge, free-Merged}

abbrev words : ℕ → ℕ
words i =
    if (i == 0) || (i == 1) || (i == 12) || (i == 13)
    then 2 ^ 32 - 2
    else if (i == 2) || (i == 5)
    then 2 ^ 32 - 4
    else if (i == 6) || (i == 11)
    then 6
    else 0

abbrev small : Heap
small = record { base = 0x100000; array = words; len = 14; avail = 6 }

abbrev blocks : List Block
blocks = taken_block 0 2 ∷ taken_block 2 4 ∷ free_block 6 6 ∷ taken_block 12 2 ∷ []

small-IsHeap : IsHeap small blocks (6 ∷ [])
small-IsHeap = record {
  tiled = (
    refl,
    omega arith,
    refl,
    refl,
    (
      refl,
      omega arith,
      refl,
      refl,
      (refl, omega arith, refl, refl, (refl, omega arith, refl, refl, refl)),
    ),
  );
  fits = omega arith;
  list = (refl, omega arith, omega arith, refl, tt, refl);
  members = λ z. ground arith;
}

malloc-Allocated_example :
    (r : ℕ × Heap) × (malloc small 10 ≡ some r) × Allocated small blocks (ints_for 10) r
malloc-Allocated_example =
    malloc-Allocated small blocks (6 ∷ []) 10 small-IsHeap (omega arith) (omega arith)

free-Merged_example :
    (t : Heap) × (free small (add32 0x100000 (mul32 4 (add32 2 1))) ≡ some t)
    × (ws : List ℕ) × IsHeap t
        ([]
          ++ (merge (taken_block 0 2) (taken_block 2 4) (free_block 6 6)
              ++ (taken_block 12 2 ∷ [])))
        ws
free-Merged_example =
    free-Merged small [] (taken_block 0 2) (taken_block 2 4) (free_block 6 6)
      (taken_block 12 2 ∷ []) (6 ∷ []) small-IsHeap (omega arith) refl (omega arith)

heap_init-IsHeap_example :
    IsHeap
      (heap_init (record { base = 0; array = λ i. 7; len = 0; avail = 0 }) 0x100000 64)
      (first_blocks (64 / 4))
      (2 ∷ [])
heap_init-IsHeap_example =
    heap_init-IsHeap (record { base = 0; array = λ i. 7; len = 0; avail = 0 }) 0x100000 64 refl
      (omega arith) (omega arith)

user_malloc-Allocated_example :
    (it : ℕ) × (first_fit (14 + 1) small (ints_for 10) 6 ≡ some it)
    × First small (ints_for 10) (6 ∷ []) it
    × (r : ℕ × Heap) × (user_malloc small 10 ≡ some r)
    × Allocated small blocks (ints_for 10) r
user_malloc-Allocated_example =
    user_malloc-Allocated small blocks (6 ∷ []) 10 small-IsHeap (omega arith) (omega arith)

user_free-Merged_example :
    (user_free small 0x10000c ≡ or_same small (free small 0x10000c))
    × (ws : List ℕ) × IsHeap
        (user_free small (add32 0x100000 (mul32 4 (add32 2 1))))
        ([]
          ++ (merge (taken_block 0 2) (taken_block 2 4) (free_block 6 6)
              ++ (taken_block 12 2 ∷ [])))
        ws
user_free-Merged_example =
    user_free-Merged small [] (taken_block 0 2) (taken_block 2 4) (free_block 6 6)
      (taken_block 12 2 ∷ []) (6 ∷ []) 0x10000c small-IsHeap (omega arith) (omega arith) refl
      (omega arith) (omega arith)
