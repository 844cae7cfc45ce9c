-- ===== src/Tests/Blocks.antt =====
-- A heap with three free blocks.
use osfinal_project.Prelude.{
  ℕ, ◌+◌, ◌*◌, ◌≤◌, ◌≡◌, refl, inl, inr, arith, some, [], ◌∷◌, ◌==◌, if◌then◌else◌,
}
use osfinal_project.Heap.{Heap, search, ints_for}
use osfinal_project.Heap.FreeList.{FreeList, ints_for-covers}
use osfinal_project.Heap.Search.{Best, fits, search-Best}

-- Blocks of 8, 5 and 6 words at 30, 10 and 20, free in this order.
abbrev words : ℕ → ℕ
words i =
    if i == 30
    then 8
    else if i == 31
    then 10
    else if i == 32
    then 0
    else if i == 10
    then 5
    else if i == 11
    then 20
    else if i == 12
    then 30
    else if i == 20
    then 6
    else if i == 21
    then 0
    else if i == 22
    then 10
    else 0

abbrev three : Heap
three = record { base = 0x100000; array = words; len = 100; avail = 30 }

three-FreeList : FreeList words 0 30 (30 ∷ 10 ∷ 20 ∷ [])
three-FreeList = (
  refl,
  omega arith,
  omega arith,
  refl,
  (inr (omega arith), (inr (omega arith), tt)),
  (
    refl,
    omega arith,
    omega arith,
    refl,
    (inl (omega arith), tt),
    (refl, omega arith, omega arith, refl, tt, refl),
  ),
)

search-Best_example :
    (r : ℕ × ℕ) × (search 101 three 6 30 0x7fffffff 0 20 ≡ some r)
    × Best three (fits three 6 20 (30 ∷ 10 ∷ 20 ∷ [])) r
search-Best_example =
    search-Best three 6 (30 ∷ 10 ∷ 20 ∷ []) three-FreeList
      (omega arith, omega arith, (omega arith, omega arith, (omega arith, omega arith, tt)))
      (omega arith)

ints_for-covers_example :
    (4 ≤ ints_for 50) × (50 + 8 ≤ 4 * ints_for 50) × (4 * ints_for 50 ≤ 50 + 16)
ints_for-covers_example = ints_for-covers 50 (omega arith)
