-- ===== src/User/FirstFit.antt =====
-- t0.dir/sbin/heap.c: the heap of a user program. Its array, its blocks and the functions on them
-- are those of kernel/heap.cc, but `sanity` is called, which returns its argument; the choice of the block is another.
pub mod Laws
pub mod Free
use osfinal_project.Prelude.{
  ℕ, zero, suc, ◌+◌, ◌-◌, ◌/◌, ◌^◌, Bool, true, false, Option, none, some, ◌==◌, ltb, leb,
  if◌then◌else◌,
}
use osfinal_project.Word.{add32, sub32, mul32}
use osfinal_project.Heap.{Heap, size, next, is_taken, take_block, join_block, ints_for}

-- The loop of `malloc`: the first block of the free list, from `p` on, that has `ints` words, 0 when
-- there is none. `none` is the end of the fuel.
pub first_fit : ℕ → Heap → (ints p : ℕ) → Option ℕ
first_fit zero h ints p = none
first_fit (suc f) h ints p = elim (p == 0) [
  | true ↦ some 0
  | false ↦ elim (leb ints (size h p)) [ true ↦ some p | false ↦ first_fit f h ints (next h p) ]
]

-- `malloc`: the address, or the null pointer. The fuel is the number of words.
pub user_malloc : Heap → ℕ → Option (ℕ × Heap)
unfolding first_fit
user_malloc h bytes =
    if bytes == 0
    then some (h.base, h)
    else elim (first_fit (h.len + 1) h (ints_for bytes) h.avail) [
      | none ↦ none
      | some p ↦
          if p == 0
          then some (0, h)
          else some (add32 h.base (mul32 4 (add32 p 1)), take_block h (ints_for bytes) (size h p) p)
    ]

-- `n / 4` of a signed number in 32 bits, which is rounded towards 0.
abbrev pub quarter : ℕ → ℕ
quarter n = if ltb n (2 ^ 31) then n / 4 else sub32 0 (sub32 0 n / 4)

-- The index of the block at an address; the difference of the two addresses is signed.
abbrev pub user_index : Heap → ℕ → ℕ
user_index h p = sub32 (quarter (sub32 p h.base)) 1

-- `free`; a block that is not taken is left as it is.
pub user_free : Heap → ℕ → Heap
user_free h p =
    let idx = user_index h p in
    if p == 0 then h else if p == h.base then h else if is_taken h idx then join_block h idx else h

-- `realloc`: the address, the number of bytes that are copied from the old block to the new one, and the heap.
-- The size is that of the block with its two size words. The copy writes only the contents of the new block.
user_realloc : Heap → (p new_size : ℕ) → Option (ℕ × ℕ × Heap)
unfolding user_malloc user_free
user_realloc h p new_size =
    let idx = user_index h p in
    let sz = mul32 (size h idx) 4 in
    if p == 0
    then elim (user_malloc h new_size) [ none ↦ none | some (q, t) ↦ some (q, 0, t) ]
    else if new_size == 0
    then some (0, 0, user_free h p)
    else if is_taken h idx
    then elim (user_malloc h new_size) [
      | none ↦ none
      | some (q, t) ↦
          some (q, if q == 0 then 0 else if ltb sz new_size then sz else new_size, user_free t p)
    ]
    else some (0, 0, h)
