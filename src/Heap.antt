-- ===== src/Heap.antt =====
-- kernel/heap.cc: the heap of the kernel. It is an array of 32-bit words. A block of `n` words has `n`
-- in its first and last word when it is free, and `-n` when it is taken; the second and third word of a
-- free block link it in the list of free blocks. The lock is held for the whole of `malloc` and `free`.
pub mod FreeList
pub mod Remove
pub mod Search
pub mod Tiles
pub mod Hole
pub mod Fill
pub mod Room
pub mod Start
pub mod Malloc
pub mod Absorb
pub mod Free
use osfinal_project.Prelude.{
  ℕ, zero, suc, ◌+◌, ◌-◌, ◌*◌, ◌/◌, ◌%◌, ◌^◌, Bool, true, false, Option, none, some, ◌&&◌, ◌||◌,
  ◌>>=◌, ◌>>◌, assert, ltb, leb, ◌==◌, ◌!=◌, if◌then◌else◌, update,
}
use osfinal_project.Word.{add32, sub32, mul32}

-- `array` as a function of the index, `len` and `avail`. An `int` is kept as its 32-bit word; `safe`
-- is 0, so `sanity` returns its argument. `base` is the address of the array.
pub record Heap : Type 0 where
  pub base : ℕ
  pub array : ℕ → ℕ
  pub len : ℕ
  pub avail : ℕ

-- `x > 0` and `x < 0` of an `int`, `-x`, and `abs`.
abbrev is_positive : ℕ → Bool
is_positive x = ltb 0 x && ltb x (2 ^ 31)

abbrev is_negative : ℕ → Bool
is_negative x = leb (2 ^ 31) x

abbrev pub negate : ℕ → ℕ
negate x = sub32 0 x

abbrev pub abs : ℕ → ℕ
abs x = if is_negative x then negate x else x

abbrev pub size : Heap → ℕ → ℕ
size h i = abs (h.array i)

-- `headerFromFooter` and `footerFromHeader`
abbrev header_from_footer : Heap → ℕ → ℕ
header_from_footer h i = add32 (sub32 i (size h i)) 1

abbrev pub footer_from_header : Heap → ℕ → ℕ
footer_from_header h i = sub32 (add32 i (size h i)) 1

abbrev pub left : Heap → ℕ → ℕ
left h i = header_from_footer h (sub32 i 1)

abbrev pub right : Heap → ℕ → ℕ
right h i = add32 i (size h i)

abbrev pub next : Heap → ℕ → ℕ
next h i = h.array (add32 i 1)

abbrev pub prev : Heap → ℕ → ℕ
prev h i = h.array (add32 i 2)

-- `array[i] = x`
abbrev pub put : Heap → ℕ → ℕ → Heap
put h i x = record h { array = update h.array i x }

abbrev pub set_next : Heap → ℕ → ℕ → Heap
set_next h i x = put h (add32 i 1) x

abbrev pub set_prev : Heap → ℕ → ℕ → Heap
set_prev h i x = put h (add32 i 2) x

pub remove : Heap → ℕ → Heap
remove h i =
    let prev_index = prev h i in
    let next_index = next h i in
    let h' =
      if prev_index == 0
      then record h { avail = next_index }
      else set_next h prev_index next_index in
    if next_index == 0 then h' else set_prev h' next_index prev_index

-- `makeAvail`
pub make_avail : Heap → ℕ → ℕ → Heap
make_avail h i ints =
    let a = put h i ints in
    let b = put a (footer_from_header a i) ints in
    let c = set_prev (set_next b i h.avail) i 0 in
    let d = if h.avail == 0 then c else set_prev c h.avail i in record d { avail = i }

-- `makeTaken`
pub make_taken : Heap → ℕ → ℕ → Heap
make_taken h i ints = let a = put h i (negate ints) in put a (footer_from_header a i) (negate ints)

pub is_avail : Heap → ℕ → Bool
is_avail h i = is_positive (h.array i)

pub is_taken : Heap → ℕ → Bool
is_taken h i = is_negative (h.array i)

-- `heapInit`; the lock, which it allocates in the end, is not in the model.
pub heap_init : Heap → (base bytes : ℕ) → Heap
unfolding make_taken make_avail
heap_init h base bytes =
    let len = bytes / 4 in
    let a = make_taken (record h { base = base; len = len }) 0 2 in
    let b = make_avail a 2 (sub32 len 4) in make_taken b (sub32 len 2) 2

-- The words that a request needs: the payload and two words for its size, four at least. They are less
-- than 2^31, so the comparison of signed numbers is one of natural numbers.
pub ints_for : ℕ → ℕ
ints_for bytes = let ints = add32 (add32 bytes 3 / 4) 2 in if ltb ints 4 then 4 else ints

-- The loop of `malloc` over the free list from `p` on: `mx` and `it` are the size and the index of the
-- best block so far, and `count_down` blocks of a sufficient size may still come. `none` is the panic
-- on a block that is not free, or the end of the fuel.
pub search : ℕ → Heap → (ints p mx it count_down : ℕ) → Option (ℕ × ℕ)
unfolding is_avail
search zero h ints p mx it count_down = none
search (suc f) h ints p mx it count_down = elim (p == 0) [
  | true ↦ some (mx, it)
  | false ↦ elim (is_avail h p) [
    | false ↦ none
    | true ↦ elim (leb ints (size h p)) [
      | false ↦ search f h ints (next h p) mx it count_down
      | true ↦
          let mx' = if ltb (size h p) mx then size h p else mx in
          let it' = if ltb (size h p) mx then p else it in
          elim (count_down == 1) [
            | true ↦ some (mx', it')
            | false ↦ search f h ints (next h p) mx' it' (count_down - 1)
          ]
    ]
  ]
]

-- A block is taken off the free list; what it has beyond the request is a free block again, if four
-- words or more are left.
pub take_block : Heap → (ints mx it : ℕ) → Heap
unfolding remove make_taken make_avail
take_block h ints mx it =
    let a = remove h it in
    let extra = sub32 mx ints in
    if leb 4 extra && ltb extra (2 ^ 31)
    then make_avail (make_taken a it ints) (add32 it ints) extra
    else make_taken a it mx

-- `malloc`: the address, or the null pointer. The fuel is the number of words: the free list has no
-- more blocks than that.
pub malloc : Heap → ℕ → Option (ℕ × Heap)
unfolding take_block search ints_for
malloc h bytes =
    if bytes == 0
    then some (h.base, h)
    else elim (search (h.len + 1) h (ints_for bytes) h.avail 0x7fffffff 0 20) [
      | none ↦ none
      | some (mx, it) ↦
          if it == 0
          then some (0, h)
          else some (add32 h.base (mul32 4 (add32 it 1)), take_block h (ints_for bytes) mx it)
    ]

-- `operator new` and `operator new[]`; a null pointer is a panic.
operator_new : Heap → ℕ → Option (ℕ × Heap)
operator_new h bytes = do (p, t) ← malloc h bytes; if p == 0 then none else some (p, t)

-- The block at `idx` is joined with its free neighbours and put on the free list.
pub join_block : Heap → ℕ → Heap
unfolding remove make_avail is_avail
join_block h idx =
    let l = left h idx in
    let r = right h idx in
    let a = if is_avail h l then remove h l else h in
    let idx' = if is_avail h l then l else idx in
    let sz = if is_avail h l then add32 (size h idx) (size a l) else size h idx in
    let b = if is_avail a r then remove a r else a in
    let sz' = if is_avail a r then add32 sz (size b r) else sz in make_avail b idx' sz'

-- `free`; a block that is free already is a panic.
unfoldable pub free : Heap → ℕ → Option Heap
unfolding join_block is_taken
free h p =
    let idx = sub32 (sub32 p h.base / 4) 1 in
    if p == 0
    then some h
    else if p == h.base
    then some h
    else if is_taken h idx
    then some (join_block h idx)
    else none
