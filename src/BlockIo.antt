-- ===== src/BlockIo.antt =====
-- kernel/block_io.h and kernel/block_io.cc: byte ranges read from a device that has only blocks.
-- A buffer that a function fills is returned: the list of the bytes written from its start on.
pub mod Laws
pub mod Typed
use osfinal_project.Prelude.{
  ℕ, zero, suc, ◌+◌, ◌-◌, ◌/◌, ◌%◌, Bool, true, false, Option, none, some, List, [], ◌++◌, min, ltb,
  leb, ◌==◌, if◌then◌else◌, ◌>>=◌, ◌>>◌, assert, take, drop, length,
}
use osfinal_project.Word.{add32, sub32}

-- The class `BlockIO`; its virtual functions are fields. `none` is a panic of the device.
pub record BlockIo : Type 0 where
  pub block_size : ℕ
  pub size_in_bytes : ℕ
  pub read_block : ℕ → Option (List ℕ)

-- What `read` and `read_all` return: -1, or the count, with the bytes put in the buffer.
pub data Count : Type 0 where
  error : Count
  count : ℕ → List ℕ → Count

size_in_blocks : BlockIo → ℕ
size_in_blocks d = sub32 (add32 d.size_in_bytes d.block_size) 1 / d.block_size

-- The transfer at the end of `read`: a whole block in place, or a part of a block by way of `temp`.
transfer : BlockIo → ℕ → ℕ → ℕ → Option Count
transfer d block_number offset_in_block actual_n =
    if actual_n == d.block_size
    then (do assert (offset_in_block == 0); b ← d.read_block block_number; some (count actual_n b))
    else do
      assert (leb (add32 offset_in_block actual_n) d.block_size)
      temp ← d.read_block block_number
      some (count actual_n (take actual_n (drop offset_in_block temp)))

-- `BlockIO::read`. A division by a block size of 0 is a fault.
pub read : BlockIo → ℕ → ℕ → Option Count
unfolding transfer
read d offset desired_n =
    let sz = d.size_in_bytes in
    if ltb sz offset
    then some error
    else if offset == sz
    then some (count 0 [])
    else if d.block_size == 0
    then none
    else let n = min desired_n (sub32 sz offset) in
      let actual_n = min (sub32 d.block_size (offset % d.block_size)) n in
      do
        assert (leb actual_n n)
        assert (leb (add32 offset actual_n) sz)
        transfer d (offset / d.block_size) (offset % d.block_size) actual_n

-- One round of the loop of `read_all` has returned `r`; `rest` runs the rounds that follow.
next_round : Count → (ℕ → Option Count) → Option Count
next_round error rest = some error
next_round (count zero b) rest = some (count 0 [])
next_round (count (suc c) b) rest = elim (rest (suc c)) [
  | none ↦ none
  | some error ↦ some error
  | some (count total bs) ↦ some (count (suc c + total) (b ++ bs))
]

-- The loop of `BlockIO::read_all`. The fuel bounds the rounds; out of fuel is `none`.
pub read_loop : ℕ → BlockIo → ℕ → ℕ → Option Count
unfolding next_round
read_loop zero d offset n = none
read_loop (suc f) d offset n = elim (n == 0) [
  | true ↦ some (count 0 [])
  | false ↦ elim (read d offset n) [
    | none ↦ none
    | some r ↦ next_round r (λ c. read_loop f d (add32 offset c) (sub32 n c))
  ]
]

-- `BlockIO::read_all`. Each round reads a byte at least, so `n + 1` rounds are enough.
pub read_all : BlockIo → ℕ → ℕ → Option Count
read_all d offset n = read_loop (n + 1) d offset n
