-- ===== src/BlockIo/Typed.antt =====
-- The template `BlockIO::read(offset, thing)` of kernel/block_io.h: a value of a given size, or a panic.
use osfinal_project.Prelude.{
  ℕ, ◌+◌, ◌^◌, ◌≤◌, ◌<◌, ◌≡◌, arith, Option, none, some, List, ◌==◌, slice, if◌then◌else◌,
}
use osfinal_project.BlockIo.{BlockIo, error, count, read_all}
use osfinal_project.BlockIo.Laws.{Holds, read_all-slice, read_all_past}

-- The bytes of the value; `ASSERT(cnt == sizeof(T))` stops on any shorter count.
unfoldable pub read_value : BlockIo → ℕ → ℕ → Option (List ℕ)
read_value d offset size = elim (read_all d offset size) [
  | none ↦ none
  | some error ↦ none
  | some (count n bytes) ↦ if n == size then some bytes else none
]

module _ {d : BlockIo} {contents : ℕ → ℕ} (h : Holds d contents) where
  -- A value that lies inside the device is read, and is the bytes at its place.
  pub read_value-slice :
      (offset size : ℕ)
      → size < 2 ^ 32
      → offset + size ≤ d.size_in_bytes
      → read_value d offset size ≡ some (slice contents offset size)
  unfolding read_value
  read_value-slice offset size fit le = ground (arith, read_all-slice h offset size)

  -- On a device that holds some contents, reading a value of a 32-bit size above 0 that does not
  -- lie inside the device is a panic.
  read_value_past :
      (offset size : ℕ)
      → 0 < size
      → size < 2 ^ 32
      → d.size_in_bytes < offset + size
      → read_value d offset size ≡ none
  unfolding read_value
  read_value_past offset size pos fit lt =
      ground (arith, read_all-slice h offset size, read_all_past h offset size)
