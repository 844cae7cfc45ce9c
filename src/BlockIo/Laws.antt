-- ===== src/BlockIo/Laws.antt =====
-- What a range read returns, over a device whose blocks hold the bytes of some contents.
use native.Mathlib.Nat.{mod-lt}
use native.Mathlib.Numerals.{add-one}
use osfinal_project.Prelude.{
  ℕ, zero, suc, ◌+◌, ◌-◌, ◌*◌, ◌/◌, ◌%◌, ◌^◌, ◌≤◌, ◌<◌, ◌≡◌, ap, ap₂, ◌∙◌, arith, Option, some,
  List, [], min, ◌==◌, if◌then◌else◌, take, drop, slice, take-slice, drop-slice, slice-append,
  Bool-cases, inl, inr, dec_lt,
}
use osfinal_project.Word.{add32, sub32}
use osfinal_project.BlockIo.{
  BlockIo, Count, error, count, transfer, read, read_loop, next_round, read_all,
}

-- The device holds `contents`: each block that starts inside it has the bytes of its range.
-- The bytes of the last block past the end are whatever `contents` says there.
pub record Holds (d : BlockIo) (contents : ℕ → ℕ) : Type 0 where
  pub sized : 0 < d.block_size
  pub block_fits : d.block_size < 2 ^ 32
  pub fits : d.size_in_bytes < 2 ^ 32
  pub blocks :
      (k : ℕ)
      → k * d.block_size < d.size_in_bytes
      → d.read_block k ≡ some (slice contents (k * d.block_size) d.block_size)

-- How many bytes one `read` delivers: up to the end of the block, of the request and of the device.
abbrev chunk : BlockIo → ℕ → ℕ → ℕ
chunk d offset n = min (d.block_size - offset % d.block_size) (min n (d.size_in_bytes - offset))

div_add_mod : (a b : ℕ) → 0 < b → (a / b) * b + a % b ≡ a
div_add_mod a b h = grind arith

module _ {d : BlockIo} {contents : ℕ → ℕ} (h : Holds d contents) where
  open h use {sized, block_fits, fits, blocks}

  part :
      (offset m : ℕ)
      → offset < d.size_in_bytes
      → m ≤ d.block_size - offset % d.block_size
      → (b : List ℕ) × (d.read_block (offset / d.block_size) ≡ some b)
        × (take m (drop (offset % d.block_size) b) ≡ slice contents offset m)
  part offset m lt le = (_, blocks k (omega (arith, whole)), cut)
    where
      k : ℕ
      k = offset / d.block_size

      o : ℕ
      o = offset % d.block_size

      whole : k * d.block_size + o ≡ offset
      whole = div_add_mod offset d.block_size sized

      cut :
          take m (drop o (slice contents (k * d.block_size) d.block_size)) ≡ slice contents offset m
      cut =
          ap (λ (n : ℕ). take m (drop o (slice contents (k * d.block_size) n)))
            (omega (arith, inside))
          ∙ ap (take m) (drop-slice contents (k * d.block_size) o (d.block_size - o))
          ∙ take-slice contents (k * d.block_size + o) m (d.block_size - o) le
          ∙ ap (λ (a : ℕ). slice contents a m) whole
        where
          inside : o < d.block_size
          inside = omega arith

  -- A transfer of `m` bytes that do not go past the end of the block.
  transfer_lem :
      (offset m : ℕ)
      → offset < d.size_in_bytes
      → m ≤ d.block_size - offset % d.block_size
      → transfer d (offset / d.block_size) (offset % d.block_size) m
        ≡ some (count m (slice contents offset m))
  unfolding transfer
  transfer_lem offset m lt le =
      let (b, e, cut) = part offset m lt le in
      let whole = div_add_mod offset d.block_size sized in
      elim (Bool-cases (m == d.block_size)) [
        | inl full ↦ ground (arith, blocks (offset / d.block_size))
        | inr less ↦ ground (arith, e, cut)
      ]

  -- One `read` inside the device: no assertion fails, and the bytes are those of the range.
  read-chunk :
      (offset n : ℕ)
      → offset < d.size_in_bytes
      → read d offset n ≡ some (count (chunk d offset n) (slice contents offset (chunk d offset n)))
  unfolding read
  read-chunk offset n lt = ground (arith, transfer_lem offset (chunk d offset n) lt)

  read_past : (offset n : ℕ) → d.size_in_bytes < offset → read d offset n ≡ some error
  unfolding read
  read_past offset n lt = ground arith

  read_end : (n : ℕ) → read d d.size_in_bytes n ≡ some (count 0 [])
  unfolding read
  read_end n = ground arith

  -- One round of `read_all` that reads `c + 1` bytes, then the rest of the range.
  round_lem :
      (offset c m : ℕ) (rest : ℕ → Option Count)
      → rest (suc c) ≡ some (count m (slice contents (offset + suc c) m))
      → next_round (count (suc c) (slice contents offset (suc c))) rest
        ≡ some (count (suc c + m) (slice contents offset (suc c + m)))
  unfolding next_round
  round_lem offset c m rest e = ground (arith, slice-append contents offset (suc c) m)

  abbrev range : ℕ → ℕ → Option Count
  range offset n = some (
      count (min n (d.size_in_bytes - offset))
        (slice contents offset (min n (d.size_in_bytes - offset))))

  -- `read_loop` with bytes left to read, inside the device; the rounds that follow are given.
  more_lem :
      (f offset n c : ℕ)
      → n < 2 ^ 32
      → 0 < n
      → offset < d.size_in_bytes
      → chunk d offset n ≡ suc c
      → read_loop f d (offset + suc c) (n - suc c) ≡ range (offset + suc c) (n - suc c)
      → read_loop (suc f) d offset n ≡ range offset n
  unfolding read_loop
  more_lem f offset n c fit more lt e rest =
      ground
        (arith, one, round_lem offset c m (λ k. read_loop f d (add32 offset k) (sub32 n k)) next)
      ∙ ap (λ (k : ℕ). some (count k (slice contents offset k))) total
    where
      m : ℕ
      m = min (n - suc c) (d.size_in_bytes - (offset + suc c))

      one : read d offset n ≡ some (count (suc c) (slice contents offset (suc c)))
      one = read-chunk offset n lt ∙ ap (λ (k : ℕ). some (count k (slice contents offset k))) e

      next :
          read_loop f d (add32 offset (suc c)) (sub32 n (suc c))
          ≡ some (count m (slice contents (offset + suc c) m))
      next = ap₂ (read_loop f d) (omega arith) (omega arith) ∙ rest

      total : suc c + m ≡ min n (d.size_in_bytes - offset)
      total = omega arith

  read_loop_lem :
      (f offset n : ℕ)
      → n < f
      → n < 2 ^ 32
      → offset ≤ d.size_in_bytes
      → read_loop f d offset n ≡ range offset n
  unfolding read_loop
  read_loop_lem zero offset n lt fit le = elim lt [ ]
  read_loop_lem (suc f) offset n lt fit le = elim (dec_lt 0 n) [
    | no stop ↦ ground arith
    | yes more ↦ elim (dec_lt offset d.size_in_bytes) [
      | no end ↦ ground (arith, read_end n)
      | yes inside ↦
          let c = chunk d offset n - 1 in
          more_lem f offset n c fit more inside (omega (arith, mod-lt offset sized)) (
            read_loop_lem f (offset + suc c) (n - suc c) (omega arith) (omega arith)
              (omega (arith, mod-lt offset sized)))
    ]
  ]

  -- On a device that holds `contents`, `read_all` of a 32-bit count from inside the device, or from
  -- its end, ends without a failed assertion and returns exactly the bytes of the range that the
  -- device has, however the range lies over the blocks.
  pub read_all-slice :
      (offset n : ℕ)
      → n < 2 ^ 32
      → offset ≤ d.size_in_bytes
      → read_all d offset n
        ≡ some (
            count
              (min n (d.size_in_bytes - offset))
              (slice contents offset (min n (d.size_in_bytes - offset))))
  unfolding read_all
  read_all-slice offset n fit le = read_loop_lem (n + 1) offset n (omega arith) fit le

  -- `read_all` from beyond the end of the device returns -1 when bytes are asked for, and 0 when
  -- none are.
  pub read_all_past :
      (offset n : ℕ)
      → d.size_in_bytes < offset
      → read_all d offset n ≡ (if n == 0 then some (count 0 []) else some error)
  unfolding read_all read_loop next_round
  read_all_past offset n lt = rw add-one (ground (arith, read_past offset n lt))
