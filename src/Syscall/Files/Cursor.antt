-- ===== src/Syscall/Files/Cursor.antt =====
-- The offset of a descriptor under `read` and `seek`.
use osfinal_project.Prelude.{
  ℕ, ◌+◌, ◌-◌, ◌^◌, ◌≤◌, ◌<◌, ◌≡◌, ap, ap₂, sym, ◌∙◌, arith, false, some, List, [], ◌++◌, update,
  min, slice, slice-append,
}
use osfinal_project.Word.{sub32}
use osfinal_project.BlockIo.Laws.{Holds, read_all-slice, read_all_past}
use osfinal_project.Ext2.Inode.{Node, node_io}
use osfinal_project.Syscall.Process.{State, minus_one}
use osfinal_project.Syscall.Files.{Apic, is_forbidden, slot, read_from, read, seek}

-- Descriptor `fd` of the process is object `k`, an open file with the bytes `f`.
pub record IsFile (s : State) (fd k : ℕ) (node : Node) (f : ℕ → ℕ) : Type 0 where
  pub low : 3 ≤ fd
  pub high : fd ≤ 9
  pub entry : slot s fd ≡ some (some k)
  pub opened : (s.files k).node ≡ some node
  pub bytes : Holds (node_io node) f
  pub cursor : (s.files k).offset < 2 ^ 32

-- The state with the offset of object `k` changed.
abbrev pub moved : State → ℕ → ℕ → State
moved s k o = record s { files = update s.files k (record (s.files k) { offset = o }) }

module _ (a : Apic) {s : State} {fd k : ℕ} {node : Node} {f : ℕ → ℕ} (h : IsFile s fd k node f)
    (buf nbyte : ℕ) (allowed : is_forbidden a buf ≡ false) (fit : nbyte < 2 ^ 32) where
  is_read_from : read a s fd buf nbyte ≡ read_from s k node nbyte
  unfolding read
  is_read_from = ground (arith, h.entry, h.opened, h.low, h.high)

  from_inside :
      (s.files k).offset ≤ node.info.size_low
      → (s.files k).offset + nbyte < 2 ^ 32
      → read_from s k node nbyte
        ≡ some (
          min nbyte (node.info.size_low - (s.files k).offset),
          slice f (s.files k).offset (min nbyte (node.info.size_low - (s.files k).offset)),
          moved s k ((s.files k).offset + min nbyte (node.info.size_low - (s.files k).offset)),
        )
  unfolding read_from node_io
  from_inside inside no_wrap = ground (
    arith,
    h.bytes.fits,
    read_all-slice h.bytes (s.files k).offset nbyte fit inside,
    read_all-slice h.bytes (s.files k).offset (node.info.size_low - (s.files k).offset),
  )

  -- `read` on an open file into a permitted buffer, from an offset up to the end and without an
  -- overflow of offset and count, returns the bytes from the offset on, as many as asked for or as
  -- there are, moves the offset behind them, and changes nothing else.
  pub read_lem :
      (s.files k).offset ≤ node.info.size_low
      → (s.files k).offset + nbyte < 2 ^ 32
      → read a s fd buf nbyte
        ≡ some (
          min nbyte (node.info.size_low - (s.files k).offset),
          slice f (s.files k).offset (min nbyte (node.info.size_low - (s.files k).offset)),
          moved s k ((s.files k).offset + min nbyte (node.info.size_low - (s.files k).offset)),
        )
  read_lem inside no_wrap = is_read_from ∙ from_inside inside no_wrap

  -- `read` of some bytes on an open file, into a permitted buffer, from an offset behind the end
  -- and without an overflow of offset and count, returns -1 and moves the offset one byte back.
  read_past_end :
      node.info.size_low < (s.files k).offset
      → 0 < nbyte
      → (s.files k).offset + nbyte < 2 ^ 32
      → read a s fd buf nbyte ≡ some (minus_one, [], moved s k ((s.files k).offset - 1))
  unfolding read_from node_io
  read_past_end past more no_wrap =
      is_read_from
      ∙ ground (
        arith,
        h.bytes.fits,
        h.cursor,
        read_all_past h.bytes (s.files k).offset (sub32 node.info.size_low (s.files k).offset) past,
      )

-- `seek` on an open file sets its cursor, and a read then starts there.
seek_lem :
    {s : State} {fd k : ℕ} {node : Node} {f : ℕ → ℕ} (offset : ℕ)
    → IsFile s fd k node f
    → seek s fd offset ≡ some (offset, moved s k offset)
unfolding seek
seek_lem offset h = ground (arith, h.entry, h.low, h.high)

-- What `seek` leaves is the same open file, at another offset.
moved-IsFile :
    {s : State} {fd k : ℕ} {node : Node} {f : ℕ → ℕ} (offset : ℕ)
    → IsFile s fd k node f
    → offset < 2 ^ 32
    → IsFile (moved s k offset) fd k node f
moved-IsFile offset h fit = record {
  low = h.low;
  high = h.high;
  entry = h.entry;
  opened = ground (arith, h.opened);
  bytes = h.bytes;
  cursor = ground arith;
}

-- Two calls of `read` in a row on an open file that has the bytes return together the bytes that
-- lie from the offset on, and leave the offset behind all of them.
read-read :
    (a : Apic) {s : State} {fd k : ℕ} {node : Node} {f : ℕ → ℕ} (h : IsFile s fd k node f)
    (buf m n : ℕ)
    → is_forbidden a buf ≡ false
    → m < 2 ^ 32
    → n < 2 ^ 32
    → (s.files k).offset + (m + n) ≤ node.info.size_low
    → (t u : State) × (xs ys : List ℕ) × (read a s fd buf m ≡ some (m, xs, t))
      × (read a t fd buf n ≡ some (n, ys, u))
      × (xs ++ ys ≡ slice f (s.files k).offset (m + n))
      × ((u.files k).offset ≡ (s.files k).offset + (m + n))
unfolding node_io
read-read a {s} {fd} {k} {node} {f} h buf m n ok fm fn room = (
  t,
  moved t k ((t.files k).offset + n),
  slice f o m,
  slice f (o + m) n,
  read_lem a h buf m ok fm (omega arith) (omega (arith, h.bytes.fits))
      ∙ ap (λ (c : ℕ). some (c, slice f o c, moved s k (o + c))) all_m,
  read_lem a (moved-IsFile (o + m) h (omega (arith, h.bytes.fits))) buf n ok fn (omega (arith, at))
        (omega (arith, at, h.bytes.fits))
      ∙ ap₂ (λ (c p : ℕ). some (c, slice f p c, moved t k (p + c))) all_n at
      ∙ ap (λ (p : ℕ). some (n, slice f (o + m) n, moved t k (p + n))) (sym at),
  slice-append f o m n,
  ground arith,
)
  where
    o : ℕ
    o = (s.files k).offset

    t : State
    t = moved s k (o + m)

    at : (t.files k).offset ≡ o + m
    at = ground arith

    all_m : min m (node.info.size_low - o) ≡ m
    all_m = omega arith

    all_n : min n (node.info.size_low - (t.files k).offset) ≡ n
    all_n = omega (arith, at)
