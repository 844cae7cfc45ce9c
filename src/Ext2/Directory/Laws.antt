-- ===== src/Ext2/Directory/Laws.antt =====
-- The loops over a directory, against the on-disk format of its entries.
use osfinal_project.Prelude.{
  ℕ, zero, suc, ◌+◌, ◌^◌, ◌≤◌, ◌<◌, ◌≡◌, ◌≢◌, refl, ap, ◌∙◌, sym, arith, true, some, List, [], ◌∷◌,
  ◌++◌, if◌then◌else◌, length, slice, take, length-append, append_assoc,
}
use osfinal_project.Word.{add32, le16, le32}
use osfinal_project.BlockIo.{BlockIo, count, read_all}
use osfinal_project.BlockIo.Laws.{Holds, read_all-slice}
use osfinal_project.BlockIo.Typed.{read_value-slice}
use osfinal_project.Ext2.Layout.{is_dir}
use osfinal_project.Ext2.Inode.{Node, node_io}
use osfinal_project.Ext2.Directory.{
  Entry, streq, entry_at, entries_loop, entries, find_last, find, entry_count, name_at,
  names_size_loop, get_length_of_dir_entries, names_loop, end_names, get_dir_entries,
}
use osfinal_project.Ext2.Directory.Names.{text, text-streq, other_text}

-- The format of one entry of `total` bytes at byte `o` of a directory with the bytes `f`.
pub record IsEntry (f : ℕ → ℕ) (size o total : ℕ) (e : Entry) : Type 0 where
  pub inode_field : le32 (slice f o 4) 0 ≡ e.inode
  pub total_field : le16 (slice f (o + 4) 2) 0 ≡ total
  pub length_field : f (o + 6) ≡ length e.name
  pub name_field : slice f (o + 8) (length e.name) ≡ e.name
  pub short : length e.name < 256
  pub room : 8 + length e.name ≤ total
  pub inside : o + total ≤ size

-- From byte `o` to its end the directory holds these entries, one behind the other.
pub data Laid (f : ℕ → ℕ) (size : ℕ) : ℕ → List Entry → Type 0 where
  done : Laid f size size []
  entry :
      {o total : ℕ} (e : Entry) {es : List Entry}
      → IsEntry f size o total e
      → Laid f size (o + total) es
      → Laid f size o (e ∷ es)

abbrev pub names_size : List Entry → ℕ
names_size [] = 0
names_size (e ∷ es) = length e.name + 1 + names_size es

-- Each name with a space behind it.
abbrev spaced : List Entry → List ℕ
spaced [] = []
spaced (e ∷ es) = e.name ++ (0x20 ∷ spaced es)

-- No entry of the list has the name.
abbrev NoneNamed : List ℕ → List Entry → Type 0
NoneNamed name [] = Unit {0}
NoneNamed name (e ∷ es) = (text name ≢ text e.name) × NoneNamed name es

find_last-miss :
    (name : List ℕ) (out : ℕ) (es : List Entry) → NoneNamed name es → find_last name out es ≡ out
unfolding find_last
find_last-miss name out [] h = refl
find_last-miss name out (e ∷ es) h =
    rw (other_text name e.name h.0) (find_last-miss name out es h.1)

find_last-hit :
    (name : List ℕ) (out : ℕ) (before : List Entry) (e : Entry) (after : List Entry)
    → text name ≡ text e.name
    → NoneNamed name after
    → find_last name out (before ++ (e ∷ after)) ≡ e.inode
unfolding find_last
find_last-hit name out [] e after hit miss =
    ground (arith, text-streq name e.name hit, find_last-miss name e.inode after miss)
find_last-hit name out (b ∷ bs) e after hit miss =
    find_last-hit name (if streq name b.name then b.inode else out) bs e after hit miss

spaced-append :
    (es : List Entry) (e : Entry) → spaced (es ++ (e ∷ [])) ≡ spaced es ++ (e.name ++ (0x20 ∷ []))
spaced-append [] e = refl
spaced-append (x ∷ es) e =
    ap (λ t. x.name ++ (0x20 ∷ t)) (spaced-append es e)
    ∙ sym (append_assoc x.name (0x20 ∷ spaced es) (e.name ++ (0x20 ∷ [])))

names_size-spaced : (es : List Entry) → length (spaced es) ≡ names_size es
names_size-spaced [] = refl
names_size-spaced (e ∷ es) =
    omega (arith, length-append {0} e.name (0x20 ∷ spaced es), names_size-spaced es)

take-append : (xs ys : List ℕ) → take (length xs) (xs ++ ys) ≡ xs
take-append [] ys = refl
take-append (x ∷ xs) ys = ap (λ t. x ∷ t) (take-append xs ys)

-- The last byte is replaced by a NUL.
end_names_lem : (xs : List ℕ) (x : ℕ) → end_names (xs ++ (x ∷ [])) ≡ some (xs ++ (0 ∷ []))
unfolding end_names
end_names_lem [] x = refl
end_names_lem (y ∷ xs) x =
    ap (λ (k : ℕ). some (take k (y ∷ (xs ++ (x ∷ []))) ++ (0 ∷ []))) one_more
    ∙ ap (λ t. some (y ∷ (t ++ (0 ∷ [])))) (take-append xs (x ∷ []))
  where
    one_more : length (xs ++ (x ∷ [])) ≡ suc (length xs)
    one_more = omega (arith, length-append {0} xs (x ∷ []))

module _ {d : BlockIo} {f : ℕ → ℕ} (h : Holds d f) where
  abbrev size : ℕ
  size = d.size_in_bytes

  module _ {o total : ℕ} (e : Entry) (i : IsEntry f size o total e) where
    open i use {inode_field, total_field, length_field, name_field, short, room, inside}

    name_read : read_all d (add32 o 8) (length e.name) ≡ some (count (length e.name) e.name)
    name_read =
        ground (arith, h.fits, read_all-slice h (o + 8) (length e.name) (omega arith) (omega arith))

    entry_at_lem : entry_at d o ≡ some (e, total)
    unfolding entry_at
    entry_at_lem = ground (
      arith,
      h.fits,
      name_read,
      read_value-slice h o 4 (omega arith) (omega arith),
      read_value-slice h (o + 4) 2 (omega arith) (omega arith),
      read_value-slice h (o + 6) 1 (omega arith) (omega arith),
    )

    name_at_lem : name_at d o ≡ some (e.name, total)
    unfolding name_at
    name_at_lem = ground (
      arith,
      h.fits,
      name_read,
      read_value-slice h (o + 4) 2 (omega arith) (omega arith),
      read_value-slice h (o + 6) 1 (omega arith) (omega arith),
    )

    size_at_lem :
        (fuel acc : ℕ)
        → names_size_loop (suc fuel) d size o acc
          ≡ names_size_loop fuel d size (o + total) (add32 acc (length e.name + 1))
    unfolding names_size_loop
    size_at_lem fuel acc = ground (
      arith,
      h.fits,
      read_value-slice h (o + 4) 2 (omega arith) (omega arith),
      read_value-slice h (o + 6) 1 (omega arith) (omega arith),
    )

  entries_loop-Laid :
      (fuel : ℕ) {o : ℕ} {es : List Entry}
      → Laid f size o es
      → o ≤ size
      → size < fuel + o
      → entries_loop fuel d size o ≡ some es
  unfolding entries_loop
  entries_loop-Laid zero l le lt = absurd (omega arith)
  entries_loop-Laid (suc fuel) done le lt = ground arith
  entries_loop-Laid (suc fuel) (entry {o} {total} e {es} i l) le lt = ground (
    arith,
    h.fits,
    i.room,
    i.inside,
    entry_at_lem e i,
    entries_loop-Laid fuel l i.inside (omega (arith, i.room)),
  )

  names_loop-Laid :
      (fuel : ℕ) {o : ℕ} {es : List Entry}
      → Laid f size o es
      → o ≤ size
      → size < fuel + o
      → names_loop fuel d size o ≡ some (spaced es)
  unfolding names_loop
  names_loop-Laid zero l le lt = absurd (omega arith)
  names_loop-Laid (suc fuel) done le lt = ground arith
  names_loop-Laid (suc fuel) (entry {o} {total} e {es} i l) le lt = ground (
    arith,
    h.fits,
    i.room,
    i.inside,
    name_at_lem e i,
    names_loop-Laid fuel l i.inside (omega (arith, i.room)),
  )

  -- Behind `o` there is room for the names with a byte each, so the sum cannot wrap.
  names_size-le : {o : ℕ} {es : List Entry} → Laid f size o es → o + names_size es ≤ size
  names_size-le done = omega arith
  names_size-le (entry e i l) = omega (arith, i.room, names_size-le l)

  names_size_loop-Laid :
      (fuel acc : ℕ) {o : ℕ} {es : List Entry}
      → Laid f size o es
      → o ≤ size
      → size < fuel + o
      → acc + names_size es < 2 ^ 32
      → names_size_loop fuel d size o acc ≡ some (acc + names_size es)
  unfolding names_size_loop
  names_size_loop-Laid zero acc l le lt fit = absurd (omega arith)
  names_size_loop-Laid (suc fuel) acc done le lt fit = ground arith
  names_size_loop-Laid (suc fuel) acc (entry {o} {total} e {es} i l) le lt fit =
      size_at_lem e i fuel acc
      ∙ ap (names_size_loop fuel d size (o + total)) (omega arith)
      ∙ names_size_loop-Laid fuel (acc + (length e.name + 1)) l i.inside (omega (arith, i.room))
          (omega arith)
      ∙ ap (λ (k : ℕ). some k) (omega arith)

module _ (n : Node) {f : ℕ → ℕ} {es : List Entry} (h : Holds (node_io n) f)
    (dir : is_dir n.info ≡ true) (laid : Laid f n.info.size_low 0 es) where
  -- The traversal of a well-formed directory ends, and calls back with exactly its entries, in
  -- order.
  pub entries-Laid : entries n ≡ some es
  unfolding entries node_io
  entries-Laid = rw dir (entries_loop-Laid h (n.info.size_low + 1) laid (omega arith) (omega arith))

  -- `entry_count` counts them.
  entry_count_lem : entry_count n ≡ some (length es)
  unfolding entry_count
  entry_count_lem = rw (dir, entries-Laid)

  -- In a well-formed directory `find` returns the i-number of the last entry whose name has the
  -- same characters, up to a NUL.
  pub find-hit :
      (before : List Entry) (e : Entry) (after : List Entry) (name : List ℕ)
      → es ≡ before ++ (e ∷ after)
      → text name ≡ text e.name
      → NoneNamed name after
      → find n name ≡ some e.inode
  unfolding find
  find-hit before e after name split hit none_after = rw entries-Laid (
      ap (λ l. some (find_last name 0 l)) split
      ∙ ap some (find_last-hit name 0 before e after hit none_after))

  -- In a well-formed directory where no entry has the name, `find` returns 0.
  find-miss : (name : List ℕ) → NoneNamed name es → find n name ≡ some 0
  unfolding find
  find-miss name no_match = rw (entries-Laid) (ap some (find_last-miss name 0 es no_match))

  -- For a well-formed directory that is not empty, `get_dir_entries` writes the names with a space
  -- behind each but the last, and a NUL behind the last; `get_length_of_dir_entries` is the number
  -- of bytes written.
  get_dir_entries_lem :
      (e : Entry) (rest : List Entry)
      → es ≡ rest ++ (e ∷ [])
      → (get_dir_entries n ≡ some (spaced rest ++ (e.name ++ (0 ∷ []))))
        × (get_length_of_dir_entries n ≡ some (length (spaced rest ++ (e.name ++ (0 ∷ [])))))
  unfolding get_dir_entries get_length_of_dir_entries node_io
  get_dir_entries_lem e rest split =
      (rw (dir, names, end_names_lem) (ap some back), rw (dir, sizes) (ap some counted))
    where
      last : spaced es ≡ (spaced rest ++ e.name) ++ (0x20 ∷ [])
      last =
          ap spaced split
          ∙ spaced-append rest e
          ∙ sym (append_assoc (spaced rest) e.name (0x20 ∷ []))

      back : (spaced rest ++ e.name) ++ (0 ∷ []) ≡ spaced rest ++ (e.name ++ (0 ∷ []))
      back = append_assoc (spaced rest) e.name (0 ∷ [])

      names :
          names_loop (n.info.size_low + 1) (node_io n) n.info.size_low 0
          ≡ some ((spaced rest ++ e.name) ++ (0x20 ∷ []))
      names =
          names_loop-Laid h (n.info.size_low + 1) laid (omega arith) (omega arith) ∙ ap some last

      sizes :
          names_size_loop (n.info.size_low + 1) (node_io n) n.info.size_low 0 0
          ≡ some (0 + names_size es)
      sizes =
          names_size_loop-Laid h (n.info.size_low + 1) 0 laid (omega arith) (omega arith)
            (omega (arith, names_size-le h laid, h.fits))

      counted : 0 + names_size es ≡ length (spaced rest ++ (e.name ++ (0 ∷ [])))
      counted = omega (
        arith,
        names_size-spaced es,
        ap length last,
        length-append {0} (spaced rest ++ e.name) (0x20 ∷ []),
        length-append {0} (spaced rest) e.name,
        length-append {0} (spaced rest) (e.name ++ (0 ∷ [])),
        length-append {0} e.name (0 ∷ []),
      )
