-- ===== src/Ext2/Directory.antt =====
-- Directories in kernel/ext2.h and kernel/ext2.cc: `entries`, `find`, `entry_count`,
-- `get_dir_entries`, `get_length_of_dir_entries`, and `K::streq` of kernel/libk.cc.
pub mod Names
pub mod Laws
use osfinal_project.Prelude.{
  ℕ, zero, suc, ◌+◌, ◌-◌, ◌≤◌, ◌<◌, Bool, true, false, Option, none, some, List, [], ◌∷◌, ◌++◌,
  ◌>>=◌, ◌>>◌, assert, ltb, ◌==◌, ◌!=◌, if◌then◌else◌, ◌&&◌, length, take,
}
use osfinal_project.Word.{add32, sub32, le8, le16, le32}
use osfinal_project.BlockIo.{BlockIo, Count, error, count, read_all}
use osfinal_project.BlockIo.Typed.{read_value}
use osfinal_project.Ext2.Layout.{is_dir}
use osfinal_project.Ext2.Inode.{Node, node_io}

-- `K::streq`. A string is the list of its characters, whose end stands for the NUL behind them;
-- a NUL inside the list ends the string too.
unfoldable pub streq : List ℕ → List ℕ → Bool
streq [] [] = true
streq [] (y ∷ ys) = y == 0
streq (x ∷ xs) [] = x == 0
streq (x ∷ xs) (y ∷ ys) =
    let rest = streq xs ys in if x != y then false else if x == 0 then true else rest

-- What `entries` hands to its callback for one entry, and where the next one is.
pub record Entry : Type 0 where
  pub inode : ℕ
  pub name : List ℕ

-- `ASSERT(cnt == name_length)` on what `read_all` returns.
whole_name : ℕ → Count → Option (List ℕ)
whole_name len error = none
whole_name len (count n bytes) = if n == len then some bytes else none

-- The body of the loop of `entries` at one offset: the entry and its `total_size`.
pub entry_at : BlockIo → ℕ → Option (Entry × ℕ)
unfolding whole_name
entry_at d offset = do
  inode ← read_value d offset 4
  total_size ← read_value d (add32 offset 4) 2
  name_length ← read_value d (add32 offset 6) 1
  r ← read_all d (add32 offset 8) (le8 name_length 0)
  name ← whole_name (le8 name_length 0) r
  some (record { inode = le32 inode 0; name = name }, le16 total_size 0)

-- The loop of `entries`: what the callback is called with, in order. Out of fuel is `none`, and so
-- is a loop that never ends, at an entry whose `total_size` is 0.
pub entries_loop : ℕ → BlockIo → ℕ → ℕ → Option (List Entry)
entries_loop zero d size offset = none
entries_loop (suc f) d size offset = elim (ltb offset size) [
  | false ↦ some []
  | true ↦ elim (entry_at d offset) [
    | none ↦ none
    | some (e, total_size) ↦ elim (entries_loop f d size (add32 offset total_size)) [
      | none ↦ none
      | some es ↦ some (e ∷ es)
    ]
  ]
]

-- `Node::entries`. Each entry that moves on moves on by a byte at least.
pub entries : Node → Option (List Entry)
entries n = do
  assert (is_dir n.info)
  entries_loop (n.info.size_low + 1) (node_io n) n.info.size_low 0

-- The callback of `find` over the entries: `out` is overwritten at each match.
find_last : List ℕ → ℕ → List Entry → ℕ
find_last name out [] = out
find_last name out (e ∷ es) = find_last name (if streq name e.name then e.inode else out) es

-- `Node::find`; 0 is "not found".
pub find : Node → List ℕ → Option ℕ
unfolding find_last
find n name = do es ← entries n; some (find_last name 0 es)

-- `Node::entry_count`
pub entry_count : Node → Option ℕ
entry_count n = do assert (is_dir n.info); es ← entries n; some (length es)

-- The loop of `Node::get_length_of_dir_entries`, which reads no inode number and no name.
pub names_size_loop : ℕ → BlockIo → ℕ → ℕ → ℕ → Option ℕ
names_size_loop zero d size offset names_size = none
names_size_loop (suc f) d size offset names_size = elim (ltb offset size) [
  | false ↦ some names_size
  | true ↦ elim (read_value d (add32 offset 4) 2) [
    | none ↦ none
    | some total_size ↦ elim (read_value d (add32 offset 6) 1) [
      | none ↦ none
      | some name_length ↦
          names_size_loop f d size (add32 offset (le16 total_size 0))
            (add32 names_size (le8 name_length 0 + 1))
    ]
  ]
]

pub get_length_of_dir_entries : Node → Option ℕ
get_length_of_dir_entries n = do
  assert (is_dir n.info)
  names_size_loop (n.info.size_low + 1) (node_io n) n.info.size_low 0 0

-- The body of the loop of `Node::get_dir_entries` at one offset: a name and its `total_size`.
name_at : BlockIo → ℕ → Option (List ℕ × ℕ)
unfolding whole_name
name_at d offset = do
  total_size ← read_value d (add32 offset 4) 2
  name_length ← read_value d (add32 offset 6) 1
  r ← read_all d (add32 offset 8) (le8 name_length 0)
  name ← whole_name (le8 name_length 0) r
  some (name, le16 total_size 0)

-- The loop of `Node::get_dir_entries`: the bytes put in the buffer, a space behind each name.
pub names_loop : ℕ → BlockIo → ℕ → ℕ → Option (List ℕ)
unfolding name_at
names_loop zero d size offset = none
names_loop (suc f) d size offset = elim (ltb offset size) [
  | false ↦ some []
  | true ↦ elim (name_at d offset) [
    | none ↦ none
    | some (name, total_size) ↦ elim (names_loop f d size (add32 offset total_size)) [
      | none ↦ none
      | some rest ↦ some (name ++ (0x20 ∷ rest))
    ]
  ]
]

-- `buffer[nameOffset - 1] = '\0'`: the last byte becomes the NUL. In an empty directory that write
-- lies before the buffer, which is a fault.
pub end_names : List ℕ → Option (List ℕ)
end_names [] = none
end_names (x ∷ xs) = some (take (length xs) (x ∷ xs) ++ (0 ∷ []))

pub get_dir_entries : Node → Option (List ℕ)
unfolding names_loop
get_dir_entries n = do
  assert (is_dir n.info)
  bytes ← names_loop (n.info.size_low + 1) (node_io n) n.info.size_low 0
  end_names bytes
