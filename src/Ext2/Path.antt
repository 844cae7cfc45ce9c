-- ===== src/Ext2/Path.antt =====
-- `Ext2::find` of kernel/ext2.h: the node that a path names, one component after the other.
pub mod Laws
use osfinal_project.Prelude.{
  ℕ, zero, suc, ◌+◌, Bool, true, false, Option, none, some, List, [], ◌∷◌, ◌++◌, ◌>>=◌, ◌>>◌,
  assert, leb, ◌==◌, ◌||◌, if◌then◌else◌, length,
}
use osfinal_project.Ext2.Inode.{Node}
use osfinal_project.Ext2.Mount.{Ext2, get_node}
use osfinal_project.Ext2.Directory.{find}

-- `while (path[idx] == '/') idx++`; the rest of the path stands for `idx`.
pub skip_slashes : List ℕ → List ℕ
skip_slashes [] = []
skip_slashes (c ∷ p) = let rest = skip_slashes p in if c == b'/' then rest else c ∷ p

pub at_end : List ℕ → Bool
at_end [] = true
at_end (c ∷ p) = c == 0

-- The characters up to the next '/' or to the end, and the path from there on.
pub take_part : List ℕ → List ℕ × List ℕ
take_part [] = ([], [])
take_part (c ∷ p) =
    let (part, rest) = take_part p in if c == 0 || c == b'/' then ([], c ∷ p) else (c ∷ part, rest)

-- The node with the name in the directory; `none` inside is the null reference.
pub lookup : Ext2 → Node → List ℕ → Option (Option Node)
lookup fs dir name = do
  number ← find dir name
  if number == 0 then some none else (do n ← get_node fs number; some (some n))

-- The loop of `find`. A part holds 256 characters at most, which `ASSERT(i < 256)` checks.
pub find_loop : ℕ → Ext2 → Option Node → List ℕ → Option (Option Node)
find_loop zero fs current path = none
find_loop (suc f) fs none path = some none
find_loop (suc f) fs (some dir) path =
    let rest = skip_slashes path in
    elim (at_end rest) [
      | true ↦ some (some dir)
      | false ↦ elim (leb (length (take_part rest).0) 256) [
        | false ↦ none
        | true ↦ elim (lookup fs dir (take_part rest).0) [
          | none ↦ none
          | some next ↦ find_loop f fs next (take_part rest).1
        ]
      ]
    ]

-- Each round takes a character of the path at least.
pub find_path : Ext2 → Option Node → List ℕ → Option (Option Node)
find_path fs current path = find_loop (length path + 1) fs current path
