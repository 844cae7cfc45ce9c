-- ===== src/Syscall/Directory.antt =====
-- The calls on directories of kernel/sys.cc: `changeDir`, `ls`, `getDirEntriesLength`, and the string
-- that `pwd` prints. The working directory is one for the whole kernel: it is kept in the file system.
pub mod Laws
use osfinal_project.Prelude.{
  ℕ, zero, suc, ◌+◌, ◌-◌, Bool, true, false, Option, none, some, List, [], ◌∷◌, ◌++◌, ◌&&◌, ◌||◌,
  ltb, leb, ◌==◌, ◌!=◌, if◌then◌else◌, update, take, get_elem?,
}
use osfinal_project.Ext2.Layout.{is_dir}
use osfinal_project.Ext2.Inode.{Node}
use osfinal_project.Ext2.Mount.{Ext2}
use osfinal_project.Ext2.Path.{find_path}
use osfinal_project.Ext2.Directory.{get_length_of_dir_entries, get_dir_entries}
use osfinal_project.Syscall.Process.{State, minus_one}
use osfinal_project.Syscall.Files.{slot}

-- `root`, `current` and `cwd` of the class `Ext2`. The bytes from `cwd` on are a function of the
-- index, so that nothing stops an index at the hundred bytes that the kernel allocates.
pub record Place : Type 0 where
  pub fs : Ext2
  pub root : Node
  pub current : Option Node
  pub cwd : ℕ → ℕ

-- `while (m[i] != '\0') i++`; `none` is the end of the fuel.
pub find_nul : ℕ → (ℕ → ℕ) → ℕ → Option ℕ
find_nul zero m i = none
find_nul (suc f) m i = elim (m i == 0) [ true ↦ some i | false ↦ find_nul f m (i + 1) ]

-- The characters up to the NUL, as `find` and `printf` read them.
pub string_at : ℕ → (ℕ → ℕ) → ℕ → Option (List ℕ)
string_at zero m i = none
string_at (suc f) m i = elim (m i == 0) [
  | true ↦ some []
  | false ↦ elim (string_at f m (i + 1)) [ none ↦ none | some cs ↦ some (m i ∷ cs) ]
]

-- `for (i = from; i < 100; i++) cwd[i] = '\0'`
abbrev pub clear_from : (ℕ → ℕ) → ℕ → ℕ → ℕ
clear_from m from i = if leb from i && ltb i 100 then 0 else m i

-- The loop that looks for the last slash, with the index found so far.
last_slash : ℕ → (ℕ → ℕ) → ℕ → ℕ → Option ℕ
last_slash zero m i last = none
last_slash (suc f) m i last = elim (m i == 0) [
  | true ↦ some last
  | false ↦ last_slash f m (i + 1) (if m i == b'/' then i else last)
]

-- The loop that copies `path` from `j` on to `cwd` from `i` on, and the NUL behind it.
copy_path : ℕ → (cwd path : ℕ → ℕ) → (i j : ℕ) → Option (ℕ → ℕ)
copy_path zero cwd path i j = none
copy_path (suc f) cwd path i j = elim (path j == 0) [
  | true ↦ some (update cwd i 0)
  | false ↦ copy_path f (update cwd i (path j)) path (i + 1) (j + 1)
]

-- A path that starts with a slash: the root, whatever follows the slash.
to_root : Place → Place
to_root p = record p { current = some (p.root); cwd = clear_from (update p.cwd 0 b'/') 1 }

-- A path that starts with two dots.
to_parent : ℕ → Place → Option Place
unfolding last_slash
to_parent f p = elim (find_path p.fs p.current (b'.' ∷ b'.' ∷ [])) [
  | none ↦ none
  | some parent ↦ elim (last_slash f p.cwd 0 0) [
    | none ↦ none
    | some last ↦ some (record p {
      current = parent;
      cwd = clear_from (if last == 0 then update p.cwd 0 b'/' else p.cwd) (last + 1);
    })
  ]
]

-- Any other path is put behind the string in `cwd`, and the new string is looked up from the current
-- directory. At an empty `cwd` the test reads `path[-1]`, which is a fault here.
to_child : ℕ → Place → (ℕ → ℕ) → Option Place
unfolding copy_path
to_child f p path = elim (find_nul f p.cwd 0) [
  | none ↦ none
  | some zero ↦ none
  | some (suc i) ↦
      let joined = if path i != b'/' then update p.cwd (suc i) b'/' else p.cwd in
      elim (copy_path f joined path (suc i) 0) [
        | none ↦ none
        | some cwd ↦ elim (string_at f cwd 0) [
          | none ↦ none
          | some name ↦ elim (find_path p.fs p.current name) [
            | none ↦ none
            | some found ↦ some (record p { current = found; cwd = cwd })
          ]
        ]
      ]
]

-- `changeDir`; the fuel bounds the loops over the two strings.
pub change_dir : ℕ → Place → (ℕ → ℕ) → Option Place
unfolding to_root to_parent to_child
change_dir f p path =
    if path 0 == b'/'
    then some (to_root p)
    else if path 0 == b'.' && path 1 == b'.'
    then to_parent f p
    else if path 0 == b'.'
    then some p
    else to_child f p path

-- `pwd`: what it prints.
pub pwd : ℕ → Place → Option (List ℕ)
pwd f p = elim (string_at f p.cwd 0) [ none ↦ none | some cs ↦ some (cs ++ (0x0a ∷ [])) ]

-- `ls`: the bytes that it copies to the buffer of the caller. With no current directory it is a fault.
pub ls : Place → Option (List ℕ)
ls p = elim p.current [
  | none ↦ none
  | some dir ↦ elim (get_length_of_dir_entries dir) [
    | none ↦ none
    | some len ↦ elim (get_dir_entries dir) [ none ↦ none | some bytes ↦ some (take len bytes) ]
  ]
]

-- `getDirEntriesLength`
pub get_dir_entries_length : State → ℕ → Option ℕ
get_dir_entries_length s fd = if ltb 9 fd then some minus_one else elim (slot s fd) [
  | none ↦ none
  | some none ↦ some minus_one
  | some (some k) ↦ elim (s.files k).node [
    | none ↦ some minus_one
    | some node ↦ elim (is_dir node.info) [
      | false ↦ some minus_one
      | true ↦ get_length_of_dir_entries node
    ]
  ]
]
