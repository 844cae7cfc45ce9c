-- ===== src/Syscall/Directory/Laws.antt =====
-- What `changeDir` does to the string of the working directory.
use osfinal_project.Prelude.{
  ℕ, zero, suc, ◌+◌, ◌<◌, ◌≡◌, ◌≢◌, refl, ap, ◌∙◌, arith, some, List, [], ◌∷◌, ◌++◌, ◌!=◌,
  if◌then◌else◌, update, length, length-append, subst, ap₂, ◌>>=◌,
}
use osfinal_project.Ext2.Path.{find_path}
use osfinal_project.Syscall.Directory.{
  Place, find_nul, string_at, clear_from, copy_path, change_dir,
}

-- From index `i` on, memory holds the characters of the list and a NUL behind them.
abbrev pub StringAt : (ℕ → ℕ) → ℕ → List ℕ → Type 0
StringAt m i [] = m i ≡ 0
StringAt m i (c ∷ cs) = (m i ≡ c) × (c ≢ 0) × StringAt m (suc i) cs

find_nul_lem :
    (f : ℕ) (m : ℕ → ℕ) (i : ℕ) (cs : List ℕ)
    → StringAt m i cs
    → length cs < f
    → find_nul f m i ≡ some (i + length cs)
unfolding find_nul
find_nul_lem zero m i cs h lt = elim lt [ ]
find_nul_lem (suc f) m i [] h lt = ground arith
find_nul_lem (suc f) m i (c ∷ cs) h lt =
    ground (arith, find_nul_lem f m (suc i) cs h.2 (omega arith), next)
  where
    next : find_nul f m (i + 1) ≡ find_nul f m (suc i)
    next = ap (find_nul f m) (omega arith)

string_at_lem :
    (f : ℕ) (m : ℕ → ℕ) (i : ℕ) (cs : List ℕ)
    → StringAt m i cs
    → length cs < f
    → string_at f m i ≡ some cs
unfolding string_at
string_at_lem zero m i cs h lt = elim lt [ ]
string_at_lem (suc f) m i [] h lt = ground arith
string_at_lem (suc f) m i (c ∷ cs) h lt =
    ground (arith, string_at_lem f m (suc i) cs h.2 (omega arith), next)
  where
    next : string_at f m (i + 1) ≡ string_at f m (suc i)
    next = ap (string_at f m) (omega arith)

-- The copy lays the characters of `path` at `i`, and leaves everything before `i` as it was.
copy_path_lem :
    (f : ℕ) (cwd path : ℕ → ℕ) (i j : ℕ) (cs : List ℕ)
    → StringAt path j cs
    → length cs < f
    → (m : ℕ → ℕ) × (copy_path f cwd path i j ≡ some m)
      × StringAt m i cs
      × ((k : ℕ) → k < i → m k ≡ cwd k)
unfolding copy_path
copy_path_lem zero cwd path i j cs h lt = elim lt [ ]
copy_path_lem (suc f) cwd path i j [] h lt =
    (update cwd i 0, ground arith, ground arith, λ k lt. ground arith)
copy_path_lem (suc f) cwd path i j (c ∷ cs) h lt =
    let (m, e, s, before) =
      copy_path_lem f (update cwd i (path j)) path (suc i) (suc j) cs h.2 (omega arith) in
    (
      m,
      ground (arith, e, same),
      (ground (arith, before i), h.1, s),
      λ k lt. ground (arith, before k),
    )
  where
    same :
        copy_path f (update cwd i (path j)) path (i + 1) (j + 1)
        ≡ copy_path f (update cwd i (path j)) path (suc i) (suc j)
    same = ap₂ (copy_path f (update cwd i (path j)) path) (omega arith) (omega arith)

-- A string that is kept up to its NUL, with another string there.
StringAt-append :
    (m cwd : ℕ → ℕ) (i e : ℕ) (xs ys : List ℕ)
    → StringAt cwd i xs
    → e ≡ i + length xs
    → ((k : ℕ) → k < e → m k ≡ cwd k)
    → StringAt m e ys
    → StringAt m i (xs ++ ys)
StringAt-append m cwd i e [] ys h at same s = subst (λ (k : ℕ). StringAt m k ys) (omega arith) s
StringAt-append m cwd i e (x ∷ xs) ys h at same s = (
  same i (omega arith) ∙ h.0,
  h.1,
  StringAt-append m cwd (suc i) e xs ys h.2 (omega arith) same s,
)

-- With enough fuel for both strings, `changeDir` to a name that starts with neither a slash nor a
-- dot puts the name directly behind the string of the working directory, with nothing between, and
-- looks that whole string up from the current directory.
change_dir_append :
    (f : ℕ) (p : Place) (path : ℕ → ℕ) (x c : ℕ) (xs cs : List ℕ)
    → StringAt p.cwd 0 (x ∷ xs)
    → StringAt path 0 (c ∷ cs)
    → c ≢ b'/'
    → c ≢ b'.'
    → length ((x ∷ xs) ++ (c ∷ cs)) < f
    → (m : ℕ → ℕ) × StringAt m 0 ((x ∷ xs) ++ (c ∷ cs))
      × (change_dir f p path ≡ (
          find_path p.fs p.current ((x ∷ xs) ++ (c ∷ cs)) >>= λ found.
          some (record p { current = found; cwd = m })))
unfolding change_dir
change_dir_append f p path x c xs cs hw hp not_slash not_dot fuel =
    let (m, e, s, before) = copied in
    let whole : StringAt m 0 ((x ∷ xs) ++ (c ∷ cs)) =
      StringAt-append m p.cwd 0 (suc (length xs)) (x ∷ xs) (c ∷ cs) hw (omega arith)
        (λ k lt. before k lt ∙ spared k lt) s in
    (
      m,
      whole,
      ground (
        arith,
        e,
        find_nul_lem f p.cwd 0 (x ∷ xs) hw (omega (arith, size)),
        string_at_lem f m 0 ((x ∷ xs) ++ (c ∷ cs)) whole fuel,
      ),
    )
  where
    size : length ((x ∷ xs) ++ (c ∷ cs)) ≡ length (x ∷ xs) + length (c ∷ cs)
    size = length-append (x ∷ xs) (c ∷ cs)

    joined : ℕ → ℕ
    joined = if path (length xs) != b'/' then update p.cwd (suc (length xs)) b'/' else p.cwd

    copied :
        (m : ℕ → ℕ) × (copy_path f joined path (suc (length xs)) 0 ≡ some m)
        × StringAt m (suc (length xs)) (c ∷ cs)
        × ((k : ℕ) → k < suc (length xs) → m k ≡ joined k)
    copied = copy_path_lem f joined path (suc (length xs)) 0 (c ∷ cs) hp (omega (arith, size))

    spared : (k : ℕ) → k < suc (length xs) → joined k ≡ p.cwd k
    spared k lt = ground arith

-- `cd` of any path that starts with a slash goes to the root, and makes the string "/".
change_dir_root :
    (f : ℕ) (p : Place) (path : ℕ → ℕ)
    → path 0 ≡ b'/'
    → (q : Place) × (change_dir f p path ≡ some q)
      × (q.current ≡ some p.root)
      × StringAt q.cwd 0 (b'/' ∷ [])
unfolding change_dir
change_dir_root f p path h = (
  record p { current = some (p.root); cwd = clear_from (update p.cwd 0 b'/') 1 },
  ground arith,
  refl,
  ground arith,
)
