-- ===== src/User/Cat.antt =====
-- t0.dir/sbin/cat.c: the files whose names stand in the argument, one after the other. A string is a function
-- from the index. The contents of a file, that `open`, `len`, `read` and `close` give, are a parameter: `none` for a name
-- that cannot be opened, where the run is not followed further.
pub mod Laws
use osfinal_project.Prelude.{
  ℕ, zero, suc, ◌+◌, Bool, true, false, Option, none, some, List, [], ◌∷◌, ◌++◌, ◌||◌, ◌==◌,
  if◌then◌else◌, slice, get_or, length,
}
use osfinal_project.Word.{sub32}
use osfinal_project.User.Grep.{part_length}

-- `strcmp`, from index `i` on, of characters below 128; the difference as a word.
pub strcmp : ℕ → (s1 s2 : ℕ → ℕ) → ℕ → Option ℕ
strcmp zero s1 s2 i = none
strcmp (suc f) s1 s2 i = elim (s1 i == s2 i) [
  | false ↦ some (sub32 (s1 i) (s2 i))
  | true ↦ elim (s1 i == 0) [ true ↦ some 0 | false ↦ strcmp f s1 s2 (i + 1) ]
]

-- The string with these characters.
abbrev pub c_string : List ℕ → ℕ → ℕ
c_string cs k = get_or cs k 0

-- Whether `strcmp` finds no difference; it ends at the NUL of the name at the latest.
pub is_name : List ℕ → List ℕ → Bool
unfolding strcmp
is_name name other = elim (strcmp (suc (length name)) (c_string name) (c_string other) 0) [
  | none ↦ false
  | some d ↦ d == 0
]

-- `.`, `..` and `lost+found`
abbrev pub lost_found : List ℕ
lost_found = b'l' ∷ b'o' ∷ b's' ∷ b't' ∷ b'+' ∷ b'f' ∷ b'o' ∷ b'u' ∷ b'n' ∷ b'd' ∷ []

pub is_skipped : List ℕ → Bool
unfolding is_name
is_skipped name =
    is_name name (b'.' ∷ []) || is_name name (b'.' ∷ b'.' ∷ []) || is_name name lost_found

-- The loop of `main`: what it writes.
pub cat_loop :
    ℕ → (contents : List ℕ → Option (List ℕ)) → (file_names : ℕ → ℕ) → ℕ → Option (List ℕ)
cat_loop zero contents s i = none
cat_loop (suc f) contents s i = elim (s i == 0) [
  | true ↦ some []
  | false ↦ elim (part_length f s i 0) [
    | none ↦ none
    | some j ↦
        let name = slice s i j in
        let next = if s (i + j) == 0x20 then i + (j + 1) else i + j in
        elim (is_skipped name) [
          | true ↦ cat_loop f contents s next
          | false ↦ elim (contents name) [
            | none ↦ none
            | some c ↦ elim (cat_loop f contents s next) [
              | none ↦ none
              | some rest ↦ some (c ++ rest)
            ]
          ]
        ]
  ]
]
