-- ===== src/User/Grep.antt =====
-- t0.dir/sbin/grep.c: the words of a file that contain the search string. Both are functions from the
-- index, so that a read behind the end of a word is what lies there.
use osfinal_project.Prelude.{
  ℕ, zero, suc, ◌+◌, ◌-◌, Bool, true, false, Option, none, some, List, [], ◌∷◌, ◌++◌, ◌||◌, ltb,
  ◌==◌, ◌!=◌, if◌then◌else◌, slice,
}
use osfinal_project.User.Wc.{word_length}

-- `while (sub[x] != '\0') x++`
unfoldable pub string_length : ℕ → (ℕ → ℕ) → ℕ → Option ℕ
string_length zero s x = none
string_length (suc f) s x = elim (s x == 0) [ true ↦ some x | false ↦ string_length f s (x + 1) ]

-- The loop over `j`: where the first difference between `sub` and `str + i` is, `n` characters at most.
match_length : (sub str : ℕ → ℕ) → (i j n : ℕ) → ℕ
match_length sub str i j zero = j
match_length sub str i j (suc n) =
    let rest = match_length sub str i (j + 1) n in if sub j != str (i + j) then j else rest

-- The loop over `i`, from `i` on, `n` positions.
match_loop : (sub str : ℕ → ℕ) → (x len i n : ℕ) → Bool
unfolding match_length
match_loop sub str x len i zero = false
match_loop sub str x len i (suc n) =
    let rest = match_loop sub str x len (i + 1) n in
    if match_length sub str i 0 len == x then true else rest

-- `isSubstring`; the fuel bounds the length of `sub`.
is_substring : ℕ → (sub str : ℕ → ℕ) → ℕ → Option Bool
unfolding string_length match_loop
is_substring f sub str len = elim (string_length f sub 0) [
  | none ↦ none
  | some x ↦ some (match_loop sub str x len 0 len)
]

-- The length of the part of the command line at `i`, up to a blank or the NUL.
unfoldable pub part_length : ℕ → (ℕ → ℕ) → ℕ → ℕ → Option ℕ
part_length zero input i k = none
part_length (suc f) input i k = elim ((input (i + k) == 0x20) || (input (i + k) == 0)) [
  | true ↦ some k
  | false ↦ part_length f input i (k + 1)
]

-- The two words of the command line: the search string and the name of the file.
split_input : ℕ → (ℕ → ℕ) → Option (List ℕ × List ℕ)
unfolding part_length
split_input f input = elim (part_length f input 0 0) [
  | none ↦ none
  | some i ↦ elim (part_length f input (i + 1) 0) [
    | none ↦ none
    | some k ↦ some (slice input 0 i, slice input (i + 1) k)
  ]
]

-- The loop of `main` over a file of `n` bytes: what it writes, a line for each word that matches.
print_loop : ℕ → (sub c : ℕ → ℕ) → (n i : ℕ) → Option (List ℕ)
print_loop zero sub c n i = none
print_loop (suc f) sub c n i = elim (ltb i n) [
  | false ↦ some []
  | true ↦
      let m = word_length c i (n - i) in
      elim (is_substring f sub (λ k. c (i + k)) m) [
        | none ↦ none
        | some found ↦ elim (print_loop f sub c n (i + (m + 1))) [
          | none ↦ none
          | some rest ↦ some (if found then slice c i m ++ (0x0a ∷ rest) else rest)
        ]
      ]
]
