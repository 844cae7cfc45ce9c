-- ===== src/Syscall/Dispatch.antt =====
-- `sysHandler` of kernel/sys.cc: which call a number stands for, and where its arguments lie on the
-- stack of the user.
use osfinal_project.Prelude.{
  ℕ, zero, suc, ◌+◌, ◌*◌, ◌/◌, Option, none, some, List, [], ◌∷◌, ◌==◌, if◌then◌else◌, slice,
  length, true, false,
}
use osfinal_project.Word.{add32}
use osfinal_project.Syscall.Directory.{string_at}

-- The calls with their arguments; a pointer is an address. `execl` gets copies of its path and of its
-- arguments.
pub data Request : Type 0 where
  exit : ℕ → Request
  write : (fd buf nbyte : ℕ) → Request
  fork : (user_eip user_esp : ℕ) → Request
  sem : ℕ → Request
  up : ℕ → Request
  down : ℕ → Request
  close : ℕ → Request
  shutdown : Request
  wait : (id status : ℕ) → Request
  execl : (path : List ℕ) → (argv : List (List ℕ)) → Request
  open_file : (fn flags : ℕ) → Request
  len : ℕ → Request
  read : (fd buf nbyte : ℕ) → Request
  seek : (fd offset : ℕ) → Request
  ls : ℕ → Request
  get_dir_entries_length : ℕ → Request
  change_dir : ℕ → Request
  pwd : Request
  get_command : Request
  is_done : Request
  clear : Request

-- `while (length % 4 != 0) length++`
abbrev pub round4 : ℕ → ℕ
round4 n = (n + 3) / 4 * 4

-- `esp[i]`, with the memory of words and the memory of bytes of the process.
abbrev pub argument : (ℕ → ℕ) → ℕ → ℕ → ℕ
argument word_at esp i = word_at (add32 esp (4 * i))

-- `while (esp[count + 2] != 0) count++`; out of fuel is `none`.
count_args : ℕ → (ℕ → ℕ) → ℕ → ℕ → Option ℕ
count_args zero word_at esp n = none
count_args (suc f) word_at esp n = elim (argument word_at esp (n + 2) == 0) [
  | true ↦ some n
  | false ↦ count_args f word_at esp (n + 1)
]

-- The copies of the arguments from number `i` on, each with its NUL and padded to whole words.
copy_args : ℕ → (word_at byte_at : ℕ → ℕ) → (esp i n : ℕ) → Option (List (List ℕ))
copy_args f word_at byte_at esp i zero = some []
copy_args f word_at byte_at esp i (suc n) =
    let cur = argument word_at esp (i + 2) in
    elim (string_at f byte_at cur) [
      | none ↦ none
      | some cs ↦ elim (copy_args f word_at byte_at esp (i + 1) n) [
        | none ↦ none
        | some rest ↦ some (slice byte_at cur (round4 (length cs + 1)) ∷ rest)
      ]
    ]

-- Case 9: `execl`.
exec_request : ℕ → (word_at byte_at : ℕ → ℕ) → ℕ → Option Request
unfolding count_args copy_args
exec_request f word_at byte_at esp = elim (string_at f byte_at (argument word_at esp 1)) [
  | none ↦ none
  | some path ↦ elim (count_args f word_at esp 0) [
    | none ↦ none
    | some n ↦ elim (copy_args f word_at byte_at esp 0 n) [
      | none ↦ none
      | some argv ↦ some (execl path argv)
    ]
  ]
]

-- The `switch` on `eax`; a number without a case is a panic. Case 0 does not fall through, since `exit`
-- does not return.
decode : ℕ → (word_at byte_at : ℕ → ℕ) → (eax user_eip esp : ℕ) → Option Request
unfolding exec_request
decode f word_at byte_at eax user_eip esp =
    let a = argument word_at esp 1 in
    let b = argument word_at esp 2 in
    let c = argument word_at esp 3 in
    if eax == 0
    then some (exit a)
    else if eax == 1
    then some (write a b c)
    else if eax == 2
    then some (fork user_eip esp)
    else if eax == 3
    then some (sem a)
    else if eax == 4
    then some (up a)
    else if eax == 5
    then some (down a)
    else if eax == 6
    then some (close a)
    else if eax == 7
    then some shutdown
    else if eax == 8
    then some (wait a b)
    else if eax == 9
    then exec_request f word_at byte_at esp
    else if eax == 10
    then some (open_file a b)
    else if eax == 11
    then some (len a)
    else if eax == 12
    then some (read a b c)
    else if eax == 13
    then some (seek a b)
    else if eax == 14
    then some (ls a)
    else if eax == 15
    then some (get_dir_entries_length a)
    else if eax == 16
    then some (change_dir a)
    else if eax == 17
    then some pwd
    else if eax == 18
    then some get_command
    else if eax == 19
    then some is_done
    else if eax == 20
    then some clear
    else none
