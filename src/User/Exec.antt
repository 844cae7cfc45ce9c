-- ===== src/User/Exec.antt =====
-- t0.dir/sbin/exec.c and t0.dir/sbin/ls.c: the strings that these programs hand on to `execl`. A string is a
-- function from the index; a write behind a buffer that `malloc` returned is `none`.
pub mod Pipe
use osfinal_project.Prelude.{
  ℕ, zero, suc, ◌+◌, Bool, true, false, Option, none, some, List, [], ◌∷◌, ◌++◌, ◌==◌, ◌&&◌, ltb,
  if◌then◌else◌, slice, length,
}
use osfinal_project.User.Grep.{string_length, part_length}

-- `execl(path, command, argument, 0)`, with the place in the line where the argument starts, if there is one.
pub record Launch : Type 0 where
  pub path : List ℕ
  pub command : List ℕ
  pub argument : Option ℕ

-- The path, in a buffer of 100 bytes: six of `/sbin/`, the first word of the argument, and the NUL.
exec_main : ℕ → (ℕ → ℕ) → Option Launch
exec_main f arg = elim (part_length f arg 0 0) [
  | none ↦ none
  | some j ↦
      let word = slice arg 0 j in
      if ltb (j + 6) 100
      then some (record {
        path = (b'/' ∷ b's' ∷ b'b' ∷ b'i' ∷ b'n' ∷ b'/' ∷ []) ++ word;
        command = word;
        argument = if arg j == 0 then none else some (j + 1);
      })
      else none
]

-- The argument that `ls` hands on to `shellHandler`: the command behind the bar, a blank and the names, in a buffer
-- of 300 bytes. `buff` has 250 bytes: names whose NUL lies behind them are `none`, as the system call then wrote there.
pub ls_output : ℕ → (second_command buff : ℕ → ℕ) → Option (List ℕ)
ls_output f second buff = elim (string_length f second 0) [
  | none ↦ none
  | some i ↦ elim (string_length f buff 0) [
    | none ↦ none
    | some j ↦
        if ltb j 250 && ltb (i + j + 1) 300
        then some (slice second 0 i ++ (0x20 ∷ slice buff 0 j))
        else none
  ]
]
