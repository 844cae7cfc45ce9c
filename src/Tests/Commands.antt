-- ===== src/Tests/Commands.antt =====
-- cat, the line `ls | cat`, and a line of the shell.
use osfinal_project.Prelude.{ℕ, ◌+◌, ◌≡◌, arith, Option, some, List, [], ◌∷◌, ◌++◌}
use osfinal_project.User.Shell.{launch, cat, ls, shell_command, handler_command}
use osfinal_project.User.Cat.{c_string, cat_loop}
use osfinal_project.User.Cat.Laws.{cat_all}
use osfinal_project.User.Exec.{ls_output}
use osfinal_project.User.Exec.Pipe.{joined, pipe-cat}

-- Every file holds its name twice.
abbrev twice : List ℕ → Option (List ℕ)
twice name = some (name ++ name)

abbrev two_names : List (List ℕ)
two_names = (b'.' ∷ []) ∷ (b'a' ∷ b'b' ∷ []) ∷ []

abbrev typed : List ℕ
typed = b'l' ∷ b's' ∷ b' ' ∷ b'|' ∷ b' ' ∷ b'c' ∷ b'a' ∷ b't' ∷ []

pipe-cat_example :
    (shell_command (c_string typed) ≡ launch ls (some 5))
    × (output : List ℕ) × (ls_output 8 (λ k. c_string typed (5 + k)) (c_string (joined two_names))
        ≡ some output)
    × (handler_command (c_string output) ≡ launch cat (some 4))
    × (cat_loop 8 twice (λ k. c_string output (4 + k)) 0 ≡ cat_all twice two_names)
pipe-cat_example =
    pipe-cat 8 twice (c_string typed) (c_string (joined two_names)) two_names (omega arith)
      (omega arith) (omega arith) (omega arith) (omega arith) (omega arith)
