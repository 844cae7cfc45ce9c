-- ===== src/User/Shell.antt =====
-- t0.dir/sbin/shell.c and t0.dir/sbin/shellHandler.c: what the shell does with a line. A line is the bytes from its address on.
-- `execl` of a program that is there does not come back.
pub mod Laws
pub mod Demo
use osfinal_project.Prelude.{
  ℕ, ◌+◌, ◌^◌, Bool, true, false, Option, none, some, List, [], ◌∷◌, ◌&&◌, ◌==◌, leb, if◌then◌else◌,
}

-- The programs of /sbin that the shell knows.
pub data Program : Type 0 where
  cd : Program
  cat : Program
  grep : Program
  wc : Program
  ls : Program
  pwd : Program
  echo : Program
  exec : Program

-- What a line asks for: the demonstration; a program, with the place in the line where its argument
-- starts, if it gets one; or nothing that the shell knows.
pub data Command : Type 0 where
  demo : Command
  launch : Program → Option ℕ → Command
  invalid : Command

-- The tests of `mainShellHandler`, in the child.
unfoldable pub shell_command : (ℕ → ℕ) → Command
shell_command input =
    if (input 0 == b'd') && (input 1 == b'e') && (input 2 == b'm') && (input 3 == b'o')
    then demo
    else if (input 0 == b'c') && (input 1 == b'd')
    then launch cd (some 3)
    else if (input 0 == b'c') && (input 1 == b'a') && (input 2 == b't')
    then launch cat (some 4)
    else if (input 0 == b'g') && (input 1 == b'r') && (input 2 == b'e') && (input 3 == b'p')
    then launch grep (some 5)
    else if (input 0 == b'w') && (input 1 == b'c')
    then launch wc (some 3)
    else if (input 0 == b'l') && (input 1 == b's')
    then (if input 3 == b'|' then launch ls (some 5) else launch ls none)
    else if (input 0 == b'p') && (input 1 == b'w') && (input 2 == b'd')
    then launch pwd (some 4)
    else if (input 0 == b'e') && (input 1 == b'c') && (input 2 == b'h') && (input 3 == b'o')
    then launch echo (some 5)
    else if (input 0 == b'e') && (input 1 == b'x') && (input 2 == b'e') && (input 3 == b'c')
    then launch exec (some 5)
    else invalid

-- The tests of `main` of shellHandler.c, in the child.
unfoldable pub handler_command : (ℕ → ℕ) → Command
handler_command input =
    if (input 0 == b'c') && (input 1 == b'd')
    then launch cd (some 3)
    else if (input 0 == b'c') && (input 1 == b'a') && (input 2 == b't')
    then launch cat (some 4)
    else if (input 0 == b'g') && (input 1 == b'r') && (input 2 == b'e') && (input 3 == b'p')
    then launch grep (some 5)
    else if (input 0 == b'w') && (input 1 == b'c')
    then launch wc (some 3)
    else if (input 0 == b'l') && (input 1 == b's')
    then (if input 2 == b' ' then launch ls (some 3) else launch ls none)
    else if (input 0 == b'p') && (input 1 == b'w') && (input 2 == b'd')
    then launch pwd (some 4)
    else if (input 0 == b'e') && (input 1 == b'c') && (input 2 == b'h') && (input 3 == b'o')
    then launch echo (some 5)
    else if (input 0 == b'e') && (input 1 == b'x') && (input 2 == b'e') && (input 3 == b'c')
    then launch exec (some 5)
    else invalid
