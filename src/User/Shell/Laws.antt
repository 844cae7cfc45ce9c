-- ===== src/User/Shell/Laws.antt =====
-- The tests of the shells choose by the name that a line begins with.
use osfinal_project.Prelude.{
  ℕ, ◌+◌, ◌≡◌, refl, arith, Bool, true, false, none, some, List, [], ◌∷◌, ◌&&◌, ◌==◌, if◌then◌else◌,
}
use osfinal_project.User.Shell.{
  cd, cat, grep, wc, ls, pwd, echo, exec, Command, demo, launch, invalid, shell_command,
  handler_command,
}

-- Whether the line begins with the word, from byte `i` on.
abbrev begins : List ℕ → (ℕ → ℕ) → ℕ → Bool
begins [] input i = true
begins (c ∷ cs) input i = (input i == c) && begins cs input (i + 1)

-- The first entry of the table with which the line begins.
abbrev pub choose : List (List ℕ × Command) → (ℕ → ℕ) → Command
choose [] input = invalid
choose ((word, command) ∷ rest) input =
    let others = choose rest input in if begins word input 0 then command else others

-- The names, each with its command; the argument starts behind the name and one more byte.
abbrev pub names : Command → List (List ℕ × Command)
names ls_command =
    (b'c' ∷ b'd' ∷ [], launch cd (some 3))
    ∷ (b'c' ∷ b'a' ∷ b't' ∷ [], launch cat (some 4))
    ∷ (b'g' ∷ b'r' ∷ b'e' ∷ b'p' ∷ [], launch grep (some 5))
    ∷ (b'w' ∷ b'c' ∷ [], launch wc (some 3))
    ∷ (b'l' ∷ b's' ∷ [], ls_command)
    ∷ (b'p' ∷ b'w' ∷ b'd' ∷ [], launch pwd (some 4))
    ∷ (b'e' ∷ b'c' ∷ b'h' ∷ b'o' ∷ [], launch echo (some 5))
    ∷ (b'e' ∷ b'x' ∷ b'e' ∷ b'c' ∷ [], launch exec (some 5))
    ∷ []

abbrev demo_name : List ℕ
demo_name = b'd' ∷ b'e' ∷ b'm' ∷ b'o' ∷ []

and_true : (b : Bool) → (b && true) ≡ b
and_true true = refl
and_true false = refl

and_left : (a b c : Bool) → (a && (b && c)) ≡ ((a && b) && c)
and_left true b c = refl
and_left false b c = refl

ruleset ands = (and_true, and_left)

handler_lem :
    (input : ℕ → ℕ)
    → handler_command input
      ≡ choose (names (if input 2 == b' ' then launch ls (some 3) else launch ls none)) input
unfolding handler_command
handler_lem input = simp ands refl

shell_lem :
    (input : ℕ → ℕ)
    → shell_command input
      ≡ choose
          ((demo_name, demo)
            ∷ names (if input 3 == b'|' then launch ls (some 5) else launch ls none))
          input
unfolding shell_command
shell_lem input = simp ands refl

-- The tests of both shells are a lookup in the table of their commands: the shell and the handler
-- run the program of the first name in the table that the line begins with, on what comes behind
-- the name and one more byte, and take a line that begins with no name for invalid. `ls` gets an
-- argument in the shell only when byte 3 is a bar, and in the handler only when byte 2 is a blank;
-- the shell has `demo` as a name before all others.
command-table :
    (input : ℕ → ℕ)
    → (shell_command input
        ≡ choose
            ((demo_name, demo)
              ∷ names (if input 3 == b'|' then launch ls (some 5) else launch ls none))
            input)
      × (handler_command input
          ≡ choose (names (if input 2 == b' ' then launch ls (some 3) else launch ls none)) input)
command-table input = (shell_lem input, handler_lem input)

-- The two shells agree.
shell-handler :
    (input : ℕ → ℕ)
    → begins demo_name input 0 ≡ false
    → begins (b'l' ∷ b's' ∷ []) input 0 ≡ false
    → shell_command input ≡ handler_command input
unfolding shell_command handler_command
shell-handler input no_demo no_ls = ground (arith, no_demo, no_ls)
