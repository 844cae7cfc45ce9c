-- ===== src/User/Shell/Demo.antt =====
-- t0.dir/sbin/shell.c: the demonstration, and the lines that the shell reads. What a program does is not part of it.
use osfinal_project.Prelude.{ℕ, zero, suc, ◌≡◌, refl, Option, none, some, List, [], ◌∷◌, ◌++◌, drop}
use osfinal_project.User.Cat.{c_string}
use osfinal_project.User.Shell.{
  Program, cd, cat, grep, wc, ls, pwd, echo, exec, Command, demo, launch, invalid, shell_command,
}

-- The lines of the demonstration.
abbrev demo_lines : List (List ℕ)
demo_lines =
    (b'p' ∷ b'w' ∷ b'd' ∷ [])
    ∷ (b'e' ∷ b'c' ∷ b'h' ∷ b'o' ∷ b' ' ∷ b'/' ∷ b'e' ∷ b't' ∷ b'c' ∷ b'/' ∷ b'd' ∷ b'a' ∷ b't'
        ∷ b'a' ∷ b'.' ∷ b't' ∷ b'x' ∷ b't' ∷ [])
    ∷ (b'c' ∷ b'a' ∷ b't' ∷ b' ' ∷ b'/' ∷ b'e' ∷ b't' ∷ b'c' ∷ b'/' ∷ b'd' ∷ b'a' ∷ b't' ∷ b'a'
        ∷ b'.' ∷ b't' ∷ b'x' ∷ b't' ∷ [])
    ∷ (b'l' ∷ b's' ∷ [])
    ∷ (b'c' ∷ b'd' ∷ b' ' ∷ b'e' ∷ b't' ∷ b'c' ∷ [])
    ∷ (b'p' ∷ b'w' ∷ b'd' ∷ [])
    ∷ (b'e' ∷ b'c' ∷ b'h' ∷ b'o' ∷ b' ' ∷ b'd' ∷ b'a' ∷ b't' ∷ b'a' ∷ b'.' ∷ b't' ∷ b'x' ∷ b't'
        ∷ [])
    ∷ (b'c' ∷ b'a' ∷ b't' ∷ b' ' ∷ b'd' ∷ b'a' ∷ b't' ∷ b'a' ∷ b'.' ∷ b't' ∷ b'x' ∷ b't' ∷ [])
    ∷ (b'l' ∷ b's' ∷ [])
    ∷ (b'c' ∷ b'd' ∷ b' ' ∷ b'.' ∷ b'.' ∷ [])
    ∷ (b'p' ∷ b'w' ∷ b'd' ∷ [])
    ∷ (b'g' ∷ b'r' ∷ b'e' ∷ b'p' ∷ b' ' ∷ b'i' ∷ b's' ∷ b' ' ∷ b'/' ∷ b'e' ∷ b't' ∷ b'c' ∷ b'/'
        ∷ b'd' ∷ b'a' ∷ b't' ∷ b'a' ∷ b'.' ∷ b't' ∷ b'x' ∷ b't' ∷ [])
    ∷ (b'w' ∷ b'c' ∷ b' ' ∷ b'/' ∷ b'e' ∷ b't' ∷ b'c' ∷ b'/' ∷ b'd' ∷ b'a' ∷ b't' ∷ b'a' ∷ b'.'
        ∷ b't' ∷ b'x' ∷ b't' ∷ [])
    ∷ (b'e' ∷ b'x' ∷ b'e' ∷ b'c' ∷ b' ' ∷ b'l' ∷ b's' ∷ [])
    ∷ (b'e' ∷ b'x' ∷ b'e' ∷ b'c' ∷ b' ' ∷ b'c' ∷ b'd' ∷ b' ' ∷ b'e' ∷ b't' ∷ b'c' ∷ [])
    ∷ (b'l' ∷ b's' ∷ b' ' ∷ b'|' ∷ b' ' ∷ b'c' ∷ b'a' ∷ b't' ∷ [])
    ∷ (b'l' ∷ b's' ∷ b' ' ∷ b'|' ∷ b' ' ∷ b'e' ∷ b'c' ∷ b'h' ∷ b'o' ∷ [])
    ∷ []

-- What a line leads to: a program, with its argument; or a complaint.
pub data Event : Type 0 where
  started : Program → Option (List ℕ) → Event
  complains : Event

-- The calls for one line after the other.
abbrev handle_all : (List ℕ → Option (List Event)) → List (List ℕ) → Option (List Event)
handle_all handle [] = some []
handle_all handle (l ∷ lines) =
    let rest = handle_all handle lines in
    elim (handle l) [
      | none ↦ none
      | some es ↦ elim rest [ none ↦ none | some fs ↦ some (es ++ fs) ]
    ]

-- `mainShellHandler`: the child of a fork starts the program, and its parent waits for it; the child of the
-- demonstration calls the function for each of its lines. `none` is out of fuel.
handle_line : ℕ → List ℕ → Option (List Event)
handle_line zero line = none
handle_line (suc f) line = elim (shell_command (c_string line)) [
  | demo ↦ handle_all (handle_line f) demo_lines
  | launch program none ↦ some (started program none ∷ [])
  | launch program (some k) ↦ some (started program (some (drop k line)) ∷ [])
  | invalid ↦ some (complains ∷ [])
]

-- The loop of `main`, over the lines that were typed.
shell_main : List (List ℕ) → Option (List Event)
unfolding handle_line
shell_main lines = handle_all (handle_line 2) lines

-- The events of the demonstration.
abbrev demo_events : List Event
demo_events =
    started pwd (some ([]))
    ∷ started echo (
        some (
          b'/' ∷ b'e' ∷ b't' ∷ b'c' ∷ b'/' ∷ b'd' ∷ b'a' ∷ b't' ∷ b'a' ∷ b'.' ∷ b't' ∷ b'x' ∷ b't'
          ∷ []))
    ∷ started cat (
        some (
          b'/' ∷ b'e' ∷ b't' ∷ b'c' ∷ b'/' ∷ b'd' ∷ b'a' ∷ b't' ∷ b'a' ∷ b'.' ∷ b't' ∷ b'x' ∷ b't'
          ∷ []))
    ∷ started ls none
    ∷ started cd (some (b'e' ∷ b't' ∷ b'c' ∷ []))
    ∷ started pwd (some ([]))
    ∷ started echo (some (b'd' ∷ b'a' ∷ b't' ∷ b'a' ∷ b'.' ∷ b't' ∷ b'x' ∷ b't' ∷ []))
    ∷ started cat (some (b'd' ∷ b'a' ∷ b't' ∷ b'a' ∷ b'.' ∷ b't' ∷ b'x' ∷ b't' ∷ []))
    ∷ started ls none
    ∷ started cd (some (b'.' ∷ b'.' ∷ []))
    ∷ started pwd (some ([]))
    ∷ started grep (
        some (
          b'i' ∷ b's' ∷ b' ' ∷ b'/' ∷ b'e' ∷ b't' ∷ b'c' ∷ b'/' ∷ b'd' ∷ b'a' ∷ b't' ∷ b'a' ∷ b'.'
          ∷ b't' ∷ b'x' ∷ b't' ∷ []))
    ∷ started wc (
        some (
          b'/' ∷ b'e' ∷ b't' ∷ b'c' ∷ b'/' ∷ b'd' ∷ b'a' ∷ b't' ∷ b'a' ∷ b'.' ∷ b't' ∷ b'x' ∷ b't'
          ∷ []))
    ∷ started exec (some (b'l' ∷ b's' ∷ []))
    ∷ started exec (some (b'c' ∷ b'd' ∷ b' ' ∷ b'e' ∷ b't' ∷ b'c' ∷ []))
    ∷ started ls (some (b'c' ∷ b'a' ∷ b't' ∷ []))
    ∷ started ls (some (b'e' ∷ b'c' ∷ b'h' ∷ b'o' ∷ []))
    ∷ []

-- What is asked for of the events of a line.
abbrev Handled : List ℕ → Command → List Event → Type 0
Handled line demo es = es ≡ demo_events
Handled line (launch p none) es = es ≡ started p none ∷ []
Handled line (launch p (some k)) es = es ≡ started p (some (drop k line)) ∷ []
Handled line invalid es = es ≡ complains ∷ []

demo_run : (f : ℕ) → handle_all (handle_line (suc f)) demo_lines ≡ some demo_events
unfolding handle_line shell_command
demo_run f = refl

handle_line-Handled :
    (f : ℕ) (line : List ℕ)
    → (es : List Event) × (handle_line (suc (suc f)) line ≡ some es)
      × Handled line (shell_command (c_string line)) es
unfolding handle_line
handle_line-Handled f line = go (shell_command (c_string line))
  where
    go :
        (c : Command)
        → (es : List Event) × ((elim c [
          | demo ↦ handle_all (handle_line (suc f)) demo_lines
          | launch program none ↦ some (started program none ∷ [])
          | launch program (some k) ↦ some (started program (some (drop k line)) ∷ [])
          | invalid ↦ some (complains ∷ [])
        ])
            ≡ some es)
          × Handled line c es
    go demo = (demo_events, demo_run f, refl)
    go (launch p none) = (started p none ∷ [], refl, refl)
    go (launch p (some k)) = (started p (some (drop k line)) ∷ [], refl, refl)
    go invalid = (complains ∷ [], refl, refl)
