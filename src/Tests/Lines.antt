-- ===== src/Tests/Lines.antt =====
-- A line on the keyboard.
use osfinal_project.Prelude.{◌≡◌, refl, arith, true, false, some, [], ◌∷◌, ◌++◌}
use osfinal_project.Keyboard.{Keyboard}
use osfinal_project.Keyboard.Keys.{TypeLine}
use osfinal_project.Keyboard.Laws.{press_all, press_all-line}
use osfinal_project.Syscall.Directory.Laws.{StringAt}

abbrev fresh : Keyboard
fresh = record { buf = λ i. 7; buf_size = 0; done = false; output = b'>' ∷ [] }

-- The keys of "ls".
keys-TypeLine : TypeLine (0x26 ∷ 0x1f ∷ []) (b'l' ∷ b's' ∷ [])
keys-TypeLine = (
  (22, refl, refl, λ e. omega (arith, e), λ e. omega (arith, e)),
  ((15, refl, refl, λ e. omega (arith, e), λ e. omega (arith, e)), tt),
)

press_all-line_example :
    (t : Keyboard) × (press_all fresh (0x26 ∷ 0x1f ∷ 0x1c ∷ []) ≡ some t)
    × StringAt t.buf 0 (b'l' ∷ b's' ∷ [])
    × (t.done ≡ true)
    × (t.output ≡ (b'>' ∷ []) ++ (b'l' ∷ b's' ∷ 0x0a ∷ []))
press_all-line_example =
    press_all-line fresh (0x26 ∷ 0x1f ∷ []) (b'l' ∷ b's' ∷ []) refl keys-TypeLine (omega arith)
