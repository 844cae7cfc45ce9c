-- ===== src/Tests/Wait.antt =====
-- A future that two threads wait for, a lock between two processors, and a line for the shells.
use osfinal_project.Prelude.{
  ℕ, ◌≤◌, ◌≡◌, refl, true, false, some, List, [], ◌∷◌, ◌==◌, if◌then◌else◌,
}
use osfinal_project.Turns.{total, any, Stuck, run}
use osfinal_project.Future.{Future, Pc, future, advance, callers}
use osfinal_project.Future.Laws.{AllGot, unfinished}
use osfinal_project.Future.Done.{get-Done}
use osfinal_project.Lock
use osfinal_project.Lock.{Lock, Cpu, processors}
use osfinal_project.Lock.Laws.{holds, AllFlagged, lock-Excludes}

get-Done_example :
    (r : Future ℕ × List (Pc ℕ)) × (run advance
        (future 0)
        (callers 7 2)
        (1 ∷ 0 ∷ 0 ∷ 2 ∷ 0 ∷ 0 ∷ [])
      ≡ some r)
    × AllGot 7 r.1
    × (Stuck advance r.0 r.1 → any unfinished r.1 ≡ false)
get-Done_example = get-Done 0 7 2 (1 ∷ 0 ∷ 0 ∷ 2 ∷ 0 ∷ 0 ∷ [])

abbrev free_lock : Lock
free_lock = record { taken = false; was = true }

lock-Excludes_example :
    (r : Lock × List Cpu) × (run Lock.advance free_lock
        (processors (false ∷ true ∷ []))
        (0 ∷ 0 ∷ 1 ∷ 1 ∷ 0 ∷ 1 ∷ 0 ∷ [])
      ≡ some r)
    × (total holds r.1 ≤ 1)
    × AllFlagged r.0 (false ∷ true ∷ []) r.1
lock-Excludes_example =
    lock-Excludes (false ∷ true ∷ []) free_lock (0 ∷ 0 ∷ 1 ∷ 1 ∷ 0 ∷ 1 ∷ 0 ∷ []) refl

-- The line `wc x`.
abbrev line : ℕ → ℕ
line i =
    if i == 0
    then b'w'
    else if i == 1
    then b'c'
    else if i == 2
    then b' '
    else if i == 3
    then b'x'
    else 0
