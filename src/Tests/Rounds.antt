-- ===== src/Tests/Rounds.antt =====
-- A reusable barrier on which two threads meet three times.
use osfinal_project.Prelude.{◌≡◌, arith, false, some, List, [], ◌∷◌}
use osfinal_project.Turns.{any, Stuck, run}
use osfinal_project.Reusable.{ReusableBarrier, Thread, reusable_barrier, advance, callers}
use osfinal_project.Reusable.Rounds.{InStep, unfinished, sync-Rounds}

sync-Rounds_example :
    (r : ReusableBarrier × List Thread) × (run advance
        (reusable_barrier 2)
        (callers 3 0 2)
        (0 ∷ 0 ∷ 0 ∷ 1 ∷ 1 ∷ 0 ∷ 0 ∷ 1 ∷ [])
      ≡ some r)
    × InStep 3 r.1
    × (Stuck advance r.0 r.1 → any unfinished r.1 ≡ false)
sync-Rounds_example =
    sync-Rounds 2 3 (0 ∷ 0 ∷ 0 ∷ 1 ∷ 1 ∷ 0 ∷ 0 ∷ 1 ∷ []) (omega arith) (omega arith) (omega arith)
      (omega arith)
