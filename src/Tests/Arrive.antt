-- ===== src/Tests/Arrive.antt =====
-- A barrier for three threads.
use osfinal_project.Prelude.{◌<◌, ◌≡◌, arith, false, some, List, [], ◌∷◌}
use osfinal_project.Turns.{total, any, Stuck, run}
use osfinal_project.Barrier.{Barrier, Pc, barrier, sync, callers}
use osfinal_project.Barrier.Laws.{arriving, through, unfinished, sync-Passed}

sync-Passed_example :
    (r : Barrier × List Pc) × (run sync (barrier 3) (callers 3) (0 ∷ 2 ∷ 1 ∷ 1 ∷ 0 ∷ []) ≡ some r)
    × (0 < total through r.1 → total arriving r.1 ≡ 0)
    × (Stuck sync r.0 r.1 → any unfinished r.1 ≡ false)
sync-Passed_example = sync-Passed 3 (0 ∷ 2 ∷ 1 ∷ 1 ∷ 0 ∷ []) (omega arith) (omega arith)
