-- ===== src/Tests/Turn.antt =====
-- Three threads on one processor: 1 runs, 2 and 3 are ready.
use osfinal_project.Prelude.{ℕ, suc, refl, arith, List, [], ◌∷◌, ◌++◌, ◌==◌, if◌then◌else◌, length}
use osfinal_project.Chain.{end, link}
use osfinal_project.Threads.{Threads, yields}
use osfinal_project.Threads.Laws.{IsReady, yields-Runs}

abbrev three : Threads
three = record {
  ready = record { first = 2; last = 3; next = λ i. if i == 2 then 3 else 0 };
  zombies_first = 0;
  zombies_last = 0;
  active = 1;
  idle = 9;
}

three-IsReady : IsReady three 1 (2 ∷ 3 ∷ [])
three-IsReady = record {
  runs = refl;
  queued = record { chain = link (omega arith) refl (link (omega arith) refl end); ends = refl };
  apart = refl;
  nonnull = omega arith;
  busy = refl;
}

abbrev first_two : List ℕ
first_two = 2 ∷ []

yields-Runs_example : IsReady (yields (suc (length first_two)) three) 3 ([] ++ (1 ∷ 2 ∷ []))
yields-Runs_example = yields-Runs three 1 (2 ∷ []) 3 [] three-IsReady
