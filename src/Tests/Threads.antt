-- ===== src/Tests/Threads.antt =====
-- Queues and semaphores with a few threads.
use osfinal_project.Prelude.{ℕ, ◌≡◌, ◌==◌, refl, inl, inr, arith, none, some, List, [], ◌∷◌, update}
use osfinal_project.Chain.{end, link}
use osfinal_project.Queue.{Queue}
use osfinal_project.Queue.Laws.{IsQueue}
use osfinal_project.Semaphore.{Semaphore, Call, call_down, call_up}
use osfinal_project.Semaphore.Laws.{IsSemaphore, Fair, run, run-Fair}
use osfinal_project.Syscall.Semaphores.{Semaphores}
use osfinal_project.Syscall.Semaphores.Laws.{Names}

-- The threads 0x10 and 0x20 wait.
abbrev two_waiting : Queue
two_waiting = record { first = 0x10; last = 0x20; next = update (λ a. 0) 0x10 0x20 }

two_waiting-IsQueue : IsQueue two_waiting (0x10 ∷ 0x20 ∷ [])
two_waiting-IsQueue = record {
  chain = link (omega arith) refl (link (omega arith) refl end);
  ends = refl;
}

abbrev crowded : Semaphore
crowded = record { count = 0; waiting = two_waiting }

crowded-IsSemaphore : IsSemaphore crowded 0 (0x10 ∷ 0x20 ∷ [])
crowded-IsSemaphore = record { counted = refl; queued = two_waiting-IsQueue; either = inl refl }

abbrev calls : List Call
calls = call_down 0x30 ∷ call_up ∷ call_up ∷ call_up ∷ call_up ∷ call_down 0x10 ∷ []

-- The idle thread is 0x50.
run-Fair_example :
    (r : List ℕ × Semaphore) × (run (λ t. t == 0x50) crowded calls ≡ some r)
    × Fair 0 (0x10 ∷ 0x20 ∷ []) calls r.0 r.1
run-Fair_example =
    run-Fair (λ t. t == 0x50) crowded 0 (0x10 ∷ 0x20 ∷ []) calls crowded-IsSemaphore
      (
        (omega arith, refl, inr refl),
        (
          omega arith,
          (omega arith, (omega arith, (omega arith, ((omega arith, refl, inr refl), tt)))),
        ),
      )

-- A process with one semaphore, on which two threads wait.
abbrev one_semaphore : Semaphores
one_semaphore = record {
  sp = some 4 ∷ none ∷ none ∷ none ∷ none ∷ none ∷ none ∷ none ∷ none ∷ none ∷ [];
  objects = λ k. crowded;
  next_object = 5;
}

one_semaphore-Names : Names one_semaphore 10 0 (0x10 ∷ 0x20 ∷ [])
one_semaphore-Names = record {
  low = omega arith;
  high = omega arith;
  object = 4;
  entry = refl;
  valid = crowded-IsSemaphore;
}
