-- ===== src/Threads.antt =====
-- kernel/threads.h and kernel/threads.cc on one processor: which thread runs. The interrupts, which
-- call `yield` too, the flag `no_preempt` and the switch of stacks are not in the model.
pub mod Laws
use osfinal_project.Prelude.{
  ℕ, zero, suc, Bool, true, false, Option, none, some, ◌==◌, if◌then◌else◌,
}
use osfinal_project.Queue.{Queue, add, remove}

-- `readyQ`, with the `next` fields of all threads, the two pointers of `zombies`, and the thread that runs
-- and the idle thread of the processor.
pub record Threads : Type 0 where
  pub ready : Queue
  pub zombies_first : ℕ
  pub zombies_last : ℕ
  pub active : ℕ
  pub idle : ℕ

-- `schedule`
pub schedule : Threads → ℕ → Threads
schedule s t = if t == s.idle then s else record s { ready = add s.ready t }

-- `zombies.add`; both queues link threads by the same field.
bury : Threads → ℕ → Threads
bury s t =
    let q =
      add (record { first = s.zombies_first; last = s.zombies_last; next = s.ready.next }) t in
    record s {
      zombies_first = q.first;
      zombies_last = q.last;
      ready = record { first = s.ready.first; last = s.ready.last; next = q.next };
    }

-- `block`, with `MustBlock` or else with `CanReturn`: the caller switches to the first ready thread, or
-- else to the idle thread. `none` is a call without a switch: it returns at once, or the caller is the idle
-- thread and spins.
pub block : (must : Bool) → Threads → Option Threads
block must s =
    let (next, q) = remove s.ready in
    elim next [
      | none ↦
          if must
          then (if s.active == s.idle then none else some (record s { active = s.idle }))
          else none
      | some t ↦ some (record s { ready = q; active = t })
    ]

-- `yield`: the caller is scheduled on the stack of the next thread.
pub yield : Threads → Threads
unfolding schedule block
yield s = elim (block false s) [ none ↦ s | some u ↦ schedule u s.active ]

-- `stop`, up to the next switch: the caller is buried, unless it is the idle thread.
pub stop : Threads → Threads
unfolding bury block
stop s = elim (block true s) [
  | none ↦ s
  | some u ↦ if s.active == s.idle then u else bury u s.active
]

-- `n` calls of `yield`, each by the thread that runs.
pub yields : ℕ → Threads → Threads
unfolding yield
yields zero s = s
yields (suc n) s = yields n (yield s)
