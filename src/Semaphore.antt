-- ===== src/Semaphore.antt =====
-- kernel/semaphore.h. The lock is held up to the point where a call passes or blocks, so a call is one
-- step. The scheduler is outside: `up` returns the thread that it schedules.
pub mod Laws
use osfinal_project.Prelude.{
  ℕ, ◌+◌, ◌-◌, ◌%◌, ◌^◌, Bool, true, false, Option, none, some, List, [], ◌∷◌, ltb, if◌then◌else◌,
}
use osfinal_project.Queue.{Queue, add, remove}

-- `count` is a `uint64_t`.
pub record Semaphore : Type 0 where
  pub count : ℕ
  pub waiting : Queue

-- What `down` does with its caller.
pub data Outcome : Type 0 where
  passed : Outcome
  blocked : Outcome

-- `none` is the failed assertion that the thread that blocks is not the idle one; `is_idle` is the field
-- of the threads.
pub down : (is_idle : ℕ → Bool) → Semaphore → ℕ → Option (Outcome × Semaphore)
down is_idle s me =
    if ltb 0 s.count
    then some (passed, record s { count = s.count - 1 })
    else if is_idle me
    then none
    else some (blocked, record s { waiting = add s.waiting me })

pub up : Semaphore → Option ℕ × Semaphore
up s =
    let (thread, q) = remove s.waiting in
    elim thread [
      | some t ↦ (some t, record s { waiting = q })
      | none ↦ (none, record { count = (s.count + 1) % 2 ^ 64; waiting = q })
    ]

-- The calls on one semaphore in the order in which they get its lock.
pub data Call : Type 0 where
  call_down : ℕ → Call
  call_up : Call

-- The threads that get through: at once in `down`, or when `up` schedules them.
through : ℕ → Outcome → List ℕ
through me passed = me ∷ []
through me blocked = []

woken : Option ℕ → List ℕ
woken none = []
woken (some t) = t ∷ []

-- One call: who gets through, and the new state.
pub step : (is_idle : ℕ → Bool) → Semaphore → Call → Option (List ℕ × Semaphore)
unfolding through woken
step is_idle s (call_down me) = elim (down is_idle s me) [
  | none ↦ none
  | some (outcome, t) ↦ some (through me outcome, t)
]
step is_idle s call_up = let (thread, t) = up s in some (woken thread, t)
