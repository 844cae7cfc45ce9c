-- ===== src/Condition.antt =====
-- kernel/condition.h: a condition variable. Its functions are called with the lock, so the checks and the changes
-- between two operations on the lock are one step. The queue is the list of its threads, which is what
-- Queue states of the linked one.
pub mod Laws
use osfinal_project.Prelude.{
  ℕ, zero, suc, ◌+◌, ◌-◌, ◌%◌, ◌^◌, Bool, true, false, Option, none, some, List, [], ◌∷◌, ◌++◌,
  ◌==◌, ltb, if◌then◌else◌,
}

-- `epoch`, a `uint64_t`, and the threads in `queue`.
pub record Condition : Type 0 where
  pub epoch : ℕ
  pub queue : List ℕ

-- What the function that `wait` passes to `block` does with the caller, once it has the lock again: it
-- queues the caller; or, when there was a notification since, it schedules it. `none` is the failed assertion.
pub data Blocked : Type 0 where
  queued : Condition → Blocked
  scheduled : Blocked

pub recheck : Condition → (old_epoch me : ℕ) → Option Blocked
recheck c old_epoch me =
    if c.epoch == old_epoch
    then some (queued (record c { queue = c.queue ++ (me ∷ []) }))
    else if ltb old_epoch c.epoch
    then some scheduled
    else none

-- The loop of `notify`, `limit` rounds at most: the threads that it schedules, and those that stay.
pub notify_loop : ℕ → List ℕ → List ℕ × List ℕ
notify_loop zero ts = ([], ts)
notify_loop (suc n) [] = ([], [])
notify_loop (suc n) (t ∷ ts) = let (first, rest) = notify_loop n ts in (t ∷ first, rest)

pub notify : Condition → ℕ → List ℕ × Condition
unfolding notify_loop
notify c limit =
    let (first, rest) = notify_loop limit c.queue in
    (first, record { epoch = (c.epoch + 1) % 2 ^ 64; queue = rest })

notify_one : Condition → List ℕ × Condition
unfolding notify
notify_one c = notify c 1

pub notify_all : Condition → List ℕ × Condition
unfolding notify
notify_all c = notify c (2 ^ 64 - 1)
