-- ===== src/Queue.antt =====
-- kernel/queue.h: the queue of threads, linked through their `next` fields. The lock is held for the
-- whole of each function, so a call is one step.
pub mod Laws
use osfinal_project.Prelude.{ℕ, Option, none, some, ◌==◌, if◌then◌else◌, update}

-- The two pointers of a `Queue` and the `next` fields of all the threads; 0 is the null pointer.
pub record Queue : Type 0 where
  pub first : ℕ
  pub last : ℕ
  pub next : ℕ → ℕ

pub add : Queue → ℕ → Queue
add q t =
    let next = update q.next t 0 in
    if q.first == 0
    then record { first = t; last = t; next = next }
    else record { first = q.first; last = t; next = update next q.last t }

pub remove : Queue → Option ℕ × Queue
remove q =
    let first = q.next q.first in
    if q.first == 0
    then (none, q)
    else (some q.first, record q { first = first; last = if first == 0 then 0 else q.last })

-- The head of the chain that was queued.
pub remove_all : Queue → ℕ × Queue
remove_all q = (q.first, record q { first = 0; last = 0 })
