-- ===== src/Barrier.antt =====
-- `Barrier` of kernel/barrier.h. The semaphore is the counting semaphore that kernel/semaphore.h implements: a
-- `down` goes on when there is a permit. The threads run in any order, one step at a time.
pub mod Laws
use osfinal_project.Prelude.{ℕ, ◌+◌, ◌-◌, ◌%◌, ◌^◌, List, replicate, ltb, leb, ◌==◌, if◌then◌else◌}
use osfinal_project.Turns.{Move, steps, rests, panics}

-- `count`, an `int32_t` kept as its word, and the permits of `sem`.
pub record Barrier : Type 0 where
  pub count : ℕ
  pub sem : ℕ

abbrev pub barrier : ℕ → Barrier
barrier count = record { count = count; sem = 0 }

-- Where a call of `sync` is: before it counts down, before `sem.down`, before `sem.up`, done.
pub data Pc : Type 0 where
  arrives : Pc
  downs : Pc
  ups : Pc
  passed : Pc

pub sync : Barrier → Pc → Move Barrier Pc
sync b arrives =
    let x = (b.count + (2 ^ 32 - 1)) % 2 ^ 32 in
    let c = record b { count = x } in
    if leb (2 ^ 31) x then panics else if x == 0 then steps c ups else steps c downs
sync b downs = if ltb 0 b.sem then steps (record b { sem = b.sem - 1 }) ups else rests
sync b ups = steps (record b { sem = b.sem + 1 }) passed
sync b passed = rests

-- `n` threads that are about to call `sync`.
abbrev pub callers : ℕ → List Pc
callers n = replicate n arrives
