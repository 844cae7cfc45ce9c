-- ===== src/Reusable.antt =====
-- `ReusableBarrier` of kernel/barrier.h, with the `wait` of its condition. The threads run in any order, one
-- step at a time; what a thread does between two operations on the lock is one step. A thread that
-- cannot take the lock tries again; one that is blocked goes on when it was scheduled. `isMine()` of the lock is
-- whether it is taken: `wait` tests it first, and its other tests stand directly behind a `lock()` that
-- returned, or between two of the same lock. The interrupt flag, which `wait` asserts to be off while the lock is
-- held and on behind `block`, has no place in this state.
pub mod Laws
pub mod Steps
pub mod Turnover
pub mod Rest
pub mod Rounds
use osfinal_project.Prelude.{
  ℕ, zero, suc, ◌+◌, ◌-◌, ◌%◌, ◌^◌, Bool, true, false, Option, none, some, List, [], ◌∷◌, ◌++◌,
  ◌==◌, ltb, leb, if◌then◌else◌,
}
use osfinal_project.Chain.{has}
use osfinal_project.Turns.{Move, steps, rests, panics}
use osfinal_project.Condition.{Condition, Blocked, queued, scheduled, recheck, notify_all}

-- Whether the lock is taken, the fields of the class, and the threads that are scheduled and do not run yet.
pub record ReusableBarrier : Type 0 where
  pub taken : Bool
  pub initial_count : ℕ
  pub count : ℕ
  pub epoch : ℕ
  pub new_epoch : Condition
  pub ready : List ℕ

abbrev pub reusable_barrier : ℕ → ReusableBarrier
reusable_barrier count = record {
  taken = false;
  initial_count = count;
  count = count;
  epoch = 0;
  new_epoch = record { epoch = 0; queue = [] };
  ready = [];
}

-- Where a thread is that calls `sync` so many times more, this call included: before it locks; behind that;
-- at the test of the loop, with its `t`; in `wait`, before it locks again on the other stack, with `t` and `old_epoch`;
-- behind that; blocked; before it locks for the last time; before it unlocks; and done.
pub data Pc : Type 0 where
  enters : ℕ → Pc
  arrives : ℕ → Pc
  loops : ℕ → ℕ → Pc
  blocks : ℕ → ℕ → ℕ → Pc
  rechecks : ℕ → ℕ → ℕ → Pc
  sleeps : ℕ → ℕ → Pc
  relocks : ℕ → ℕ → Pc
  leaves : ℕ → Pc
  done : Pc

-- A thread, by its number.
pub record Thread : Type 0 where
  pub me : ℕ
  pub pc : Pc

-- The list without the first occurrence of the thread.
abbrev pub without : ℕ → List ℕ → List ℕ
without t [] = []
without t (u ∷ us) = let rest = without t us in if u == t then us else u ∷ rest

-- `the_lock->lock()`, and what follows it.
abbrev pub locked : ReusableBarrier → ℕ → Pc → Move ReusableBarrier Thread
locked b me pc =
    if b.taken then rests else steps (record b { taken = true }) (record { me = me; pc = pc })

-- The body of `sync` behind the lock, up to the loop or the end. `notify` asserts that the lock is taken.
pub arrive : ReusableBarrier → (k me : ℕ) → Move ReusableBarrier Thread
arrive b k me =
    let t = b.epoch in
    let count = (b.count + (2 ^ 32 - 1)) % 2 ^ 32 in
    let (woken, c) = notify_all b.new_epoch in
    if b.count == 0
    then panics
    else if count == 0
    then (if b.taken
        then steps
            (record b {
              count = b.initial_count;
              epoch = (t + 1) % 2 ^ 64;
              new_epoch = c;
              ready = b.ready ++ woken;
            })
            (record { me = me; pc = leaves k })
        else panics)
    else steps (record b { count = count }) (record { me = me; pc = loops k t })

-- The function that `wait` passes to `block`; it unlocks in both cases.
pub check_again : ReusableBarrier → (k t old_epoch me : ℕ) → Move ReusableBarrier Thread
check_again b k t old_epoch me = elim (recheck b.new_epoch old_epoch me) [
  | none ↦ panics
  | some (queued c) ↦
      steps (record b { taken = false; new_epoch = c }) (record { me = me; pc = sleeps k t })
  | some scheduled ↦
      steps (record b { taken = false; ready = b.ready ++ (me ∷ []) })
        (record { me = me; pc = sleeps k t })
]

pub step_at : ReusableBarrier → (me : ℕ) → Pc → Move ReusableBarrier Thread
unfolding arrive check_again
step_at b me (enters k) = locked b me (arrives k)
step_at b me (arrives k) = arrive b k me
step_at b me (loops k t) =
    if leb b.epoch t
    then (if b.taken
        then steps (record b { taken = false })
            (record { me = me; pc = blocks k t b.new_epoch.epoch })
        else panics)
    else steps b (record { me = me; pc = leaves k })
step_at b me (blocks k t old_epoch) = locked b me (rechecks k t old_epoch)
step_at b me (rechecks k t old_epoch) = check_again b k t old_epoch me
step_at b me (sleeps k t) =
    if has me b.ready
    then steps (record b { ready = without me b.ready }) (record { me = me; pc = relocks k t })
    else rests
step_at b me (relocks k t) = locked b me (loops k t)
step_at b me (leaves k) =
    steps (record b { taken = false })
      (record { me = me; pc = if k == 1 then done else enters (k - 1) })
step_at b me done = rests

-- The next step of a thread.
abbrev pub advance : ReusableBarrier → Thread → Move ReusableBarrier Thread
advance b p = step_at b p.me p.pc

-- `n` threads, from the number `j` on, each of which calls `sync` `k` times.
abbrev pub callers : (k j n : ℕ) → List Thread
callers k j zero = []
callers k j (suc n) = record { me = j; pc = enters k } ∷ callers k (suc j) n
