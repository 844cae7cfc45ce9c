-- ===== src/Future.antt =====
-- `Future` of kernel/future.h: a value that one thread sets and others wait for. The semaphore is the
-- counting semaphore that kernel/semaphore.h implements. The threads run in any order, one step at a time.
pub mod Laws
pub mod Done
use osfinal_project.Prelude.{
  ℕ, ◌+◌, ◌-◌, Bool, true, false, List, replicate, ◌∷◌, ltb, if◌then◌else◌,
}
use osfinal_project.Turns.{Move, steps, rests, panics}

-- The permits of `go`, `isReady` and `t`.
pub record Future (A : Type 0) : Type 0 where
  pub go : ℕ
  pub is_ready : Bool
  pub t : A

-- Where a call is: `set` before its assertion, before it writes `t`, before it writes `isReady`, before
-- `go.up`, done; `get` before it reads `isReady`, before `go.down`, before `go.up`, before it reads
-- `t`, done with a value.
pub data Pc (A : Type 0) : Type 0 where
  set_checks : A → Pc A
  set_writes : A → Pc A
  set_readies : Pc A
  set_ups : Pc A
  set_done : Pc A
  get_checks : Pc A
  get_downs : Pc A
  get_ups : Pc A
  get_reads : Pc A
  get_done : A → Pc A

pub advance : {A : Type 0} → Future A → Pc A → Move (Future A) (Pc A)
advance f (set_checks v) = if f.is_ready then panics else steps f (set_writes v)
advance f (set_writes v) = steps (record f { t = v }) set_readies
advance f set_readies = steps (record f { is_ready = true }) set_ups
advance f set_ups = steps (record f { go = f.go + 1 }) set_done
advance f set_done = rests
advance f get_checks = if f.is_ready then steps f get_reads else steps f get_downs
advance f get_downs = if ltb 0 f.go then steps (record f { go = f.go - 1 }) get_ups else rests
advance f get_ups = steps (record f { go = f.go + 1 }) get_reads
advance f get_reads = steps f (get_done f.t)
advance f (get_done v) = rests

-- A new future, where `t` has some value.
abbrev pub future : {A : Type 0} → A → Future A
future t = record { go = 0; is_ready = false; t = t }

-- A thread that is about to set the value, and `n` that are about to get it.
abbrev pub callers : {A : Type 0} → A → ℕ → List (Pc A)
callers v n = set_checks v ∷ replicate n get_checks
