-- ===== src/Buffer.antt =====
-- kernel/bb.h: a buffer of `N` places between threads that put and threads that get. The three
-- semaphores are the counting semaphores that kernel/semaphore.h implements: a `down` goes on when there is a permit.
-- The threads run in any order, one step at a time.
pub mod Ring
pub mod Laws
pub mod Order
use osfinal_project.Prelude.{
  ℕ, zero, suc, ◌+◌, ◌-◌, ◌%◌, ◌^◌, Bool, true, false, Option, none, some, List, [], ◌∷◌, ◌++◌, ltb,
  if◌then◌else◌, get_elem?, set, update,
}
use osfinal_project.Word.{add32, sub32}

-- `head`, `n`, the constant `N` and `data`, and the permits of `nEmpty`, `nFull` and `lock`.
pub record BoundedBuffer (A : Type 0) : Type 0 where
  pub head : ℕ
  pub n : ℕ
  pub places : ℕ
  pub cells : ℕ → A
  pub n_empty : ℕ
  pub n_full : ℕ
  pub lock : ℕ

abbrev pub buffer : {A : Type 0} → ℕ → (ℕ → A) → BoundedBuffer A
buffer places cells = record {
  head = 0;
  n = 0;
  places = places;
  cells = cells;
  n_empty = places;
  n_full = 0;
  lock = 1;
}

-- Where a call of `put` or `get` is: before `nEmpty.down` or `nFull.down`, before `lock.down`, in
-- front of the statements between, before `lock.up`, before `nFull.up` or `nEmpty.up`, and done.
pub data Pc (A : Type 0) : Type 0 where
  put_waits : A → Pc A
  put_locks : A → Pc A
  put_writes : A → Pc A
  put_unlocks : Pc A
  put_signals : Pc A
  put_done : Pc A
  get_waits : Pc A
  get_locks : Pc A
  get_reads : Pc A
  get_unlocks : A → Pc A
  get_signals : A → Pc A
  get_done : A → Pc A

-- What a step does to the contents.
pub data Effect (A : Type 0) : Type 0 where
  silent : Effect A
  wrote : A → Effect A
  took : A → Effect A

-- The next step of a call; `none` when it waits for a permit, or is done.
unfoldable pub advance :
    {A : Type 0} → BoundedBuffer A → Pc A → Option (Effect A × BoundedBuffer A × Pc A)
advance b (put_waits t) =
    if ltb 0 b.n_empty
    then some (silent, record b { n_empty = b.n_empty - 1 }, put_locks t)
    else none
advance b (put_locks t) =
    if ltb 0 b.lock then some (silent, record b { lock = b.lock - 1 }, put_writes t) else none
advance b (put_writes t) = some (
  wrote t,
  record b { cells = update b.cells (add32 b.head b.n % b.places) t; n = add32 b.n 1 },
  put_unlocks,
)
advance b put_unlocks = some (silent, record b { lock = b.lock + 1 }, put_signals)
advance b put_signals = some (silent, record b { n_full = b.n_full + 1 }, put_done)
advance b put_done = none
advance b get_waits =
    if ltb 0 b.n_full then some (silent, record b { n_full = b.n_full - 1 }, get_locks) else none
advance b get_locks =
    if ltb 0 b.lock then some (silent, record b { lock = b.lock - 1 }, get_reads) else none
advance b get_reads =
    let out = b.cells b.head in
    some (took out, record b { head = add32 b.head 1 % b.places; n = sub32 b.n 1 }, get_unlocks out)
advance b (get_unlocks out) = some (silent, record b { lock = b.lock + 1 }, get_signals out)
advance b (get_signals out) = some (silent, record b { n_empty = b.n_empty + 1 }, get_done out)
advance b (get_done out) = none

-- The `i`-th thread makes a step, if it can.
pub turn :
    {A : Type 0} → BoundedBuffer A → List (Pc A) → ℕ → Effect A × BoundedBuffer A × List (Pc A)
unfolding advance
turn b ts i = elim (get_elem? ts i) [
  | none ↦ (silent, b, ts)
  | some pc ↦ elim (advance b pc) [
    | none ↦ (silent, b, ts)
    | some (e, b', pc') ↦ (e, b', set ts i pc')
  ]
]
