-- ===== src/Turns.antt =====
-- Threads that share a state and take turns: the calls that they are in, each with the place where it is,
-- and one step of one of them at a time, in any order.
pub mod Each
use osfinal_project.Prelude.{
  ℕ, zero, suc, ◌+◌, ◌≤◌, ◌≡◌, inl, inr, refl, ap, arith, Option, none, some, Option-cases, Bool,
  true, false, List, [], ◌∷◌, if◌then◌else◌, get_elem?, set,
}

module _ {P : Type 0} where
  -- The sum of a weight over the calls.
  abbrev pub total : (P → ℕ) → List P → ℕ
  total w [] = 0
  total w (pc ∷ ts) = w pc + total w ts

  abbrev pub any : (P → Bool) → List P → Bool
  any f [] = false
  any f (pc ∷ ts) = if f pc then true else any f ts

  pub total-set :
      (w : P → ℕ) (ts : List P) (i : ℕ) (pc pc' : P)
      → get_elem? ts i ≡ some pc
      → total w (set ts i pc') + w pc ≡ total w ts + w pc'
  total-set w [] i pc pc' e = cc
  total-set w (q ∷ ts) zero pc pc' e = let same : q ≡ pc = cc in omega (arith, ap w same)
  total-set w (q ∷ ts) (suc i) pc pc' e = omega (arith, total-set w ts i pc pc' e)

  pub total-le :
      (w : P → ℕ) (ts : List P) (i : ℕ) (pc : P) → get_elem? ts i ≡ some pc → w pc ≤ total w ts
  total-le w [] i pc e = cc
  total-le w (q ∷ ts) zero pc e = let same : q ≡ pc = cc in omega (arith, ap w same)
  total-le w (q ∷ ts) (suc i) pc e = omega (arith, total-le w ts i pc e)

-- What a call does at its place: a step; nothing, when it waits or is done; or a panic.
pub data Move (S P : Type 0) : Type 0 where
  steps : S → P → Move S P
  rests : Move S P
  panics : Move S P

-- What one step is about to keep, at the `i`-th thread.
abbrev pub Keeps : {S P : Type 0} → (S → List P → Type 0) → List P → S → ℕ → Move S P → Type 0
Keeps Inv ts s i (steps s' pc') = Inv s' (set ts i pc')
Keeps Inv ts s i rests = Unit {0}
Keeps Inv ts s i panics = ⊥

module _ {S P : Type 0} (advance : S → P → Move S P) where
  -- The `i`-th thread makes its step, if it can.
  abbrev pub turn : S → List P → ℕ → Option (S × List P)
  turn s ts i = elim (get_elem? ts i) [
    | none ↦ some (s, ts)
    | some pc ↦ elim (advance s pc) [
      | steps s' pc' ↦ some (s', set ts i pc')
      | rests ↦ some (s, ts)
      | panics ↦ none
    ]
  ]

  -- The turns of a schedule, up to a panic.
  abbrev pub run : S → List P → List ℕ → Option (S × List P)
  run s ts [] = some (s, ts)
  run s ts (i ∷ is) = elim (turn s ts i) [ none ↦ none | some (t, us) ↦ run t us is ]

  -- No thread can make a step.
  abbrev pub Stuck : S → List P → Type 0
  Stuck s [] = Unit {0}
  Stuck s (pc ∷ ts) = (advance s pc ≡ rests) × Stuck s ts

  module _ (Inv : S → List P → Type 0)
      (keeps : (s : S) (ts : List P) (i : ℕ) (pc : P)
        → Inv s ts
        → get_elem? ts i ≡ some pc
        → Keeps Inv ts s i (advance s pc)) where
    turn-keeps :
        (s : S) (ts : List P) (i : ℕ)
        → Inv s ts
        → (r : S × List P) × (turn s ts i ≡ some r) × Inv r.0 r.1
    turn-keeps s ts i v = elim (Option-cases (get_elem? ts i)) [
      | inl out ↦ ((s, ts), rw (out, turn) refl, v)
      | inr (pc, at) ↦ rw (at, turn) (after (advance s pc) (keeps s ts i pc v at))
    ]
      where
        after :
            (m : Move S P)
            → Keeps Inv ts s i m
            → let o : Option (S × List P) = elim m [
              | steps s' pc' ↦ some (s', set ts i pc')
              | rests ↦ some (s, ts)
              | panics ↦ none
            ] in
              (r : S × List P) × (o ≡ some r) × Inv r.0 r.1
        after (steps s' pc') k = ((s', set ts i pc'), refl, k)
        after rests k = ((s, ts), refl, v)
        after panics k = absurd k

    -- An invariant that every step keeps, and under which none panics, holds after any schedule.
    pub run-keeps :
        (s : S) (ts : List P) (is : List ℕ)
        → Inv s ts
        → (r : S × List P) × (run s ts is ≡ some r) × Inv r.0 r.1
    run-keeps s ts [] v = ((s, ts), refl, v)
    run-keeps s ts (i ∷ is) v =
        let (r, e, w) = turn-keeps s ts i v in
        let (q, f, u) = run-keeps r.0 r.1 is w in (q, rw (e, run) f, u)
