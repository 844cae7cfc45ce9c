-- ===== src/Reusable/Rest.antt =====
-- The threads that are left when none of them can go on.
use osfinal_project.Prelude.{
  ℕ, suc, ◌+◌, ◌-◌, ◌%◌, ◌^◌, ◌≡◌, ◌≢◌, refl, ap, arith, Bool-cases, Bool, true, false, Option,
  none, some, List, [], ◌∷◌, ◌++◌, ◌==◌, leb, if◌then◌else◌,
}
use osfinal_project.Chain.{has}
use osfinal_project.Turns.{Move, steps, rests, panics, total, Stuck}
use osfinal_project.Turns.Each.{Each}
use osfinal_project.Condition.{recheck, Blocked, queued, scheduled}
use osfinal_project.Reusable.{
  ReusableBarrier, Pc, enters, arrives, loops, blocks, rechecks, sleeps, relocks, leaves, done,
  Thread, locked, arrive, check_again, step_at, advance,
}
use osfinal_project.Reusable.Laws.{holds, holds_at}

abbrev idle : Move ReusableBarrier Thread → Bool
idle rests = true
idle _ = false

free-locked : (b : ReusableBarrier) (me : ℕ) (pc : Pc) → b.taken ≡ false → locked b me pc ≢ rests
free-locked b me pc free e =
    let h : idle (locked b me pc) ≡ true = ap idle e in ground (arith, free, h)

-- A thread that rests does not have the lock.
rests-holds : (b : ReusableBarrier) (me : ℕ) (pc : Pc) → step_at b me pc ≡ rests → holds_at pc ≡ 0
unfolding step_at arrive check_again
rests-holds b me (enters k) e = refl
rests-holds b me (arrives k) e =
    let h : idle (arrive b k me) ≡ true = ap idle e in
    let x = Bool-cases (b.count == 0) in
    let y = Bool-cases ((b.count + (2 ^ 32 - 1)) % 2 ^ 32 == 0) in ground (arith, h, x, y)
rests-holds b me (loops k t) e =
    let h : idle (step_at b me (loops k t)) ≡ true = ap idle e in
    let x = Bool-cases (leb b.epoch t) in let y = Bool-cases (b.taken) in ground (arith, h, x, y)
rests-holds b me (blocks k t o) e = refl
rests-holds b me (rechecks k t o) e = absurd (go (recheck b.new_epoch o me) (ap idle e))
  where
    go :
        (c : Option Blocked)
        → idle (elim c [
          | none ↦ panics
          | some (queued c) ↦
              steps
                (record b { taken = false; new_epoch = c })
                (record { me = me; pc = sleeps k t })
          | some scheduled ↦
              steps
                (record b { taken = false; ready = b.ready ++ (me ∷ []) })
                (record { me = me; pc = sleeps k t })
        ])
          ≡ true
        → ⊥
    go none h = cc
    go (some (queued c)) h = cc
    go (some scheduled) h = cc
rests-holds b me (sleeps k t) e = refl
rests-holds b me (relocks k t) e = refl
rests-holds b me (leaves k) e = absurd (let h : false ≡ true = ap idle e in cc)
rests-holds b me done e = refl

-- What is left of a thread that rests while the lock is free.
abbrev pub AtRest : ReusableBarrier → (me : ℕ) → Pc → Type 0
AtRest b me (sleeps k t) = has me b.ready ≡ false
AtRest b me done = Unit {0}
AtRest b me _ = ⊥

rests-AtRest :
    (b : ReusableBarrier) (me : ℕ) (pc : Pc)
    → b.taken ≡ false
    → step_at b me pc ≡ rests
    → AtRest b me pc
unfolding step_at
rests-AtRest b me (enters k) free e = absurd (free-locked b me (arrives k) free e)
rests-AtRest b me (arrives k) free e = absurd (omega (arith, rests-holds b me (arrives k) e))
rests-AtRest b me (loops k t) free e = absurd (omega (arith, rests-holds b me (loops k t) e))
rests-AtRest b me (blocks k t o) free e = absurd (free-locked b me (rechecks k t o) free e)
rests-AtRest b me (rechecks k t o) free e =
    absurd (omega (arith, rests-holds b me (rechecks k t o) e))
rests-AtRest b me (sleeps k t) free e =
    let h = Bool-cases (has me b.ready) in
    let i : idle (step_at b me (sleeps k t)) ≡ true = ap idle e in ground (arith, h, i)
rests-AtRest b me (relocks k t) free e = absurd (free-locked b me (loops k t) free e)
rests-AtRest b me (leaves k) free e = absurd (omega (arith, rests-holds b me (leaves k) e))
rests-AtRest b me done free e = tt

Stuck-free : (b : ReusableBarrier) (ts : List Thread) → Stuck advance b ts → total holds ts ≡ 0
Stuck-free b [] s = refl
Stuck-free b (p ∷ ts) s = omega (arith, rests-holds b p.me p.pc s.0, Stuck-free b ts s.1)

-- What is left of the threads when none can go on.
pub Stuck-AtRest :
    (b : ReusableBarrier) (ts : List Thread)
    → total holds ts ≡ (if b.taken then 1 else 0)
    → Stuck advance b ts
    → Each (λ (n : ℕ) (p : Thread). AtRest b p.me p.pc) 0 ts
Stuck-AtRest b ts one s = go 0 ts s
  where
    free : b.taken ≡ false
    free =
        let none_holds = Stuck-free b ts s in
        let h = Bool-cases b.taken in ground (arith, one, none_holds, h)

    go :
        (j : ℕ) (us : List Thread)
        → Stuck advance b us
        → Each (λ (n : ℕ) (p : Thread). AtRest b p.me p.pc) j us
    go j [] s = tt
    go j (p ∷ us) s = (rests-AtRest b p.me p.pc free s.0, go (suc j) us s.1)
