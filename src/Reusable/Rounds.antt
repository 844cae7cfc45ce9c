-- ===== src/Reusable/Rounds.antt =====
-- The threads pass the reusable barrier round by round.
use osfinal_project.Prelude.{
  ℕ, zero, suc, ◌+◌, ◌-◌, ◌^◌, ◌≤◌, ◌<◌, ◌≡◌, ◌≢◌, inl, inr, refl, arith, subst, Bool-cases, Bool,
  true, false, some, List, [], ◌∷◌, ◌==◌, length, get_elem?,
}
use osfinal_project.Turns.{total, any, Stuck, Keeps, run, run-keeps}
use osfinal_project.Turns.Each.{Each, Each-map, Each-both}
use osfinal_project.Reusable.{
  ReusableBarrier, reusable_barrier, Pc, enters, arrives, loops, blocks, rechecks, sleeps, relocks,
  leaves, done, Thread, step_at, advance, callers,
}
use osfinal_project.Reusable.Laws.{holds, waits, awake, KnownAt, Known, IsReusable}
use osfinal_project.Reusable.Steps.{
  enters-Keeps, blocks-Keeps, relocks-Keeps, loops-Keeps, sleeps-Keeps, leaves-Keeps,
  rechecks-Keeps, arrives-Keeps, done-Keeps,
}
use osfinal_project.Reusable.Turnover.{last-Keeps}
use osfinal_project.Reusable.Rest.{AtRest, Stuck-AtRest}

advance-Keeps :
    (r : ℕ) (b : ReusableBarrier) (ts : List Thread) (i : ℕ) (p : Thread)
    → IsReusable r b ts
    → get_elem? ts i ≡ some p
    → Keeps (IsReusable r) ts b i (advance b p)
advance-Keeps r b ts i p v at = go p.pc at
  where
    go :
        (pc : Pc)
        → get_elem? ts i ≡ some (record { me = p.me; pc = pc })
        → Keeps (IsReusable r) ts b i (step_at b p.me pc)
    go (enters k) at = enters-Keeps r b ts i p.me v k at
    go (arrives k) at = elim (Bool-cases (b.count == 1)) [
      | inl last ↦ last-Keeps r b ts i p.me k v (ground (arith, last)) at
      | inr more ↦
          let left = v.some_left in arrives-Keeps r b ts i p.me v k (ground (arith, more, left)) at
    ]
    go (loops k t) at = loops-Keeps r b ts i p.me v k t at
    go (blocks k t o) at = blocks-Keeps r b ts i p.me v k t o at
    go (rechecks k t o) at = rechecks-Keeps r b ts i p.me v k t o at
    go (sleeps k t) at = sleeps-Keeps r b ts i p.me v k t at
    go (relocks k t) at = relocks-Keeps r b ts i p.me v k t at
    go (leaves k) at = leaves-Keeps r b ts i p.me v k at
    go done at = done-Keeps r b ts i p.me v at

-- Of `rounds` calls: those that have passed the barrier, and those that have arrived at it.
abbrev passed_at : (rounds : ℕ) → Pc → ℕ
passed_at r (enters k) = r - k
passed_at r (arrives k) = r - k
passed_at r (loops k t) = r - k
passed_at r (blocks k t o) = r - k
passed_at r (rechecks k t o) = r - k
passed_at r (sleeps k t) = r - k
passed_at r (relocks k t) = r - k
passed_at r (leaves k) = r + 1 - k
passed_at r done = r

abbrev arrived_at : (rounds : ℕ) → Pc → ℕ
arrived_at r (enters k) = r - k
arrived_at r (arrives k) = r - k
arrived_at r (loops k t) = r + 1 - k
arrived_at r (blocks k t o) = r + 1 - k
arrived_at r (rechecks k t o) = r + 1 - k
arrived_at r (sleeps k t) = r + 1 - k
arrived_at r (relocks k t) = r + 1 - k
arrived_at r (leaves k) = r + 1 - k
arrived_at r done = r

-- There is a round that no thread has gone beyond, and in which all have arrived.
abbrev pub InStep : (rounds : ℕ) → List Thread → Type 0
InStep r ts =
    (e : ℕ) × Each (λ (n : ℕ) (p : Thread). (passed_at r p.pc ≤ e) × (e ≤ arrived_at r p.pc)) 0 ts

in_step :
    (r : ℕ) (b : ReusableBarrier) (n : ℕ) (pc : Pc)
    → KnownAt r b n pc
    → (passed_at r pc ≤ b.epoch) × (b.epoch ≤ arrived_at r pc)
in_step r b n (enters k) h = (omega (arith, h), omega (arith, h))
in_step r b n (arrives k) h = (omega (arith, h), omega (arith, h))
in_step r b n (loops k t) h = ground (arith, h)
in_step r b n (blocks k t o) h = ground (arith, h)
in_step r b n (rechecks k t o) h = ground (arith, h)
in_step r b n (sleeps k t) h = let l = h.0 in ground (arith, l)
in_step r b n (relocks k t) h = ground (arith, h)
in_step r b n (leaves k) h = (omega (arith, h), omega (arith, h))
in_step r b n done h = (omega (arith, h), omega (arith, h))

abbrev pub unfinished : Thread → Bool
unfinished p = elim p.pc [ done ↦ false | _ ↦ true ]

-- A thread at rest is done, in the last epoch; or blocked, in one before.
abbrev Over : ℕ → ReusableBarrier → Thread → Type 0
Over r b p = (b.epoch ≡ r → unfinished p ≡ false) × (b.epoch ≢ r → waits b.epoch p ≡ 1)

AtRest-Over :
    (r : ℕ) (b : ReusableBarrier) (n : ℕ) (p : Thread)
    → Known r b n p
    → AtRest b p.me p.pc
    → Over r b p
AtRest-Over r b n p (same, known) rest =
    go p.pc known (subst (λ (k : ℕ). AtRest b k p.pc) same rest)
  where
    go : (pc : Pc) → KnownAt r b n pc → AtRest b n pc → Over r b (record { me = p.me; pc = pc })
    go (enters k) h a = absurd a
    go (arrives k) h a = absurd a
    go (loops k t) h a = absurd a
    go (blocks k t o) h a = absurd a
    go (rechecks k t o) h a = absurd a
    go (sleeps k t) h a = ground (arith, h, a)
    go (relocks k t) h a = absurd a
    go (leaves k) h a = absurd a
    go done h a = ((λ e. refl), λ ne. absurd (ne h))

Over-finished :
    (r : ℕ) (b : ReusableBarrier) (j : ℕ) (ts : List Thread)
    → b.epoch ≡ r
    → Each (λ (n : ℕ) (p : Thread). Over r b p) j ts
    → any unfinished ts ≡ false
Over-finished r b j [] e h = refl
Over-finished r b j (p ∷ ts) e h = rw (h.0.0 e) (Over-finished r b (suc j) ts e h.1)

Over-waits :
    (r : ℕ) (b : ReusableBarrier) (j : ℕ) (ts : List Thread)
    → b.epoch ≢ r
    → Each (λ (n : ℕ) (p : Thread). Over r b p) j ts
    → total (waits b.epoch) ts ≡ length ts
Over-waits r b j [] ne h = refl
Over-waits r b j (p ∷ ts) ne h = omega (arith, h.0.1 ne, Over-waits r b (suc j) ts ne h.1)

Stuck-finished :
    (r : ℕ) (b : ReusableBarrier) (ts : List Thread)
    → IsReusable r b ts
    → Stuck advance b ts
    → any unfinished ts ≡ false
Stuck-finished r b ts v s =
    let over =
      Each-map (λ (n : ℕ) (p : Thread). Known r b n p × AtRest b p.me p.pc)
        (λ (n : ℕ) (p : Thread). Over r b p) 0 ts (λ n p le h. AtRest-Over r b n p h.0 h.1)
        (Each-both (Known r b) (λ (n : ℕ) (p : Thread). AtRest b p.me p.pc) 0 ts v.known
          (Stuck-AtRest b ts v.one s)) in
    elim (Bool-cases (b.epoch == r)) [
      | inl e ↦ Over-finished r b 0 ts (ground (arith, e)) over
      | inr ne ↦
          let waiting = Over-waits r b 0 ts (ground (arith, ne)) over in
          absurd (omega (arith, waiting, v.counted, v.some_left))
    ]

callers-total :
    (k j n : ℕ)
    → (total holds (callers k j n) ≡ 0)
      × (total (waits 0) (callers k j n) ≡ 0)
      × (total awake (callers k j n) ≡ n)
      × (length (callers k j n) ≡ n)
callers-total k j zero = (refl, refl, refl, refl)
callers-total k j (suc n) =
    let r = callers-total k (suc j) n in
    (omega (arith, r.0), omega (arith, r.1), omega (arith, r.2), omega (arith, r.3))

callers-Known :
    (r j n : ℕ) (b : ReusableBarrier) → 0 < r → b.epoch ≡ 0 → Each (Known r b) j (callers r j n)
callers-Known r j zero b pos e = tt
callers-Known r j (suc n) b pos e =
    ((refl, (omega (arith, pos), omega (arith, e))), callers-Known r (suc j) n b pos e)

start :
    (n rounds : ℕ)
    → 0 < n
    → n < 2 ^ 32
    → 0 < rounds
    → rounds < 2 ^ 64
    → IsReusable rounds (reusable_barrier n) (callers rounds 0 n)
start n rounds pos small some_rounds short =
    let t = callers-total rounds 0 n in
    record {
      one = t.0;
      all = omega (arith, t.3);
      few = omega (arith, t.3, small);
      short = short;
      counted = omega (arith, t.1, t.3);
      some_left = pos;
      notified = refl;
      blocked = omega (arith, t.2, t.3);
      known = callers-Known rounds 0 n (reusable_barrier n) some_rounds refl;
    }

-- On a `ReusableBarrier` for `n` threads, at least one and fewer than 2^32, on which `n` threads
-- call `sync` `rounds` times each, at least once and fewer than 2^64 times, after any schedule: no
-- assertion on the count, on the epochs of the condition, or on the lock, of `wait` and of
-- `notify`, has failed; there is a round that no thread has gone beyond and at which all have
-- arrived; and when no thread can make a step, all have made all their calls. The assertions of
-- `wait` on the interrupt flag are not part of it.
pub sync-Rounds :
    (n rounds : ℕ) (is : List ℕ)
    → 0 < n
    → n < 2 ^ 32
    → 0 < rounds
    → rounds < 2 ^ 64
    → (r : ReusableBarrier × List Thread) × (run advance
          (reusable_barrier n)
          (callers rounds 0 n)
          is
        ≡ some r)
      × InStep rounds r.1
      × (Stuck advance r.0 r.1 → any unfinished r.1 ≡ false)
sync-Rounds n rounds is pos small some_rounds short =
    let (r, e, v) =
      run-keeps advance (IsReusable rounds) (advance-Keeps rounds) (reusable_barrier n)
        (callers rounds 0 n) is (start n rounds pos small some_rounds short) in
    (
      r,
      e,
      (
        r.0.epoch,
        Each-map (Known rounds r.0)
            (λ (n : ℕ) (p : Thread).
              (passed_at rounds p.pc ≤ r.0.epoch) × (r.0.epoch ≤ arrived_at rounds p.pc))
            0 r.1 (λ n p le h. in_step rounds r.0 n p.pc h.1) v.known,
      ),
      Stuck-finished rounds r.0 r.1 v,
    )
