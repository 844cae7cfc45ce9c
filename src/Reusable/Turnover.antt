-- ===== src/Reusable/Turnover.antt =====
-- The last arrival of an epoch: all others wait in it, and go on in the next.
use osfinal_project.Prelude.{
  ℕ, suc, ◌+◌, ◌-◌, ◌%◌, ◌^◌, ◌≤◌, ◌≡◌, ◌⊎◌, inl, inr, refl, ◌∙◌, arith, Bool, true, false, sym,
  subst, if◌then◌else◌, List, [], ◌∷◌, ◌++◌, ◌==◌, length-append, length-set, set,
}
use osfinal_project.Chain.{has}
use osfinal_project.Turns.{Keeps, steps, panics, total, total-set, total-le}
use osfinal_project.Turns.Each.{Each, Each-set, Each-map, Each-both, Each-others}
use osfinal_project.Queue.Laws.{has-append}
use osfinal_project.Condition.Laws.{notify_all-wakes}
use osfinal_project.Reusable.{
  ReusableBarrier, Pc, enters, arrives, loops, blocks, rechecks, sleeps, relocks, leaves, done,
  Thread, arrive, step_at,
}
use osfinal_project.Reusable.Laws.{
  holds, waits, awake, waits_at, KnownAt, Known, IsReusable, own, has-append_true, same_number,
}
use osfinal_project.Reusable.Steps.{At, Kept, taken-holds}

-- The barrier in its next epoch.
abbrev pub next : ReusableBarrier → ReusableBarrier
next b = record b {
  count = b.initial_count;
  epoch = b.epoch + 1;
  new_epoch = record { epoch = b.new_epoch.epoch + 1; queue = [] };
  ready = b.ready ++ b.new_epoch.queue;
}

waits-light : (e : ℕ) (p : Thread) → waits e p ≤ 1
waits-light e p = go p.pc
  where
    go : (pc : Pc) → waits_at e pc ≤ 1
    go (enters k) = omega arith
    go (arrives k) = omega arith
    go (loops k t) = ground arith
    go (blocks k t o) = ground arith
    go (rechecks k t o) = ground arith
    go (sleeps k t) = ground arith
    go (relocks k t) = ground arith
    go (leaves k) = omega arith
    go done = omega arith

-- A thread that waits is known in the next epoch, and does not wait in it.
Known-next :
    (r : ℕ) (b : ReusableBarrier) (n : ℕ) (p : Thread)
    → waits b.epoch p ≡ 1
    → Known r b n p
    → Known r (next b) n p × (waits (b.epoch + 1) p ≡ 0)
Known-next r b n p w (at, known) = let o = go p.pc w known in ((at, o.0), o.1)
  where
    joined : has n b.new_epoch.queue ≡ true → has n (b.ready ++ b.new_epoch.queue) ≡ true
    joined h = has-append n b.ready b.new_epoch.queue ∙ ground (arith, h)

    go :
        (pc : Pc)
        → waits_at b.epoch pc ≡ 1
        → KnownAt r b n pc
        → KnownAt r (next b) n pc × (waits_at (b.epoch + 1) pc ≡ 0)
    go (enters k) w h = absurd (omega (arith, w))
    go (arrives k) w h = absurd (omega (arith, w))
    go (loops k t) w h = ground (arith, w, h)
    go (blocks k t o) w h = ground (arith, w, h)
    go (rechecks k t o) w h = ground (arith, w, h)
    go (sleeps k t) w h = ground (arith, w, h, joined, has-append_true n b.ready b.new_epoch.queue)
    go (relocks k t) w h = ground (arith, w, h)
    go (leaves k) w h = absurd (omega (arith, w))
    go done w h = absurd (omega (arith, w))

Each-none :
    {P : Type 0}
    → (w : P → ℕ) (j : ℕ) (ts : List P) → Each (λ (k : ℕ) (q : P). w q ≡ 0) j ts
    → total w ts ≡ 0
Each-none w j [] h = refl
Each-none w j (q ∷ ts) h = omega (arith, h.0, Each-none w (suc j) ts h.1)

module _ (r : ℕ) (b : ReusableBarrier) (ts : List Thread) (i me k : ℕ) (v : IsReusable r b ts)
    (last : b.count ≡ 1) (at : At r b ts i me v (arrives k)) where
  others :
      Each
        (λ (n : ℕ) (p : Thread). (n ≡ i) ⊎ (Known r (next b) n p × (waits (b.epoch + 1) p ≡ 0)))
        0
        ts
  others =
      Each-map (λ (n : ℕ) (p : Thread). Known r b n p × ((n ≡ 0 + i) ⊎ (waits b.epoch p ≡ 1)))
        (λ (n : ℕ) (p : Thread). (n ≡ i) ⊎ (Known r (next b) n p × (waits (b.epoch + 1) p ≡ 0))) 0
        ts
        (λ n p le h. elim h.1 [
          | inl own ↦ inl (omega (arith, own))
          | inr w ↦ inr (Known-next r b n p w h.0)
        ])
        (Each-both (Known r b) (λ (n : ℕ) (p : Thread). (n ≡ 0 + i) ⊎ (waits b.epoch p ≡ 1)) 0 ts
          v.known
          (Each-others (waits b.epoch) (waits-light b.epoch) 0 ts i
            (record { me = me; pc = arrives k }) at refl (omega (arith, last, v.counted))))

  after :
      Each
        (λ (n : ℕ) (p : Thread). Known r (next b) n p × (waits (b.epoch + 1) p ≡ 0))
        0
        (set ts i (record { me = me; pc = leaves k }))
  after =
      let own = own r b ts i me (arrives k) v at in
      let same = same_number r b ts i me (arrives k) v at in
      Each-set
        (λ (n : ℕ) (p : Thread). (n ≡ i) ⊎ (Known r (next b) n p × (waits (b.epoch + 1) p ≡ 0)))
        (λ (n : ℕ) (p : Thread). Known r (next b) n p × (waits (b.epoch + 1) p ≡ 0)) 0 ts i
        (record { me = me; pc = leaves k })
        (λ n p ne h. elim h [ inl e ↦ absurd (ne (omega (arith, e))) | inr o ↦ o ])
        ((omega (arith, same), (own.0, omega (arith, own))), refl) others

  next-IsReusable : IsReusable r (next b) (set ts i (record { me = me; pc = leaves k }))
  next-IsReusable =
      let p : Thread = record { me = me; pc = arrives k } in
      let p' : Thread = record { me = me; pc = leaves k } in
      let long = length-set ts i p' in
      let all = v.all in
      let light = total-le holds ts i p at in
      let none_waits = Each-none (waits (b.epoch + 1)) 0 (set ts i p') (
        Each-map (λ (n : ℕ) (q : Thread). Known r (next b) n q × (waits (b.epoch + 1) q ≡ 0))
          (λ (n : ℕ) (q : Thread). waits (b.epoch + 1) q ≡ 0) 0 (set ts i p') (λ n q le h. h.1)
          after) in
      record {
        one = omega (arith, v.one, total-set holds ts i p p' at);
        all = omega (arith, all, long);
        few = omega (arith, v.few, long);
        short = v.short;
        counted = omega (arith, all, long, none_waits);
        some_left = omega (arith, all, v.counted, last);
        notified = omega (arith, v.notified);
        blocked = omega (
          arith,
          v.blocked,
          long,
          total-set awake ts i p p' at,
          length-append b.ready b.new_epoch.queue,
        );
        known =
            Each-map (λ (n : ℕ) (q : Thread). Known r (next b) n q × (waits (b.epoch + 1) q ≡ 0))
              (Known r (next b)) 0 (set ts i p') (λ n q le h. h.0) after;
      }

  pub last-Keeps : Kept r b ts i me v (arrives k)
  unfolding step_at arrive
  last-Keeps =
      let own = own r b ts i me (arrives k) v at in
      let few = v.few in
      let short = v.short in
      let n = v.notified in
      let blocked = v.blocked in
      let wakes =
        notify_all-wakes b.new_epoch (omega (arith, blocked, few)) (omega (arith, n, own, short)) in
      let zero_left : ((b.count + (2 ^ 32 - 1)) % 2 ^ 32 == 0) ≡ true = ground (arith, last) in
      let some_count : (b.count == 0) ≡ false = ground (arith, last) in
      let small : (b.epoch + 1) % 2 ^ 64 ≡ b.epoch + 1 = omega (arith, own, short) in
      let held = taken-holds r b ts i me v (arrives k) at refl in
      rw (wakes, some_count, zero_left, small)
        (subst
          (λ (x : Bool).
            Keeps (IsReusable r) ts b i
              (if x then steps (next b) (record { me = me; pc = leaves k }) else panics))
          (sym held) next-IsReusable)
