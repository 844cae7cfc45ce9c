-- ===== src/Reusable/Steps.antt =====
-- Every step of `sync` but the last arrival keeps the invariant: the epoch stays.
use osfinal_project.Prelude.{
  ℕ, ◌+◌, ◌-◌, ◌%◌, ◌^◌, ◌<◌, ◌≡◌, inl, inr, refl, ◌∙◌, arith, Bool-cases, true, false, some, List,
  [], ◌∷◌, ◌++◌, ◌==◌, leb, if◌then◌else◌, length-append, get_elem?,
}
use osfinal_project.Chain.{has}
use osfinal_project.Turns.{total-le, Keeps}
use osfinal_project.Queue.Laws.{has-append}
use osfinal_project.Condition.Laws.{recheck-queued, recheck-scheduled}
use osfinal_project.Reusable.{
  ReusableBarrier, Pc, enters, arrives, loops, blocks, rechecks, sleeps, relocks, leaves, done,
  Thread, without, locked, arrive, check_again, step_at,
}
use osfinal_project.Reusable.Laws.{
  holds, holds_at, waits_at, awake_at, KnownAt, IsReusable, goes, own, has-without, length-without,
  has-append_true,
}

module _ (r : ℕ) (b : ReusableBarrier) (ts : List Thread) (i me : ℕ) (v : IsReusable r b ts) where
  abbrev pub At : Pc → Type 0
  At pc = get_elem? ts i ≡ some (record { me = me; pc = pc })

  abbrev pub Kept : Pc → Type 0
  Kept pc = Keeps (IsReusable r) ts b i (step_at b me pc)

  pub taken-holds : (pc : Pc) → At pc → holds_at pc ≡ 1 → b.taken ≡ true
  taken-holds pc at one =
      let le = total-le holds ts i (record { me = me; pc = pc }) at in
      let all = v.one in ground (arith, le, all, one)

  -- A place behind the lock, reached from one before it.
  takes :
      (pc pc' : Pc)
      → At pc
      → holds_at pc ≡ 0
      → holds_at pc' ≡ 1
      → waits_at b.epoch pc' ≡ waits_at b.epoch pc
      → awake_at pc' ≡ awake_at pc
      → KnownAt r (record b { taken = true }) me pc'
      → Keeps (IsReusable r) ts b i (locked b me pc')
  takes pc pc' at out inside same up new = elim (Bool-cases b.taken) [
    | inl busy ↦ rw busy tt
    | inr free ↦ rw free (
        goes r b ts i me pc v at (record b { taken = true }) pc'
          record {
            same_epoch = refl;
            same_notified = refl;
            same_all = refl;
            lock = ground (arith, free, out, inside);
            counts = omega (arith, same);
            left = v.some_left;
            lists = omega (arith, up);
            stays = λ n ne h. h;
            stays_ready = λ n ne h. h;
            new = new;
          })
  ]

  pub enters-Keeps : (k : ℕ) → At (enters k) → Kept (enters k)
  unfolding step_at
  enters-Keeps k at =
      takes (enters k) (arrives k) at refl refl refl refl (own r b ts i me (enters k) v at)

  pub blocks-Keeps : (k t o : ℕ) → At (blocks k t o) → Kept (blocks k t o)
  unfolding step_at
  blocks-Keeps k t o at =
      takes (blocks k t o) (rechecks k t o) at refl refl refl refl
        (own r b ts i me (blocks k t o) v at)

  pub relocks-Keeps : (k t : ℕ) → At (relocks k t) → Kept (relocks k t)
  unfolding step_at
  relocks-Keeps k t at =
      takes (relocks k t) (loops k t) at refl refl refl refl (own r b ts i me (relocks k t) v at)

  pub loops-Keeps : (k t : ℕ) → At (loops k t) → Kept (loops k t)
  unfolding step_at
  loops-Keeps k t at =
      let mine = own r b ts i me (loops k t) v at in
      let held = taken-holds (loops k t) at refl in
      elim (Bool-cases (leb b.epoch t)) [
        | inl stay ↦
            let now : t ≡ b.epoch = ground (arith, stay, mine) in
            rw (stay, held)
              (goes r b ts i me (loops k t) v at (record b { taken = false })
                (blocks k t b.new_epoch.epoch)
                record {
                  same_epoch = refl;
                  same_notified = refl;
                  same_all = refl;
                  lock = ground (arith, held);
                  counts = refl;
                  left = v.some_left;
                  lists = refl;
                  stays = λ n ne h. h;
                  stays_ready = λ n ne h. h;
                  new = (mine, omega (arith, v.notified, now));
                })
        | inr go ↦
            let past : t + 1 ≡ b.epoch = ground (arith, go, mine) in
            rw go (
              goes r b ts i me (loops k t) v at b (leaves k) record {
                same_epoch = refl;
                same_notified = refl;
                same_all = refl;
                lock = refl;
                counts = ground (arith, past);
                left = v.some_left;
                lists = refl;
                stays = λ n ne h. h;
                stays_ready = λ n ne h. h;
                new = ground (arith, past, mine);
              })
      ]

  pub sleeps-Keeps : (k t : ℕ) → At (sleeps k t) → Kept (sleeps k t)
  unfolding step_at
  sleeps-Keeps k t at =
      let mine = own r b ts i me (sleeps k t) v at in
      elim (Bool-cases (has me b.ready)) [
        | inr not_yet ↦ rw not_yet tt
        | inl woken ↦
            let less = length-without me b.ready woken in
            rw woken (
              goes r b ts i me (sleeps k t) v at (record b { ready = without me b.ready })
                (relocks k t)
                record {
                  same_epoch = refl;
                  same_notified = refl;
                  same_all = refl;
                  lock = refl;
                  counts = refl;
                  left = v.some_left;
                  lists = omega (arith, less);
                  stays = λ n ne h. h;
                  stays_ready = λ n ne h. has-without n me b.ready ne h;
                  new = mine.0;
                })
      ]

  pub leaves-Keeps : (k : ℕ) → At (leaves k) → Kept (leaves k)
  unfolding step_at
  leaves-Keeps k at =
      let mine = own r b ts i me (leaves k) v at in
      let held = taken-holds (leaves k) at refl in
      let pc' : Pc = if k == 1 then done else enters (k - 1) in
      elim (Bool-cases (k == 1)) [
        | inl last ↦ rw last (
            goes r b ts i me (leaves k) v at (record b { taken = false }) done
              record {
                same_epoch = refl;
                same_notified = refl;
                same_all = refl;
                lock = ground (arith, held);
                counts = refl;
                left = v.some_left;
                lists = refl;
                stays = λ n ne h. h;
                stays_ready = λ n ne h. h;
                new = ground (arith, mine, last);
              })
        | inr more ↦ rw more (
            goes r b ts i me (leaves k) v at (record b { taken = false }) (enters (k - 1))
              record {
                same_epoch = refl;
                same_notified = refl;
                same_all = refl;
                lock = ground (arith, held);
                counts = refl;
                left = v.some_left;
                lists = refl;
                stays = λ n ne h. h;
                stays_ready = λ n ne h. h;
                new = ground (arith, mine, more);
              })
      ]

  pub rechecks-Keeps : (k t o : ℕ) → At (rechecks k t o) → Kept (rechecks k t o)
  unfolding step_at check_again
  rechecks-Keeps k t o at =
      let mine = own r b ts i me (rechecks k t o) v at in
      let same = v.notified in
      let held = taken-holds (rechecks k t o) at refl in
      elim (Bool-cases (t == b.epoch)) [
        | inl now ↦
            let q = b.new_epoch.queue ++ (me ∷ []) in
            rw (recheck-queued b.new_epoch o me (ground (arith, now, mine, same)), check_again)
              (goes r b ts i me (rechecks k t o) v at
                (record b { taken = false; new_epoch = record b.new_epoch { queue = q } })
                (sleeps k t)
                record {
                  same_epoch = refl;
                  same_notified = refl;
                  same_all = refl;
                  lock = ground (arith, held);
                  counts = refl;
                  left = v.some_left;
                  lists = omega (arith, length-append b.new_epoch.queue (me ∷ []));
                  stays = λ n ne h. has-append_true n b.new_epoch.queue (me ∷ []) h;
                  stays_ready = λ n ne h. h;
                  new = (mine.0, inl (has-last b.new_epoch.queue, ground (arith, now)));
                })
        | inr past ↦
            let later : o < b.new_epoch.epoch = ground (arith, past, mine, same) in
            rw (recheck-scheduled b.new_epoch o me later, check_again)
              (goes r b ts i me (rechecks k t o) v at
                (record b { taken = false; ready = b.ready ++ (me ∷ []) }) (sleeps k t)
                record {
                  same_epoch = refl;
                  same_notified = refl;
                  same_all = refl;
                  lock = ground (arith, held);
                  counts = refl;
                  left = v.some_left;
                  lists = omega (arith, length-append b.ready (me ∷ []));
                  stays = λ n ne h. h;
                  stays_ready = λ n ne h. has-append_true n b.ready (me ∷ []) h;
                  new = (mine.0, inr (has-last b.ready));
                })
      ]
    where
      has-last : (us : List ℕ) → has me (us ++ (me ∷ [])) ≡ true
      has-last us = has-append me us (me ∷ []) ∙ ground arith

  -- An arrival before the last.
  pub arrives-Keeps : (k : ℕ) → 1 < b.count → At (arrives k) → Kept (arrives k)
  unfolding step_at arrive
  arrives-Keeps k more at =
      let mine = own r b ts i me (arrives k) v at in
      let held = taken-holds (arrives k) at refl in
      let e = v.counted in
      let f = v.few in
      let less : (b.count + (2 ^ 32 - 1)) % 2 ^ 32 ≡ b.count - 1 = omega (arith, more, e, f) in
      let some_count : (b.count == 0) ≡ false = ground (arith, more) in
      let some_after : (b.count - 1 == 0) ≡ false = ground (arith, more) in
      rw (less, some_count, some_after)
        (goes r b ts i me (arrives k) v at (record b { count = b.count - 1 }) (loops k b.epoch)
          record {
            same_epoch = refl;
            same_notified = refl;
            same_all = refl;
            lock = refl;
            counts = ground (arith, more);
            left = omega (arith, more);
            lists = refl;
            stays = λ n ne h. h;
            stays_ready = λ n ne h. h;
            new = (mine.0, omega (arith, mine), inl refl);
          })

  pub done-Keeps : At done → Kept done
  unfolding step_at
  done-Keeps at = tt
