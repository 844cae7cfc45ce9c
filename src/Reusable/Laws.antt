-- ===== src/Reusable/Laws.antt =====
-- The invariant of the reusable barrier.
use osfinal_project.Prelude.{
  ℕ, ◌+◌, ◌^◌, ◌≤◌, ◌<◌, ◌≡◌, ◌≢◌, ◌⊎◌, ap, ◌∙◌, arith, subst, true, some, List, [], ◌∷◌, ◌++◌,
  ◌==◌, if◌then◌else◌, length, length-set, get_elem?, set,
}
use osfinal_project.Chain.{has}
use osfinal_project.Turns.{total, total-set}
use osfinal_project.Turns.Each.{Each, Each-at, Each-set}
use osfinal_project.Queue.Laws.{has-append}
use osfinal_project.Reusable.{
  ReusableBarrier, Pc, enters, arrives, loops, blocks, rechecks, sleeps, relocks, leaves, done,
  Thread, without,
}

-- A thread that has the lock.
abbrev pub holds_at : Pc → ℕ
holds_at (arrives k) = 1
holds_at (loops k t) = 1
holds_at (rechecks k t o) = 1
holds_at (leaves k) = 1
holds_at _ = 0

abbrev pub holds : Thread → ℕ
holds p = holds_at p.pc

-- A thread that has arrived in epoch `e` and has not left the loop.
abbrev pub waits_at : ℕ → Pc → ℕ
waits_at e (loops k t) = if t == e then 1 else 0
waits_at e (blocks k t o) = if t == e then 1 else 0
waits_at e (rechecks k t o) = if t == e then 1 else 0
waits_at e (sleeps k t) = if t == e then 1 else 0
waits_at e (relocks k t) = if t == e then 1 else 0
waits_at e _ = 0

abbrev pub waits : ℕ → Thread → ℕ
waits e p = waits_at e p.pc

abbrev pub awake_at : Pc → ℕ
awake_at (sleeps k t) = 0
awake_at _ = 1

abbrev pub awake : Thread → ℕ
awake p = awake_at p.pc

-- Of `total_rounds` calls, a thread in the loop with `t` has `k` left, in this epoch or the one before.
abbrev InLoop : (total_rounds e k t : ℕ) → Type 0
InLoop r e k t = (1 ≤ k) × (t + k ≡ r) × ((t ≡ e) ⊎ (t + 1 ≡ e))

abbrev pub KnownAt : ℕ → ReusableBarrier → (me : ℕ) → Pc → Type 0
KnownAt r b me (enters k) = (1 ≤ k) × (k + b.epoch ≡ r)
KnownAt r b me (arrives k) = (1 ≤ k) × (k + b.epoch ≡ r)
KnownAt r b me (loops k t) = InLoop r b.epoch k t
KnownAt r b me (blocks k t o) = InLoop r b.epoch k t × (o ≡ t)
KnownAt r b me (rechecks k t o) = InLoop r b.epoch k t × (o ≡ t)
KnownAt r b me (sleeps k t) =
    InLoop r b.epoch k t
    × (((has me b.new_epoch.queue ≡ true) × (t ≡ b.epoch)) ⊎ (has me b.ready ≡ true))
KnownAt r b me (relocks k t) = InLoop r b.epoch k t
KnownAt r b me (leaves k) = (1 ≤ k) × (k + b.epoch ≡ r + 1)
KnownAt r b me done = b.epoch ≡ r

-- What is known of the thread with the number `n`.
abbrev pub Known : ℕ → ReusableBarrier → ℕ → Thread → Type 0
Known r b n p = (p.me ≡ n) × KnownAt r b n p.pc

-- One thread has the lock when it is taken. The count and the threads that wait in this epoch add up to all of
-- them. The condition was notified once for each epoch. A blocked thread is in one of the two lists, once.
pub record IsReusable (r : ℕ) (b : ReusableBarrier) (ts : List Thread) : Type 0 where
  pub one : total holds ts ≡ (if b.taken then 1 else 0)
  pub all : b.initial_count ≡ length ts
  pub few : length ts < 2 ^ 32
  pub short : r < 2 ^ 64
  pub counted : b.count + total (waits b.epoch) ts ≡ length ts
  pub some_left : 1 ≤ b.count
  pub notified : b.new_epoch.epoch ≡ b.epoch
  pub blocked : length b.new_epoch.queue + length b.ready + total awake ts ≡ length ts
  pub known : Each (Known r b) 0 ts

pub has-without : (t u : ℕ) (us : List ℕ) → t ≢ u → has t us ≡ true → has t (without u us) ≡ true
has-without t u [] ne h = cc
has-without t u (v ∷ us) ne h = ground (arith, ne, h, has-without t u us ne)

pub length-without : (t : ℕ) (us : List ℕ) → has t us ≡ true → length (without t us) + 1 ≡ length us
length-without t [] h = cc
length-without t (u ∷ us) h = ground (arith, h, length-without t us)

pub has-append_true : (t : ℕ) (xs ys : List ℕ) → has t xs ≡ true → has t (xs ++ ys) ≡ true
has-append_true t xs ys h = has-append t xs ys ∙ ground (arith, h)

-- What is known of a thread when others go on, in the same epoch.
Known-keep :
    (r : ℕ) (b b' : ReusableBarrier) (n : ℕ) (p : Thread)
    → b'.epoch ≡ b.epoch
    → (has n b.new_epoch.queue ≡ true → has n b'.new_epoch.queue ≡ true)
    → (has n b.ready ≡ true → has n b'.ready ≡ true)
    → Known r b n p
    → Known r b' n p
Known-keep r b b' n p e f g (at, k) = (at, go p.pc k)
  where
    go : (pc : Pc) → KnownAt r b n pc → KnownAt r b' n pc
    go (enters k) h = omega (arith, e, h)
    go (arrives k) h = omega (arith, e, h)
    go (loops k t) h = ground (arith, e, h)
    go (blocks k t o) h = ground (arith, e, h)
    go (rechecks k t o) h = ground (arith, e, h)
    go (sleeps k t) h = ground (arith, e, h, f, g)
    go (relocks k t) h = ground (arith, e, h)
    go (leaves k) h = omega (arith, e, h)
    go done h = e ∙ h

-- A thread goes on, in the same epoch. Given: how the lock, the count and the two lists change with it, and
-- what is known of it then.
pub record Change (r : ℕ) (b b' : ReusableBarrier) (me : ℕ) (pc pc' : Pc) : Type 0 where
  pub same_epoch : b'.epoch ≡ b.epoch
  pub same_notified : b'.new_epoch.epoch ≡ b.new_epoch.epoch
  pub same_all : b'.initial_count ≡ b.initial_count
  pub lock : (if b'.taken then 1 else 0) + holds_at pc ≡ (if b.taken then 1 else 0) + holds_at pc'
  pub counts : b'.count + waits_at b.epoch pc' ≡ b.count + waits_at b.epoch pc
  pub left : 1 ≤ b'.count
  pub lists :
      length b'.new_epoch.queue + length b'.ready + awake_at pc'
      ≡ length b.new_epoch.queue + length b.ready + awake_at pc
  pub stays : (n : ℕ) → n ≢ me → has n b.new_epoch.queue ≡ true → has n b'.new_epoch.queue ≡ true
  pub stays_ready : (n : ℕ) → n ≢ me → has n b.ready ≡ true → has n b'.ready ≡ true
  pub new : KnownAt r b' me pc'

module _ (r : ℕ) (b : ReusableBarrier) (ts : List Thread) (i me : ℕ) (pc : Pc)
    (v : IsReusable r b ts) (at : get_elem? ts i ≡ some (record { me = me; pc = pc })) where
  pub same_number : me ≡ i
  same_number =
      omega (arith, (Each-at (Known r b) 0 ts i (record { me = me; pc = pc }) at v.known).0)

  pub own : KnownAt r b me pc
  own =
      subst (λ (k : ℕ). KnownAt r b k pc) (omega (arith, same_number))
        ((Each-at (Known r b) 0 ts i (record { me = me; pc = pc }) at v.known).1)

  pub goes :
      (b' : ReusableBarrier) (pc' : Pc)
      → Change r b b' me pc pc'
      → IsReusable r b' (set ts i (record { me = me; pc = pc' }))
  goes b' pc' c =
      let p : Thread = record { me = me; pc = pc } in
      let p' : Thread = record { me = me; pc = pc' } in
      let long = length-set ts i p' in
      let e = c.same_epoch in
      record {
        one = omega (arith, c.lock, v.one, total-set holds ts i p p' at);
        all = omega (arith, c.same_all, v.all, long);
        few = omega (arith, v.few, long);
        short = v.short;
        counted =
            ap (λ (k : ℕ). b'.count + total (waits k) (set ts i p')) e
            ∙ omega (arith, c.counts, v.counted, long, total-set (waits b.epoch) ts i p p' at);
        some_left = c.left;
        notified = omega (arith, c.same_notified, v.notified, e);
        blocked = omega (arith, c.lists, v.blocked, long, total-set awake ts i p p' at);
        known =
            Each-set (Known r b) (Known r b') 0 ts i p'
              (λ k q ne known.
                let other : k ≢ me = ground (arith, ne, same_number) in
                Known-keep r b b' k q e (c.stays k other) (c.stays_ready k other) known)
              (
                omega (arith, same_number),
                subst (λ (k : ℕ). KnownAt r b' k pc') (omega (arith, same_number)) c.new,
              )
              v.known;
      }
