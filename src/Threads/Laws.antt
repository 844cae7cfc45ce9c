-- ===== src/Threads/Laws.antt =====
-- Threads that yield run in turn.
use osfinal_project.Prelude.{
  ℕ, suc, ◌≡◌, ◌≢◌, refl, sym, ◌∙◌, arith, subst, false, some, List, [], ◌∷◌, ◌++◌, append_assoc,
  length,
}
use osfinal_project.Chain.{has, Chain, link}
use osfinal_project.Queue.{add, remove}
use osfinal_project.Queue.Laws.{IsQueue, add-append, remove-cons, has-append}
use osfinal_project.Threads.{Threads, schedule, block, yield, yields}

-- The thread `me` runs, the threads `xs` are ready in this order; none of them is null or idle or there twice.
pub record IsReady (s : Threads) (me : ℕ) (xs : List ℕ) : Type 0 where
  pub runs : s.active ≡ me
  pub queued : IsQueue s.ready xs
  pub apart : has me xs ≡ false
  pub nonnull : me ≢ 0
  pub busy : has s.idle (me ∷ xs) ≡ false

yield-next :
    (s : Threads) (t : ℕ)
    → (remove s.ready).0 ≡ some t
    → s.active ≢ s.idle
    → yield s ≡ record s { ready = add (remove s.ready).1 s.active; active = t }
unfolding yield schedule block
yield-next s t e busy = ground (arith, e, busy)

Chain-first :
    (m : ℕ → ℕ) (p x : ℕ) (xs : List ℕ) → Chain m p (x ∷ xs) → (x ≢ 0) × (has x xs ≡ false)
Chain-first m p x xs (link nz fresh c) = (nz, fresh)

-- The first ready thread runs next, and the one that yields is the last to be ready.
yield-IsReady :
    (s : Threads) (me x : ℕ) (xs : List ℕ)
    → IsReady s me (x ∷ xs)
    → IsReady (yield s) x (xs ++ (me ∷ []))
yield-IsReady s me x xs v =
    let (at, rest) = remove-cons v.queued in
    let (nz, fresh) = Chain-first s.ready.next s.ready.first x xs v.queued.chain in
    let runs = v.runs in
    let busy = v.busy in
    let apart = v.apart in
    let other : s.active ≢ s.idle = ground (arith, runs, busy) in
    subst (λ (t : Threads). IsReady t x (xs ++ (me ∷ []))) (sym (yield-next s x at other))
      (record {
        runs = refl;
        queued =
            subst (λ (t : ℕ). IsQueue (add (remove s.ready).1 t) (xs ++ (me ∷ []))) (sym runs)
              (add-append me rest v.nonnull (ground (arith, apart)));
        apart = has-append x xs (me ∷ []) ∙ ground (arith, fresh, apart);
        nonnull = nz;
        busy = ground (arith, has-append s.idle xs (me ∷ []), busy);
      })

-- On one processor, when a thread runs and other threads are ready, none of them null, idle or
-- there twice: a ready thread runs after as many calls of `yield` as there are threads before it
-- and one more, each by the thread that runs. The queue then holds the threads that were behind it,
-- the one that ran at first, and those that ran in between, in this order.
pub yields-Runs :
    (s : Threads) (me : ℕ) (before : List ℕ) (t : ℕ) (after : List ℕ)
    → IsReady s me (before ++ (t ∷ after))
    → IsReady (yields (suc (length before)) s) t (after ++ (me ∷ before))
unfolding yields
yields-Runs s me [] t after v = yield-IsReady s me t after v
yields-Runs s me (x ∷ before) t after v =
    let w = yields-Runs (yield s) x before t (after ++ (me ∷ [])) (
      subst (IsReady (yield s) x) (append_assoc before (t ∷ after) (me ∷ []))
        (yield-IsReady s me x (before ++ (t ∷ after)) v)) in
    subst (IsReady (yields (suc (length before)) (yield s)) t)
      (append_assoc after (me ∷ []) (x ∷ before)) w
