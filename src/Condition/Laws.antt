-- ===== src/Condition/Laws.antt =====
-- Whom a notification wakes.
use osfinal_project.Prelude.{
  ℕ, zero, suc, ◌+◌, ◌-◌, ◌%◌, ◌^◌, ◌≤◌, ◌<◌, ◌≡◌, refl, ap, ap₂, ◌∙◌, arith, List, [], ◌∷◌, ◌++◌,
  length, take, drop, some,
}
use osfinal_project.Condition.{
  Condition, queued, scheduled, recheck, notify_loop, notify, notify_all,
}

notify_loop-take : (n : ℕ) (ts : List ℕ) → notify_loop n ts ≡ (take n ts, drop n ts)
unfolding notify_loop
notify_loop-take zero ts = refl
notify_loop-take (suc n) [] = refl
notify_loop-take (suc n) (t ∷ ts) =
    ap (λ (r : List ℕ × List ℕ). (t ∷ r.0, r.1)) (notify_loop-take n ts)

take-all : (n : ℕ) (ts : List ℕ) → length ts ≤ n → take n ts ≡ ts
take-all zero [] le = refl
take-all zero (t ∷ ts) le = absurd (omega arith)
take-all (suc n) [] le = refl
take-all (suc n) (t ∷ ts) le = ap (λ (l : List ℕ). t ∷ l) (take-all n ts (omega arith))

drop-all : (n : ℕ) (ts : List ℕ) → length ts ≤ n → drop n ts ≡ []
drop-all zero [] le = refl
drop-all zero (t ∷ ts) le = absurd (omega arith)
drop-all (suc n) [] le = refl
drop-all (suc n) (t ∷ ts) le = drop-all n ts (omega arith)

-- `notifyAll` wakes every thread of the queue, in order.
pub notify_all-wakes :
    (c : Condition)
    → length c.queue < 2 ^ 64
    → c.epoch + 1 < 2 ^ 64
    → notify_all c ≡ (c.queue, record { epoch = c.epoch + 1; queue = [] })
unfolding notify_all notify
notify_all-wakes c few fit =
    ap (λ (r : List ℕ × List ℕ). (r.0, record { epoch = (c.epoch + 1) % 2 ^ 64; queue = r.1 }))
      (notify_loop-take (2 ^ 64 - 1) c.queue
        ∙ ap₂ (λ (a b : List ℕ). (a, b)) (take-all (2 ^ 64 - 1) c.queue (omega arith))
            (drop-all (2 ^ 64 - 1) c.queue (omega arith)))
    ∙ ap (λ (e : ℕ). (c.queue, record { epoch = e; queue = [] })) (omega arith)

module _ (c : Condition) (old_epoch me : ℕ) where
  pub recheck-queued :
      c.epoch ≡ old_epoch
      → recheck c old_epoch me ≡ some (queued (record c { queue = c.queue ++ (me ∷ []) }))
  unfolding recheck
  recheck-queued e = ground (arith, e)

  pub recheck-scheduled : old_epoch < c.epoch → recheck c old_epoch me ≡ some scheduled
  unfolding recheck
  recheck-scheduled e = ground (arith, e)
