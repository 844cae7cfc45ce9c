-- ===== src/Lock/Laws.antt =====
-- One processor at a time is between `lock` and `unlock`, with its interrupts disabled, and the flag that it had
-- before comes back.
use osfinal_project.Prelude.{
  ℕ, zero, suc, ◌+◌, ◌≤◌, ◌≡◌, ◌⊎◌, inl, inr, refl, ap, ◌∙◌, arith, subst, Bool-cases, some, Bool,
  true, false, List, [], ◌∷◌, if◌then◌else◌, get_elem?, set,
}
use osfinal_project.Turns.{total, total-set, total-le, Keeps, run, run-keeps}
use osfinal_project.Lock.{
  Lock, Stage, outside, tries, exchanges, stores, retries, inside, clears, restores, Cpu, step_at,
  advance, processors,
}

-- A processor that has taken the lock and has not cleared it.
abbrev pub holds : Cpu → ℕ
holds c = elim c.stage [ stores w ↦ 1 | inside ↦ 1 | clears w ↦ 1 | _ ↦ 0 ]

-- What is known of a processor that had the flag `f` before its call.
abbrev Flagged : Lock → Bool → Cpu → Type 0
Flagged l f c = elim c.stage [
  | outside ↦ c.disabled ≡ f
  | tries ↦ c.disabled ≡ f
  | exchanges w ↦ (c.disabled ≡ true) × (w ≡ f)
  | stores w ↦ (c.disabled ≡ true) × (w ≡ f)
  | retries w ↦ (c.disabled ≡ true) × (w ≡ f)
  | inside ↦ (c.disabled ≡ true) × (l.was ≡ f)
  | clears w ↦ (c.disabled ≡ true) × (w ≡ f)
  | restores w ↦ (c.disabled ≡ true) × (w ≡ f)
]

abbrev pub AllFlagged : Lock → List Bool → List Cpu → Type 0
AllFlagged l [] [] = Unit {0}
AllFlagged l (f ∷ fs) (c ∷ cs) = Flagged l f c × AllFlagged l fs cs
AllFlagged l [] (c ∷ cs) = ⊥
AllFlagged l (f ∷ fs) [] = ⊥

-- The lock is taken exactly when one processor holds it.
pub record IsLocked (fs : List Bool) (l : Lock) (cs : List Cpu) : Type 0 where
  pub one : total holds cs ≡ (if l.taken then 1 else 0)
  pub flags : AllFlagged l fs cs

Flagged-keep :
    (l l' : Lock) (f d : Bool) (st : Stage)
    → (l'.was ≡ l.was) ⊎ (holds (record { disabled = d; stage = st }) ≡ 0)
    → Flagged l f (record { disabled = d; stage = st })
    → Flagged l' f (record { disabled = d; stage = st })
Flagged-keep l l' f d outside h k = k
Flagged-keep l l' f d tries h k = k
Flagged-keep l l' f d (exchanges w) h k = k
Flagged-keep l l' f d (stores w) h k = k
Flagged-keep l l' f d (retries w) h k = k
Flagged-keep l l' f d inside (inl e) k = (k.0, e ∙ k.1)
Flagged-keep l l' f d inside (inr e) k = cc
Flagged-keep l l' f d (clears w) h k = k
Flagged-keep l l' f d (restores w) h k = k

AllFlagged-keep :
    (l l' : Lock) (fs : List Bool) (cs : List Cpu)
    → (l'.was ≡ l.was) ⊎ (total holds cs ≡ 0)
    → AllFlagged l fs cs
    → AllFlagged l' fs cs
AllFlagged-keep l l' [] [] h k = tt
AllFlagged-keep l l' (f ∷ fs) (c ∷ cs) (inl e) k =
    (Flagged-keep l l' f c.disabled c.stage (inl e) k.0, AllFlagged-keep l l' fs cs (inl e) k.1)
AllFlagged-keep l l' (f ∷ fs) (c ∷ cs) (inr e) k = (
  Flagged-keep l l' f c.disabled c.stage (inr (omega (arith, e))) k.0,
  AllFlagged-keep l l' fs cs (inr (omega (arith, e))) k.1,
)
AllFlagged-keep l l' [] (c ∷ cs) h k = absurd k
AllFlagged-keep l l' (f ∷ fs) [] h k = absurd k

-- The `i`-th processor goes on; the others are as they were.
AllFlagged-set :
    (l l' : Lock) (fs : List Bool) (cs : List Cpu) (i : ℕ) (c c' : Cpu)
    → get_elem? cs i ≡ some c
    → (l'.was ≡ l.was) ⊎ (total holds cs ≡ holds c)
    → ((f : Bool) → Flagged l f c → Flagged l' f c')
    → AllFlagged l fs cs
    → AllFlagged l' fs (set cs i c')
AllFlagged-set l l' [] [] i c c' at h go k = cc
AllFlagged-set l l' [] (d ∷ cs) i c c' at h go k = absurd k
AllFlagged-set l l' (f ∷ fs) [] i c c' at h go k = absurd k
AllFlagged-set l l' (f ∷ fs) (d ∷ cs) zero c c' at h go k =
    let same : d ≡ c = cc in
    (go f (subst (Flagged l f) same k.0), AllFlagged-keep l l' fs cs (rest same h) k.1)
  where
    rest :
        d ≡ c
        → (l'.was ≡ l.was) ⊎ (total holds (d ∷ cs) ≡ holds c)
        → (l'.was ≡ l.was) ⊎ (total holds cs ≡ 0)
    rest same (inl e) = inl e
    rest same (inr e) = inr (omega (arith, ap holds same, e))
AllFlagged-set l l' (f ∷ fs) (d ∷ cs) (suc i) c c' at h go k = (
  Flagged-keep l l' f d.disabled d.stage (first h) k.0,
  AllFlagged-set l l' fs cs i c c' at (rest h) go k.1,
)
  where
    first : (l'.was ≡ l.was) ⊎ (total holds (d ∷ cs) ≡ holds c) → (l'.was ≡ l.was) ⊎ (holds d ≡ 0)
    first (inl e) = inl e
    first (inr e) = inr (omega (arith, e, total-le holds cs i c at))

    rest :
        (l'.was ≡ l.was) ⊎ (total holds (d ∷ cs) ≡ holds c)
        → (l'.was ≡ l.was) ⊎ (total holds cs ≡ holds c)
    rest (inl e) = inl e
    rest (inr e) = inr (omega (arith, e, total-le holds cs i c at))

module _ (fs : List Bool) (l : Lock) (cs : List Cpu) (i : ℕ) (v : IsLocked fs l cs) where
  abbrev cpu : Bool → Stage → Cpu
  cpu d st = record { disabled = d; stage = st }

  -- One step of a processor, from what is known of it.
  goes :
      (d d' : Bool) (st st' : Stage) (l' : Lock)
      → get_elem? cs i ≡ some (cpu d st)
      → (l'.was ≡ l.was) ⊎ (total holds cs ≡ holds (cpu d st))
      → ((f : Bool) → Flagged l f (cpu d st) → Flagged l' f (cpu d' st'))
      → holds (cpu d' st') + (if l.taken then 1 else 0)
        ≡ holds (cpu d st) + (if l'.taken then 1 else 0)
      → IsLocked fs l' (set cs i (cpu d' st'))
  goes d d' st st' l' at h go e = record {
    one = omega (arith, v.one, e, total-set holds cs i (cpu d st) (cpu d' st') at);
    flags = AllFlagged-set l l' fs cs i (cpu d st) (cpu d' st') at h go v.flags;
  }

  -- A processor that holds the lock is the only one.
  alone :
      (d : Bool) (st : Stage)
      → get_elem? cs i ≡ some (cpu d st)
      → holds (cpu d st) ≡ 1
      → (l.taken ≡ true) × (total holds cs ≡ 1)
  alone d st at e =
      let one = v.one in let le = total-le holds cs i (cpu d st) at in ground (arith, one, le, e)

  back : (d w f : Bool) → (d ≡ true) × (w ≡ f) → (if w then d else false) ≡ f
  back d true f k = k.0 ∙ k.1
  back d false f k = k.1

  step-Keeps :
      (d : Bool) (st : Stage)
      → get_elem? cs i ≡ some (cpu d st)
      → Keeps (IsLocked fs) cs l i (step_at l (cpu d st) st)
  unfolding step_at
  step-Keeps d outside at = goes d d outside tries l at (inl refl) (λ f k. k) refl
  step-Keeps d tries at = goes d true tries (exchanges d) l at (inl refl) (λ f k. (refl, k)) refl
  step-Keeps d (exchanges w) at = elim (Bool-cases l.taken) [
    | inl e ↦ simp e (
        goes d d (exchanges w) (retries w) (record l { taken = true }) at (inl refl) (λ f k. k)
          (ground (arith, e)))
    | inr e ↦ simp e (
        goes d d (exchanges w) (stores w) (record l { taken = true }) at (inl refl) (λ f k. k)
          (ground (arith, e)))
  ]
  step-Keeps d (stores w) at =
      goes d d (stores w) inside (record l { was = w }) at (inr ((alone d (stores w) at refl).1))
        (λ f k. k) refl
  step-Keeps d (retries w) at =
      goes d (if w then d else false) (retries w) tries l at (inl refl) (λ f k. back d w f k) refl
  step-Keeps d inside at = goes d d inside (clears l.was) l at (inl refl) (λ f k. k) refl
  step-Keeps d (clears w) at =
      goes d d (clears w) (restores w) (record l { taken = false }) at (inl refl) (λ f k. k)
        (ground (arith, (alone d (clears w) at refl).0))
  step-Keeps d (restores w) at =
      goes d (if w then d else false) (restores w) outside l at (inl refl) (λ f k. back d w f k)
        refl

start :
    (fs : List Bool) (l : Lock)
    → (total holds (processors fs) ≡ 0) × AllFlagged l fs (processors fs)
start [] l = (refl, tt)
start (f ∷ fs) l = let r = start fs l in (omega (arith, r.0), (refl, r.1))

-- On an `InterruptSafeLock` that is not taken, with any number of processors that call `lock` and
-- `unlock` in turn, after any schedule: at most one processor holds the lock; every processor that
-- holds it has its interrupts disabled; and every processor that is in no call has the interrupt
-- flag that it had at the start.
pub lock-Excludes :
    (fs : List Bool) (l : Lock) (is : List ℕ)
    → l.taken ≡ false
    → (r : Lock × List Cpu) × (run advance l (processors fs) is ≡ some r)
      × (total holds r.1 ≤ 1)
      × AllFlagged r.0 fs r.1
lock-Excludes fs l is free =
    let (none_hold, flags) = start fs l in
    let (r, e, v) =
      run-keeps advance (IsLocked fs)
        (λ (s : Lock) (cs : List Cpu) (i : ℕ) (c : Cpu) (w : IsLocked fs s cs)
            (at : get_elem? cs i ≡ some c).
          step-Keeps fs s cs i w c.disabled c.stage at)
        l (processors fs) is (record { one = ground (arith, none_hold, free); flags = flags }) in
    let one = v.one in (r, e, ground (arith, one), v.flags)
