-- ===== src/Lock/Flexible.antt =====
-- `SpinLock` and `ISL` of kernel/atomic.h. The one leaves the interrupts alone. The other gives the flag
-- of the interrupts to its caller, who gives it back to `unlock`.
use osfinal_project.Prelude.{
  ℕ, zero, suc, ◌+◌, ◌≤◌, ◌≡◌, inl, inr, refl, ◌∙◌, arith, Bool-cases, some, Bool, true, false,
  List, [], ◌∷◌, if◌then◌else◌, get_elem?, set,
}
use osfinal_project.Turns.{Move, steps, total, total-set, total-le, Keeps, run, run-keeps}
use osfinal_project.Turns.Each.{Each, Each-at, Each-set}

-- A caller of `SpinLock`: in no call; in `lock`, before the exchange; between the calls.
pub data Spin : Type 0 where
  away : Spin
  spins : Spin
  owns : Spin

-- On `taken`.
pub spin_step : Bool → Spin → Move Bool Spin
spin_step taken away = steps taken spins
spin_step taken spins = if taken then steps true spins else steps true owns
spin_step taken owns = steps false away

-- A caller of `ISL`, as of `InterruptSafeLock`; the flag is the one that `lock` returned.
pub data Spot : Type 0 where
  outside : Spot
  tries : Spot
  exchanges : Bool → Spot
  retries : Bool → Spot
  inside : Bool → Spot
  restores : Bool → Spot

pub record Processor : Type 0 where
  pub disabled : Bool
  pub place : Spot

abbrev on : Bool → Spot → Processor
on disabled place = record { disabled = disabled; place = place }

-- `unlock(disable)` clears `taken`, then it disables or enables the interrupts.
pub isl_step : Bool → (disabled : Bool) → Spot → Move Bool Processor
isl_step taken d outside = steps taken (on d tries)
isl_step taken d tries = steps taken (on true (exchanges d))
isl_step taken d (exchanges w) =
    if taken then steps true (on d (retries w)) else steps true (on d (inside w))
isl_step taken d (retries w) = steps taken (on (if w then d else false) tries)
isl_step taken d (inside w) = steps false (on d (restores w))
isl_step taken d (restores w) = steps taken (on w outside)

abbrev pub isl_advance : Bool → Processor → Move Bool Processor
isl_advance taken c = isl_step taken c.disabled c.place

-- Processors in no call, from the number `j` on, with these interrupt flags.
abbrev pub idle_processors : (ℕ → Bool) → ℕ → ℕ → List Processor
idle_processors flag j zero = []
idle_processors flag j (suc n) = on (flag j) outside ∷ idle_processors flag (suc j) n

abbrev pub callers : ℕ → List Spin
callers zero = []
callers (suc n) = away ∷ callers n

abbrev pub spin_holds : Spin → ℕ
spin_holds owns = 1
spin_holds _ = 0

-- The lock is taken exactly when one caller holds it.
abbrev OneHolds : {P : Type 0} → (P → ℕ) → Bool → List P → Type 0
OneHolds holds taken ts = total holds ts ≡ (if taken then 1 else 0)

spin-OneHolds :
    (taken : Bool) (ts : List Spin) (i : ℕ) (pc : Spin)
    → OneHolds spin_holds taken ts
    → get_elem? ts i ≡ some pc
    → Keeps (OneHolds spin_holds) ts taken i (spin_step taken pc)
unfolding spin_step
spin-OneHolds taken ts i away v at = omega (arith, v, total-set spin_holds ts i away spins at)
spin-OneHolds true ts i spins v at = omega (arith, v, total-set spin_holds ts i spins spins at)
spin-OneHolds false ts i spins v at = omega (arith, v, total-set spin_holds ts i spins owns at)
spin-OneHolds taken ts i owns v at =
    let le = total-le spin_holds ts i owns at in
    let other = total-set spin_holds ts i owns away at in ground (arith, v, le, other)

-- What is known of a processor that had the flag `f` before its call.
abbrev pub Restored : Bool → Processor → Type 0
Restored f c = elim c.place [
  | outside ↦ c.disabled ≡ f
  | tries ↦ c.disabled ≡ f
  | exchanges w ↦ (c.disabled ≡ true) × (w ≡ f)
  | retries w ↦ (c.disabled ≡ true) × (w ≡ f)
  | inside w ↦ (c.disabled ≡ true) × (w ≡ f)
  | restores w ↦ (c.disabled ≡ true) × (w ≡ f)
]

abbrev pub isl_holds : Processor → ℕ
isl_holds c = elim c.place [ inside w ↦ 1 | _ ↦ 0 ]

abbrev OneRestored : (ℕ → Bool) → Bool → List Processor → Type 0
OneRestored flag taken cs = OneHolds isl_holds taken cs × Each (λ n c. Restored (flag n) c) 0 cs

module _ (flag : ℕ → Bool) (taken : Bool) (cs : List Processor) (i : ℕ)
    (v : OneRestored flag taken cs) where
  goes :
      (c c' : Processor) (t : Bool)
      → get_elem? cs i ≡ some c
      → isl_holds c' + (if taken then 1 else 0) ≡ isl_holds c + (if t then 1 else 0)
      → (Restored (flag (0 + i)) c → Restored (flag (0 + i)) c')
      → OneRestored flag t (set cs i c')
  goes c c' t at e f = (
    omega (arith, v.0, e, total-set isl_holds cs i c c' at),
    Each-set (λ n c. Restored (flag n) c) (λ n c. Restored (flag n) c) 0 cs i c' (λ k q ne h. h)
        (f (Each-at (λ n c. Restored (flag n) c) 0 cs i c at v.1)) v.1,
  )

  back : (d w f : Bool) → (d ≡ true) × (w ≡ f) → (if w then d else false) ≡ f
  back d true f k = k.0 ∙ k.1
  back d false f k = k.1

  isl-Keeps :
      (d : Bool) (st : Spot)
      → get_elem? cs i ≡ some (on d st)
      → Keeps (OneRestored flag) cs taken i (isl_step taken d st)
  unfolding isl_step
  isl-Keeps d outside at = goes (on d outside) (on d tries) taken at refl (λ k. k)
  isl-Keeps d tries at = goes (on d tries) (on true (exchanges d)) taken at refl (λ k. (refl, k))
  isl-Keeps d (exchanges w) at = elim (Bool-cases taken) [
    | inl e ↦
        simp e (goes (on d (exchanges w)) (on d (retries w)) true at (ground (arith, e)) (λ k. k))
    | inr e ↦
        simp e (goes (on d (exchanges w)) (on d (inside w)) true at (ground (arith, e)) (λ k. k))
  ]
  isl-Keeps d (retries w) at =
      goes (on d (retries w)) (on (if w then d else false) tries) taken at refl
        (λ k. back d w (flag (0 + i)) k)
  isl-Keeps d (inside w) at =
      let le = total-le isl_holds cs i (on d (inside w)) at in
      let one = v.0 in
      goes (on d (inside w)) (on d (restores w)) false at (ground (arith, le, one)) (λ k. k)
  isl-Keeps d (restores w) at = goes (on d (restores w)) (on w outside) taken at refl (λ k. k.1)

start_spin : (n : ℕ) → total spin_holds (callers n) ≡ 0
start_spin zero = refl
start_spin (suc n) = omega (arith, start_spin n)

start_isl :
    (flag : ℕ → Bool) (j n : ℕ)
    → (total isl_holds (idle_processors flag j n) ≡ 0)
      × Each (λ k c. Restored (flag k) c) j (idle_processors flag j n)
start_isl flag j zero = (refl, tt)
start_isl flag j (suc n) = let r = start_isl flag (suc j) n in (omega (arith, r.0), (refl, r.1))

-- On a `SpinLock` and on an `ISL` that are not taken, with any number of callers that lock and
-- unlock in turn, after any schedule: at most one caller holds the lock. On the `ISL`, every holder
-- has its interrupts disabled, and every processor that is in no call has the interrupt flag that
-- it had at the start.
pub locks-Exclude :
    (n : ℕ) (flag : ℕ → Bool) (is : List ℕ)
    → ((r : Bool × List Spin) × (run spin_step false (callers n) is ≡ some r)
        × (total spin_holds r.1 ≤ 1))
      × ((r : Bool × List Processor) × (run isl_advance false (idle_processors flag 0 n) is
            ≡ some r)
          × (total isl_holds r.1 ≤ 1)
          × Each (λ k c. Restored (flag k) c) 0 r.1)
locks-Exclude n flag is =
    let (r, e, v) =
      run-keeps spin_step (OneHolds spin_holds) spin-OneHolds false (callers n) is (start_spin n) in
    let (q, f, u) =
      run-keeps isl_advance (OneRestored flag)
        (λ (s : Bool) (cs : List Processor) (i : ℕ) (c : Processor) (w : OneRestored flag s cs)
            (at : get_elem? cs i ≡ some c).
          isl-Keeps flag s cs i w c.disabled c.place at)
        false (idle_processors flag 0 n) is (start_isl flag 0 n) in
    let one = u.0 in ((r, e, ground (arith, v)), (q, f, ground (arith, one), u.1))
