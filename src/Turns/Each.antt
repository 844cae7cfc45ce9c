-- ===== src/Turns/Each.antt =====
-- What holds of each of the threads, by its number.
use osfinal_project.Prelude.{
  ℕ, zero, suc, ◌+◌, ◌≤◌, ◌≡◌, ◌≢◌, ◌⊎◌, inl, inr, ap, arith, subst, some, List, [], ◌∷◌, length,
  get_elem?, set,
}
use osfinal_project.Turns.{total}

module _ {P : Type 0} where
  -- The predicate holds of the threads, the first of which has the number `j`.
  abbrev pub Each : (ℕ → P → Type 0) → ℕ → List P → Type 0
  Each Q j [] = Unit {0}
  Each Q j (pc ∷ ts) = Q j pc × Each Q (suc j) ts

  pub Each-at :
      (Q : ℕ → P → Type 0) (j : ℕ) (ts : List P) (i : ℕ) (pc : P)
      → get_elem? ts i ≡ some pc
      → Each Q j ts
      → Q (j + i) pc
  Each-at Q j [] i pc e all = cc
  Each-at Q j (q ∷ ts) zero pc e all =
      let same : q ≡ pc = cc in subst (λ (k : ℕ). Q k pc) (omega arith) (subst (Q j) same all.0)
  Each-at Q j (q ∷ ts) (suc i) pc e all =
      subst (λ (k : ℕ). Q k pc) (omega arith) (Each-at Q (suc j) ts i pc e all.1)

  pub Each-map :
      (Q Q' : ℕ → P → Type 0) (j : ℕ) (ts : List P)
      → ((k : ℕ) (q : P) → j ≤ k → Q k q → Q' k q)
      → Each Q j ts
      → Each Q' j ts
  Each-map Q Q' j [] f all = tt
  Each-map Q Q' j (q ∷ ts) f all = (
    f j q (omega arith) all.0,
    Each-map Q Q' (suc j) ts (λ k p le. f k p (omega (arith, le))) all.1,
  )

  -- The `i`-th thread goes on.
  pub Each-set :
      (Q Q' : ℕ → P → Type 0) (j : ℕ) (ts : List P) (i : ℕ) (pc' : P)
      → ((k : ℕ) (q : P) → k ≢ j + i → Q k q → Q' k q)
      → Q' (j + i) pc'
      → Each Q j ts
      → Each Q' j (set ts i pc')
  Each-set Q Q' j [] i pc' f new all = tt
  Each-set Q Q' j (q ∷ ts) zero pc' f new all = (
    subst (λ (k : ℕ). Q' k pc') (omega arith) new,
    Each-map Q Q' (suc j) ts (λ k p le. f k p (omega (arith, le))) all.1,
  )
  Each-set Q Q' j (q ∷ ts) (suc i) pc' f new all = (
    f j q (omega arith) all.0,
    Each-set Q Q' (suc j) ts i pc' (λ k p ne. f k p (omega (arith, ne)))
        (subst (λ (k : ℕ). Q' k pc') (omega arith) new) all.1,
  )

  -- When the weights are one at most, and add up to the number of threads but one, all
  -- threads but the one without weight have weight one.
  module _ (w : P → ℕ) (light : (q : P) → w q ≤ 1) where
    total-light : (ts : List P) → total w ts ≤ length ts
    total-light [] = omega arith
    total-light (q ∷ ts) = omega (arith, light q, total-light ts)

    total-gap :
        (ts : List P) (i : ℕ) (pc : P)
        → get_elem? ts i ≡ some pc
        → w pc ≡ 0
        → total w ts + 1 ≤ length ts
    total-gap [] i pc e z = cc
    total-gap (q ∷ ts) zero pc e z =
        let same : q ≡ pc = cc in omega (arith, ap w same, z, total-light ts)
    total-gap (q ∷ ts) (suc i) pc e z = omega (arith, light q, total-gap ts i pc e z)

    all_heavy :
        (j : ℕ) (ts : List P) → total w ts ≡ length ts → Each (λ (k : ℕ) (q : P). w q ≡ 1) j ts
    all_heavy j [] e = tt
    all_heavy j (q ∷ ts) e = (
      omega (arith, light q, total-light ts, e),
      all_heavy (suc j) ts (omega (arith, light q, total-light ts, e)),
    )

    pub Each-others :
        (j : ℕ) (ts : List P) (i : ℕ) (pc : P)
        → get_elem? ts i ≡ some pc
        → w pc ≡ 0
        → total w ts + 1 ≡ length ts
        → Each (λ (k : ℕ) (q : P). (k ≡ j + i) ⊎ (w q ≡ 1)) j ts
    Each-others j [] i pc at z e = cc
    Each-others j (q ∷ ts) zero pc at z e =
        let same : q ≡ pc = cc in
        (
          inl (omega arith),
          Each-map (λ (k : ℕ) (p : P). w p ≡ 1) (λ (k : ℕ) (p : P). (k ≡ j + 0) ⊎ (w p ≡ 1)) (suc j)
              ts (λ k p le h. inr h) (all_heavy (suc j) ts (omega (arith, ap w same, z, e))),
        )
    Each-others j (q ∷ ts) (suc i) pc at z e =
        let gap = total-gap ts i pc at z in
        (
          inr (omega (arith, light q, gap, e)),
          Each-map (λ (k : ℕ) (p : P). (k ≡ suc j + i) ⊎ (w p ≡ 1))
              (λ (k : ℕ) (p : P). (k ≡ j + suc i) ⊎ (w p ≡ 1)) (suc j) ts
              (λ k p le h. ground (arith, h))
              (Each-others (suc j) ts i pc at z (omega (arith, light q, gap, e))),
        )

  pub Each-both :
      (Q R : ℕ → P → Type 0) (j : ℕ) (ts : List P)
      → Each Q j ts
      → Each R j ts
      → Each (λ (k : ℕ) (q : P). Q k q × R k q) j ts
  Each-both Q R j [] a b = tt
  Each-both Q R j (q ∷ ts) a b = ((a.0, b.0), Each-both Q R (suc j) ts a.1 b.1)
