-- ===== src/Buffer/Ring.antt =====
-- The contents of the buffer: its cells from `head` on, around the end of the array.
use osfinal_project.Prelude.{
  ℕ, zero, suc, ◌+◌, ◌-◌, ◌%◌, ◌≤◌, ◌<◌, ◌≡◌, ap, ap₂, sym, ◌∙◌, arith, List, [], ◌∷◌, ◌++◌, ltb,
  if◌then◌else◌, update, dec_lt,
}
use native.Mathlib.Nat.{mod-eq_of_lt, mod-eq-sub-mod}

-- `n` cells from the one at `h` on.
abbrev pub contents : {A : Type 0} → (ℕ → A) → (places h n : ℕ) → List A
contents cells places h zero = []
contents cells places h (suc n) = cells h ∷ contents cells places ((h + 1) % places) n

pub wrap :
    (h k places : ℕ)
    → h < places
    → k ≤ places
    → (h + k) % places ≡ (if ltb (h + k) places then h + k else h + k - places)
wrap h k places lt le = elim (dec_lt (h + k) places) [
  | yes low ↦ mod-eq_of_lt low ∙ ground (arith, low)
  | no high ↦
      mod-eq-sub-mod {n = h + k} {m = places} (omega arith)
      ∙ mod-eq_of_lt {n = h + k - places} {m = places} (omega arith)
      ∙ ground (arith, high)
]

wrap_suc :
    (h n places : ℕ)
    → h < places
    → suc n < places
    → ((h + 1) % places + n) % places ≡ (h + suc n) % places
wrap_suc h n places lt le =
    let one = wrap h 1 places lt (omega arith) in
    let far = wrap h (suc n) places lt (omega arith) in
    let bound : (h + 1) % places < places = one-lt in
    wrap ((h + 1) % places) n places bound (omega arith) ∙ ground (arith, one, sym far, lt, le)
  where
    one-lt : (h + 1) % places < places
    one-lt = ground (arith, wrap h 1 places lt (omega arith), lt)

-- The cell behind the last one is written.
pub contents-put :
    {A : Type 0} (cells : ℕ → A) (places h n : ℕ) (t : A)
    → h < places
    → n < places
    → contents (update cells ((h + n) % places) t) places h (suc n)
      ≡ contents cells places h n ++ (t ∷ [])
contents-put {A} cells places h zero t lt le =
    let here = wrap h 0 places lt (omega arith) in ap (λ (a : A). a ∷ []) (ground (arith, here, lt))
contents-put {A} cells places h (suc n) t lt le =
    let far = wrap h (suc n) places lt (omega arith) in
    let one = wrap h 1 places lt (omega arith) in
    ap₂ (λ (a : A) (l : List A). a ∷ l) (ground (arith, far, lt, le))
      (ap (λ (i : ℕ). contents (update cells i t) places ((h + 1) % places) (suc n))
          (sym (wrap_suc h n places lt le))
        ∙ contents-put cells places ((h + 1) % places) n t (ground (arith, one, lt)) (omega arith))
