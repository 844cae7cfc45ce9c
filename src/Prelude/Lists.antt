-- ===== src/Prelude/Lists.antt =====
-- Lists measured and indexed by native numbers, functions from addresses, and slices of them.
use Prim.Native.Nat.{ℕ, zero, suc, ◌+◌, ◌≤◌, ◌<◌, compare, Ordering}
use mathlib.Core.Path.{◌≡◌, refl, ap, ap₂, ◌∙◌}
use mathlib.Core.Logic.{◌≢◌}
use mathlib.Core.List.{List, [], ◌∷◌, ◌++◌}
use mathlib.Core.Option.{Option, none, some}
use native.Mathlib.Omega.{arith}

module _ {ℓ} {A : Type ℓ} where
  abbrev pub length : List A → ℕ
  length [] = 0
  length (x ∷ xs) = suc (length xs)

  abbrev pub get_elem? : List A → ℕ → Option A
  get_elem? [] i = none
  get_elem? (x ∷ xs) zero = some x
  get_elem? (x ∷ xs) (suc i) = get_elem? xs i

  -- A write out of bounds changes nothing.
  abbrev pub set : List A → ℕ → A → List A
  set [] i v = []
  set (x ∷ xs) zero v = v ∷ xs
  set (x ∷ xs) (suc i) v = x ∷ set xs i v

  abbrev pub get_or : List A → ℕ → A → A
  get_or [] i d = d
  get_or (x ∷ xs) zero d = x
  get_or (x ∷ xs) (suc i) d = get_or xs i d

  abbrev pub take : ℕ → List A → List A
  take zero xs = []
  take (suc n) [] = []
  take (suc n) (x ∷ xs) = x ∷ take n xs

  abbrev pub drop : ℕ → List A → List A
  drop zero xs = xs
  drop (suc n) [] = []
  drop (suc n) (x ∷ xs) = drop n xs

  abbrev pub replicate : ℕ → A → List A
  replicate zero a = []
  replicate (suc n) a = a ∷ replicate n a

  pub length-append : (xs ys : List A) → length (xs ++ ys) ≡ length xs + length ys
  length-append [] ys = omega arith
  length-append (x ∷ xs) ys = omega (arith, length-append xs ys)

module _ {ℓ} {A : Type ℓ} where
  pub length-set : (xs : List A) (i : ℕ) (v : A) → length (set xs i v) ≡ length xs
  length-set [] i v = refl
  length-set (x ∷ xs) zero v = refl
  length-set (x ∷ xs) (suc i) v = ap suc (length-set xs i v)

  pub get_elem?-set_self :
      (xs : List A) (i : ℕ) (v : A) → i < length xs → get_elem? (set xs i v) i ≡ some v
  get_elem?-set_self [] i v h = elim h [ ]
  get_elem?-set_self (x ∷ xs) zero v h = refl
  get_elem?-set_self (x ∷ xs) (suc i) v h = get_elem?-set_self xs i v (omega arith)

  pub get_elem?-set_ne :
      (xs : List A) {i j : ℕ} (v : A) → i ≢ j → get_elem? (set xs i v) j ≡ get_elem? xs j
  get_elem?-set_ne [] v h = refl
  get_elem?-set_ne (x ∷ xs) {i = zero} {j = zero} v h = absurd (h refl)
  get_elem?-set_ne (x ∷ xs) {i = zero} {j = suc j} v h = refl
  get_elem?-set_ne (x ∷ xs) {i = suc i} {j = zero} v h = refl
  get_elem?-set_ne (x ∷ xs) {i = suc i} {j = suc j} v h = get_elem?-set_ne xs v (λ e. h (ap suc e))

  -- The `n` values of `f` from index `a` on.
  abbrev pub slice : (ℕ → A) → ℕ → ℕ → List A
  slice f a zero = []
  slice f a (suc n) = f a ∷ slice f (suc a) n

module _ {ℓ} {A : Type ℓ} where
  pub length-slice : (f : ℕ → A) (a n : ℕ) → length (slice f a n) ≡ n
  length-slice f a zero = refl
  length-slice f a (suc n) = ap suc (length-slice f (suc a) n)

  pub slice-append : (f : ℕ → A) (a m n : ℕ) → slice f a m ++ slice f (a + m) n ≡ slice f a (m + n)
  slice-append f a zero n = ap₂ (λ (i k : ℕ). slice f i k) (omega arith) (omega arith)
  slice-append f a (suc m) n =
      ap (λ t. f a ∷ t)
        (ap (λ i. slice f (suc a) m ++ slice f i n) shift ∙ slice-append f (suc a) m n)
      ∙ ap (λ (k : ℕ). slice f a k) total
    where
      shift : a + suc m ≡ suc a + m
      shift = omega arith

      total : suc (m + n) ≡ suc m + n
      total = omega arith

  pub take-slice : (f : ℕ → A) (a m n : ℕ) → m ≤ n → take m (slice f a n) ≡ slice f a m
  take-slice f a zero n h = refl
  take-slice f a (suc m) zero h = elim h [ ]
  take-slice f a (suc m) (suc n) h = ap (λ t. f a ∷ t) (take-slice f (suc a) m n (omega arith))

  pub drop-slice : (f : ℕ → A) (a m n : ℕ) → drop m (slice f a (m + n)) ≡ slice f (a + m) n
  drop-slice f a zero n = ap₂ (λ (i k : ℕ). slice f i k) (omega arith) (omega arith)
  drop-slice f a (suc m) n =
      ap (λ (k : ℕ). drop (suc m) (slice f a k)) total
      ∙ drop-slice f (suc a) m n
      ∙ ap (λ (i : ℕ). slice f i n) shift
    where
      total : suc m + n ≡ suc (m + n)
      total = omega arith

      shift : suc a + m ≡ a + suc m
      shift = omega arith

-- Memory as a function from addresses: a write, and the laws of a write.
module _ {ℓ} {A : Type ℓ} where
  abbrev pub update : (ℕ → A) → ℕ → A → ℕ → A
  update f i a j = elim (compare i j) [ Ordering.eq ↦ a | _ ↦ f j ]

  pub update_self : (f : ℕ → A) (i : ℕ) (a : A) → update f i a i ≡ a
  update_self f i a = ground arith

  pub update_ne : (f : ℕ → A) (i j : ℕ) (a : A) → i ≢ j → update f i a j ≡ f j
  update_ne f i j a h = ground arith
