-- ===== src/Config/Laws.antt =====
-- Which addresses the search for the tables of the firmware looks at.
use osfinal_project.Prelude.{
  ℕ, zero, suc, ◌+◌, ◌*◌, ◌%◌, ◌^◌, ◌<◌, ◌≡◌, ◌⊎◌, slice, sym, ap, subst, refl, ap₂, ◌∙◌, inl, inr,
  arith, true, false, Bool-cases, some, List, [], ◌∷◌, ltb, if◌then◌else◌, length,
}
use osfinal_project.Config.{iseq, find_rsd_in_range}

-- `RSD PTR `
abbrev pub signature : List ℕ
signature = b'R' ∷ b'S' ∷ b'D' ∷ b' ' ∷ b'P' ∷ b'T' ∷ b'R' ∷ b' ' ∷ []

-- The first of `n` addresses, 16 apart, where `iseq` finds the signature; or 0.
abbrev first_of : (ℕ → ℕ) → (start n : ℕ) → ℕ
first_of m start zero = 0
first_of m start (suc n) = if iseq m start signature then start else first_of m (start + 16) n

-- The eight bytes from an address on are those of the signature.
abbrev pub IsSigned : (ℕ → ℕ) → ℕ → Type 0
IsSigned m a = slice m a 8 ≡ signature

-- Of `n` addresses, 16 apart, `p` is the first that has the signature; or none has it, and `p` is 0.
abbrev pub First : (ℕ → ℕ) → (start n p : ℕ) → Type 0
First m start n p =
    ((p ≡ 0) × ((i : ℕ) → i < n → ¬ IsSigned m (start + 16 * i)))
    ⊎ ((i : ℕ) × (i < n)
        × (p ≡ start + 16 * i)
        × IsSigned m (start + 16 * i)
        × ((j : ℕ) → j < i → ¬ IsSigned m (start + 16 * j)))

-- `iseq` compares every byte.
iseq-slice : (m : ℕ → ℕ) (a : ℕ) (cs : List ℕ) → iseq m a cs ≡ true → slice m a (length cs) ≡ cs
unfolding iseq
iseq-slice m a [] e = refl
iseq-slice m a (c ∷ cs) e =
    let at : a + 1 ≡ suc a = omega arith in
    let head : m a ≡ c = ground (arith, e) in
    let tail : iseq m (a + 1) cs ≡ true = ground (arith, e) in
    ap₂ (λ (x : ℕ) (xs : List ℕ). x ∷ xs) head
      (ap (λ (b : ℕ). slice m b (length cs)) (sym at) ∙ iseq-slice m (a + 1) cs tail)

slice-iseq : (m : ℕ → ℕ) (a : ℕ) (cs : List ℕ) → slice m a (length cs) ≡ cs → iseq m a cs ≡ true
unfolding iseq
slice-iseq m a [] e = refl
slice-iseq m a (c ∷ cs) e =
    let at : suc a ≡ a + 1 = omega arith in
    let head : m a ≡ c = cc in
    let tail : slice m (suc a) (length cs) ≡ cs = cc in
    let rest = slice-iseq m (a + 1) cs (ap (λ (b : ℕ). slice m b (length cs)) (sym at) ∙ tail) in
    ground (arith, head, rest)

none_later :
    (m : ℕ → ℕ) (start n : ℕ)
    → ¬ IsSigned m start
    → ((i : ℕ) → i < n → ¬ IsSigned m (start + 16 + 16 * i))
    → (i : ℕ) → i < suc n
    → ¬ IsSigned m (start + 16 * i)
none_later m start n unsigned later zero lt =
    subst (λ (a : ℕ). ¬ IsSigned m a) (let e : start ≡ start + 16 * 0 = omega arith in e) unsigned
none_later m start n unsigned later (suc i) lt =
    subst (λ (a : ℕ). ¬ IsSigned m a)
      (let e : start + 16 + 16 * i ≡ start + 16 * suc i = omega arith in e)
      (later i (omega (arith, lt)))

First-suc :
    (m : ℕ → ℕ) (start n p : ℕ)
    → ¬ IsSigned m start
    → First m (start + 16) n p
    → First m start (suc n) p
First-suc m start n p unsigned (inl (null, absent)) =
    inl (null, none_later m start n unsigned absent)
First-suc m start n p unsigned (inr (i, lt, at, signed, before)) =
    let e : start + 16 + 16 * i ≡ start + 16 * suc i = omega arith in
    inr (
      suc i,
      omega (arith, lt),
      at ∙ e,
      subst (IsSigned m) e signed,
      none_later m start i unsigned before,
    )

first_of-First : (m : ℕ → ℕ) (start n : ℕ) → First m start n (first_of m start n)
first_of-First m start zero = inl (refl, λ i lt. absurd (omega (arith, lt)))
first_of-First m start (suc n) = elim (Bool-cases (iseq m start signature)) [
  | inl here ↦
      let e : start ≡ start + 16 * 0 = omega arith in
      rw (first_of, here)
        (inr (
          0,
          omega arith,
          e,
          subst (IsSigned m) e (iseq-slice m start signature here),
          λ j lt. absurd (omega (arith, lt)),
        ))
  | inr other ↦
      let no : ¬ IsSigned m start =
        (λ signed. let h = slice-iseq m start signature signed in ground (arith, h, other)) in
      rw (first_of, other)
        (First-suc m start n (first_of m (start + 16) n) no (first_of-First m (start + 16) n))
]

find_rsd_in_range-first_of :
    (f : ℕ) (m : ℕ → ℕ) (start n : ℕ)
    → n < f
    → start + 16 * n < 2 ^ 32
    → find_rsd_in_range f m start (start + 16 * n) ≡ some (first_of m start n)
unfolding find_rsd_in_range
find_rsd_in_range-first_of zero m start n enough fits = absurd (omega (arith, enough))
find_rsd_in_range-first_of (suc f) m start zero enough fits =
    let done : ltb start (start + 16 * 0) ≡ false = ground arith in
    rw (done, find_rsd_in_range) refl
find_rsd_in_range-first_of (suc f) m start (suc n) enough fits =
    let go : ltb start (start + 16 * suc n) ≡ true = ground arith in
    let next : (start + 16) % 2 ^ 32 ≡ start + 16 = omega (arith, fits) in
    let end : start + 16 * suc n ≡ start + 16 + 16 * n = omega arith in
    let rest =
      find_rsd_in_range-first_of f m (start + 16) n (omega (arith, enough)) (omega (arith, fits)) in
    elim (Bool-cases (iseq m start signature)) [
      | inl here ↦ rw (find_rsd_in_range, first_of, go, here) refl
      | inr other ↦ rw (find_rsd_in_range, first_of, go, other, next, end) rest
    ]

-- From an address on, up to one that is a multiple of 16 higher and below 2^32, with more rounds
-- than there are such steps, the search ends: with the first of the addresses, 16 apart, at which
-- the eight bytes are `RSD PTR `, or with 0 when they stand at none of them.
pub find_rsd_in_range-First :
    (f : ℕ) (m : ℕ → ℕ) (start n : ℕ)
    → n < f
    → start + 16 * n < 2 ^ 32
    → (p : ℕ) × (find_rsd_in_range f m start (start + 16 * n) ≡ some p) × First m start n p
find_rsd_in_range-First f m start n enough fits = (
  first_of m start n,
  find_rsd_in_range-first_of f m start n enough fits,
  first_of-First m start n,
)
