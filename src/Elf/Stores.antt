-- ===== src/Elf/Stores.antt =====
-- What a write of bytes of a file does to the memory.
use osfinal_project.Prelude.{
  ℕ, ◌+◌, ◌-◌, ◌^◌, ◌≤◌, ◌<◌, ◌≡◌, ◌⊎◌, inl, inr, refl, ap, ◌∙◌, arith, true, false, Bool-cases,
  ◌&&◌, leb, ltb, if◌then◌else◌, get_or, length, length-slice, slice,
}
use osfinal_project.Word.{sub32}
use osfinal_project.Elf.{store_bytes}
use osfinal_project.Elf.Format.{Same, get_or-slice}

-- What a write of bytes of the file does in both halves of the address space.
pub store-upper :
    (m c : ℕ → ℕ) (a o n x : ℕ)
    → 2 ^ 31 ≤ a
    → a + n ≤ 2 ^ 32
    → 2 ^ 31 ≤ x
    → x < 2 ^ 32
    → store_bytes m a (slice c o n) x ≡ (if leb a x && ltb x (a + n) then c (o + (x - a)) else m x)
store-upper m c a o n x upper fits from below =
    let long = length-slice c o n in
    elim (Bool-cases (leb a x && ltb x (a + n))) [
      | inl inside ↦
          let le : a ≤ x = ground (arith, inside) in
          let lt : x < a + n = ground (arith, inside) in
          let at : sub32 x a ≡ x - a = omega (arith, le, below) in
          let hit : ltb (sub32 x a) (length (slice c o n)) ≡ true =
            ground (arith, at, le, lt, long) in
          rw (hit, inside)
            (ap (λ (k : ℕ). get_or (slice c o n) k 0) at
              ∙ get_or-slice c o n (x - a) (omega (arith, le, lt)))
      | inr outside ↦
          let far : n ≤ sub32 x a = ground (arith, outside, upper, fits, from, below) in
          let miss : ltb (sub32 x a) (length (slice c o n)) ≡ false = ground (arith, far, long) in
          rw (miss, outside) refl
    ]

pub store-lower :
    (m c : ℕ → ℕ) (a o n x : ℕ)
    → 2 ^ 31 ≤ a
    → a + n ≤ 2 ^ 32
    → x < 2 ^ 31
    → store_bytes m a (slice c o n) x ≡ m x
store-lower m c a o n x upper fits below =
    let long = length-slice c o n in
    let far : n ≤ sub32 x a = omega (arith, upper, fits, below) in
    let miss : ltb (sub32 x a) (length (slice c o n)) ≡ false = ground (arith, far, long) in
    rw miss refl

-- A write into the lower half.
pub store-buffer :
    (m c : ℕ → ℕ) (a o n : ℕ) → a + n ≤ 2 ^ 31 → Same (store_bytes m a (slice c o n)) a c o n
store-buffer m c a o n fits k lt =
    let long = length-slice c o n in
    let at : sub32 (a + k) a ≡ k = omega (arith, fits, lt) in
    let hit : ltb (sub32 (a + k) a) (length (slice c o n)) ≡ true = ground (arith, at, lt, long) in
    rw hit (ap (λ (j : ℕ). get_or (slice c o n) j 0) at ∙ get_or-slice c o n k lt)

pub store-outside :
    (m c : ℕ → ℕ) (a o n x : ℕ)
    → a + n ≤ 2 ^ 31
    → x < 2 ^ 32
    → (x < a) ⊎ (a + n ≤ x)
    → store_bytes m a (slice c o n) x ≡ m x
store-outside m c a o n x fits below outside =
    let long = length-slice c o n in
    let far : n ≤ sub32 x a = ground (arith, fits, below, outside) in
    let miss : ltb (sub32 x a) (length (slice c o n)) ≡ false = ground (arith, far, long) in
    rw miss refl
