-- ===== src/Ext2/Directory/Names.antt =====
-- When `streq` finds two names equal.
use osfinal_project.Prelude.{
  ℕ, ◌≡◌, ◌≢◌, inl, inr, Bool-cases, ◌==◌, ℕ_discrete, refl, ◌∙◌, sym, arith, true, false, List, [],
  ◌∷◌, if◌then◌else◌,
}
use osfinal_project.Ext2.Directory.{streq}

-- The characters of a string, which a NUL ends.
abbrev pub text : List ℕ → List ℕ
text [] = []
text (c ∷ cs) = if c == 0 then [] else c ∷ text cs

-- `streq` says that two strings have the same characters.
streq-text : (xs ys : List ℕ) → streq xs ys ≡ true → text xs ≡ text ys
unfolding streq
streq-text [] [] e = refl
streq-text [] (y ∷ ys) e = ground (arith, e)
streq-text (x ∷ xs) [] e = ground (arith, e)
streq-text (x ∷ xs) (y ∷ ys) e = ground (arith, e, streq-text xs ys)

text-cons : (x : ℕ) (xs : List ℕ) → x ≢ 0 → text (x ∷ xs) ≡ x ∷ text xs
text-cons x xs ne = ground (arith, ne)

pub text-streq : (xs ys : List ℕ) → text xs ≡ text ys → streq xs ys ≡ true
unfolding streq
text-streq [] [] e = refl
text-streq [] (y ∷ ys) e = elim (ℕ_discrete y 0) [
  | yes at ↦ ground (arith, at)
  | no ne ↦ absurd (let h : [] ≡ y ∷ text ys = e ∙ text-cons y ys ne in cc)
]
text-streq (x ∷ xs) [] e = elim (ℕ_discrete x 0) [
  | yes at ↦ ground (arith, at)
  | no ne ↦ absurd (let h : [] ≡ x ∷ text xs = sym e ∙ text-cons x xs ne in cc)
]
text-streq (x ∷ xs) (y ∷ ys) e = elim (ℕ_discrete x 0) [
  | yes at ↦ elim (ℕ_discrete y 0) [
    | yes at' ↦ ground (arith, at, at')
    | no ne ↦ absurd (
        let h : text (x ∷ xs) ≡ y ∷ text ys = e ∙ text-cons y ys ne in
        let g : text (x ∷ xs) ≡ [] = ground (arith, at) in cc)
  ]
  | no ne ↦ elim (ℕ_discrete y 0) [
    | yes at ↦ absurd (
        let h : text (y ∷ ys) ≡ x ∷ text xs = sym e ∙ text-cons x xs ne in
        let g : text (y ∷ ys) ≡ [] = ground (arith, at) in cc)
    | no ne' ↦
        let h : x ∷ text xs ≡ y ∷ text ys = sym (text-cons x xs ne) ∙ e ∙ text-cons y ys ne' in
        let same : x ≡ y = cc in
        let rest : text xs ≡ text ys = cc in
        let t = text-streq xs ys rest in ground (arith, same, ne, t)
  ]
]

pub other_text : (xs ys : List ℕ) → text xs ≢ text ys → streq xs ys ≡ false
other_text xs ys ne = elim (Bool-cases (streq xs ys)) [
  | inl same ↦ absurd (ne (streq-text xs ys same))
  | inr other ↦ other
]
