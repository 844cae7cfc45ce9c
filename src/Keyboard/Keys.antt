-- ===== src/Keyboard/Keys.antt =====
-- Which key has which letter.
use osfinal_project.Prelude.{
  ℕ, zero, suc, ◌+◌, ◌≡◌, ◌≢◌, refl, ap, sym, ◌∙◌, arith, none, some, get_elem?, ap₂, List, [], ◌∷◌,
  length,
}
use osfinal_project.Keyboard.{scan_code_to_letter}

-- The letters on the keys, by their scan codes from 0x10 on: three rows of letters, and the keys around them.
abbrev pub layout : List ℕ
layout =
    b'q' ∷ b'w' ∷ b'e' ∷ b'r' ∷ b't' ∷ b'y' ∷ b'u' ∷ b'i' ∷ b'o' ∷ b'p' ∷ 0 ∷ 0 ∷ 0x0a ∷ 0 ∷ b'a'
    ∷ b's' ∷ b'd' ∷ b'f' ∷ b'g' ∷ b'h' ∷ b'j' ∷ b'k' ∷ b'l' ∷ 0 ∷ 0 ∷ 0 ∷ 0 ∷ b'|' ∷ b'z' ∷ b'x'
    ∷ b'c' ∷ b'v' ∷ b'b' ∷ b'n' ∷ b'm' ∷ 0 ∷ b'.' ∷ b'/' ∷ 0 ∷ 0 ∷ 0 ∷ b' ' ∷ []

-- The key with this code has this letter, and is not Enter.
abbrev pub Types : (code letter : ℕ) → Type 0
Types code letter =
    (i : ℕ) × (code ≡ 0x10 + i)
    × (get_elem? layout i ≡ some letter)
    × (letter ≢ 0)
    × (letter ≢ 0x0a)

-- The keys have these letters, one after the other.
abbrev pub TypeLine : (codes line : List ℕ) → Type 0
TypeLine [] [] = Unit {0}
TypeLine [] (l ∷ ls) = ⊥
TypeLine (c ∷ cs) [] = ⊥
TypeLine (c ∷ cs) (l ∷ ls) = Types c l × TypeLine cs ls

abbrev Agrees : ℕ → List ℕ → Type 0
Agrees code [] = Unit {0}
Agrees code (l ∷ ls) = (scan_code_to_letter code ≡ l) × Agrees (suc code) ls

layout-Agrees : Agrees 0x10 layout
unfolding scan_code_to_letter
layout-Agrees = search

Agrees-get :
    (code : ℕ) (ls : List ℕ) (i l : ℕ)
    → Agrees code ls
    → get_elem? ls i ≡ some l
    → scan_code_to_letter (code + i) ≡ l
Agrees-get code [] i l a e = absurd (let h : none ≡ some l = e in cc)
Agrees-get code (x ∷ xs) zero l a e =
    let same : x ≡ l = cc in ap scan_code_to_letter (omega arith) ∙ a.0 ∙ same
Agrees-get code (x ∷ xs) (suc i) l a e =
    ap scan_code_to_letter (omega arith) ∙ Agrees-get (suc code) xs i l a.1 e

Types-letter : (code letter : ℕ) → Types code letter → scan_code_to_letter code ≡ letter
Types-letter code letter (i, at, e, nz, ne) =
    ap scan_code_to_letter at ∙ Agrees-get 0x10 layout i letter layout-Agrees e

abbrev pub letters : List ℕ → List ℕ
letters [] = []
letters (c ∷ cs) = scan_code_to_letter c ∷ letters cs

pub length-letters : (codes : List ℕ) → length codes ≡ length (letters codes)
length-letters [] = refl
length-letters (c ∷ cs) = ap suc (length-letters cs)

-- Every key has a letter, and none is Enter.
abbrev pub Printable : List ℕ → Type 0
Printable [] = Unit {0}
Printable (c ∷ cs) = (scan_code_to_letter c ≢ 0) × (scan_code_to_letter c ≢ 0x0a) × Printable cs

pub TypeLine-letters :
    (codes line : List ℕ) → TypeLine codes line → Printable codes × (letters codes ≡ line)
TypeLine-letters [] [] t = (tt, refl)
TypeLine-letters [] (l ∷ ls) t = absurd t
TypeLine-letters (c ∷ cs) [] t = absurd t
TypeLine-letters (c ∷ cs) (l ∷ ls) (key, t) =
    let same = Types-letter c l key in
    let (p, rest) = TypeLine-letters cs ls t in
    (
      (λ e. key.3 (sym same ∙ e), λ e. key.4 (sym same ∙ e), p),
      ap₂ (λ (x : ℕ) (xs : List ℕ). x ∷ xs) same rest,
    )
