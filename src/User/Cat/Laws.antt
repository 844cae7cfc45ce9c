-- ===== src/User/Cat/Laws.antt =====
-- What cat writes for a list of names.
use osfinal_project.Prelude.{
  ℕ, zero, suc, ◌+◌, ◌<◌, ◌≡◌, ◌≢◌, refl, ap, ap₂, ◌∙◌, subst, arith, Bool, true, false, Option,
  none, some, List, [], ◌∷◌, ◌++◌, ◌||◌, ◌&&◌, ◌==◌, if◌then◌else◌, slice, length,
}
use osfinal_project.User.Grep.{part_length}
use osfinal_project.User.Cat.{strcmp, c_string, is_name, is_skipped, lost_found, cat_loop}

-- Characters of which none is a NUL, and none a blank.
abbrev pub IsWord : List ℕ → Type 0
IsWord [] = Unit {0}
IsWord (c ∷ cs) = (c ≢ 0) × (c < 128) × (c ≢ 0x20) × IsWord cs

abbrev pub same : List ℕ → List ℕ → Bool
same [] [] = true
same [] (d ∷ ds) = false
same (c ∷ cs) [] = false
same (c ∷ cs) (d ∷ ds) = (c == d) && same cs ds

-- The string lies there from index `i` on.
abbrev pub Lies : (ℕ → ℕ) → ℕ → List ℕ → Type 0
Lies s i [] = Unit {0}
Lies s i (c ∷ cs) = (s i ≡ c) × Lies s (i + 1) cs

abbrev zero_result : Option ℕ → Bool
zero_result none = false
zero_result (some d) = d == 0

-- `strcmp` returns 0 for equal strings, and for no others.
strcmp-same :
    (f : ℕ) (s t : ℕ → ℕ) (i : ℕ) (xs ys : List ℕ)
    → length xs < f
    → IsWord xs
    → IsWord ys
    → Lies s i xs
    → s (i + length xs) ≡ 0
    → Lies t i ys
    → t (i + length ys) ≡ 0
    → zero_result (strcmp f s t i) ≡ same xs ys
unfolding strcmp
strcmp-same zero s t i xs ys enough wx wy lx ex ly ey = absurd (omega (arith, enough))
strcmp-same (suc f) s t i [] [] enough wx wy lx ex ly ey =
    let x : s i ≡ 0 = ap s (omega arith) ∙ ex in
    let y : t i ≡ 0 = ap t (omega arith) ∙ ey in ground (arith, x, y)
strcmp-same (suc f) s t i [] (b ∷ ys) enough wx wy lx ex ly ey =
    let x : s i ≡ 0 = ap s (omega arith) ∙ ex in
    let y : t i ≡ b = ly.0 in let nz = wy.0 in let small = wy.1 in ground (arith, x, y, nz, small)
strcmp-same (suc f) s t i (a ∷ xs) [] enough wx wy lx ex ly ey =
    let x : s i ≡ a = lx.0 in
    let y : t i ≡ 0 = ap t (omega arith) ∙ ey in
    let nz = wx.0 in let small = wx.1 in ground (arith, x, y, nz, small)
strcmp-same (suc f) s t i (a ∷ xs) (b ∷ ys) enough wx wy lx ex ly ey =
    let x : s i ≡ a = lx.0 in
    let y : t i ≡ b = ly.0 in
    let nz = wx.0 in
    let small_x = wx.1 in
    let small_y = wy.1 in
    let rest =
      strcmp-same f s t (i + 1) xs ys (omega (arith, enough)) wx.3 wy.3 lx.1
        (ap s (omega arith) ∙ ex) ly.1 (ap t (omega arith) ∙ ey) in
    ground (arith, x, y, nz, small_x, small_y, rest)

Lies-suc :
    (s t : ℕ → ℕ) (i : ℕ) (xs : List ℕ)
    → ((k : ℕ) → t (suc k) ≡ s k)
    → Lies s i xs
    → Lies t (suc i) xs
Lies-suc s t i [] e l = tt
Lies-suc s t i (x ∷ xs) e l =
    (e i ∙ l.0, subst (λ (k : ℕ). Lies t k xs) (omega arith) (Lies-suc s t (i + 1) xs e l.1))

c_string-Lies : (xs : List ℕ) → Lies (c_string xs) 0 xs
c_string-Lies [] = tt
c_string-Lies (x ∷ xs) =
    (refl, Lies-suc (c_string xs) (c_string (x ∷ xs)) 0 xs (λ k. refl) (c_string-Lies xs))

c_string-end : (xs : List ℕ) → c_string xs (length xs) ≡ 0
c_string-end [] = refl
c_string-end (x ∷ xs) = c_string-end xs

is_name-same : (xs ys : List ℕ) → IsWord xs → IsWord ys → is_name xs ys ≡ same xs ys
unfolding is_name
is_name-same xs ys wx wy =
    let e =
      strcmp-same (suc (length xs)) (c_string xs) (c_string ys) 0 xs ys (omega arith) wx wy
        (c_string-Lies xs) (ap (c_string xs) (omega arith) ∙ c_string-end xs) (c_string-Lies ys)
        (ap (c_string ys) (omega arith) ∙ c_string-end ys) in
    as_result (strcmp (suc (length xs)) (c_string xs) (c_string ys) 0) ∙ e
  where
    as_result : (o : Option ℕ) → (elim o [ none ↦ false | some d ↦ d == 0 ]) ≡ zero_result o
    as_result none = refl
    as_result (some d) = refl

-- `.`, `..` and `lost+found`
abbrev special : List ℕ → Bool
special w = same w (b'.' ∷ []) || same w (b'.' ∷ b'.' ∷ []) || same w lost_found

is_skipped-special : (w : List ℕ) → IsWord w → is_skipped w ≡ special w
unfolding is_skipped
is_skipped-special w h =
    ap₂ (λ (a b : Bool). a || b)
      (ap₂ (λ (a b : Bool). a || b) (is_name-same w (b'.' ∷ []) h (omega arith))
        (is_name-same w (b'.' ∷ b'.' ∷ []) h (omega arith)))
      (is_name-same w lost_found h (omega arith))

pub Lies-slice : (s : ℕ → ℕ) (i : ℕ) (xs : List ℕ) → Lies s i xs → slice s i (length xs) ≡ xs
Lies-slice s i [] l = refl
Lies-slice s i (x ∷ xs) l =
    ap₂ (λ (a : ℕ) (r : List ℕ). a ∷ r) l.0
      (ap (λ (k : ℕ). slice s k (length xs)) (omega arith) ∙ Lies-slice s (i + 1) xs l.1)

-- Where a word ends.
abbrev Stops : ℕ → Type 0
Stops c = ((c == 0x20) || (c == 0)) ≡ true

part_length-word :
    (f : ℕ) (s : ℕ → ℕ) (i k : ℕ) (xs : List ℕ)
    → length xs < f
    → IsWord xs
    → Lies s (i + k) xs
    → Stops (s (i + k + length xs))
    → part_length f s i k ≡ some (k + length xs)
unfolding part_length
part_length-word zero s i k xs enough w l stops = absurd (omega (arith, enough))
part_length-word (suc f) s i k [] enough w l stops =
    let here : Stops (s (i + k)) =
      ap (λ (j : ℕ). (s j == 0x20) || (s j == 0)) (omega arith) ∙ stops in
    rw (part_length, here) (ap some (omega arith))
part_length-word (suc f) s i k (x ∷ xs) enough w l stops =
    let nz = w.0 in
    let nb = w.2 in
    let e = l.0 in
    let goes_on : ((s (i + k) == 0x20) || (s (i + k) == 0)) ≡ false = ground (arith, nz, nb, e) in
    rw (part_length, goes_on)
      (part_length-word f s i (k + 1) xs (omega (arith, enough)) w.3
          (subst (λ (j : ℕ). Lies s j xs) (omega arith) l.1)
          (subst (λ (j : ℕ). Stops (s j)) (omega arith) stops)
        ∙ ap some (omega arith))

-- The names lie there with a blank between two of them and a NUL behind the last; none is empty.
abbrev pub Line : (ℕ → ℕ) → ℕ → List (List ℕ) → Type 0
Line s i [] = s i ≡ 0
Line s i (w ∷ []) = IsWord w × (0 < length w) × Lies s i w × (s (i + length w) ≡ 0)
Line s i (w ∷ v ∷ ws) =
    IsWord w
    × (0 < length w)
    × Lies s i w
    × (s (i + length w) ≡ 0x20)
    × Line s (i + (length w + 1)) (v ∷ ws)

-- The contents of the files with these names, but the special ones, one after the other.
abbrev pub cat_all : (List ℕ → Option (List ℕ)) → List (List ℕ) → Option (List ℕ)
cat_all contents [] = some []
cat_all contents (w ∷ ws) =
    let rest = cat_all contents ws in
    if special w then rest else elim (contents w) [
      | none ↦ none
      | some c ↦ elim rest [ none ↦ none | some r ↦ some (c ++ r) ]
    ]

abbrev pub characters : List (List ℕ) → ℕ
characters [] = 0
characters (w ∷ ws) = length w + 1 + characters ws

cat_round :
    (f : ℕ) (contents : List ℕ → Option (List ℕ)) (s : ℕ → ℕ) (i : ℕ) (w : List ℕ)
    (ws : List (List ℕ)) (next : ℕ)
    → length w < f
    → IsWord w
    → 0 < length w
    → Lies s i w
    → Stops (s (i + length w))
    → (if s (i + length w) == 0x20 then i + (length w + 1) else i + length w) ≡ next
    → cat_loop f contents s next ≡ cat_all contents ws
    → cat_loop (suc f) contents s i ≡ cat_all contents (w ∷ ws)
unfolding cat_loop
cat_round f contents s i [] ws next enough word some_left l stops at rest =
    absurd (omega (arith, some_left))
cat_round f contents s i (x ∷ xs) ws next enough word some_left l stops at rest =
    let w = x ∷ xs in
    let nz = word.0 in
    let first = l.0 in
    let goes_on : (s i == 0) ≡ false = ground (arith, nz, first) in
    let part : part_length f s i 0 ≡ some (length w) =
      part_length-word f s i 0 w enough word (subst (λ (j : ℕ). Lies s j w) (omega arith) l)
        (subst (λ (j : ℕ). Stops (s j)) (omega arith) stops)
      ∙ ap some (omega arith) in
    let named = Lies-slice s i w l in
    let skip = is_skipped-special w word in
    rw (cat_loop, goes_on, part, named, skip)
      (either (special w) (ap contents named) (ap (cat_loop f contents s) at ∙ rest))
  where
    named_first : Option (List ℕ) → Option (List ℕ) → Option (List ℕ)
    named_first c r = elim c [
      | none ↦ none
      | some c ↦ elim r [ none ↦ none | some rest ↦ some (c ++ rest) ]
    ]

    either :
        (b : Bool) {c d q r : Option (List ℕ)}
        → c ≡ d
        → q ≡ r
        → (elim b [ true ↦ q | false ↦ named_first c q ]) ≡ (if b then r else named_first d r)
    either true e h = h
    either false e h = ap₂ named_first e h

pub cat_loop-cat_all :
    (f : ℕ) (contents : List ℕ → Option (List ℕ)) (s : ℕ → ℕ) (i : ℕ) (ws : List (List ℕ))
    → characters ws < f
    → Line s i ws
    → cat_loop f contents s i ≡ cat_all contents ws
unfolding cat_loop
cat_loop-cat_all zero contents s i ws enough line = absurd (omega (arith, enough))
cat_loop-cat_all (suc f) contents s i [] enough line =
    let end : (s i == 0) ≡ true = ground (arith, line) in rw (cat_loop, end) refl
cat_loop-cat_all (suc f) contents s i (w ∷ []) enough (word, some_left, l, end) =
    cat_round f contents s i w [] (i + length w) (omega (arith, enough)) word some_left l
      (ground (arith, end)) (ground (arith, end))
      (cat_loop-cat_all f contents s (i + length w) [] (omega (arith, enough)) end)
cat_loop-cat_all (suc f) contents s i (w ∷ v ∷ ws) enough (word, some_left, l, blank, line) =
    cat_round f contents s i w (v ∷ ws) (i + (length w + 1)) (omega (arith, enough)) word some_left
      l (ground (arith, blank)) (ground (arith, blank))
      (cat_loop-cat_all f contents s (i + (length w + 1)) (v ∷ ws) (omega (arith, enough)) line)
