-- ===== src/User/Wc/Laws.antt =====
-- What the three numbers of wc are.
use osfinal_project.Prelude.{
  ℕ, zero, suc, ◌+◌, ◌-◌, ◌<◌, ◌≡◌, refl, ap, ap₂, ◌∙◌, arith, Bool, true, false, Option, some, ◌⊎◌,
  not, ◌==◌, if◌then◌else◌, Bool-cases, inl, inr, dec_lt, subst,
}
use osfinal_project.User.Wc.{is_separator, word_length, count_loop, wc}

-- How many of the `m` bytes from `i` on satisfy a test.
abbrev tally : (ℕ → Bool) → (ℕ → ℕ) → ℕ → ℕ → ℕ
tally p c i zero = 0
tally p c i (suc m) = let rest = tally p c (i + 1) m in if p (c i) then suc rest else rest

abbrev is_line_feed : ℕ → Bool
is_line_feed c = c == 0x0a

abbrev is_letter : ℕ → Bool
is_letter c = not (is_separator c)

-- The counts of a word, of the separator behind it if one comes, and of the rest.
abbrev Word : (ℕ → ℕ) → ℕ → ℕ → ℕ → Type 0
Word c i m j =
    ((j ≡ m)
      × (tally is_line_feed c i m ≡ 0)
      × (tally is_separator c i m ≡ 0)
      × (tally is_letter c i m ≡ m))
    ⊎ ((j < m)
        × (is_separator (c (i + j)) ≡ true)
        × (tally is_line_feed c i m
            ≡ (if is_line_feed (c (i + j)) then 1 else 0)
              + tally is_line_feed c (i + (j + 1)) (m - (j + 1)))
        × (tally is_separator c i m ≡ 1 + tally is_separator c (i + (j + 1)) (m - (j + 1)))
        × (tally is_letter c i m ≡ j + tally is_letter c (i + (j + 1)) (m - (j + 1))))

-- A separator ends the word at once.
at_separator : (c : ℕ → ℕ) (i m : ℕ) → is_separator (c i) ≡ true → Word c i (suc m) 0
at_separator c i m sep =
    let here : i + 0 ≡ i = omega arith in
    let next : i + (0 + 1) ≡ i + 1 = omega arith in
    let left : suc m - (0 + 1) ≡ m = omega arith in
    inr (
      omega arith,
      ap (λ (k : ℕ). is_separator (c k)) here ∙ sep,
      ground (arith, ap c here, ap₂ (tally is_line_feed c) next left),
      ground (arith, ap₂ (tally is_separator c) next left),
      ground (arith, ap₂ (tally is_letter c) next left),
    )

-- A letter makes the word one longer.
at_letter :
    (c : ℕ → ℕ) (i m j : ℕ)
    → is_separator (c i) ≡ false
    → Word c (i + 1) m j
    → Word c i (suc m) (suc j)
at_letter c i m j letter (inl (same, a, b, d)) =
    inl (omega arith, ground (arith, a), ground (arith, b), ground (arith, d))
at_letter c i m j letter (inr (lt, sep, a, b, d)) =
    let here : i + suc j ≡ i + 1 + j = omega arith in
    let next : i + (suc j + 1) ≡ i + 1 + (j + 1) = omega arith in
    let left : suc m - (suc j + 1) ≡ m - (j + 1) = omega arith in
    inr (
      omega arith,
      ap (λ (k : ℕ). is_separator (c k)) here ∙ sep,
      ground (arith, a, ap c here, ap₂ (tally is_line_feed c) next left),
      ground (arith, b, ap₂ (tally is_separator c) next left),
      ground (arith, d, ap₂ (tally is_letter c) next left),
    )

word_length-Word : (c : ℕ → ℕ) (i m : ℕ) → Word c i m (word_length c i m)
unfolding word_length
word_length-Word c i zero = inl (refl, refl, refl, refl)
word_length-Word c i (suc m) = elim (Bool-cases (is_separator (c i))) [
  | inl sep ↦ subst (Word c i (suc m)) (ground arith) (at_separator c i m sep)
  | inr letter ↦
      subst (Word c i (suc m)) (ground arith)
        (at_letter c i m (word_length c (i + 1) m) letter (word_length-Word c (i + 1) m))
]

-- The counts of lines and words after a byte.
abbrev lines_after : ℕ → ℕ → ℕ
lines_after b l = if b == 0x0a then l + 1 else l

abbrev words_after : ℕ → ℕ → ℕ
words_after b w = if b == 0x0a then w + 1 else if b == 0x20 then w + 1 else w

-- What a round adds, with what is left, is what was left before it.
abbrev Adds : (c : ℕ → ℕ) → (n i j l w ch : ℕ) → Type 0
Adds c n i j l w ch =
    let k = i + (j + 1) in
    (lines_after (c (i + j)) l + tally is_line_feed c k (n - k)
      ≡ l + tally is_line_feed c i (n - i))
    × (words_after (c (i + j)) w + tally is_separator c k (n - k)
        ≡ w + tally is_separator c i (n - i))
    × (ch + j + tally is_letter c k (n - k) ≡ ch + tally is_letter c i (n - i))

round-Adds :
    (c : ℕ → ℕ) (n i j l w ch : ℕ)
    → i < n
    → is_separator (c n) ≡ false
    → Word c i (n - i) j
    → Adds c n i j l w ch
round-Adds c n i j l w ch lt last (inl (whole, a, b, d)) =
    let at : i + j ≡ n = omega arith in
    let none_left : n - (i + (j + 1)) ≡ 0 = omega arith in
    let byte : c (i + j) ≡ c n = ap c at in
    (
      ground (arith, a, byte, ap (tally is_line_feed c (i + (j + 1))) none_left),
      ground (arith, b, byte, ap (tally is_separator c (i + (j + 1))) none_left),
      ground (arith, d, ap (tally is_letter c (i + (j + 1))) none_left),
    )
round-Adds c n i j l w ch lt last (inr (inside, sep, a, b, d)) =
    let left : n - i - (j + 1) ≡ n - (i + (j + 1)) = omega arith in
    (
      ground (arith, a, ap (tally is_line_feed c (i + (j + 1))) left),
      ground (arith, b, sep, ap (tally is_separator c (i + (j + 1))) left),
      ground (arith, d, ap (tally is_letter c (i + (j + 1))) left),
    )

abbrev counts : ℕ → ℕ → ℕ → Option (ℕ × ℕ × ℕ)
counts a b c = some (a, b, c)

triple : {a b c x y z : ℕ} → a ≡ x → b ≡ y → c ≡ z → counts a b c ≡ counts x y z
triple {a} {b} {c} {x} {y} {z} p q r =
    ap (λ (k : ℕ). counts k b c) p ∙ ap (λ (k : ℕ). counts x k c) q ∙ ap (counts x y) r

count_loop_round :
    (f : ℕ) (c : ℕ → ℕ) (n i l w ch : ℕ)
    → i < n
    → let j = word_length c i (n - i) in
      count_loop (suc f) c n i l w ch
      ≡ count_loop f c n
          (i + (j + 1))
          (lines_after (c (i + j)) l)
          (words_after (c (i + j)) w)
          (ch + j)
unfolding count_loop
count_loop_round f c n i l w ch lt = ground arith

count_loop_lem :
    (f : ℕ) (c : ℕ → ℕ) (n i l w ch : ℕ)
    → is_separator (c n) ≡ false
    → n - i < f
    → count_loop f c n i l w ch
      ≡ some (
        l + tally is_line_feed c i (n - i),
        w + tally is_separator c i (n - i),
        ch + tally is_letter c i (n - i),
      )
unfolding count_loop
count_loop_lem zero c n i l w ch last lt = absurd (omega arith)
count_loop_lem (suc f) c n i l w ch last lt = elim (dec_lt i n) [
  | no end ↦
      let none_left : n - i ≡ 0 = omega arith in
      ground (
        arith,
        ap (tally is_line_feed c i) none_left,
        ap (tally is_separator c i) none_left,
        ap (tally is_letter c i) none_left,
      )
  | yes inside ↦
      let j = word_length c i (n - i) in
      let (a, b, d) = round-Adds c n i j l w ch inside last (word_length-Word c i (n - i)) in
      count_loop_round f c n i l w ch inside
      ∙ count_loop_lem f c n (i + (j + 1)) (lines_after (c (i + j)) l) (words_after (c (i + j)) w)
          (ch + j) last (omega arith)
      ∙ triple a b d
]

-- If the byte behind the file is not a separator, the loop of wc ends, and the three numbers are
-- those of the line feeds, of the separators, and of the bytes that are no separators.
wc_lem :
    (c : ℕ → ℕ) (n : ℕ)
    → is_separator (c n) ≡ false
    → wc c n ≡ some (tally is_line_feed c 0 n, tally is_separator c 0 n, tally is_letter c 0 n)
unfolding wc
wc_lem c n last =
    count_loop_lem (n + 1) c n 0 0 0 0 last (omega arith)
    ∙ triple (whole is_line_feed) (whole is_separator) (whole is_letter)
  where
    whole : (p : ℕ → Bool) → 0 + tally p c 0 (n - 0) ≡ tally p c 0 n
    whole p = let same : n - 0 ≡ n = omega arith in omega (arith, ap (tally p c 0) same)
