-- ===== src/User/Exec/Pipe.antt =====
-- The line `ls | cat` writes the files whose names `ls` finds.
use osfinal_project.Prelude.{
  ℕ, zero, suc, ◌+◌, ◌-◌, ◌≤◌, ◌<◌, ◌≡◌, ◌≢◌, ap, ap₂, sym, ◌∙◌, subst, arith, true, false, Option,
  some, List, [], ◌∷◌, ◌++◌, ◌==◌, ◌&&◌, ltb, length, length-append, append-nil,
}
use osfinal_project.User.Grep.{string_length}
use osfinal_project.User.Shell.{launch, cat, ls, shell_command, handler_command}
use osfinal_project.User.Cat.{c_string, cat_loop}
use osfinal_project.User.Cat.Laws.{
  IsWord, Lies, Line, cat_all, characters, cat_loop-cat_all, Lies-slice,
}
use osfinal_project.User.Exec.{ls_output}

-- The string that `ls` finds in its buffer.
abbrev pub joined : List (List ℕ) → List ℕ
joined [] = []
joined (w ∷ []) = w
joined (w ∷ v ∷ ws) = w ++ (0x20 ∷ joined (v ∷ ws))

-- Characters of which none is a NUL.
abbrev IsString : List ℕ → Type 0
IsString [] = Unit {0}
IsString (c ∷ cs) = (c ≢ 0) × IsString cs

string_length-Lies :
    (f : ℕ) (s : ℕ → ℕ) (i : ℕ) (xs : List ℕ)
    → length xs < f
    → IsString xs
    → Lies s i xs
    → s (i + length xs) ≡ 0
    → string_length f s i ≡ some (i + length xs)
unfolding string_length
string_length-Lies zero s i xs enough is l end = absurd (omega (arith, enough))
string_length-Lies (suc f) s i [] enough is l end =
    let here : (s i == 0) ≡ true =
      (let e : s i ≡ 0 = ap s (omega arith) ∙ end in ground (arith, e)) in
    rw (string_length, here) (ap some (omega arith))
string_length-Lies (suc f) s i (x ∷ xs) enough is l end =
    let nz = is.0 in
    let e = l.0 in
    let goes_on : (s i == 0) ≡ false = ground (arith, nz, e) in
    rw (string_length, goes_on)
      (string_length-Lies f s (i + 1) xs (omega (arith, enough)) is.1 l.1 (ap s (omega arith) ∙ end)
        ∙ ap some (omega arith))

Lies-append :
    (s : ℕ → ℕ) (i : ℕ) (xs ys : List ℕ)
    → Lies s i xs
    → Lies s (i + length xs) ys
    → Lies s i (xs ++ ys)
Lies-append s i [] ys l k = subst (λ (j : ℕ). Lies s j ys) (omega arith) k
Lies-append s i (x ∷ xs) ys l k =
    (l.0, Lies-append s (i + 1) xs ys l.1 (subst (λ (j : ℕ). Lies s j ys) (omega arith) k))

IsString-append : (xs ys : List ℕ) → IsWord xs → IsString ys → IsString (xs ++ ys)
IsString-append [] ys w k = k
IsString-append (x ∷ xs) ys w k = (w.0, IsString-append xs ys w.3 k)

-- The names as one string.
Line-joined :
    (s : ℕ → ℕ) (i : ℕ) (ws : List (List ℕ))
    → Line s i ws
    → IsString (joined ws) × Lies s i (joined ws) × (s (i + length (joined ws)) ≡ 0)
Line-joined s i [] line = (tt, tt, ap s (omega arith) ∙ line)
Line-joined s i (w ∷ []) (word, some_left, l, end) =
    (subst IsString (append-nil w) (IsString-append w [] word tt), l, end)
Line-joined s i (w ∷ v ∷ ws) (word, some_left, l, blank, line) =
    let (is, lies, end) = Line-joined s (i + (length w + 1)) (v ∷ ws) line in
    let rest = 0x20 ∷ joined (v ∷ ws) in
    (
      IsString-append w rest word (omega arith, is),
      Lies-append s i w rest l
          (blank, subst (λ (j : ℕ). Lies s j (joined (v ∷ ws))) (omega arith) lies),
      ap s (omega (arith, length-append w rest)) ∙ end,
    )

Lies-move :
    (s t : ℕ → ℕ) (i j n : ℕ) (xs : List ℕ)
    → ((k : ℕ) → k ≤ n → t (j + k) ≡ s (i + k))
    → length xs ≤ n
    → Lies s i xs
    → Lies t j xs
Lies-move s t i j n [] e le l = tt
Lies-move s t i j n (x ∷ xs) e le l = (
  ap t (omega arith) ∙ e 0 (omega (arith, le)) ∙ ap s (omega arith) ∙ l.0,
  Lies-move s t (i + 1) (j + 1) (n - 1) xs
      (λ k h. ap t (omega arith) ∙ e (k + 1) (omega (arith, h, le)) ∙ ap s (omega arith))
      (omega (arith, le)) l.1,
)

Line-move :
    (s t : ℕ → ℕ) (i j : ℕ) (ws : List (List ℕ))
    → ((k : ℕ) → k ≤ length (joined ws) → t (j + k) ≡ s (i + k))
    → Line s i ws
    → Line t j ws
Line-move s t i j [] e line = ap t (omega arith) ∙ e 0 (omega arith) ∙ ap s (omega arith) ∙ line
Line-move s t i j (w ∷ []) e (word, some_left, l, end) = (
  word,
  some_left,
  Lies-move s t i j (length w) w e (omega arith) l,
  e (length w) (omega arith) ∙ end,
)
Line-move s t i j (w ∷ v ∷ ws) e (word, some_left, l, blank, line) =
    let n = length-append w (0x20 ∷ joined (v ∷ ws)) in
    (
      word,
      some_left,
      Lies-move s t i j (length w) w (λ k h. e k (omega (arith, h, n))) (omega arith) l,
      e (length w) (omega (arith, n)) ∙ blank,
      Line-move s t (i + (length w + 1)) (j + (length w + 1)) (v ∷ ws)
          (λ k h.
            ap t (omega arith) ∙ e (length w + 1 + k) (omega (arith, h, n)) ∙ ap s (omega arith))
          line,
    )

-- The command that stands behind the bar.
abbrev cat_word : List ℕ
cat_word = b'c' ∷ b'a' ∷ b't' ∷ []

ls_output-joined :
    (f : ℕ) (second buff : ℕ → ℕ) (ws : List (List ℕ))
    → 3 < f
    → length (joined ws) < f
    → length (joined ws) < 250
    → Lies second 0 cat_word
    → second 3 ≡ 0
    → Line buff 0 ws
    → ls_output f second buff ≡ some (cat_word ++ (0x20 ∷ joined ws))
unfolding ls_output
ls_output-joined f second buff ws four enough fits name end line =
    let (is, lies, stop) = Line-joined buff 0 ws line in
    let n = length (joined ws) in
    let first : string_length f second 0 ≡ some 3 =
      string_length-Lies f second 0 cat_word four (omega arith) name end in
    let names : string_length f buff 0 ≡ some n =
      string_length-Lies f buff 0 (joined ws) enough is lies stop ∙ ap some (omega arith) in
    let small : (ltb n 250 && ltb (3 + n + 1) 300) ≡ true = ground (arith, fits) in
    rw (ls_output, first, names, small)
      (ap₂ (λ (a b : List ℕ). some (a ++ (0x20 ∷ b))) (Lies-slice second 0 cat_word name)
        (Lies-slice buff 0 (joined ws) lies))

joined-at :
    (s : ℕ → ℕ) (xs : List ℕ) (k : ℕ) (i : ℕ)
    → Lies s i xs
    → s (i + length xs) ≡ 0
    → k ≤ length xs
    → c_string xs k ≡ s (i + k)
joined-at s [] k i l end le = sym (ap s (omega (arith, le)) ∙ end)
joined-at s (x ∷ xs) zero i l end le = sym (ap s (omega arith) ∙ l.0)
joined-at s (x ∷ xs) (suc k) i l end le =
    joined-at s xs k (i + 1) l.1 (ap s (omega arith) ∙ end) (omega (arith, le)) ∙ ap s (omega arith)

-- On the line `ls | cat`, with the names that `ls` found in its buffer, each a word of characters
-- below 128, with a blank between two and a NUL behind the last, all within the 250 bytes of the
-- buffer, and with fuel for their characters: the shell starts `ls` with what stands behind the
-- bar; `ls` hands a string on; the handler starts `cat` for it; and what `cat` writes are the
-- contents of the files with these names, one after the other, but for `.`, `..` and `lost+found`.
pub pipe-cat :
    (f : ℕ) (contents : List ℕ → Option (List ℕ)) (input buff : ℕ → ℕ) (ws : List (List ℕ))
    → Lies input 0 (b'l' ∷ b's' ∷ b' ' ∷ b'|' ∷ b' ' ∷ cat_word)
    → input 8 ≡ 0
    → Line buff 0 ws
    → characters ws < f
    → 3 < f
    → length (joined ws) < 250
    → (shell_command input ≡ launch ls (some 5))
      × (output : List ℕ) × (ls_output f (λ k. input (5 + k)) buff ≡ some output)
      × (handler_command (c_string output) ≡ launch cat (some 4))
      × (cat_loop f contents (λ k. c_string output (4 + k)) 0 ≡ cat_all contents ws)
unfolding shell_command handler_command
pipe-cat f contents input buff ws typed end line enough four fits =
    let (is, lies, stop) = Line-joined buff 0 ws line in
    (
      ground (arith, typed),
      cat_word ++ (0x20 ∷ joined ws),
      ls_output-joined f (λ k. input (5 + k)) buff ws four (omega (arith, enough, length-joined ws))
          fits (omega (arith, typed)) end line,
      ground arith,
      cat_loop-cat_all f contents (λ k. c_string (cat_word ++ (0x20 ∷ joined ws)) (4 + k)) 0 ws
          enough
          (Line-move buff (λ k. c_string (cat_word ++ (0x20 ∷ joined ws)) (4 + k)) 0 0 ws
            (λ k le.
              let behind : 4 + (0 + k) ≡ suc (suc (suc (suc k))) = omega arith in
              ap (c_string (cat_word ++ (0x20 ∷ joined ws))) behind
              ∙ joined-at buff (joined ws) k 0 lies stop le)
            line),
    )
  where
    length-joined : (ws : List (List ℕ)) → length (joined ws) ≤ characters ws
    length-joined [] = omega arith
    length-joined (w ∷ []) = omega arith
    length-joined (w ∷ v ∷ ws) =
        omega (arith, length-append w (0x20 ∷ joined (v ∷ ws)), length-joined (v ∷ ws))
