-- ===== src/Keyboard/Laws.antt =====
-- The line in the buffer is the line that was typed.
use osfinal_project.Prelude.{
  ℕ, zero, suc, ◌+◌, ◌^◌, ◌≤◌, ◌<◌, ◌≡◌, ◌≢◌, refl, ap, sym, ◌∙◌, arith, true, false, Option, none,
  some, Option-cases, inl, inr, List, [], ◌∷◌, ◌++◌, append-nil, append_assoc, ltb, leb, ◌&&◌,
  if◌then◌else◌, update, length, length-append, subst,
}
use osfinal_project.Word.{add32}
use osfinal_project.Syscall.Directory.Laws.{StringAt}
use osfinal_project.Keyboard.{Keyboard, scan_code_to_letter, handler, clear, clear_loop}
use osfinal_project.Keyboard.Keys.{letters, Printable, TypeLine, length-letters, TypeLine-letters}

-- Keys pressed one after the other.
abbrev pub press_all : Keyboard → List ℕ → Option Keyboard
press_all k [] = some k
press_all k (c ∷ cs) = elim (handler k c) [ none ↦ none | some t ↦ press_all t cs ]

-- The buffer holds these characters from index `i` on.
abbrev Prefix : (ℕ → ℕ) → ℕ → List ℕ → Type 0
Prefix m i [] = Unit {0}
Prefix m i (c ∷ cs) = (m i ≡ c) × (c ≢ 0) × Prefix m (suc i) cs

Prefix-update :
    (m : ℕ → ℕ) (i j v : ℕ) (cs : List ℕ)
    → i + length cs ≤ j
    → Prefix m i cs
    → Prefix (update m j v) i cs
Prefix-update m i j v [] le p = tt
Prefix-update m i j v (c ∷ cs) le p =
    (ground (arith, p.0), p.1, Prefix-update m (suc i) j v cs (omega arith) p.2)

Prefix-snoc :
    (m : ℕ → ℕ) (i v : ℕ) (cs : List ℕ)
    → v ≢ 0
    → Prefix m i cs
    → Prefix (update m (i + length cs) v) i (cs ++ (v ∷ []))
Prefix-snoc m i v [] nz p = (ground arith, nz, tt)
Prefix-snoc m i v (c ∷ cs) nz p = (
  ground (arith, p.0),
  p.1,
  subst (λ (j : ℕ). Prefix (update m j v) (suc i) (cs ++ (v ∷ []))) (omega arith)
      (Prefix-snoc m (suc i) v cs nz p.2),
)

Prefix-end :
    (m : ℕ → ℕ) (i : ℕ) (cs : List ℕ) → Prefix m i cs → StringAt (update m (i + length cs) 0) i cs
Prefix-end m i [] p = ground arith
Prefix-end m i (c ∷ cs) p = (
  ground (arith, p.0),
  p.1,
  subst (λ (j : ℕ). StringAt (update m j 0) (suc i) cs) (omega arith) (Prefix-end m (suc i) cs p.2),
)

-- What has been typed since the buffer was empty.
pub record Typed (k : Keyboard) (line : List ℕ) : Type 0 where
  pub size : k.buf_size ≡ length line
  pub bytes : Prefix k.buf 0 line

-- The state behind a key with a letter.
abbrev pressed : Keyboard → ℕ → Keyboard
pressed k l = record k {
  buf = update k.buf k.buf_size l;
  buf_size = add32 k.buf_size 1;
  output = k.output ++ (l ∷ []);
}

handler-letter :
    (k : Keyboard) (c : ℕ)
    → scan_code_to_letter c ≢ 0
    → scan_code_to_letter c ≢ 0x0a
    → k.buf_size < 50
    → handler k c ≡ some (pressed k (scan_code_to_letter c))
unfolding handler
handler-letter k c nz ne room = ground arith

pressed-Typed :
    (k : Keyboard) (line : List ℕ) (l : ℕ)
    → l ≢ 0
    → length line + 1 < 2 ^ 32
    → Typed k line
    → Typed (pressed k l) (line ++ (l ∷ []))
pressed-Typed k line l nz fit h = record {
  size = omega (arith, h.size, length-append {0} line (l ∷ []));
  bytes =
      subst (λ (j : ℕ). Prefix (update k.buf j l) 0 (line ++ (l ∷ []))) (omega (arith, h.size))
        (Prefix-snoc k.buf 0 l line nz h.bytes);
}

-- The line behind these keys, and what they print.
abbrev Ran : Keyboard → List ℕ → List ℕ → Keyboard → Type 0
Ran k line codes t =
    Typed t (line ++ letters codes) × (t.output ≡ k.output ++ letters codes) × (t.done ≡ k.done)

press_all-Typed :
    (k : Keyboard) (line codes : List ℕ)
    → Printable codes
    → length line + length codes < 50
    → Typed k line
    → (t : Keyboard) × (press_all k codes ≡ some t) × Ran k line codes t
press_all-Typed k line [] p fit h =
    (k, refl, (subst (Typed k) (sym (append-nil line)) h, sym (append-nil k.output), refl))
press_all-Typed k line (c ∷ cs) p fit h =
    let l = scan_code_to_letter c in
    let size = h.size in
    let (t, e, (typed, printed, same)) =
      press_all-Typed (pressed k l) (line ++ (l ∷ [])) cs p.2
        (omega (arith, fit, length-append {0} line (l ∷ [])))
        (pressed-Typed k line l p.0 (omega (arith, fit)) h) in
    (
      t,
      rw (press_all, handler-letter k c p.0 p.1 (omega (arith, fit, size))) e,
      (
        subst (Typed t) (append_assoc line (l ∷ []) (letters cs)) typed,
        printed ∙ append_assoc k.output (l ∷ []) (letters cs),
        same,
      ),
    )

-- Enter ends the string in the buffer.
enter_lem :
    (k : Keyboard)
    → k.buf_size < 50
    → handler k 0x1c
      ≡ some (record k {
        buf = update k.buf k.buf_size 0;
        done = true;
        output = k.output ++ (0x0a ∷ []);
      })
unfolding handler scan_code_to_letter
enter_lem k room = ground (arith, room)

press_all-snoc :
    (k : Keyboard) (codes : List ℕ) (c : ℕ) (t u : Keyboard)
    → press_all k codes ≡ some t
    → handler t c ≡ some u
    → press_all k (codes ++ (c ∷ [])) ≡ some u
press_all-snoc k [] c t u e last =
    let same : k ≡ t = cc in rw (press_all, ap (λ (v : Keyboard). handler v c) same, last) refl
press_all-snoc k (d ∷ codes) c t u e last = elim (Option-cases (handler k d)) [
  | inl out ↦ absurd (let h : none ≡ some t = sym (rw (press_all, out) refl) ∙ e in cc)
  | inr (v, next) ↦
      let h : press_all v codes ≡ some t = sym (rw (press_all, next) refl) ∙ e in
      rw (press_all, next) (press_all-snoc v codes c t u h last)
]

-- From an empty line, after keys with the letters of a line that is shorter than the fifty bytes of
-- the buffer, and then Enter: nothing was written behind the buffer; it holds the string of exactly
-- this line, `done` is set, and the line and a line feed have been printed in order.
pub press_all-line :
    (k : Keyboard) (codes line : List ℕ)
    → k.buf_size ≡ 0
    → TypeLine codes line
    → length line < 50
    → (t : Keyboard) × (press_all k (codes ++ (0x1c ∷ [])) ≡ some t)
      × StringAt t.buf 0 line
      × (t.done ≡ true)
      × (t.output ≡ k.output ++ (line ++ (0x0a ∷ [])))
press_all-line k codes line empty keys fit =
    let (p, same) = TypeLine-letters codes line keys in
    let long : length codes ≡ length line = length-letters codes ∙ ap length same in
    let (t, e, (typed, printed, _)) =
      press_all-Typed k [] codes p (omega (arith, long, fit))
        (record { size = empty; bytes = tt }) in
    let size : t.buf_size ≡ length (letters codes) = typed.size in
    let room : t.buf_size < 50 = omega (arith, size, ap length same, fit) in
    (
      record t { buf = update t.buf t.buf_size 0; done = true; output = t.output ++ (0x0a ∷ []) },
      press_all-snoc k codes 0x1c t _ e (enter_lem t room),
      subst (StringAt (update t.buf t.buf_size 0) 0) same (
          subst (λ (j : ℕ). StringAt (update t.buf j 0) 0 (letters codes)) (omega (arith, size))
            (Prefix-end t.buf 0 (letters codes) typed.bytes)),
      refl,
      ap (λ (o : List ℕ). o ++ (0x0a ∷ [])) printed
          ∙ append_assoc k.output (letters codes) (0x0a ∷ [])
          ∙ ap (λ (l : List ℕ). k.output ++ (l ++ (0x0a ∷ []))) same,
    )

-- A key without a letter, as the release of any key is, changes nothing.
handler_release : (k : Keyboard) (code : ℕ) → 128 ≤ code → handler k code ≡ some k
unfolding handler scan_code_to_letter
handler_release k code le = ground arith

clear_loop_lem :
    (buf : ℕ → ℕ) (i n j : ℕ)
    → clear_loop buf i n j ≡ (if leb i j && ltb j (i + n) then 0 else buf j)
unfolding clear_loop
clear_loop_lem buf i zero j = ground arith
clear_loop_lem buf i (suc n) j = ground (arith, clear_loop_lem (update buf i 0) (i + 1) n j)

-- System call 20 empties the line: its size is 0, `done` is off, every byte of the old line is NUL,
-- and the bytes behind it stay.
clear_lem :
    (k : Keyboard)
    → ((clear k).buf_size ≡ 0)
      × ((clear k).done ≡ false)
      × ((j : ℕ) → (clear k).buf j ≡ (if ltb j k.buf_size then 0 else k.buf j))
unfolding clear
clear_lem k = (refl, refl, λ j. clear_loop_lem k.buf 0 k.buf_size j ∙ ground arith)
