-- ===== src/Syscall/Exec/Stack.antt =====
-- The words on the stack of a new program.
use osfinal_project.Prelude.{
  ℕ, suc, ◌+◌, ◌-◌, ◌*◌, ◌/◌, ◌%◌, ◌^◌, ◌≤◌, ◌<◌, ◌≡◌, refl, ap, ◌∙◌, subst, arith, true, false,
  List, [], ◌∷◌, ◌++◌, ◌&&◌, leb, ltb, get_or, slice, length,
}
use osfinal_project.Word.{load32}
use osfinal_project.Elf.{write_bytes}
use osfinal_project.Syscall.Exec.{put_word, Argument, padded, put_strings, put_pointers, user_stack}

byte-hit :
    (m : ℕ → ℕ) (a : ℕ) (bs : List ℕ) (k x : ℕ)
    → x ≡ a + k
    → k < length bs
    → write_bytes m a bs x ≡ get_or bs k 0
byte-hit m a bs k x at lt =
    let inside : (leb a x && ltb x (a + length bs)) ≡ true = ground (arith, at, lt) in
    rw inside (ap (λ (i : ℕ). get_or bs i 0) (omega (arith, at)))

byte-miss :
    (m : ℕ → ℕ) (a : ℕ) (bs : List ℕ) (x : ℕ) → a + length bs ≤ x → write_bytes m a bs x ≡ m x
byte-miss m a bs x le =
    let outside : (leb a x && ltb x (a + length bs)) ≡ false = ground (arith, le) in rw outside refl

put_word-hit : (m : ℕ → ℕ) (a v : ℕ) → v < 2 ^ 32 → load32 (put_word m a v) a ≡ v
put_word-hit m a v small =
    let bs = v % 256 ∷ v / 256 % 256 ∷ v / 65536 % 256 ∷ v / 16777216 % 256 ∷ [] in
    let b0 = byte-hit m a bs 0 a (omega arith) (omega arith) in
    let b1 = byte-hit m a bs 1 (suc a) (omega arith) (omega arith) in
    let b2 = byte-hit m a bs 2 (suc (suc a)) (omega arith) (omega arith) in
    let b3 = byte-hit m a bs 3 (suc (suc (suc a))) (omega arith) (omega arith) in
    rw (b0, b1, b2, b3) (omega (arith, small))

put_word-miss : (m : ℕ → ℕ) (a b v : ℕ) → a + 4 ≤ b → load32 (put_word m a v) b ≡ load32 m b
put_word-miss m a b v above =
    let bs = v % 256 ∷ v / 256 % 256 ∷ v / 65536 % 256 ∷ v / 16777216 % 256 ∷ [] in
    let b0 = byte-miss m a bs b (omega (arith, above)) in
    let b1 = byte-miss m a bs (suc b) (omega (arith, above)) in
    let b2 = byte-miss m a bs (suc (suc b)) (omega (arith, above)) in
    let b3 = byte-miss m a bs (suc (suc (suc b))) (omega (arith, above)) in rw (b0, b1, b2, b3) refl

-- These words lie there, one after the other.
abbrev pub Words : (ℕ → ℕ) → ℕ → List ℕ → Type 0
Words m a [] = Unit {0}
Words m a (w ∷ ws) = (load32 m a ≡ w) × Words m (a + 4) ws

Words-keep :
    (m : ℕ → ℕ) (a v b : ℕ) (ws : List ℕ) → a + 4 ≤ b → Words m b ws → Words (put_word m a v) b ws
Words-keep m a v b [] le k = tt
Words-keep m a v b (w ∷ ws) le k =
    (put_word-miss m a b v le ∙ k.0, Words-keep m a v (b + 4) ws (omega (arith, le)) k.1)

-- The bytes of all strings, each with its NUL and padded.
abbrev pub strings : List Argument → ℕ
strings [] = 0
strings (a ∷ rest) = padded a + strings rest

put_strings-end :
    (m : ℕ → ℕ) (esp : ℕ) (rest : List Argument)
    → strings rest ≤ esp
    → esp < 2 ^ 32
    → (put_strings m esp rest).1 + strings rest ≡ esp
unfolding put_strings
put_strings-end m esp [] le fits = omega arith
put_strings-end m esp (a ∷ rest) le fits =
    let n = padded a in
    let next : (esp + 2 ^ 32 - n) % 2 ^ 32 + n ≡ esp = omega (arith, le, fits) in
    omega (
      arith,
      next,
      put_strings-end (write_bytes m esp (slice (λ k. get_or a.bytes k 0) 0 n))
          ((esp + 2 ^ 32 - n) % 2 ^ 32) rest (omega (arith, le, next)) (omega arith),
    )

abbrev pub addresses : List Argument → List ℕ
addresses [] = []
addresses (a ∷ rest) = a.address ∷ addresses rest

abbrev Short : List Argument → Type 0
Short [] = Unit {0}
Short (a ∷ rest) = (a.address < 2 ^ 32) × Short rest

put_pointers-Words :
    (m : ℕ → ℕ) (esp : ℕ) (rest : List Argument) (ws : List ℕ)
    → 4 * length rest ≤ esp
    → esp < 2 ^ 32
    → Short rest
    → Words m (esp + 4) ws
    → ((put_pointers m esp rest).1 + 4 * length rest ≡ esp)
      × Words (put_pointers m esp rest).0 ((put_pointers m esp rest).1 + 4) (addresses rest ++ ws)
unfolding put_pointers
put_pointers-Words m esp [] ws le fits short k = (omega arith, k)
put_pointers-Words m esp (a ∷ rest) ws le fits short k =
    let (at, words) = put_pointers-Words m esp rest ws (omega (arith, le)) fits short.1 k in
    let m' = (put_pointers m esp rest).0 in
    let e = (put_pointers m esp rest).1 in
    let next : (e + 2 ^ 32 - 4) % 2 ^ 32 + 4 ≡ e = omega (arith, at, le, fits) in
    (
      omega (arith, at, next),
      (
        ap (load32 (put_word m' e a.address)) next ∙ put_word-hit m' e a.address short.0,
        subst (λ (j : ℕ). Words (put_word m' e a.address) j (addresses rest ++ ws))
            (omega (arith, next))
            (Words-keep m' e a.address (e + 4) (addresses rest ++ ws) (omega arith) words),
      ),
    )

-- The stack of a new program, for arguments whose addresses are 32-bit numbers and that fit in the
-- user part below 0xefffe000, holds from its pointer on: the number of the arguments; the address
-- of the word behind; the addresses of the arguments as they were passed, in order; and 0. The
-- pointer is as far below 0xefffe000 as the strings and these words need.
pub user_stack-Words :
    (m : ℕ → ℕ) (rest : List Argument)
    → strings rest + 4 * length rest + 8 ≤ 0x6fffe000
    → Short rest
    → ((user_stack m rest).1 + 8 + 4 * length rest + strings rest ≡ 0xefffe000)
      × Words
          (user_stack m rest).0
          (user_stack m rest).1
          (length rest ∷ (((user_stack m rest).1 + 8) ∷ (addresses rest ++ (0 ∷ []))))
unfolding user_stack
user_stack-Words m rest room short =
    let m1 = (put_strings m 0xefffe000 rest).0 in
    let e1 = (put_strings m 0xefffe000 rest).1 in
    let at1 : e1 + strings rest ≡ 0xefffe000 =
      put_strings-end m 0xefffe000 rest (omega (arith, room)) (omega arith) in
    let e1' = (e1 + 2 ^ 32 - 4) % 2 ^ 32 in
    let below : e1' + 4 ≡ e1 = omega (arith, at1, room) in
    let zero_at : Words (put_word m1 e1 0) (e1' + 4) (0 ∷ []) =
      (ap (load32 (put_word m1 e1 0)) below ∙ put_word-hit m1 e1 0 (omega arith), tt) in
    let (at2, words) =
      put_pointers-Words (put_word m1 e1 0) e1' rest (0 ∷ []) (omega (arith, below, at1, room))
        (omega (arith, below, at1, room)) short zero_at in
    let m2 = (put_pointers (put_word m1 e1 0) e1' rest).0 in
    let e2 = (put_pointers (put_word m1 e1 0) e1' rest).1 in
    let v = (e2 + 4) % 2 ^ 32 in
    let e3 = (e2 + 2 ^ 32 - 4) % 2 ^ 32 in
    let low : e3 + 4 ≡ e2 = omega (arith, at2, below, at1, room) in
    let m3 = put_word m2 e2 v in
    (
      omega (arith, low, at2, below, at1),
      (
        put_word-hit m3 e3 (length rest) (omega (arith, room)),
        (
          put_word-miss m3 e3 (e3 + 4) (length rest) (omega arith)
              ∙ ap (load32 m3) low
              ∙ put_word-hit m2 e2 v (omega arith)
              ∙ omega (arith, low, at2, below, at1, room),
          subst (λ (j : ℕ). Words (put_word m3 e3 (length rest)) j (addresses rest ++ (0 ∷ [])))
              (omega (arith, low))
              (Words-keep m3 e3 (length rest) (e2 + 4) (addresses rest ++ (0 ∷ []))
                (omega (arith, low))
                (Words-keep m2 e2 v (e2 + 4) (addresses rest ++ (0 ∷ [])) (omega arith) words)),
        ),
      ),
    )
