-- ===== src/Syscall/Files/Console.antt =====
-- What `write` puts on the console.
use osfinal_project.Prelude.{
  ℕ, zero, suc, ◌+◌, ◌≤◌, ◌<◌, ◌≡◌, refl, ap, arith, true, false, some, [], ◌∷◌, ◌++◌, append-nil,
  append_assoc, if◌then◌else◌, slice, Bool-cases, ◌⊎◌, inl, inr,
}
use osfinal_project.Word.{add32}
use osfinal_project.Syscall.Process.{State, minus_one}
use osfinal_project.Syscall.Files.{Apic, is_forbidden, slot, write_loop, write}

-- How many of the `n` addresses from `buf + i` on come before the first that is forbidden.
pub allowed : Apic → ℕ → ℕ → ℕ → ℕ
allowed a buf i zero = 0
allowed a buf i (suc n) =
    let rest = suc (allowed a buf (i + 1) n) in if is_forbidden a (add32 buf i) then 0 else rest

module _ (a : Apic) (memory : ℕ → ℕ) (buf : ℕ) where
  -- The characters at `buf + i`, as the process sees its memory.
  abbrev char_at : ℕ → ℕ
  char_at i = memory (add32 buf i)

  write_loop_lem :
      (s : State) (i n : ℕ)
      → write_loop a memory s buf i n ≡ (
        i + allowed a buf i n,
        record s { output = s.output ++ slice char_at i (allowed a buf i n) },
      )
  unfolding write_loop allowed
  write_loop_lem s i zero = ground (arith, append-nil s.output)
  write_loop_lem s i (suc n) = elim (Bool-cases (is_forbidden a (add32 buf i))) [
    | inl stop ↦ ground (arith, append-nil s.output)
    | inr go ↦
        let s' = record s { output = s.output ++ (char_at i ∷ []) } in
        let k = allowed a buf (i + 1) n in
        let one : i + 1 ≡ suc i = omega arith in
        ground (
          arith,
          write_loop_lem s' (i + 1) n,
          append_assoc s.output (char_at i ∷ []) (slice char_at (suc i) k),
          ap (λ (j : ℕ). slice char_at j k) one,
        )
  ]

  -- `write` to a valid descriptor of the console, from a permitted buffer, prints the bytes from
  -- there on up to the first address that the process may not use, returns their number, and
  -- changes nothing else.
  write_lem :
      (s : State) (fd k nbyte : ℕ)
      → fd < 3
      → slot s fd ≡ some (some k)
      → (s.files k).valid ≡ true
      → is_forbidden a buf ≡ false
      → write a memory s fd buf nbyte ≡ (
        allowed a buf 0 nbyte,
        record s { output = s.output ++ slice char_at 0 (allowed a buf 0 nbyte) },
      )
  unfolding write
  write_lem s fd k nbyte low entry valid ok = ground (arith, write_loop_lem s 0 nbyte)

  -- A buffer that starts at a forbidden address, and a descriptor behind the console, are refused.
  write_refused :
      (s : State) (fd nbyte : ℕ)
      → (is_forbidden a buf ≡ true) ⊎ (2 < fd)
      → write a memory s fd buf nbyte ≡ (minus_one, s)
  unfolding write
  write_refused s fd nbyte why = ground arith

-- Addresses of the private half that do not meet the pages of the APICs are all printed.
allowed_all :
    (a : Apic) (buf i n : ℕ)
    → ((j : ℕ) → i ≤ j → j < i + n → is_forbidden a (add32 buf j) ≡ false)
    → allowed a buf i n ≡ n
unfolding allowed
allowed_all a buf i zero h = refl
allowed_all a buf i (suc n) h = ground (
  arith,
  h i (omega arith) (omega arith),
  allowed_all a buf (i + 1) n (λ j lo hi. h j (omega arith) (omega arith)),
)
