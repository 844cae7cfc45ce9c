-- ===== src/User/Wc.antt =====
-- t0.dir/sbin/wc.c: the counts of a file. The file is shorter than 2^31 bytes, so no `int` overflows.
pub mod Laws
use osfinal_project.Prelude.{
  ℕ, zero, suc, ◌+◌, ◌-◌, Bool, true, false, Option, none, some, ◌||◌, ltb, ◌==◌, if◌then◌else◌,
}

-- A blank or a line feed.
abbrev pub is_separator : ℕ → Bool
is_separator c = (c == 0x20) || (c == 0x0a)

-- The inner loop: the length of the word at `i`, where `m` bytes are left.
pub word_length : (ℕ → ℕ) → ℕ → ℕ → ℕ
word_length c i zero = 0
word_length c i (suc m) =
    let rest = word_length c (i + 1) m in if is_separator (c i) then 0 else suc rest

-- The loop of `main` over a file of `n` bytes, with the three counts; the byte behind a word is read
-- also at the end of the file.
pub count_loop : ℕ → (ℕ → ℕ) → (n i line_count word_count char_count : ℕ) → Option (ℕ × ℕ × ℕ)
count_loop zero c n i l w ch = none
count_loop (suc f) c n i l w ch = elim (ltb i n) [
  | false ↦ some (l, w, ch)
  | true ↦
      let j = word_length c i (n - i) in
      let b = c (i + j) in
      count_loop f c n (i + (j + 1)) (if b == 0x0a then l + 1 else l)
        (if b == 0x0a then w + 1 else if b == 0x20 then w + 1 else w) (ch + j)
]

-- The numbers that `main` prints: each round moves on by a byte at least.
pub wc : (ℕ → ℕ) → ℕ → Option (ℕ × ℕ × ℕ)
wc c n = count_loop (n + 1) c n 0 0 0 0
