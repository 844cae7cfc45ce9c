-- ===== src/Word.antt =====
-- Machine words as native numbers: the arithmetic of `uint32_t` and `int`, and little-endian reads.
use osfinal_project.Prelude.{ℕ, ◌+◌, ◌-◌, ◌*◌, ◌%◌, ◌^◌, List, get_or, slice}

abbrev pub word : ℕ
word = 2 ^ 32

abbrev pub u32 : ℕ → ℕ
u32 n = n % 2 ^ 32

abbrev pub add32 : ℕ → ℕ → ℕ
add32 a b = (a + b) % 2 ^ 32

abbrev pub sub32 : ℕ → ℕ → ℕ
sub32 a b = (a + 2 ^ 32 - b) % 2 ^ 32

abbrev pub mul32 : ℕ → ℕ → ℕ
mul32 a b = (a * b) % 2 ^ 32

-- The little-endian numbers at byte `i` of a buffer.
abbrev pub le8 : List ℕ → ℕ → ℕ
le8 b i = get_or b i 0

abbrev pub le16 : List ℕ → ℕ → ℕ
le16 b i = get_or b i 0 + 256 * get_or b (i + 1) 0

abbrev pub le32 : List ℕ → ℕ → ℕ
le32 b i =
    get_or b i 0
    + 256 * get_or b (i + 1) 0
    + 65536 * get_or b (i + 2) 0
    + 16777216 * get_or b (i + 3) 0

-- The same in memory, from its bytes by address.
abbrev pub load16 : (ℕ → ℕ) → ℕ → ℕ
load16 m a = le16 (slice m a 2) 0

abbrev pub load32 : (ℕ → ℕ) → ℕ → ℕ
load32 m a = le32 (slice m a 4) 0
