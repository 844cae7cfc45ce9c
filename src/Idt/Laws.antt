-- ===== src/Idt/Laws.antt =====
-- What the processor reads from an entry.
use osfinal_project.Prelude.{
  ℕ, zero, suc, ◌+◌, ◌-◌, ◌*◌, ◌/◌, ◌%◌, ◌≤◌, ◌<◌, ◌≡◌, ◌≢◌, refl, ap, ap₂, ◌∙◌, inl, inr,
  Bool-cases, ◌^◌, arith, true, some, ltb, update, ◌==◌,
}
use osfinal_project.Idt.{first_zero, interrupt, trap}

-- A descriptor, in the format of the processor.
pub record Gate : Type 0 where
  pub offset : ℕ
  pub selector : ℕ
  pub kind : ℕ
  pub privilege : ℕ
  pub present : ℕ

abbrev gate_of : (low high : ℕ) → Gate
gate_of low high = record {
  offset = low % 65536 + high / 65536 * 65536;
  selector = low / 65536;
  kind = high / 256 % 32;
  privilege = high / 8192 % 4;
  present = high / 32768 % 2;
}

abbrev pub gate_at : (ℕ → ℕ) → ℕ → Gate
gate_at idt index = gate_of (idt (2 * index)) (idt (2 * index + 1))

-- An interrupt gate, which the processor enters with the interrupts disabled, or a trap gate.
abbrev pub gate : (kind privilege kernel_cs handler : ℕ) → Gate
gate kind privilege kernel_cs handler = record {
  offset = handler;
  selector = kernel_cs;
  kind = kind;
  privilege = privilege;
  present = 1;
}

-- After a write of entry `index`: it is this gate, and the other entries are as before.
abbrev pub Set : (old : ℕ → ℕ) → (index : ℕ) → Gate → (new : ℕ → ℕ) → Type 0
Set old index g new =
    (gate_at new index ≡ g) × ((other : ℕ) → other ≢ index → gate_at new other ≡ gate_at old other)

-- The words of a gate.
abbrev words : (ℕ → ℕ) → (kernel_cs index handler bits : ℕ) → ℕ → ℕ
words idt kernel_cs index handler bits =
    update (update idt (2 * index) ((kernel_cs * 65536 + handler % 65536) % 2 ^ 32)) (2 * index + 1)
      ((handler - handler % 65536 + bits) % 2 ^ 32)

entry-gate :
    (idt : ℕ → ℕ) (kernel_cs index handler kind dpl : ℕ)
    → kernel_cs < 2 ^ 16
    → handler < 2 ^ 32
    → kind < 32
    → dpl < 4
    → gate_at (words idt kernel_cs index handler (0x8000 + kind * 256 + dpl * 8192)) index
      ≡ gate kind dpl kernel_cs handler
entry-gate idt kernel_cs index handler kind dpl segment address low level =
    let bits = 0x8000 + kind * 256 + dpl * 8192 in
    let table = words idt kernel_cs index handler bits in
    let a = (kernel_cs * 65536 + handler % 65536) % 2 ^ 32 in
    let b = (handler - handler % 65536 + bits) % 2 ^ 32 in
    let whole_a : a ≡ kernel_cs * 65536 + handler % 65536 = omega (arith, segment) in
    let whole_b : b ≡ handler - handler % 65536 + bits = omega (arith, address, low, level) in
    let first : table (2 * index) ≡ a = ground arith in
    let second : table (2 * index + 1) ≡ b = ground arith in
    let o : a % 65536 + b / 65536 * 65536 ≡ handler = omega (arith, low, level, whole_a, whole_b) in
    let s : a / 65536 ≡ kernel_cs = omega (arith, whole_a) in
    let k : b / 256 % 32 ≡ kind = omega (arith, low, level, whole_b) in
    let p : b / 8192 % 4 ≡ dpl = omega (arith, low, level, whole_b) in
    let here : b / 32768 % 2 ≡ 1 = omega (arith, low, level, whole_b) in
    ap₂ gate_of first second ∙ rw (o, s, k, p, here) refl

entry-other :
    (idt : ℕ → ℕ) (kernel_cs index handler bits other : ℕ)
    → other ≢ index
    → gate_at (words idt kernel_cs index handler bits) other ≡ gate_at idt other
entry-other idt kernel_cs index handler bits other ne =
    let table = words idt kernel_cs index handler bits in
    let first : table (2 * other) ≡ idt (2 * other) = ground (arith, ne) in
    let second : table (2 * other + 1) ≡ idt (2 * other + 1) = ground (arith, ne) in
    ap₂ gate_of first second

entry-Set :
    (idt : ℕ → ℕ) (kernel_cs index handler kind dpl : ℕ)
    → kernel_cs < 2 ^ 16
    → handler < 2 ^ 32
    → kind < 32
    → dpl < 4
    → Set idt index
        (gate kind dpl kernel_cs handler)
        (words idt kernel_cs index handler (0x8000 + kind * 256 + dpl * 8192))
entry-Set idt kernel_cs index handler kind dpl segment address low level = (
  entry-gate idt kernel_cs index handler kind dpl segment address low level,
  λ other ne. entry-other idt kernel_cs index handler (0x8000 + kind * 256 + dpl * 8192) other ne,
)

first_zero-found :
    (f : ℕ) (idt : ℕ → ℕ) (i n : ℕ)
    → i ≤ n
    → n < i + f
    → idt n ≡ 0
    → (m : ℕ) × (first_zero f idt i ≡ some m)
unfolding first_zero
first_zero-found zero idt i n le lt e = absurd (omega (arith, le, lt))
first_zero-found (suc f) idt i n le lt e = elim (Bool-cases (idt i == 0)) [
  | inl here ↦ (i, rw (first_zero, here) refl)
  | inr other ↦
      let past : i ≢ n =
        (λ same. let h : idt i ≡ 0 = ap idt same ∙ e in ground (arith, h, other)) in
      let (m, found) =
        first_zero-found f idt (i + 1) n (omega (arith, le, past)) (omega (arith, lt)) e in
      (m, rw (first_zero, other) found)
]

-- For a code segment of 16 bits, a handler of 32 bits and an entry of the table: `trap`, with a
-- privilege level below 4, and `interrupt`, when a word of the table is zero, write the entry. From
-- it the processor then reads a gate that is present, with the handler, the code segment, the kind
-- of the gate and the level; and from any other entry what it did before.
pub gates-Set :
    (idt : ℕ → ℕ) (kernel_cs index handler dpl n : ℕ)
    → kernel_cs < 2 ^ 16
    → handler < 2 ^ 32
    → dpl < 4
    → index < 256
    → n < 512
    → idt n ≡ 0
    → ((t : ℕ → ℕ) × (trap idt kernel_cs index handler dpl ≡ some t)
        × Set idt index (gate 15 dpl kernel_cs handler) t)
      × ((m : ℕ) × (u : ℕ → ℕ) × (interrupt idt kernel_cs index handler ≡ some (m, u))
          × Set idt index (gate 14 0 kernel_cs handler) u)
unfolding trap interrupt
gates-Set idt kernel_cs index handler dpl n segment address level inside enough e =
    let (m, found) = first_zero-found 512 idt 0 n (omega arith) (omega (arith, enough)) e in
    let goes : ltb index 256 ≡ true = ground (arith, inside) in
    (
      (
        words idt kernel_cs index handler (0x8f00 + dpl * 8192),
        rw (trap, goes) refl,
        entry-Set idt kernel_cs index handler 15 dpl segment address (omega arith) level,
      ),
      (
        m,
        words idt kernel_cs index handler 0x8e00,
        rw (interrupt, found, goes) refl,
        entry-Set idt kernel_cs index handler 14 0 segment address (omega arith) (omega arith),
      ),
    )
