-- ===== src/Tests/Sectors.antt =====
-- A drive that is busy for two reads of its status, and whose sectors hold their numbers.
use osfinal_project.Prelude.{
  ℕ, zero, suc, ◌+◌, ◌-◌, ◌*◌, ◌/◌, ◌%◌, ◌≡◌, ◌≤◌, refl, ap, ap₂, arith, Bool, true, false, some,
  List, [], ◌∷◌, ◌==◌, if◌then◌else◌, update, replicate,
}
use osfinal_project.Ide.{Ports, read_block, has_error, has_data, is_ready, is_busy}
use osfinal_project.Ide.Laws.{IsDrive, bytes_of, read_block-Reads}

record Drive : Type 0 where
  regs : ℕ → ℕ
  reading : Bool
  left : ℕ
  words : List ℕ

abbrev sectors : ℕ → ℕ → List ℕ
sectors device n = replicate 128 n

abbrev status : Bool → ℕ → ℕ
status false left = 0x40
status true zero = 0x48
status true (suc left) = 0xc0

abbrev tail : List ℕ → List ℕ
tail [] = []
tail (w ∷ ws) = ws

abbrev head : List ℕ → ℕ
head [] = 0
head (w ∷ ws) = w

abbrev written : Drive → (r v : ℕ) → Drive
written d r v =
    if r == 7
    then record d {
      reading = true;
      left = 2;
      words =
          sectors (d.regs 6 / 16 % 2)
            (d.regs 3 + 256 * d.regs 4 + 65536 * d.regs 5 + 16777216 * (d.regs 6 % 16));
    }
    else record d { regs = update d.regs r v }

abbrev ports : Ports Drive
ports = record {
  inb = λ d p. (status d.reading d.left, record d { left = d.left - 1 });
  outb = λ d p v. written d (p - 0x1f0) v;
  inl = λ d p. (head d.words, record d { words = tail d.words });
}

abbrev Idle : Drive → (ℕ → ℕ) → Type 0
Idle d regs = (d.reading ≡ false) × (d.regs ≡ regs)

abbrev Reads : Drive → ℕ → List ℕ → Type 0
Reads d n ws = (d.reading ≡ true) × (d.left ≡ n) × (d.words ≡ ws)

written-Idle :
    (d : Drive) (regs : ℕ → ℕ) (r v : ℕ)
    → Idle d regs
    → 2 ≤ r
    → r ≤ 6
    → Idle (written d (0x1f0 + r - 0x1f0) v) (update regs r v)
written-Idle d regs r v idle low high =
    let at : 0x1f0 + r - 0x1f0 ≡ r = omega arith in
    let other : (r == 7) ≡ false = ground (arith, high) in
    rw (at, other) (idle.0, ap (λ (f : ℕ → ℕ). update f r v) idle.1)

in_status :
    (f : ℕ → Bool) (d : Drive) (n : ℕ)
    → d.reading ≡ true
    → d.left ≡ n
    → f (status d.reading d.left) ≡ f (status true n)
in_status f d n a b = ap₂ (λ r l. f (status r l)) a b

ports-IsDrive : IsDrive ports 0x1f0 sectors 2 Idle Reads
ports-IsDrive = record {
  idle_status = λ {d} {regs} idle. (
    ap (λ b. has_error (status b d.left)) idle.0,
    ap (λ b. is_ready (status b d.left)) idle.0,
    ap (λ b. is_busy (status b d.left)) idle.0,
    idle,
  );
  idle_write = λ {d} {regs} r v idle low high. written-Idle d regs r v idle low high;
  reads = λ {d} {regs} idle one linear. (
    refl,
    refl,
    ap
        (λ (f : ℕ → ℕ).
          sectors (f 6 / 16 % 2) (f 3 + 256 * f 4 + 65536 * f 5 + 16777216 * (f 6 % 16)))
        idle.1,
  );
  busy = λ {d} {n} {ws} r. (in_status is_busy d (suc n) r.0 r.1, (r.0, omega (arith, r.1), r.2));
  now = λ {d} {ws} r. (
    in_status is_busy d 0 r.0 r.1,
    in_status has_data d 0 r.0 r.1,
    (r.0, omega (arith, r.1), r.2),
  );
  next_word = λ {d} {w} {ws} r. (ap head r.2, (r.0, r.1, ap tail r.2));
}

abbrev first : Drive
first = record { regs = λ r. 0; reading = false; left = 0; words = [] }

read_block-Reads_example :
    (e : Drive) × (read_block ports 0 3 first 5 ≡ some (bytes_of (sectors 0 5), e)) × Reads e 0 []
read_block-Reads_example =
    read_block-Reads ports 0 sectors 2 Idle Reads ports-IsDrive 3 first (λ r. 0) 5 (omega arith)
      (omega arith) refl (refl, refl)
      (λ e ws r. (in_status has_error e 2 r.0 r.1, in_status is_ready e 2 r.0 r.1))
