-- ===== src/Config/Processors.antt =====
-- Which entries the loop over the processors sees, and what it notes.
use osfinal_project.Prelude.{
  ℕ, zero, suc, ◌+◌, ◌*◌, ◌%◌, ◌^◌, ◌<◌, ◌≤◌, ◌≡◌, sym, ap, get_elem?, set, get_elem?-set_self,
  get_elem?-set_ne, length-set, refl, ap₂, ◌∙◌, inl, inr, arith, true, false, Bool-cases, Option,
  none, some, Option-cases, List, [], ◌∷◌, ◌&&◌, ◌==◌, ◌!=◌, Bool, ltb, if◌then◌else◌, length,
}
use osfinal_project.Word.{load32}
use osfinal_project.Config.{Config, ApicInfo, note_entry, madt_loop}

-- The entries of a table lie behind one another, the first at `p`; the lengths in their second bytes are these.
abbrev pub Laid : (ℕ → ℕ) → ℕ → List ℕ → Type 0
Laid m p [] = Unit {0}
Laid m p (l ∷ ls) = (m (p + 1) ≡ l) × (0 < l) × Laid m (p + l) ls

abbrev pub bytes : List ℕ → ℕ
bytes [] = 0
bytes (l ∷ ls) = l + bytes ls

-- The bytes behind each entry are noted as the next one.
abbrev note_all : (ℕ → ℕ) → ℕ → List ℕ → Config → Option Config
note_all m p [] c = some c
note_all m p (l ∷ ls) c = elim (note_entry m (p + l) c) [
  | none ↦ none
  | some d ↦ note_all m (p + l) ls d
]

-- The addresses behind the entries.
abbrev pub ends : ℕ → List ℕ → List ℕ
ends p [] = []
ends p (l ∷ ls) = (p + l) ∷ ends (p + l) ls

-- An entry for another processor: its type is 0, and its number is not.
abbrev is_other : (ℕ → ℕ) → ℕ → Bool
is_other m q = (m q == 0) && (m (q + 2) != 0)

-- Those of the addresses at which such an entry stands.
abbrev pub others : (ℕ → ℕ) → List ℕ → List ℕ
others m [] = []
others m (q ∷ qs) = let rest = others m qs in if is_other m q then q ∷ rest else rest

-- The address of the last controller among them.
abbrev controller_or : (ℕ → ℕ) → ℕ → ℕ → ℕ
controller_or m q a =
    if m q == 1 then m (q + 4) + 256 * m (q + 5) + 65536 * m (q + 6) + 16777216 * m (q + 7) else a

abbrev pub last_controller : (ℕ → ℕ) → List ℕ → ℕ → ℕ
last_controller m [] a = a
last_controller m (q ∷ qs) a = last_controller m qs (controller_or m q a)

-- What is noted of a processor, by the format of its entry.
abbrev pub processor : (ℕ → ℕ) → ℕ → ApicInfo
processor m q = record {
  processor_id = m (q + 2);
  apic_id = m (q + 3);
  flags = m (q + 4) + 256 * m (q + 5) + 65536 * m (q + 6) + 16777216 * m (q + 7);
}

-- After the loop over entries with these addresses behind them: the other processors stand in the array, in
-- order, behind those that were there, and the controller is the last one.
pub record Noted (m : ℕ → ℕ) (qs : List ℕ) (c d : Config) : Type 0 where
  pub number : d.n_other_procs ≡ c.n_other_procs + length (others m qs)
  pub places : length d.apic_info ≡ length c.apic_info
  pub noted :
      (k q : ℕ)
      → get_elem? (others m qs) k ≡ some q
      → get_elem? d.apic_info (c.n_other_procs + k) ≡ some (processor m q)
  pub kept : (k : ℕ) → k < c.n_other_procs → get_elem? d.apic_info k ≡ get_elem? c.apic_info k
  pub io : d.io_apic ≡ last_controller m qs c.io_apic

-- The bytes of a number in memory.
word_bytes :
    (m : ℕ → ℕ) (q : ℕ)
    → load32 m (q + 4) ≡ m (q + 4) + 256 * m (q + 5) + 65536 * m (q + 6) + 16777216 * m (q + 7)
word_bytes m q = ground arith

-- An entry that is not that of another processor.
note_entry-other :
    (m : ℕ → ℕ) (q : ℕ) (c : Config)
    → is_other m q ≡ false
    → note_entry m q c ≡ some (record c { io_apic = controller_or m q c.io_apic })
unfolding note_entry
note_entry-other m q c e = ground (arith, e, word_bytes m q)

abbrev with_processor : (ℕ → ℕ) → ℕ → Config → Config
with_processor m q c = record c {
  n_other_procs = c.n_other_procs + 1;
  apic_info = set c.apic_info c.n_other_procs (processor m q);
}

note_entry-processor :
    (m : ℕ → ℕ) (q : ℕ) (c : Config)
    → is_other m q ≡ true
    → c.n_other_procs < 16
    → note_entry m q c ≡ some (with_processor m q c)
unfolding note_entry
note_entry-processor m q c e room = ground (arith, e, room, word_bytes m q)

Noted-other :
    (m : ℕ → ℕ) (q : ℕ) (qs : List ℕ) (c d : Config)
    → is_other m q ≡ false
    → Noted m qs (record c { io_apic = controller_or m q c.io_apic }) d
    → Noted m (q ∷ qs) c d
Noted-other m q qs c d e h =
    let skip : others m (q ∷ qs) ≡ others m qs = rw (e) refl in
    record {
      number = h.number ∙ ap (λ (xs : List ℕ). c.n_other_procs + length xs) (sym skip);
      places = h.places;
      noted = λ k r at. h.noted k r (ap (λ (xs : List ℕ). get_elem? xs k) (sym skip) ∙ at);
      kept = h.kept;
      io = h.io;
    }

noted_at :
    (m : ℕ → ℕ) (q : ℕ) (rest : List ℕ) (infos : List ApicInfo) (n k r : ℕ)
    → get_elem? infos n ≡ some (processor m q)
    → ((j s : ℕ) → get_elem? rest j ≡ some s → get_elem? infos (n + 1 + j) ≡ some (processor m s))
    → get_elem? (q ∷ rest) k ≡ some r
    → get_elem? infos (n + k) ≡ some (processor m r)
noted_at m q rest infos n zero r first later e =
    let same : q ≡ r = cc in
    ap (get_elem? infos) (omega arith) ∙ first ∙ ap (λ (x : ℕ). some (processor m x)) same
noted_at m q rest infos n (suc k) r first later e = ap (get_elem? infos) (omega arith) ∙ later k r e

Noted-processor :
    (m : ℕ → ℕ) (q : ℕ) (qs : List ℕ) (c d : Config)
    → is_other m q ≡ true
    → c.n_other_procs < length c.apic_info
    → Noted m qs (with_processor m q c) d
    → Noted m (q ∷ qs) c d
Noted-processor m q qs c d e room h =
    let n = c.n_other_procs in
    let cons : others m (q ∷ qs) ≡ q ∷ others m qs = rw (e) refl in
    let same : controller_or m q c.io_apic ≡ c.io_apic = ground (arith, e) in
    let first : get_elem? d.apic_info n ≡ some (processor m q) =
      h.kept n (omega arith) ∙ get_elem?-set_self c.apic_info n (processor m q) room in
    record {
      number =
          h.number
          ∙ (let sum : n + 1 + length (others m qs) ≡ n + suc (length (others m qs)) =
                omega arith in
              sum)
          ∙ ap (λ (xs : List ℕ). n + length xs) (sym cons);
      places = h.places ∙ length-set c.apic_info n (processor m q);
      noted = λ k r at.
          noted_at m q (others m qs) d.apic_info n k r first h.noted
            (ap (λ (xs : List ℕ). get_elem? xs k) (sym cons) ∙ at);
      kept = λ k lt.
          h.kept k (omega (arith, lt))
          ∙ get_elem?-set_ne c.apic_info (processor m q) (λ at. omega (arith, lt, at));
      io = h.io ∙ ap (last_controller m qs) (sym same);
    }

note_all-Noted :
    (m : ℕ → ℕ) (p : ℕ) (ls : List ℕ) (c : Config)
    → length c.apic_info ≡ 16
    → c.n_other_procs + length (others m (ends p ls)) ≤ 16
    → (d : Config) × (note_all m p ls c ≡ some d) × Noted m (ends p ls) c d
note_all-Noted m p [] c places room = (
  c,
  refl,
  record {
    number = omega arith;
    places = refl;
    noted = λ k q e. absurd (let h : none ≡ some q = e in cc);
    kept = λ k lt. refl;
    io = refl;
  },
)
note_all-Noted m p (l ∷ ls) c places room = elim (Bool-cases (is_other m (p + l))) [
  | inl other ↦
      let room' : c.n_other_procs + suc (length (others m (ends (p + l) ls))) ≤ 16 =
        ground (arith, other, room) in
      let long = length-set c.apic_info c.n_other_procs (processor m (p + l)) in
      let (d, e, h) =
        note_all-Noted m (p + l) ls (with_processor m (p + l) c) (long ∙ places)
          (omega (arith, room')) in
      (
        d,
        rw (note_all, note_entry-processor m (p + l) c other (omega (arith, room'))) e,
        Noted-processor m (p + l) (ends (p + l) ls) c d other (omega (arith, room', places)) h,
      )
  | inr none_there ↦
      let room' : c.n_other_procs + length (others m (ends (p + l) ls)) ≤ 16 =
        ground (arith, none_there, room) in
      let (d, e, h) =
        note_all-Noted m (p + l) ls (record c { io_apic = controller_or m (p + l) c.io_apic })
          places room' in
      (
        d,
        rw (note_all, note_entry-other m (p + l) c none_there) e,
        Noted-other m (p + l) (ends (p + l) ls) c d none_there h,
      )
]

madt_loop-note_all :
    (f : ℕ) (m : ℕ → ℕ) (p : ℕ) (ls : List ℕ) (c : Config)
    → length ls < f
    → Laid m p ls
    → bytes ls < 2 ^ 31
    → p + bytes ls < 2 ^ 32
    → madt_loop f m p (bytes ls) c ≡ note_all m p ls c
unfolding madt_loop
madt_loop-note_all zero m p ls c enough laid small fits = absurd (omega (arith, enough))
madt_loop-note_all (suc f) m p [] c enough laid small fits = refl
madt_loop-note_all (suc f) m p (l ∷ ls) c enough (len, some_left, laid) small fits =
    let n = l + bytes ls in
    let left : (ltb 0 n && ltb n (2 ^ 31)) ≡ true = ground (arith, some_left, small) in
    let next : (p + l) % 2 ^ 32 ≡ p + l = omega (arith, fits) in
    let rest = λ (d : Config).
      madt_loop-note_all f m (p + l) ls d (omega (arith, enough)) laid (omega (arith, small))
        (omega (arith, fits)) in
    elim (Option-cases (note_entry m (p + l) c)) [
      | inl out ↦ rw (madt_loop, note_all, left, len, next, out) refl
      | inr (d, e) ↦
          rw (madt_loop, note_all, left, len, next, e)
            (ap₂ (λ (a b : ℕ). madt_loop f m a b d) (omega (arith, len, fits))
                (omega (arith, len, small))
              ∙ rest d)
    ]

-- On a table whose entries lie behind one another with these lengths, none of them 0, fewer than
-- 2^31 bytes in all and below address 2^32, with a round for each entry and one more, and with room
-- in the array of sixteen: the loop over the processors ends. It looks at the bytes behind each
-- entry, so at all entries but the first and at what lies behind the table. Those of other
-- processors stand in the array behind what was there, in order, with the three fields of their
-- format; their number is added; and the controller is the last one of these entries.
pub madt_loop-Noted :
    (f : ℕ) (m : ℕ → ℕ) (p : ℕ) (ls : List ℕ) (c : Config)
    → length ls < f
    → Laid m p ls
    → bytes ls < 2 ^ 31
    → p + bytes ls < 2 ^ 32
    → length c.apic_info ≡ 16
    → c.n_other_procs + length (others m (ends p ls)) ≤ 16
    → (d : Config) × (madt_loop f m p (bytes ls) c ≡ some d) × Noted m (ends p ls) c d
madt_loop-Noted f m p ls c enough laid small fits places room =
    let (d, e, noted) = note_all-Noted m p ls c places room in
    (d, madt_loop-note_all f m p ls c enough laid small fits ∙ e, noted)
