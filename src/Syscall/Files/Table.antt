-- ===== src/Syscall/Files/Table.antt =====
-- The table of descriptors under `open` and `close`.
use osfinal_project.Prelude.{
  ℕ, zero, suc, ◌+◌, ◌≤◌, ◌<◌, ◌≡◌, ◌≢◌, refl, ap, sym, ◌∙◌, arith, Option-cases, inl, inr, false,
  Option, none, some, List, [], ◌∷◌, get_elem?, set, length-set, get_elem?-set_self,
  get_elem?-set_ne, update, update_self, update_ne,
}
use osfinal_project.Ext2.Inode.{Node}
use osfinal_project.Syscall.Process.{State, minus_one, NamesBelow, IsProcess}
use osfinal_project.Syscall.Files.{slot, free_slot, open_file}

-- The entry where the loop stops lies in the table and is null.
pub free_slot-null :
    (n i : ℕ) (t : List (Option ℕ)) (j : ℕ)
    → free_slot n i t ≡ some j
    → (m : ℕ) × (j ≡ i + m) × (m ≤ n) × (get_elem? t m ≡ some none)
unfolding free_slot
free_slot-null n i [] j e = cc
free_slot-null n i (none ∷ t) j e = (0, ground arith, omega arith, refl)
free_slot-null zero i (some k ∷ t) j e = cc
free_slot-null (suc n) i (some k ∷ t) j e =
    let (m, at, le, null) = free_slot-null n (i + 1) t j e in
    (suc m, omega arith, omega arith, null)

-- Every entry before it is taken.
pub free_slot-taken :
    (n i : ℕ) (t : List (Option ℕ)) (j m : ℕ)
    → free_slot n i t ≡ some j
    → i + m < j
    → get_elem? t m ≢ some none
unfolding free_slot
free_slot-taken n i [] j m e lt q = cc
free_slot-taken n i (none ∷ t) j m e lt q = ground arith
free_slot-taken zero i (some k ∷ t) j m e lt q = cc
free_slot-taken (suc n) i (some k ∷ t) j zero e lt q = cc
free_slot-taken (suc n) i (some k ∷ t) j (suc m) e lt q =
    free_slot-taken n (i + 1) t j m e (omega arith) q

-- No null entry is overlooked.
pub free_slot-full :
    (n i : ℕ) (t : List (Option ℕ)) (m : ℕ)
    → free_slot n i t ≡ none
    → m ≤ n
    → get_elem? t m ≢ some none
unfolding free_slot
free_slot-full n i [] m e le q = cc
free_slot-full n i (none ∷ t) m e le q = cc
free_slot-full zero i (some k ∷ t) zero e le q = cc
free_slot-full zero i (some k ∷ t) (suc m) e le q = absurd (omega arith)
free_slot-full (suc n) i (some k ∷ t) zero e le q = cc
free_slot-full (suc n) i (some k ∷ t) (suc m) e le q =
    free_slot-full n (i + 1) t m e (omega arith) q

NamesBelow-mono : (m n : ℕ) (t : List (Option ℕ)) → m ≤ n → NamesBelow m t → NamesBelow n t
NamesBelow-mono m n [] le h = tt
NamesBelow-mono m n (none ∷ t) le h = NamesBelow-mono m n t le h
NamesBelow-mono m n (some k ∷ t) le h = (omega arith, NamesBelow-mono m n t le h.1)

pub NamesBelow-set-none :
    (n : ℕ) (t : List (Option ℕ)) (i : ℕ) → NamesBelow n t → NamesBelow n (set t i none)
NamesBelow-set-none n [] i h = tt
NamesBelow-set-none n (none ∷ t) zero h = h
NamesBelow-set-none n (none ∷ t) (suc i) h = NamesBelow-set-none n t i h
NamesBelow-set-none n (some k ∷ t) zero h = h.1
NamesBelow-set-none n (some k ∷ t) (suc i) h = (h.0, NamesBelow-set-none n t i h.1)

NamesBelow-set-some :
    (n : ℕ) (t : List (Option ℕ)) (i k : ℕ)
    → k < n
    → NamesBelow n t
    → NamesBelow n (set t i (some k))
NamesBelow-set-some n [] i k lt h = tt
NamesBelow-set-some n (none ∷ t) zero k lt h = (lt, h)
NamesBelow-set-some n (none ∷ t) (suc i) k lt h = NamesBelow-set-some n t i k lt h
NamesBelow-set-some n (some j ∷ t) zero k lt h = (lt, h.1)
NamesBelow-set-some n (some j ∷ t) (suc i) k lt h = (h.0, NamesBelow-set-some n t i k lt h.1)

-- A successful `open` took the first null entry, put a new object there with cursor 0, and left the
-- other entries and the other objects alone; the table was not full.
pub record Opened (s : State) (node : Node) (i : ℕ) (t : State) : Type 0 where
  pub was_free : slot s i ≡ some none
  pub below_taken : (m : ℕ) → m < i → slot s m ≢ some none
  pub named : slot t i ≡ some (some s.next_file)
  pub fresh : t.files s.next_file ≡ record { node = some node; offset = 0; valid = false }
  pub other_slots : (m : ℕ) → m ≢ i → slot t m ≡ slot s m
  pub other_files : (k : ℕ) → k ≢ s.next_file → t.files k ≡ s.files k
  pub valid : IsProcess t

open_at :
    (s : State) (node : Node) (i : ℕ)
    → IsProcess s
    → free_slot 9 0 s.process.fd ≡ some i
    → (t : State) × (open_file s (some (some node)) ≡ some (i, t)) × Opened s node i t
unfolding open_file
open_at s node i v e =
    let (m, at, le, null) = free_slot-null 9 0 s.process.fd i e in
    let same : m ≡ i = omega arith in
    let free : slot s i ≡ some none = ap (λ (j : ℕ). get_elem? s.process.fd j) (sym same) ∙ null in
    (
      record s {
        process = record (s.process) { fd = set s.process.fd i (some s.next_file) };
        files = update s.files s.next_file (record { node = some node; offset = 0; valid = false });
        next_file = s.next_file + 1;
      },
      ground arith,
      record {
        was_free = free;
        below_taken = λ j lt. free_slot-taken 9 0 s.process.fd i j e (omega arith);
        named = get_elem?-set_self s.process.fd i (some s.next_file) (omega (arith, v.fds));
        fresh = update_self s.files s.next_file _;
        other_slots = λ j ne. get_elem?-set_ne s.process.fd (some s.next_file) (λ q. ne (sym q));
        other_files = λ k ne. update_ne s.files s.next_file k _ (λ q. ne (sym q));
        valid = record {
          fds = length-set s.process.fd i (some s.next_file) ∙ v.fds;
          sps = v.sps;
          cps = v.cps;
          named =
              NamesBelow-set-some (s.next_file + 1) s.process.fd i s.next_file (omega arith)
                (NamesBelow-mono s.next_file (s.next_file + 1) s.process.fd (omega arith) v.named);
        };
      },
    )

-- With a null entry in the table of a well-formed process, `open` of a name that is found returns
-- the lowest null entry, which names a new object at offset 0; the other entries and objects stay
-- as they are, and the process is well-formed.
pub open_file-Opened :
    (s : State) (node : Node) (m : ℕ)
    → IsProcess s
    → m < 10
    → slot s m ≡ some none
    → (i : ℕ) × (t : State) × (open_file s (some (some node)) ≡ some (i, t)) × Opened s node i t
open_file-Opened s node m v lt null = elim (Option-cases (free_slot 9 0 s.process.fd)) [
  | inl full ↦ absurd (free_slot-full 9 0 s.process.fd m full (omega arith) null)
  | inr (i, e) ↦ let (t, result, opened) = open_at s node i v e in (i, t, result, opened)
]

-- With no null entry in the table, `open` returns -1 and changes nothing, whatever the name.
open_file-full :
    (s : State) (found : Option (Option Node))
    → ((m : ℕ) → m < 10 → slot s m ≢ some none)
    → open_file s found ≡ some (minus_one, s)
unfolding open_file
open_file-full s found full = elim (Option-cases (free_slot 9 0 s.process.fd)) [
  | inl e ↦ rw (e, open_file)
  | inr (i, e) ↦
      let (m, at, le, null) = free_slot-null 9 0 s.process.fd i e in
      absurd (full m (omega arith) null)
]
