-- ===== src/Syscall/Files/Close.antt =====
-- `close` on the three tables of a process.
use osfinal_project.Prelude.{
  ℕ, ◌+◌, ◌-◌, ◌≤◌, ◌<◌, ◌≡◌, refl, ap, ◌∙◌, arith, Option, none, some, List, ◌==◌, if◌then◌else◌,
  get_elem?, set, length, length-set, get_elem?-set_self, get_elem?-set_ne, ℕ_discrete, dec_lt,
}
use osfinal_project.Syscall.Process.{State, minus_one, IsProcess}
use osfinal_project.Syscall.Files.{slot, close}
use osfinal_project.Syscall.Files.Table.{NamesBelow-set-none}

-- The tables after the entry with the number `fd` has become null; no object has changed.
pub record Closed (s : State) (fd : ℕ) (t : State) : Type 0 where
  pub fds : (m : ℕ) → m < 10 → slot t m ≡ (if m == fd then some none else slot s m)
  pub sps :
      (m : ℕ)
      → m < 10
      → get_elem? t.process.sp m ≡ (if m + 10 == fd then some none else get_elem? s.process.sp m)
  pub cps :
      (m : ℕ)
      → m < 10
      → get_elem? t.process.cp m ≡ (if m + 20 == fd then some none else get_elem? s.process.cp m)
  pub files : (k : ℕ) → t.files k ≡ s.files k
  pub valid : IsProcess t

set-get_elem? :
    (t : List (Option ℕ)) (i m : ℕ)
    → i < length t
    → get_elem? (set t i none) m ≡ (if m == i then some none else get_elem? t m)
set-get_elem? t i m lt = elim (ℕ_discrete i m) [
  | yes same ↦
      ground
        (arith, get_elem?-set_self t i none lt, ap (λ (j : ℕ). get_elem? (set t i none) j) same)
  | no other ↦ ground (arith, get_elem?-set_ne t none other)
]

-- `close` of a number below 30 in a well-formed process returns 0 and makes the entry of that
-- number null, in the one of the three tables that the number belongs to. Every other entry and
-- object stays as it is, and the process is well-formed.
pub close-Closed :
    (s : State) (fd : ℕ)
    → IsProcess s
    → fd < 30
    → (t : State) × (close s fd ≡ some (0, t)) × Closed s fd t
unfolding close
close-Closed s fd v lt = elim (dec_lt fd 10) [
  | yes file ↦ (
    record s { process = record (s.process) { fd = set s.process.fd fd none } },
    ground arith,
    record {
      fds = λ m lm. set-get_elem? s.process.fd fd m (omega (arith, v.fds));
      sps = λ m lm. ground arith;
      cps = λ m lm. ground arith;
      files = λ k. refl;
      valid = record {
        fds = length-set s.process.fd fd none ∙ v.fds;
        sps = v.sps;
        cps = v.cps;
        named = NamesBelow-set-none s.next_file s.process.fd fd v.named;
      };
    },
  )
  | no above ↦ elim (dec_lt fd 20) [
    | yes semaphore ↦ (
      record s { process = record (s.process) { sp = set s.process.sp (fd - 10) none } },
      ground arith,
      record {
        fds = λ m lm. ground arith;
        sps = λ m lm. set-get_elem? s.process.sp (fd - 10) m (omega (arith, v.sps)) ∙ ground arith;
        cps = λ m lm. ground arith;
        files = λ k. refl;
        valid = record {
          fds = v.fds;
          sps = length-set s.process.sp (fd - 10) none ∙ v.sps;
          cps = v.cps;
          named = v.named;
        };
      },
    )
    | no above' ↦ (
      record s { process = record (s.process) { cp = set s.process.cp (fd - 20) none } },
      ground arith,
      record {
        fds = λ m lm. ground arith;
        sps = λ m lm. ground arith;
        cps = λ m lm. set-get_elem? s.process.cp (fd - 20) m (omega (arith, v.cps)) ∙ ground arith;
        files = λ k. refl;
        valid = record {
          fds = v.fds;
          sps = v.sps;
          cps = length-set s.process.cp (fd - 20) none ∙ v.cps;
          named = v.named;
        };
      },
    )
  ]
]

-- `close` of a number from 30 on: 30 writes behind the table of child processes, which is a fault,
-- and every larger number returns -1 and changes nothing.
close_above :
    (s : State) (fd : ℕ) → 30 ≤ fd → close s fd ≡ (if fd == 30 then none else some (minus_one, s))
unfolding close
close_above s fd le = ground arith
