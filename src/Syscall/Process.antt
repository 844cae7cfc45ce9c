-- ===== src/Syscall/Process.antt =====
-- `PCB` and `FileDescriptor` of kernel/process.h, and the part of the kernel that the calls of a
-- process change. A file descriptor object may be shared: after a fork two processes hold it. So the
-- objects lie in a store, and a table holds their names; `none` is the null reference.
use osfinal_project.Prelude.{
  ℕ, ◌+◌, ◌-◌, ◌^◌, Bool, true, Option, none, some, List, [], ◌∷◌, length, update, replicate, suc,
  ◌≤◌, ◌≡◌,
}
use osfinal_project.Ext2.Inode.{Node}

-- `FileDescriptor`
pub record FileDescriptor : Type 0 where
  pub node : Option Node
  pub offset : ℕ
  pub valid : Bool

-- The tables of `PCB`, with the names of descriptors, semaphores and child processes.
pub record Pcb : Type 0 where
  pub fd : List (Option ℕ)
  pub sp : List (Option ℕ)
  pub cp : List (Option ℕ)

pub record State : Type 0 where
  pub process : Pcb
  pub files : ℕ → FileDescriptor
  pub next_file : ℕ
  pub output : List ℕ  -- what `Debug::printf` has written

-- -1, as the 32-bit value that a call returns.
abbrev pub minus_one : ℕ
minus_one = 2 ^ 32 - 1

-- The constructor `PCB()`: the standard descriptors 0, 1 and 2 are valid and have no node; the
-- offset that their constructor leaves unset is the argument.
unfoldable init_process : State → ℕ → State
init_process s unset =
    let console : FileDescriptor = record { node = none; offset = unset; valid = true } in
    let k = s.next_file in
    record s {
      process = record {
        fd = some k ∷ some (k + 1) ∷ some (k + 2) ∷ replicate 7 none;
        sp = replicate 10 none;
        cp = replicate 10 none;
      };
      files = update (update (update s.files k console) (k + 1) console) (k + 2) console;
      next_file = k + 3;
    }

-- Every table has its ten entries, and every name of a table is that of an object.
abbrev pub NamesBelow : ℕ → List (Option ℕ) → Type 0
NamesBelow n [] = Unit {0}
NamesBelow n (none ∷ t) = NamesBelow n t
NamesBelow n (some k ∷ t) = (suc k ≤ n) × NamesBelow n t

pub record IsProcess (s : State) : Type 0 where
  pub fds : length s.process.fd ≡ 10
  pub sps : length s.process.sp ≡ 10
  pub cps : length s.process.cp ≡ 10
  pub named : NamesBelow s.next_file s.process.fd
