-- ===== src/Tests/Calls.antt =====
-- A process with an open file, and its system calls.
use osfinal_project.Prelude.{
  ℕ, ◌<◌, ◌^◌, ◌≡◌, ◌≢◌, refl, arith, true, false, none, some, [], ◌∷◌, slice, replicate, get_elem?,
  ◌==◌, if◌then◌else◌,
}
use osfinal_project.Syscall.Process.{FileDescriptor, State, IsProcess}
use osfinal_project.Syscall.Files.{Apic, is_forbidden, open_file, close, read}
use osfinal_project.Syscall.Files.Table.{Opened, open_file-Opened}
use osfinal_project.Syscall.Files.Close.{Closed, close-Closed}
use osfinal_project.Syscall.Files.Cursor.{IsFile, moved, read_lem}
use osfinal_project.Tests.Folder.{folder, folder_byte, folder-Holds}

abbrev apic : Apic
apic = record { local = 0xfee00000; io = 0xfec00000 }

-- Descriptors 0 to 2 are the console, 3 is the file of 24 bytes, at the given offset.
abbrev objects_at : ℕ → ℕ → FileDescriptor
objects_at offset k =
    if k == 3
    then record { node = some folder; offset = offset; valid = false }
    else record { node = none; offset = 0; valid = true }

abbrev process_at : ℕ → State
process_at offset = record {
  process = record {
    fd = some 0 ∷ some 1 ∷ some 2 ∷ some 3 ∷ replicate 6 none;
    sp = replicate 10 none;
    cp = replicate 10 none;
  };
  files = objects_at offset;
  next_file = 4;
  output = [];
}

process_at-IsProcess : (offset : ℕ) → IsProcess (process_at offset)
process_at-IsProcess offset = record {
  fds = refl;
  sps = refl;
  cps = refl;
  named = (omega arith, (omega arith, (omega arith, (omega arith, tt))));
}

process_at-IsFile :
    (offset : ℕ) → offset < 2 ^ 32 → IsFile (process_at offset) 3 3 folder folder_byte
process_at-IsFile offset fit = record {
  low = omega arith;
  high = omega arith;
  entry = refl;
  opened = refl;
  bytes = folder-Holds;
  cursor = fit;
}

open_file-Opened_example :
    (i : ℕ) × (t : State) × (open_file (process_at 0) (some (some folder)) ≡ some (i, t))
    × Opened (process_at 0) folder i t
open_file-Opened_example =
    open_file-Opened (process_at 0) folder 7 (process_at-IsProcess 0) (omega arith) refl

-- A process whose table is full.
abbrev busy : State
busy = record (process_at 0) {
  process = record { fd = replicate 10 (some 3); sp = replicate 10 none; cp = replicate 10 none };
}

all_taken : (m : ℕ) → m < 10 → get_elem? busy.process.fd m ≢ some none
all_taken m lt e = ground arith

close-Closed_example :
    (t : State) × (close (process_at 0) 3 ≡ some (0, t)) × Closed (process_at 0) 3 t
close-Closed_example = close-Closed (process_at 0) 3 (process_at-IsProcess 0) (omega arith)

buffer_allowed : is_forbidden apic 0x90000000 ≡ false
unfolding is_forbidden
buffer_allowed = refl

read_lem_example :
    read apic (process_at 20) 3 0x90000000 10
    ≡ some (4, slice folder_byte 20 4, moved (process_at 20) 3 24)
read_lem_example =
    read_lem apic (process_at-IsFile 20 (omega arith)) 0x90000000 10 buffer_allowed (omega arith)
      (omega arith) (omega arith)
