-- ===== src/Syscall/Files.antt =====
-- The calls on files of kernel/sys.cc: `open`, `close`, `read`, `write`, `len` and `seek`. A call
-- returns its 32-bit result with the new state; `none` is a fault or a panic.
pub mod Table
pub mod Close
pub mod Cursor
pub mod Console
use osfinal_project.Prelude.{
  ℕ, zero, suc, ◌+◌, ◌-◌, ◌<◌, Bool, true, false, Option, none, some, List, [], ◌∷◌, ◌++◌, ◌&&◌,
  ◌||◌, not, ◌>>=◌, ltb, leb, ◌==◌, if◌then◌else◌, get_elem?, set, update,
}
use osfinal_project.Word.{add32, sub32}
use osfinal_project.BlockIo.{Count, error, count, read_all}
use osfinal_project.Ext2.Inode.{Node, node_io}
use osfinal_project.Syscall.Process.{FileDescriptor, Pcb, State, minus_one}

-- The addresses of the two APICs, from `kConfig`.
pub record Apic : Type 0 where
  pub local : ℕ
  pub io : ℕ

-- The test of `read` and `write` for an address that a process may not use.
unfoldable pub is_forbidden : Apic → ℕ → Bool
is_forbidden a p =
    ltb p 0x80000000
    || (leb a.local p && ltb p (add32 a.local 4096))
    || (leb a.io p && ltb p (add32 a.io 4096))

-- `while (marker != nullptr && i < 9)` over the descriptors from `i` on, with `n` more allowed:
-- where the loop stops, if that entry is null.
pub free_slot : ℕ → ℕ → List (Option ℕ) → Option ℕ
free_slot n i [] = none
free_slot n i (none ∷ t) = some i
free_slot zero i (some k ∷ t) = none
free_slot (suc n) i (some k ∷ t) = free_slot n (i + 1) t

-- `open`; the argument is what `fs->find` returns for the name, and is asked for only with a slot.
pub open_file : State → Option (Option Node) → Option (ℕ × State)
unfolding free_slot
open_file s found = elim (free_slot 9 0 s.process.fd) [
  | none ↦ some (minus_one, s)
  | some i ↦ elim found [
    | none ↦ none
    | some none ↦ some (minus_one, s)
    | some (some node) ↦ some (
      i,
      record s {
        process = record (s.process) { fd = set s.process.fd i (some s.next_file) };
        files = update s.files s.next_file (record { node = some node; offset = 0; valid = false });
        next_file = s.next_file + 1;
      },
    )
  ]
]

-- A write to a table of ten entries; behind its end it is a fault.
set_slot : List (Option ℕ) → ℕ → Option (List (Option ℕ))
set_slot t i = if ltb i 10 then some (set t i none) else none

-- `close`; 30 passes the test and names the entry behind the last child.
pub close : State → ℕ → Option (ℕ × State)
unfolding set_slot
close s fd =
    let p = s.process in
    if ltb 30 fd
    then some (minus_one, s)
    else if ltb fd 10
    then (do t ← set_slot p.fd fd; some (0, record s { process = record p { fd = t } }))
    else if ltb fd 20
    then (do t ← set_slot p.sp (fd - 10); some (0, record s { process = record p { sp = t } }))
    else do t ← set_slot p.cp (fd - 20); some (0, record s { process = record p { cp = t } })

-- The entry of the table, which is null or names an object; behind its end it is a fault.
abbrev pub slot : State → ℕ → Option (Option ℕ)
slot s fd = get_elem? s.process.fd fd

-- The object that the entry names; through a null reference it is a fault.
abbrev pub object : State → ℕ → Option (ℕ × FileDescriptor)
object s fd = elim (slot s fd) [
  | none ↦ none
  | some none ↦ none
  | some (some k) ↦ some (k, s.files k)
]

-- The number that `read_all` returns, as `uint32_t`, and the bytes that it writes to the buffer.
result : Count → ℕ × List ℕ
result error = (minus_one, [])
result (count n bytes) = (n, bytes)

-- `read` behind its tests: the count is cut off at the end of the file, and the offset moves on.
pub read_from : State → ℕ → Node → ℕ → Option (ℕ × List ℕ × State)
unfolding result
read_from s k node nbyte =
    let d = s.files k in
    let size = node.info.size_low in
    let nbyte' = if ltb size (add32 d.offset nbyte) then sub32 size d.offset else nbyte in
    elim (read_all (node_io node) d.offset nbyte') [
      | none ↦ none
      | some c ↦ some (
        (result c).0,
        (result c).1,
        record s { files = update s.files k (record d { offset = add32 d.offset (result c).0 }) },
      )
    ]

-- `read`, with the bytes that it writes to the buffer. Descriptors 3 to 9 are files; 0 to 2 are, once
-- they have been closed and opened again.
pub read : Apic → State → (fd buf nbyte : ℕ) → Option (ℕ × List ℕ × State)
read a s fd buf nbyte =
    if is_forbidden a buf
    then some (minus_one, [], s)
    else if ltb 9 fd
    then some (minus_one, [], s)
    else if ltb fd 3 && (elim (object s fd) [ none ↦ false | some (_, d) ↦ d.valid ])
    then some (minus_one, [], s)
    else if ltb fd 3 && (elim (object s fd) [ none ↦ true | some _ ↦ false ])
    then none
    else elim (object s fd) [
      | none ↦ some (minus_one, [], s)
      | some (k, d) ↦ elim d.node [ none ↦ none | some node ↦ read_from s k node nbyte ]
    ]

-- The loop of `write`: the bytes from `buf` on are printed, up to an address that is forbidden.
pub write_loop : Apic → (ℕ → ℕ) → State → (buf i n : ℕ) → ℕ × State
write_loop a memory s buf i zero = (i, s)
write_loop a memory s buf i (suc n) = elim (is_forbidden a (add32 buf i)) [
  | true ↦ (i, s)
  | false ↦
      write_loop a memory (record s { output = s.output ++ (memory (add32 buf i) ∷ []) }) buf
        (i + 1) n
]

-- `write`; only the console can be written.
pub write : Apic → (ℕ → ℕ) → State → (fd buf nbyte : ℕ) → ℕ × State
unfolding write_loop
write a memory s fd buf nbyte =
    if is_forbidden a buf || ltb 2 fd then (minus_one, s) else elim (object s fd) [
      | none ↦ (minus_one, s)
      | some (k, d) ↦ elim d.valid [
        | false ↦ (minus_one, s)
        | true ↦ write_loop a memory s buf 0 nbyte
      ]
    ]

-- `len`; it has no test of the number, so one behind the table is a fault.
pub len : State → ℕ → Option ℕ
len s fd = elim (slot s fd) [
  | none ↦ none
  | some none ↦ some minus_one
  | some (some k) ↦
      if ltb fd 3 && (s.files k).valid
      then some 0
      else elim (s.files k).node [ none ↦ none | some node ↦ some node.info.size_low ]
]

-- `seek` on an entry that is not null: the console cannot be sought.
seek_to : State → (k fd offset : ℕ) → Option (ℕ × State)
seek_to s k fd offset =
    let d = s.files k in
    let no_node : Bool = elim d.node [ none ↦ true | some _ ↦ false ] in
    if ltb fd 3 && no_node
    then some (minus_one, s)
    else some (offset, record s { files = update s.files k (record d { offset = offset }) })

-- `seek`; a null entry is an error below 3, and a fault above.
pub seek : State → (fd offset : ℕ) → Option (ℕ × State)
unfolding seek_to
seek s fd offset = if ltb 9 fd then some (minus_one, s) else elim (slot s fd) [
  | none ↦ none
  | some none ↦ if ltb fd 3 then some (minus_one, s) else none
  | some (some k) ↦ seek_to s k fd offset
]
