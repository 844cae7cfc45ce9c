-- ===== src/PhysMem.antt =====
-- kernel/physmem.h and kernel/physmem.cc: the allocator of physical frames. A free frame holds the
-- address of the next one in its first word. The lock is held for the whole of each function, so
-- a call is one step.
pub mod Laws
pub mod Alloc
use Prim.Native.Nat.{compare, Ordering}
use osfinal_project.Prelude.{
  ℕ, ◌+◌, ◌-◌, ◌*◌, ◌/◌, ◌%◌, ◌^◌, Bool, true, false, Option, none, some, ◌&&◌, ◌>>=◌, ◌>>◌, assert,
  ltb, leb, ◌==◌, ◌!=◌, if◌then◌else◌, update,
}
use osfinal_project.Word.{add32, sub32}

-- Physical memory: the word at each aligned address.
abbrev pub Memory : Type 0
Memory = ℕ → ℕ

abbrev pub frame_size : ℕ
frame_size = 2 ^ 12

-- `pa & 0xFFF`, `pa >> 12`
abbrev pub offset : ℕ → ℕ
offset pa = pa % 2 ^ 12

abbrev ppn : ℕ → ℕ
ppn pa = pa / 2 ^ 12

abbrev pub framedown : ℕ → ℕ
framedown pa = pa / frame_size * frame_size

abbrev frameup : ℕ → ℕ
frameup pa = framedown (sub32 (add32 pa frame_size) 1)

-- The statics of physmem.cc, with the memory. The address 0 is the null pointer.
pub record PhysMem : Type 0 where
  pub first_free : ℕ
  pub avail : ℕ
  pub limit : ℕ
  pub memory : Memory

-- `bzero((void*)p, FRAME_SIZE)`
abbrev pub zero_frame : Memory → ℕ → Memory
zero_frame m p a = if leb p a && ltb a (p + frame_size) then 0 else m a

-- The frame is chosen before it is zeroed.
choose_frame : PhysMem → Option (ℕ × PhysMem)
choose_frame s =
    if s.first_free != 0
    then some (s.first_free, record s { first_free = s.memory s.first_free })
    else if s.avail == s.limit
    then none
    else some (s.avail, record s { avail = add32 s.avail frame_size })

pub alloc_frame : PhysMem → Option (ℕ × PhysMem)
unfolding choose_frame
alloc_frame s = elim (choose_frame s) [
  | none ↦ none
  | some (p, s') ↦
      if offset p == 0 then some (p, record s' { memory = zero_frame s'.memory p }) else none
]

pub dealloc_frame : PhysMem → ℕ → Option PhysMem
dealloc_frame s p = do
  assert (offset p == 0)
  some (record s { memory = update s.memory p s.first_free; first_free = p })

-- `PhysMem::init`; the memory and the list of free frames stay as they are.
init : PhysMem → ℕ → ℕ → Option PhysMem
init s start size = do
  assert (offset start == 0)
  assert (offset size == 0)
  some (record s { avail = start; limit = add32 start size })
