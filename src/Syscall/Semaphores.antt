-- ===== src/Syscall/Semaphores.antt =====
-- The calls on semaphores of kernel/sys.cc: `sem`, `up` and `down`. The objects lie in a store, since
-- a forked process shares them; the table `sp` of the process holds their names.
pub mod Laws
use osfinal_project.Prelude.{
  ℕ, zero, suc, ◌+◌, ◌-◌, Bool, true, false, Option, none, some, List, [], ◌∷◌, ◌||◌, ltb,
  if◌then◌else◌, get_elem?, set, update,
}
use osfinal_project.Queue.{Queue}
use osfinal_project.Semaphore.{Semaphore, Call, call_down, call_up, step}
use osfinal_project.Syscall.Process.{minus_one}
use osfinal_project.Syscall.Files.{free_slot}

-- `sp` of the process, with the objects.
pub record Semaphores : Type 0 where
  pub sp : List (Option ℕ)
  pub objects : ℕ → Semaphore
  pub next_object : ℕ

-- `sem`; the loop that looks for a null entry is that of `open`. `next` is the memory that the queue
-- links its threads in.
pub sem : Semaphores → ℕ → (ℕ → ℕ) → ℕ × Semaphores
sem s initial next = elim (free_slot 9 10 s.sp) [
  | none ↦ (minus_one, s)
  | some i ↦ (
    i,
    record {
      sp = set s.sp (i - 10) (some s.next_object);
      objects =
          update s.objects s.next_object
            (record { count = initial; waiting = record { first = 0; last = 0; next = next } });
      next_object = s.next_object + 1;
    },
  )
]

-- One call on the semaphore with the number; -1 for a number of another kind, and a fault on a null
-- entry. With the result come the threads that get through.
call_on : (is_idle : ℕ → Bool) → Semaphores → ℕ → Call → Option (ℕ × List ℕ × Semaphores)
call_on is_idle s id c =
    if ltb id 10 || ltb 19 id then some (minus_one, [], s) else elim (get_elem? s.sp (id - 10)) [
      | none ↦ none
      | some none ↦ none
      | some (some k) ↦ elim (step is_idle (s.objects k) c) [
        | none ↦ none
        | some (passed, t) ↦ some (0, passed, record s { objects = update s.objects k t })
      ]
    ]

-- `up`. The scheduler gets the thread that was woken.
pub sys_up : (is_idle : ℕ → Bool) → Semaphores → ℕ → Option (ℕ × List ℕ × Semaphores)
unfolding call_on
sys_up is_idle s id = call_on is_idle s id call_up

-- `down`. A caller that blocks gets its 0 when another thread wakes it.
pub sys_down : (is_idle : ℕ → Bool) → Semaphores → ℕ → ℕ → Option (ℕ × List ℕ × Semaphores)
unfolding call_on
sys_down is_idle s id me = call_on is_idle s id (call_down me)
