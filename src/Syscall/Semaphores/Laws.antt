-- ===== src/Syscall/Semaphores/Laws.antt =====
-- A new semaphore, and a call on it by its number.
use osfinal_project.Prelude.{
  ℕ, ◌+◌, ◌-◌, ◌≤◌, ◌<◌, Bool, ◌≡◌, ◌≢◌, refl, ap, sym, ◌∙◌, arith, Option, none, some, List, [],
  get_elem?, set, length, get_elem?-set_self, get_elem?-set_ne, update, update_self, update_ne,
  Option-cases, inl, inr, subst, ◌⊎◌,
}
use osfinal_project.Chain.{end}
use osfinal_project.Semaphore.{Semaphore, Call, call_down, call_up}
use osfinal_project.Semaphore.Laws.{IsSemaphore, MayCall, spec_step, step-Follows}
use osfinal_project.Syscall.Process.{minus_one}
use osfinal_project.Syscall.Files.{free_slot}
use osfinal_project.Syscall.Files.Table.{free_slot-null, free_slot-taken, free_slot-full}
use osfinal_project.Syscall.Semaphores.{Semaphores, sem, call_on, sys_up, sys_down}

-- The number `id` of the process names a semaphore with `n` permits and the threads `xs` in line.
pub record Names (s : Semaphores) (id n : ℕ) (xs : List ℕ) : Type 0 where
  pub low : 10 ≤ id
  pub high : id ≤ 19
  pub object : ℕ
  pub entry : get_elem? s.sp (id - 10) ≡ some (some object)
  pub valid : IsSemaphore (s.objects object) n xs

-- A number is -1 when the table is full. Otherwise it is the lowest that was free, from 10 on; it
-- names a new semaphore with the initial count and nobody in line, and no other entry or object
-- has changed.
pub record Created (s : Semaphores) (initial id : ℕ) (t : Semaphores) : Type 0 where
  pub names : Names t id initial []
  pub was_free : get_elem? s.sp (id - 10) ≡ some none
  pub below_taken : (m : ℕ) → 10 + m < id → get_elem? s.sp m ≢ some none
  pub other_entries : (m : ℕ) → m ≢ id - 10 → get_elem? t.sp m ≡ get_elem? s.sp m
  pub other_objects : (k : ℕ) → k ≢ s.next_object → t.objects k ≡ s.objects k

-- The state behind `sem` at entry `m`.
abbrev made : Semaphores → ℕ → (ℕ → ℕ) → ℕ → Semaphores
made s initial next m = record {
  sp = set s.sp m (some s.next_object);
  objects =
      update s.objects s.next_object
        (record { count = initial; waiting = record { first = 0; last = 0; next = next } });
  next_object = s.next_object + 1;
}

made-Created :
    (s : Semaphores) (initial : ℕ) (next : ℕ → ℕ) (id : ℕ)
    → length s.sp ≡ 10
    → free_slot 9 10 s.sp ≡ some id
    → 10 ≤ id
    → id ≤ 19
    → get_elem? s.sp (id - 10) ≡ some none
    → Created s initial id (made s initial next (id - 10))
made-Created s initial next id ten e low high null = record {
  names = record {
    low = low;
    high = high;
    object = s.next_object;
    entry = get_elem?-set_self s.sp (id - 10) (some s.next_object) (omega arith);
    valid =
        subst (λ (o : Semaphore). IsSemaphore o initial [])
          (sym (update_self s.objects s.next_object _))
          (record {
            counted = refl;
            queued = record { chain = end; ends = refl };
            either = inr refl;
          });
  };
  was_free = null;
  below_taken = λ j lt. free_slot-taken 9 10 s.sp id j e lt;
  other_entries = λ j ne. get_elem?-set_ne s.sp (some s.next_object) (λ q. ne (sym q));
  other_objects = λ k ne. update_ne s.objects s.next_object k _ (λ q. ne (sym q));
}

sem-made :
    (s : Semaphores) (initial : ℕ) (next : ℕ → ℕ) (id : ℕ)
    → free_slot 9 10 s.sp ≡ some id
    → sem s initial next ≡ (id, made s initial next (id - 10))
unfolding sem
sem-made s initial next id e = rw (e, sem) refl

sem_at :
    (s : Semaphores) (initial : ℕ) (next : ℕ → ℕ) (id : ℕ)
    → length s.sp ≡ 10
    → free_slot 9 10 s.sp ≡ some id
    → Created s initial (sem s initial next).0 (sem s initial next).1
sem_at s initial next id ten e =
    let (m, at, le, null) = free_slot-null 9 10 s.sp id e in
    subst (λ (r : ℕ × Semaphores). Created s initial r.0 r.1) (sym (sem-made s initial next id e))
      (made-Created s initial next id ten e (omega arith) (omega arith)
        (ap (get_elem? s.sp) (omega arith) ∙ null))

-- With a null entry in a table of ten, `sem` returns the lowest number that was free, from 10 on;
-- it names a new semaphore with the initial count and nobody in line, and no other entry or object
-- has changed.
sem-Created :
    (s : Semaphores) (initial : ℕ) (next : ℕ → ℕ) (m : ℕ)
    → length s.sp ≡ 10
    → m < 10
    → get_elem? s.sp m ≡ some none
    → Created s initial (sem s initial next).0 (sem s initial next).1
sem-Created s initial next m ten lt null = elim (Option-cases (free_slot 9 10 s.sp)) [
  | inl full ↦ absurd (free_slot-full 9 10 s.sp m full (omega arith) null)
  | inr (id, e) ↦ sem_at s initial next id ten e
]

sem-full :
    (s : Semaphores) (initial : ℕ) (next : ℕ → ℕ)
    → ((m : ℕ) → m < 10 → get_elem? s.sp m ≢ some none)
    → sem s initial next ≡ (minus_one, s)
unfolding sem
sem-full s initial next full = elim (Option-cases (free_slot 9 10 s.sp)) [
  | inl e ↦ ground (arith, e)
  | inr (i, e) ↦
      let (m, at, le, null) = free_slot-null 9 10 s.sp i e in absurd (full m (omega arith) null)
]

-- A call by number does to the semaphore what it does to a counting semaphore; it returns 0, and
-- the other semaphores stay as they are.
pub record Called (s : Semaphores) (id : ℕ) (n : ℕ) (xs : List ℕ) (c : Call)
    (r : Option (ℕ × List ℕ × Semaphores)) (k : ℕ) : Type 0 where
  pub after : Semaphores
  pub result : r ≡ some (0, (spec_step n xs c).0, after)
  pub names : Names after id (spec_step n xs c).1 (spec_step n xs c).2
  pub others : (j : ℕ) → j ≢ k → after.objects j ≡ s.objects j

module _ (is_idle : ℕ → Bool) where
  called :
      {s : Semaphores} {id n : ℕ} {xs : List ℕ} (c : Call) (h : Names s id n xs)
      → MayCall is_idle n xs c
      → Called s id n xs c (call_on is_idle s id c) h.object
  unfolding call_on
  called {s} {id} {n} {xs} c h may =
      let stepped = step-Follows is_idle n xs c h.valid may in
      let e = stepped.result in
      record {
        after = record s { objects = update s.objects h.object stepped.after };
        result = ground (arith, h.low, h.high, h.entry, e);
        names = record {
          low = h.low;
          high = h.high;
          object = h.object;
          entry = h.entry;
          valid =
              subst (λ (o : Semaphore). IsSemaphore o (spec_step n xs c).1 (spec_step n xs c).2)
                (sym (update_self s.objects h.object stepped.after)) stepped.valid;
        };
        others = λ j ne. update_ne s.objects h.object j _ (λ q. ne (sym q));
      }

  -- `down` by the number of a semaphore, by a thread that may call it, returns 0 with what the abstract
  -- semaphore does; the number then names a semaphore in the abstract state behind the call, and the
  -- other objects stay as they are.
  sys_down-Called :
      {s : Semaphores} {id n : ℕ} {xs : List ℕ} (me : ℕ) (h : Names s id n xs)
      → MayCall is_idle n xs (call_down me)
      → Called s id n xs (call_down me) (sys_down is_idle s id me) h.object
  unfolding sys_down
  sys_down-Called me h may = called (call_down me) h may

  -- `up` by the number of a semaphore, where the count does not overflow, returns 0 with what the
  -- abstract semaphore does; the number then names a semaphore in the abstract state behind the call,
  -- and the other objects stay as they are.
  sys_up-Called :
      {s : Semaphores} {id n : ℕ} {xs : List ℕ} (h : Names s id n xs)
      → MayCall is_idle n xs call_up
      → Called s id n xs call_up (sys_up is_idle s id) h.object
  unfolding sys_up
  sys_up-Called h may = called call_up h may

  -- A number that is not that of a semaphore is refused.
  sys_refused :
      (s : Semaphores) (id me : ℕ)
      → (id < 10) ⊎ (19 < id)
      → (sys_up is_idle s id ≡ some (minus_one, [], s))
        × (sys_down is_idle s id me ≡ some (minus_one, [], s))
  unfolding sys_up sys_down call_on
  sys_refused s id me why = (ground arith, ground arith)
