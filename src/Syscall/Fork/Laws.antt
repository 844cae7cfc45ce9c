-- ===== src/Syscall/Fork/Laws.antt =====
-- A child is entered in its parent's table until the parent has waited for it.
use osfinal_project.Prelude.{
  ℕ, zero, suc, ◌+◌, ◌-◌, ◌<◌, ◌≤◌, ◌≡◌, ◌≢◌, refl, ap, sym, ◌∙◌, arith, Option, none, some, List,
  [], ◌∷◌, get_elem?, set, length, get_elem?-set_self, update, update_self, update_ne,
}
use osfinal_project.Syscall.Process.{Pcb}
use osfinal_project.Syscall.Fork.{Processes, child_slot, fork_tables, waits, returned, wait, exit}

-- The slot is a null entry of the table.
child_slot-null :
    (i : ℕ) (t : List (Option ℕ)) (index : ℕ)
    → child_slot i t ≡ some index
    → (i ≤ index) × (index < i + length t) × (get_elem? t (index - i) ≡ some none)
unfolding child_slot
child_slot-null i [] index e = cc
child_slot-null i (none ∷ t) index e =
    let same : i ≡ index = ground arith in
    let zero_th : index - i ≡ 0 = omega arith in
    (omega arith, omega arith, ap (get_elem? (none ∷ t)) zero_th)
child_slot-null i (some k ∷ t) index e =
    let (lo, hi, null) = child_slot-null (i + 1) t index e in
    let next : index - i ≡ suc (index - (i + 1)) = omega arith in
    (omega arith, omega arith, ap (get_elem? (some k ∷ t)) next ∙ null)

set-set :
    (t : List (Option ℕ)) (k c : ℕ) → get_elem? t k ≡ some none → set (set t k (some c)) k none ≡ t
set-set [] k c e = refl
set-set (none ∷ t) zero c e = refl
set-set (some x ∷ t) zero c e = cc
set-set (x ∷ t) (suc k) c e = ap (λ (r : List (Option ℕ)). x ∷ r) (set-set t k c e)

-- The state of the processes behind `fork`.
abbrev forked : Processes → (parent child id : ℕ) → Processes
forked s parent child id =
    let p = s.tables parent in
    let p' = record p { cp = set p.cp (id - 20) (some child) } in
    let c = record (s.tables child) { fd = p.fd; sp = p.sp } in
    record s { tables = update (update s.tables parent p') child c }

fork_tables_lem :
    (s : Processes) (parent child id : ℕ)
    → child_slot 20 (s.tables parent).cp ≡ some id
    → fork_tables s parent child ≡ (id, forked s parent child id)
unfolding fork_tables
fork_tables_lem s parent child id e = rw (e, fork_tables) refl

-- The call `wait` on an entry that names a child.
wait_lem :
    (s : Processes) (parent child id : ℕ)
    → 20 ≤ id
    → get_elem? (s.tables parent).cp (id - 20) ≡ some (some child)
    → (s.status child ≡ none → wait s parent id ≡ some waits)
      × ((rc : ℕ)
          → s.status child ≡ some rc
          → wait s parent id
            ≡ some (
                returned 0 (some rc) (record s {
                  tables =
                      update s.tables parent
                        (record (s.tables parent) { cp = set (s.tables parent).cp (id - 20) none });
                })))
unfolding wait
wait_lem s parent child id le e =
    (λ unset. ground (arith, e, unset), λ rc isset. ground (arith, e, isset))

parent_table :
    (s : Processes) (parent child id : ℕ)
    → parent ≢ child
    → (forked s parent child id).tables parent
      ≡ record (s.tables parent) { cp = set (s.tables parent).cp (id - 20) (some child) }
parent_table s parent child id ne =
    update_ne (update s.tables parent _) child parent _ (λ q. ne (sym q))
    ∙ update_self s.tables parent _

-- A `fork` that finds the entry `id` for a child other than its parent, whose future is not set:
-- the child has the descriptors and the semaphores of the parent; `wait(id)` waits; once the child
-- has called `exit(rc)`, `wait(id)` returns 0 with the status `rc`, and the table of children is as
-- it was before the fork.
pub fork-wait :
    (s : Processes) (parent child id rc : ℕ)
    → parent ≢ child
    → child_slot 20 (s.tables parent).cp ≡ some id
    → s.status child ≡ none
    → (t u v : Processes) × (fork_tables s parent child ≡ (id, t))
      × ((t.tables child).fd ≡ (s.tables parent).fd)
      × ((t.tables child).sp ≡ (s.tables parent).sp)
      × (wait t parent id ≡ some waits)
      × (exit t child rc ≡ some u)
      × (wait u parent id ≡ some (returned 0 (some rc) v))
      × ((v.tables parent).cp ≡ (s.tables parent).cp)
unfolding exit
fork-wait s parent child id rc ne e unset =
    let (lo, hi, null) = child_slot-null 20 (s.tables parent).cp id e in
    let t = forked s parent child id in
    let u = record t { status = update t.status child (some rc) } in
    let mine = parent_table s parent child id ne in
    let there : get_elem? (t.tables parent).cp (id - 20) ≡ some (some child) =
      ap (λ (p : Pcb). get_elem? p.cp (id - 20)) mine
      ∙ get_elem?-set_self (s.tables parent).cp (id - 20) (some child) (omega arith) in
    let theirs = update_self (update s.tables parent _) child _ in
    (
      t,
      u,
      _,
      fork_tables_lem s parent child id e,
      ap (λ (p : Pcb). p.fd) theirs,
      ap (λ (p : Pcb). p.sp) theirs,
      (wait_lem t parent child id lo there).0 unset,
      ground (arith, unset),
      (wait_lem u parent child id lo there).1 rc (update_self t.status child (some rc)),
      ap (λ (p : Pcb). p.cp) (update_self t.tables parent _)
          ∙ ap (λ (p : Pcb). set p.cp (id - 20) none) mine
          ∙ set-set (s.tables parent).cp (id - 20) child null,
    )
