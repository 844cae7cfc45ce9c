-- ===== src/Buffer/Laws.antt =====
-- The invariant of the bounded buffer, in which order values pass, and when calls wait.
use osfinal_project.Prelude.{
  ℕ, zero, suc, ◌+◌, ◌-◌, ◌%◌, ◌^◌, ◌<◌, ◌≡◌, inl, inr, refl, ap, sym, ◌∙◌, arith, subst, Option,
  none, some, Bool-cases, Option-cases, List, [], ◌∷◌, ◌++◌, ltb, update, get_elem?, set,
}
use osfinal_project.Word.{add32, sub32}
use osfinal_project.Turns.{total, total-set, total-le}
use osfinal_project.Buffer.{
  BoundedBuffer, Pc, put_waits, put_locks, put_writes, put_unlocks, put_signals, put_done,
  get_waits, get_locks, get_reads, get_unlocks, get_signals, get_done, Effect, silent, wrote, took,
  advance, turn,
}
use osfinal_project.Buffer.Ring.{contents, contents-put, wrap}

-- A call that holds a permit of `nEmpty`; one that holds one of `nFull`; one that has the lock.
abbrev pub holds_empty : {A : Type 0} → Pc A → ℕ
holds_empty (put_locks t) = 1
holds_empty (put_writes t) = 1
holds_empty (get_unlocks t) = 1
holds_empty (get_signals t) = 1
holds_empty _ = 0

abbrev pub holds_full : {A : Type 0} → Pc A → ℕ
holds_full put_unlocks = 1
holds_full put_signals = 1
holds_full get_locks = 1
holds_full get_reads = 1
holds_full _ = 0

abbrev pub holds_lock : {A : Type 0} → Pc A → ℕ
holds_lock (put_writes t) = 1
holds_lock put_unlocks = 1
holds_lock get_reads = 1
holds_lock (get_unlocks t) = 1
holds_lock _ = 0

module _ {A : Type 0} where
  -- The buffer holds `xs`. The permits and the calls that hold one account for every place and every
  -- value, and at most one call has the lock.
  pub record IsBuffer (b : BoundedBuffer A) (ts : List (Pc A)) (xs : List A) : Type 0 where
    pub positive : 0 < b.places
    pub small : b.places < 2 ^ 31
    pub inside : b.head < b.places
    pub held : contents b.cells b.places b.head b.n ≡ xs
    pub empties : b.n_empty + total holds_empty ts + b.n ≡ b.places
    pub fulls : b.n_full + total holds_full ts ≡ b.n
    pub locked : b.lock + total holds_lock ts ≡ 1

  -- What a step does to the values that are held.
  pub data Passes (b : BoundedBuffer A) : List A → Effect A → List A → Type 0 where
    same : {xs : List A} → Passes b xs silent xs
    last : {xs : List A} {t : A} → b.n < b.places → Passes b xs (wrote t) (xs ++ (t ∷ []))
    first : {xs : List A} {t : A} → Passes b (t ∷ xs) (took t) xs

  abbrev Kept :
      BoundedBuffer A
      → List (Pc A)
      → List A
      → ℕ
      → Option (Effect A × BoundedBuffer A × Pc A)
      → Type 0
  Kept b ts xs i none = Unit {0}
  Kept b ts xs i (some (e, b', pc')) =
      (ys : List A) × Passes b xs e ys × IsBuffer b' (set ts i pc') ys

  -- A step that moves permits only.
  quiet :
      (b : BoundedBuffer A) (ts : List (Pc A)) (xs : List A) (i : ℕ) (pc pc' : Pc A) (x y z : ℕ)
      → IsBuffer b ts xs
      → get_elem? ts i ≡ some pc
      → x + holds_empty pc' ≡ b.n_empty + holds_empty pc
      → y + holds_full pc' ≡ b.n_full + holds_full pc
      → z + holds_lock pc' ≡ b.lock + holds_lock pc
      → Kept b ts xs i (some (silent, record b { n_empty = x; n_full = y; lock = z }, pc'))
  quiet b ts xs i pc pc' x y z v at ex ey ez = (
    xs,
    same,
    record {
      positive = v.positive;
      small = v.small;
      inside = v.inside;
      held = v.held;
      empties = omega (arith, v.empties, ex, total-set holds_empty ts i pc pc' at);
      fulls = omega (arith, v.fulls, ey, total-set holds_full ts i pc pc' at);
      locked = omega (arith, v.locked, ez, total-set holds_lock ts i pc pc' at);
    },
  )

  writes :
      (b : BoundedBuffer A) (ts : List (Pc A)) (xs : List A) (i : ℕ) (t : A)
      → IsBuffer b ts xs
      → get_elem? ts i ≡ some (put_writes t)
      → IsBuffer
          (record b { n = add32 b.n 1; cells = update b.cells (add32 b.head b.n % b.places) t })
          (set ts i put_unlocks)
          (xs ++ (t ∷ []))
        × (b.n < b.places)
  writes b ts xs i t v at =
      let one = total-le holds_empty ts i (put_writes t) at in
      let e = v.empties in
      let small = v.small in
      let inside = v.inside in
      let room : b.n < b.places = omega (arith, one, e) in
      let place : add32 b.head b.n ≡ b.head + b.n = omega (arith, room, small, inside) in
      let more : add32 b.n 1 ≡ suc b.n = omega (arith, room, small) in
      (
        record {
          positive = v.positive;
          small = v.small;
          inside = v.inside;
          held =
              rw (place, more)
                (contents-put b.cells b.places b.head b.n t inside room
                  ∙ ap (λ (l : List A). l ++ (t ∷ [])) v.held);
          empties =
              omega (arith, more, e, total-set holds_empty ts i (put_writes t) put_unlocks at);
          fulls =
              omega (arith, more, v.fulls, total-set holds_full ts i (put_writes t) put_unlocks at);
          locked = omega (arith, v.locked, total-set holds_lock ts i (put_writes t) put_unlocks at);
        },
        room,
      )

  contents-take :
      (cells : ℕ → A) (places h n : ℕ)
      → 0 < n
      → contents cells places h n ≡ cells h ∷ contents cells places ((h + 1) % places) (n - 1)
  contents-take cells places h zero pos = absurd (omega arith)
  contents-take cells places h (suc n) pos =
      ap (λ (k : ℕ). cells h ∷ contents cells places ((h + 1) % places) k) (omega arith)

  reads :
      (b : BoundedBuffer A) (ts : List (Pc A)) (xs : List A) (i : ℕ)
      → IsBuffer b ts xs
      → get_elem? ts i ≡ some get_reads
      → let t = b.cells b.head in
        (ys : List A) × (xs ≡ t ∷ ys)
        × IsBuffer
            (record b { head = add32 b.head 1 % b.places; n = sub32 b.n 1 })
            (set ts i (get_unlocks t))
            ys
  reads b ts xs i v at =
      let t = b.cells b.head in
      let one = total-le holds_full ts i get_reads at in
      let e = v.empties in
      let small = v.small in
      let inside = v.inside in
      let pos : 0 < b.n = omega (arith, one, v.fulls) in
      let place : add32 b.head 1 ≡ b.head + 1 = omega (arith, small, inside) in
      let less : sub32 b.n 1 ≡ b.n - 1 = omega (arith, pos, e, small) in
      let next = wrap b.head 1 b.places inside (omega arith) in
      (
        contents b.cells b.places ((b.head + 1) % b.places) (b.n - 1),
        sym v.held ∙ contents-take b.cells b.places b.head b.n pos,
        record {
          positive = v.positive;
          small = v.small;
          inside = rw place (ground (arith, next, inside));
          held = rw (place, less) refl;
          empties =
              omega (arith, less, pos, e, total-set holds_empty ts i get_reads (get_unlocks t) at);
          fulls =
              omega
                (arith, less, pos, v.fulls, total-set holds_full ts i get_reads (get_unlocks t) at);
          locked = omega (arith, v.locked, total-set holds_lock ts i get_reads (get_unlocks t) at);
        },
      )

  advance-Kept :
      (b : BoundedBuffer A) (ts : List (Pc A)) (xs : List A) (i : ℕ) (pc : Pc A)
      → IsBuffer b ts xs
      → get_elem? ts i ≡ some pc
      → Kept b ts xs i (advance b pc)
  unfolding advance
  advance-Kept b ts xs i (put_waits t) v at = elim (Bool-cases (ltb 0 b.n_empty)) [
    | inl go ↦
        let pos : 0 < b.n_empty = ground (arith, go) in
        rw go (
          quiet b ts xs i (put_waits t) (put_locks t) (b.n_empty - 1) b.n_full b.lock v at
            (omega arith) refl refl)
    | inr wait ↦ rw wait tt
  ]
  advance-Kept b ts xs i (put_locks t) v at = elim (Bool-cases (ltb 0 b.lock)) [
    | inl go ↦
        let pos : 0 < b.lock = ground (arith, go) in
        rw go (
          quiet b ts xs i (put_locks t) (put_writes t) b.n_empty b.n_full (b.lock - 1) v at refl
            refl (omega arith))
    | inr wait ↦ rw wait tt
  ]
  advance-Kept b ts xs i (put_writes t) v at =
      let (w, room) = writes b ts xs i t v at in (xs ++ (t ∷ []), last room, w)
  advance-Kept b ts xs i put_unlocks v at =
      quiet b ts xs i put_unlocks put_signals b.n_empty b.n_full (b.lock + 1) v at refl refl
        (omega arith)
  advance-Kept b ts xs i put_signals v at =
      quiet b ts xs i put_signals put_done b.n_empty (b.n_full + 1) b.lock v at refl (omega arith)
        refl
  advance-Kept b ts xs i put_done v at = tt
  advance-Kept b ts xs i get_waits v at = elim (Bool-cases (ltb 0 b.n_full)) [
    | inl go ↦
        let pos : 0 < b.n_full = ground (arith, go) in
        rw go (
          quiet b ts xs i get_waits get_locks b.n_empty (b.n_full - 1) b.lock v at refl
            (omega arith) refl)
    | inr wait ↦ rw wait tt
  ]
  advance-Kept b ts xs i get_locks v at = elim (Bool-cases (ltb 0 b.lock)) [
    | inl go ↦
        let pos : 0 < b.lock = ground (arith, go) in
        rw go (
          quiet b ts xs i get_locks get_reads b.n_empty b.n_full (b.lock - 1) v at refl refl
            (omega arith))
    | inr wait ↦ rw wait tt
  ]
  advance-Kept b ts xs i get_reads v at =
      let (ys, e, w) = reads b ts xs i v at in
      (ys, subst (λ (zs : List A). Passes b zs (took (b.cells b.head)) ys) (sym e) first, w)
  advance-Kept b ts xs i (get_unlocks t) v at =
      quiet b ts xs i (get_unlocks t) (get_signals t) b.n_empty b.n_full (b.lock + 1) v at refl refl
        (omega arith)
  advance-Kept b ts xs i (get_signals t) v at =
      quiet b ts xs i (get_signals t) (get_done t) (b.n_empty + 1) b.n_full b.lock v at
        (omega arith) refl refl
  advance-Kept b ts xs i (get_done t) v at = tt

  -- A turn of any thread keeps the invariant. Its effect on the values that are held is that nothing
  -- changes, or a value is put behind the last one, for which there was a place, or the first one is taken.
  pub turn-Passes :
      (b : BoundedBuffer A) (ts : List (Pc A)) (xs : List A) (i : ℕ)
      → IsBuffer b ts xs
      → let r = turn b ts i in (ys : List A) × Passes b xs r.0 ys × IsBuffer r.1 r.2 ys
  unfolding turn
  turn-Passes b ts xs i v = elim (Option-cases (get_elem? ts i)) [
    | inl out ↦ rw (out, turn) (xs, same, v)
    | inr (pc, at) ↦ rw (at, turn) (after pc (advance b pc) (advance-Kept b ts xs i pc v at))
  ]
    where
      after :
          (pc : Pc A) (o : Option (Effect A × BoundedBuffer A × Pc A))
          → Kept b ts xs i o
          → let r : Effect A × BoundedBuffer A × List (Pc A) = elim o [
            | none ↦ (silent, b, ts)
            | some (e, b', pc') ↦ (e, b', set ts i pc')
          ] in
            (ys : List A) × Passes b xs r.0 ys × IsBuffer r.1 r.2 ys
      after pc none k = (xs, same, v)
      after pc (some (e, b', pc')) k = k
