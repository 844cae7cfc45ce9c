-- ===== src/Buffer/Order.antt =====
-- Values leave the buffer in the order in which they came, and calls wait only for a reason.
use osfinal_project.Prelude.{
  ℕ, zero, suc, ◌+◌, ◌%◌, ◌≡◌, refl, ap, sym, ◌∙◌, arith, none, some, Bool, true, false, List, [],
  ◌∷◌, ◌++◌, append-nil, append_assoc, length, ltb, if◌then◌else◌,
}
use osfinal_project.Turns.{total, any}
use osfinal_project.Buffer.{
  BoundedBuffer, Pc, put_waits, put_locks, put_writes, put_unlocks, put_signals, put_done,
  get_waits, get_locks, get_reads, get_unlocks, get_signals, get_done, Effect, silent, wrote, took,
  advance, turn,
}
use osfinal_project.Buffer.Ring.{contents}
use osfinal_project.Buffer.Laws.{
  holds_empty, holds_full, holds_lock, IsBuffer, Passes, same, last, first, turn-Passes,
}

at_zero : {B : Type 0} (n : ℕ) (x : B) → (if ltb 0 n then some x else none) ≡ none → n ≡ 0
at_zero n x e = ground (arith, e)

length-contents :
    {A : Type 0} (cells : ℕ → A) (places h n : ℕ) → length (contents cells places h n) ≡ n
length-contents cells places h zero = refl
length-contents cells places h (suc n) = ap suc (length-contents cells places ((h + 1) % places) n)

module _ {A : Type 0} where
  -- The turns of the threads in the order of a schedule: their effects, and the state in the end.
  pub run : BoundedBuffer A → List (Pc A) → List ℕ → List (Effect A) × BoundedBuffer A × List (Pc A)
  run b ts [] = ([], b, ts)
  run b ts (i ∷ is) =
      let (e, c, us) = turn b ts i in let (es, d, vs) = run c us is in (e ∷ es, d, vs)

  -- The values put and the values taken, in order.
  abbrev pub puts : List (Effect A) → List A
  puts [] = []
  puts (wrote t ∷ es) = t ∷ puts es
  puts (silent ∷ es) = puts es
  puts (took t ∷ es) = puts es

  abbrev pub gets : List (Effect A) → List A
  gets [] = []
  gets (took t ∷ es) = t ∷ gets es
  gets (silent ∷ es) = gets es
  gets (wrote t ∷ es) = gets es

  Passes-order :
      {b : BoundedBuffer A} {xs : List A} {e : Effect A} {ys : List A}
      → Passes b xs e ys
      → (zs : List A) (es : List (Effect A)) → ys ++ puts es ≡ gets es ++ zs
      → xs ++ puts (e ∷ es) ≡ gets (e ∷ es) ++ zs
  Passes-order same zs es o = o
  Passes-order (last {xs} {t} room) zs es o = sym (append_assoc xs (t ∷ []) (puts es)) ∙ o
  Passes-order (first {xs} {t}) zs es o = ap (λ (l : List A). t ∷ l) o

  -- From a well-formed buffer that holds `xs`, for any schedule of the calls of `put` and `get`:
  -- `xs` followed by the values that are written is, in order, the values that are read followed by
  -- those that the buffer holds in the end, and the buffer is well-formed then: no value is lost,
  -- written over or read twice.
  pub run-Fifo :
      (b : BoundedBuffer A) (ts : List (Pc A)) (xs : List A) (is : List ℕ)
      → IsBuffer b ts xs
      → let (es, c, us) = run b ts is in
        (zs : List A) × (xs ++ puts es ≡ gets es ++ zs) × IsBuffer c us zs
  unfolding run
  run-Fifo b ts xs [] v = (xs, append-nil xs, v)
  run-Fifo b ts xs (i ∷ is) v =
      let (ys, p, w) = turn-Passes b ts xs i v in
      let r = turn b ts i in
      let (zs, o, u) = run-Fifo r.1 r.2 ys is w in (zs, Passes-order p zs (run r.1 r.2 is).0 o, u)

  -- Every call waits or is done.
  abbrev pub Stuck : BoundedBuffer A → List (Pc A) → Type 0
  Stuck b [] = Unit {0}
  Stuck b (pc ∷ ts) = (advance b pc ≡ none) × Stuck b ts

  abbrev pub waits_for_room : Pc A → Bool
  waits_for_room (put_waits t) = true
  waits_for_room _ = false

  abbrev pub waits_for_value : Pc A → Bool
  waits_for_value get_waits = true
  waits_for_value _ = false

  Stuck-lock : (b : BoundedBuffer A) (ts : List (Pc A)) → Stuck b ts → total holds_lock ts ≡ 0
  unfolding advance
  Stuck-lock b [] s = refl
  Stuck-lock b (put_waits t ∷ ts) s = omega (arith, Stuck-lock b ts s.1)
  Stuck-lock b (put_locks t ∷ ts) s = omega (arith, Stuck-lock b ts s.1)
  Stuck-lock b (put_writes t ∷ ts) s = cc
  Stuck-lock b (put_unlocks ∷ ts) s = cc
  Stuck-lock b (put_signals ∷ ts) s = cc
  Stuck-lock b (put_done ∷ ts) s = omega (arith, Stuck-lock b ts s.1)
  Stuck-lock b (get_waits ∷ ts) s = omega (arith, Stuck-lock b ts s.1)
  Stuck-lock b (get_locks ∷ ts) s = omega (arith, Stuck-lock b ts s.1)
  Stuck-lock b (get_reads ∷ ts) s = cc
  Stuck-lock b (get_unlocks t ∷ ts) s = cc
  Stuck-lock b (get_signals t ∷ ts) s = cc
  Stuck-lock b (get_done t ∷ ts) s = omega (arith, Stuck-lock b ts s.1)

  -- With the lock free, no stuck call holds a permit.
  record Rests (b : BoundedBuffer A) (ts : List (Pc A)) : Type 0 where
    empty : total holds_empty ts ≡ 0
    full : total holds_full ts ≡ 0
    room : any waits_for_room ts ≡ true → b.n_empty ≡ 0
    value : any waits_for_value ts ≡ true → b.n_full ≡ 0

  Rests-skip :
      (b : BoundedBuffer A) (ts : List (Pc A)) (pc : Pc A)
      → holds_empty pc ≡ 0
      → holds_full pc ≡ 0
      → (waits_for_room pc ≡ true → b.n_empty ≡ 0)
      → (waits_for_value pc ≡ true → b.n_full ≡ 0)
      → Rests b ts
      → Rests b (pc ∷ ts)
  Rests-skip b ts pc e f g h r = record {
    empty = omega (arith, e, r.empty);
    full = omega (arith, f, r.full);
    room = λ i. ground (arith, g, i, r.room);
    value = λ i. ground (arith, h, i, r.value);
  }

  Stuck-Rests : (b : BoundedBuffer A) (ts : List (Pc A)) → b.lock ≡ 1 → Stuck b ts → Rests b ts
  unfolding advance
  Stuck-Rests b [] free s = record { empty = refl; full = refl; room = λ h. cc; value = λ h. cc }
  Stuck-Rests b (put_waits t ∷ ts) free s =
      Rests-skip b ts (put_waits t) refl refl (λ h. at_zero b.n_empty _ s.0) (λ h. cc)
        (Stuck-Rests b ts free s.1)
  Stuck-Rests b (put_locks t ∷ ts) free s = absurd (omega (arith, free, at_zero b.lock _ s.0))
  Stuck-Rests b (put_writes t ∷ ts) free s = cc
  Stuck-Rests b (put_unlocks ∷ ts) free s = cc
  Stuck-Rests b (put_signals ∷ ts) free s = cc
  Stuck-Rests b (put_done ∷ ts) free s =
      Rests-skip b ts put_done refl refl (λ h. cc) (λ h. cc) (Stuck-Rests b ts free s.1)
  Stuck-Rests b (get_waits ∷ ts) free s =
      Rests-skip b ts get_waits refl refl (λ h. cc) (λ h. at_zero b.n_full _ s.0)
        (Stuck-Rests b ts free s.1)
  Stuck-Rests b (get_locks ∷ ts) free s = absurd (omega (arith, free, at_zero b.lock _ s.0))
  Stuck-Rests b (get_reads ∷ ts) free s = cc
  Stuck-Rests b (get_unlocks t ∷ ts) free s = cc
  Stuck-Rests b (get_signals t ∷ ts) free s = cc
  Stuck-Rests b (get_done t ∷ ts) free s =
      Rests-skip b ts (get_done t) refl refl (λ h. cc) (λ h. cc) (Stuck-Rests b ts free s.1)

  -- When no call on a well-formed buffer can make a step, a call of `put` waits at the start only
  -- if the buffer holds as many values as it has places, and a call of `get` only if it holds none.
  pub Stuck-full :
      (b : BoundedBuffer A) (ts : List (Pc A)) (xs : List A)
      → IsBuffer b ts xs
      → Stuck b ts
      → (any waits_for_room ts ≡ true → length xs ≡ b.places)
        × (any waits_for_value ts ≡ true → xs ≡ [])
  Stuck-full b ts xs v s =
      let locked = v.locked in
      let r = Stuck-Rests b ts (omega (arith, locked, Stuck-lock b ts s)) s in
      let size = length-contents b.cells b.places b.head b.n in
      (
        λ h. omega (arith, r.room h, r.empty, v.empties, size, ap length v.held),
        λ h.
            let none_left : b.n ≡ 0 = omega (arith, r.value h, r.full, v.fulls) in
            sym v.held ∙ ap (contents b.cells b.places b.head) none_left,
      )
