-- ===== src/Future/Done.antt =====
-- When no thread can make a step, every call on a future is done.
use osfinal_project.Prelude.{
  ℕ, zero, suc, ◌≡◌, ◌≢◌, refl, ap, arith, Bool-cases, some, Bool, true, false, List, [], ◌∷◌,
  replicate,
}
use osfinal_project.Turns.{Move, rests, total, any, Stuck, run, run-keeps}
use osfinal_project.Future.{
  Future, future, Pc, set_checks, set_writes, set_readies, set_ups, set_done, get_checks, get_downs,
  get_ups, get_reads, get_done, advance, callers,
}
use osfinal_project.Future.Laws.{
  setting, signalling, AllKnow, IsFuture, AllGot, AllKnow-got, unfinished, advance-Keeps,
}

module _ {A : Type 0} where
  abbrev idle : Move (Future A) (Pc A) → Bool
  idle rests = true
  idle _ = false

  checks-move : (f : Future A) (v : A) → advance f (set_checks v) ≢ rests
  unfolding advance
  checks-move f v e =
      let still : idle (advance f (set_checks v)) ≡ true = ap idle e in
      let ready = Bool-cases f.is_ready in ground (arith, still, ready)

  get-move : (f : Future A) → advance f get_checks ≢ rests
  unfolding advance
  get-move f e =
      let still : idle (advance f get_checks) ≡ true = ap idle e in
      let ready = Bool-cases f.is_ready in ground (arith, still, ready)

  Stuck-quiet :
      (f : Future A) (ts : List (Pc A))
      → Stuck advance f ts
      → (total setting ts ≡ 0) × (total signalling ts ≡ 0)
  unfolding advance
  Stuck-quiet f [] s = (refl, refl)
  Stuck-quiet f (set_checks v ∷ ts) s = absurd (checks-move f v s.0)
  Stuck-quiet f (set_writes v ∷ ts) s = cc
  Stuck-quiet f (set_readies ∷ ts) s = cc
  Stuck-quiet f (set_ups ∷ ts) s = cc
  Stuck-quiet f (set_done ∷ ts) s =
      let r = Stuck-quiet f ts s.1 in (omega (arith, r.0), omega (arith, r.1))
  Stuck-quiet f (get_checks ∷ ts) s = absurd (get-move f s.0)
  Stuck-quiet f (get_downs ∷ ts) s =
      let r = Stuck-quiet f ts s.1 in (omega (arith, r.0), omega (arith, r.1))
  Stuck-quiet f (get_ups ∷ ts) s = cc
  Stuck-quiet f (get_reads ∷ ts) s = cc
  Stuck-quiet f (get_done v ∷ ts) s =
      let r = Stuck-quiet f ts s.1 in (omega (arith, r.0), omega (arith, r.1))

  Stuck-done :
      (f : Future A) (ts : List (Pc A)) → f.go ≡ 1 → Stuck advance f ts → any unfinished ts ≡ false
  unfolding advance
  Stuck-done f [] one s = refl
  Stuck-done f (set_checks v ∷ ts) one s = absurd (checks-move f v s.0)
  Stuck-done f (set_writes v ∷ ts) one s = cc
  Stuck-done f (set_readies ∷ ts) one s = cc
  Stuck-done f (set_ups ∷ ts) one s = cc
  Stuck-done f (set_done ∷ ts) one s = Stuck-done f ts one s.1
  Stuck-done f (get_checks ∷ ts) one s = absurd (get-move f s.0)
  Stuck-done f (get_downs ∷ ts) one s =
      let still : idle (advance f get_downs) ≡ true = ap idle s.0 in ground (arith, one, still)
  Stuck-done f (get_ups ∷ ts) one s = cc
  Stuck-done f (get_reads ∷ ts) one s = cc
  Stuck-done f (get_done v ∷ ts) one s = Stuck-done f ts one s.1

  getters :
      (v : A) (f : Future A) (n : ℕ)
      → (total (setting {A = A}) (replicate n get_checks) ≡ 0)
        × (total (signalling {A = A}) (replicate n get_checks) ≡ 0)
        × AllKnow v f (replicate n get_checks)
  getters v f zero = (refl, refl, tt)
  getters v f (suc n) = let r = getters v f n in (omega (arith, r.0), omega (arith, r.1), (tt, r.2))

  start : (t v : A) (n : ℕ) → IsFuture v (future t) (callers v n)
  start t v n =
      let r = getters v (future t) n in
      record {
        pending = omega (arith, r.0);
        token = omega (arith, r.1);
        value = λ e. cc;
        know = (refl, r.2);
      }

  -- On a new future on which one thread calls `set` of `v` and `n` others call `get`, after any
  -- schedule: the assertion of `set` has not failed; every `get` that is done returned `v`; and
  -- when no thread can make a step, all calls are done.
  pub get-Done :
      (t v : A) (n : ℕ) (is : List ℕ)
      → (r : Future A × List (Pc A)) × (run advance (future t) (callers v n) is ≡ some r)
        × AllGot v r.1
        × (Stuck advance r.0 r.1 → any unfinished r.1 ≡ false)
  get-Done t v n is =
      let (r, e, h) =
        run-keeps advance (IsFuture v) (advance-Keeps v) (future t) (callers v n) is
          (start t v n) in
      let pending = h.pending in
      let token = h.token in
      (
        r,
        e,
        AllKnow-got v r.0 r.1 h.know,
        λ s.
            let (none_set, none_signal) = Stuck-quiet r.0 r.1 s in
            Stuck-done r.0 r.1 (ground (arith, none_set, none_signal, pending, token)) s,
      )
