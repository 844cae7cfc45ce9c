-- ===== src/Barrier/Laws.antt =====
-- Nobody passes the barrier before all have arrived, and then all of them pass.
use osfinal_project.Prelude.{
  ℕ, zero, suc, ◌+◌, ◌-◌, ◌%◌, ◌^◌, ◌<◌, ◌≡◌, ◌≢◌, inl, inr, refl, ap, arith, Bool-cases, some,
  Bool, true, false, List, [], ◌∷◌, ltb, leb, ◌==◌, if◌then◌else◌, get_elem?,
}
use osfinal_project.Turns.{
  Move, rests, total, total-set, total-le, any, Stuck, Keeps, run, run-keeps,
}
use osfinal_project.Barrier.{Barrier, barrier, Pc, arrives, downs, ups, passed, sync, callers}

abbrev pub arriving : Pc → ℕ
arriving arrives = 1
arriving _ = 0

abbrev pub signalling : Pc → ℕ
signalling ups = 1
signalling _ = 0

-- Beyond the wait: about to wake the next one, or done.
abbrev pub through : Pc → ℕ
through ups = 1
through passed = 1
through _ = 0

-- The count is the number of calls that have to arrive; one permit is on its way from thread to thread once all
-- have, and nobody is through before.
pub record IsBarrier (b : Barrier) (ts : List Pc) : Type 0 where
  pub counted : b.count ≡ total arriving ts
  pub small : b.count < 2 ^ 31
  pub token : b.sem + total signalling ts ≡ (if b.count == 0 then 1 else 0)
  pub closed : b.count ≢ 0 → total through ts ≡ 0

sync-Keeps :
    (b : Barrier) (ts : List Pc) (i : ℕ) (pc : Pc)
    → IsBarrier b ts
    → get_elem? ts i ≡ some pc
    → Keeps IsBarrier ts b i (sync b pc)
unfolding sync
sync-Keeps b ts i arrives v at =
    let one = total-le arriving ts i arrives at in
    let c = v.counted in
    let small = v.small in
    let x = (b.count + (2 ^ 32 - 1)) % 2 ^ 32 in
    let less : x ≡ b.count - 1 = omega (arith, one, c, small) in
    let high : leb (2 ^ 31) x ≡ false = ground (arith, less, small) in
    elim (Bool-cases (x == 0)) [
      | inl last ↦
          let only : b.count ≡ 1 = ground (arith, last, less, one, c) in
          rw (high, last)
            record {
              counted = omega (arith, less, c, total-set arriving ts i arrives ups at);
              small = omega (arith, less, small);
              token = ground (arith, last, v.token, only, total-set signalling ts i arrives ups at);
              closed = λ ne. ground (arith, ne, last);
            }
      | inr more ↦
          rw (high, more)
            record {
              counted = omega (arith, less, c, total-set arriving ts i arrives downs at);
              small = omega (arith, less, small);
              token =
                  ground (arith, more, less, v.token, total-set signalling ts i arrives downs at);
              closed = λ ne.
                  ground (arith, more, less, v.closed, total-set through ts i arrives downs at);
            }
    ]
sync-Keeps b ts i downs v at = elim (Bool-cases (ltb 0 b.sem)) [
  | inr wait ↦ rw wait tt
  | inl go ↦
      let pos : 0 < b.sem = ground (arith, go) in
      let t = v.token in
      let all_in : b.count ≡ 0 = ground (arith, pos, t) in
      rw go record {
        counted = omega (arith, v.counted, total-set arriving ts i downs ups at);
        small = v.small;
        token = omega (arith, pos, t, total-set signalling ts i downs ups at);
        closed = λ ne. absurd (ne all_in);
      }
]
sync-Keeps b ts i ups v at =
    let one = total-le signalling ts i ups at in
    let t = v.token in
    let all_in : b.count ≡ 0 = ground (arith, one, t) in
    record {
      counted = omega (arith, v.counted, total-set arriving ts i ups passed at);
      small = v.small;
      token = omega (arith, t, total-set signalling ts i ups passed at);
      closed = λ ne. absurd (ne all_in);
    }
sync-Keeps b ts i passed v at = tt

abbrev pub unfinished : Pc → Bool
unfinished passed = false
unfinished _ = true

abbrev idle : Move Barrier Pc → Bool
idle rests = true
idle _ = false

arrives-moves : (b : Barrier) → sync b arrives ≢ rests
unfolding sync
arrives-moves b e =
    let x = (b.count + (2 ^ 32 - 1)) % 2 ^ 32 in
    let still : idle (sync b arrives) ≡ true = ap idle e in
    let panic = Bool-cases (leb (2 ^ 31) x) in
    let last = Bool-cases (x == 0) in ground (arith, still, panic, last)

Stuck-idle :
    (b : Barrier) (ts : List Pc)
    → Stuck sync b ts
    → (total arriving ts ≡ 0) × (total signalling ts ≡ 0)
unfolding sync
Stuck-idle b [] s = (refl, refl)
Stuck-idle b (arrives ∷ ts) s = absurd (arrives-moves b s.0)
Stuck-idle b (downs ∷ ts) s =
    let r = Stuck-idle b ts s.1 in (omega (arith, r.0), omega (arith, r.1))
Stuck-idle b (ups ∷ ts) s = cc
Stuck-idle b (passed ∷ ts) s =
    let r = Stuck-idle b ts s.1 in (omega (arith, r.0), omega (arith, r.1))

Stuck-passed :
    (b : Barrier) (ts : List Pc) → b.sem ≡ 1 → Stuck sync b ts → any unfinished ts ≡ false
unfolding sync
Stuck-passed b [] one s = refl
Stuck-passed b (arrives ∷ ts) one s = absurd (arrives-moves b s.0)
Stuck-passed b (downs ∷ ts) one s =
    let still : idle (sync b downs) ≡ true = ap idle s.0 in ground (arith, one, still)
Stuck-passed b (ups ∷ ts) one s = cc
Stuck-passed b (passed ∷ ts) one s = Stuck-passed b ts one s.1

callers-total :
    (n : ℕ)
    → (total arriving (callers n) ≡ n)
      × (total signalling (callers n) ≡ 0)
      × (total through (callers n) ≡ 0)
callers-total zero = (refl, refl, refl)
callers-total (suc n) =
    let r = callers-total n in (omega (arith, r.0), omega (arith, r.1), omega (arith, r.2))

start : (n : ℕ) → 0 < n → n < 2 ^ 31 → IsBarrier (barrier n) (callers n)
start n pos small =
    let r = callers-total n in
    record {
      counted = omega (arith, r.0);
      small = small;
      token = ground (arith, r.1, pos);
      closed = λ ne. r.2;
    }

-- On a barrier for `n` threads, at least one and fewer than 2^31, on which `n` threads call `sync`,
-- after any schedule: there was no panic; if a thread is beyond its wait, all threads have arrived;
-- and when no thread can make a step, all of them have passed.
pub sync-Passed :
    (n : ℕ) (is : List ℕ)
    → 0 < n
    → n < 2 ^ 31
    → (r : Barrier × List Pc) × (run sync (barrier n) (callers n) is ≡ some r)
      × (0 < total through r.1 → total arriving r.1 ≡ 0)
      × (Stuck sync r.0 r.1 → any unfinished r.1 ≡ false)
sync-Passed n is pos small =
    let (r, e, v) =
      run-keeps sync IsBarrier sync-Keeps (barrier n) (callers n) is (start n pos small) in
    let counted = v.counted in
    let closed = v.closed in
    let token = v.token in
    (
      r,
      e,
      (λ h. ground (arith, h, counted, closed)),
      λ s.
          let (none_arrive, none_signal) = Stuck-idle r.0 r.1 s in
          Stuck-passed r.0 r.1 (ground (arith, none_arrive, none_signal, counted, token)) s,
    )
