-- ===== src/Semaphore/Laws.antt =====
-- The semaphore over its linked queue is a counting semaphore that serves threads in order.
use osfinal_project.Prelude.{
  ℕ, zero, suc, ◌+◌, ◌-◌, ◌%◌, ◌^◌, ◌<◌, ◌≡◌, ◌≢◌, ◌⊎◌, inl, inr, refl, ap, sym, ◌∙◌, arith, subst,
  false, Bool, Option, none, some, List, [], ◌∷◌, ◌++◌, append_assoc, append-nil, length,
  length-append,
}
use osfinal_project.Chain.{has}
use osfinal_project.Queue.{add, remove}
use osfinal_project.Queue.Laws.{IsQueue, add-append, remove-cons, remove-nil}
use osfinal_project.Semaphore.{Semaphore, down, up, Call, call_down, call_up, through, woken, step}

-- The abstract semaphore has a number of permits and the threads that wait, the first to come first.
-- A call on it: who gets through, the permits and the line.
abbrev pub spec_step : ℕ → List ℕ → Call → List ℕ × ℕ × List ℕ
spec_step zero xs (call_down t) = ([], 0, xs ++ (t ∷ []))
spec_step (suc n) xs (call_down t) = (t ∷ [], n, xs)
spec_step n [] call_up = ([], suc n, [])
spec_step n (x ∷ xs) call_up = (x ∷ [], n, xs)

-- The semaphore has `n` permits left or threads in line, never both.
pub record IsSemaphore (s : Semaphore) (n : ℕ) (xs : List ℕ) : Type 0 where
  pub counted : s.count ≡ n
  pub queued : IsQueue s.waiting xs
  pub either : (n ≡ 0) ⊎ (xs ≡ [])

-- A thread that calls `down` is not waiting already, and is not the idle one when it has to block; an
-- `up` does not overflow the count.
abbrev pub MayCall : (ℕ → Bool) → ℕ → List ℕ → Call → Type 0
MayCall is_idle n xs (call_down t) = (t ≢ 0) × (has t xs ≡ false) × ((n ≢ 0) ⊎ (is_idle t ≡ false))
MayCall is_idle n xs call_up = suc n < 2 ^ 64

-- A call on the semaphore returns, and does what it does on the abstract one.
pub record Follows (n : ℕ) (xs : List ℕ) (c : Call) (r : Option (List ℕ × Semaphore)) : Type 0 where
  pub after : Semaphore
  pub result : r ≡ some ((spec_step n xs c).0, after)
  pub valid : IsSemaphore after (spec_step n xs c).1 (spec_step n xs c).2

module _ (is_idle : ℕ → Bool) where
  down-pass :
      (s : Semaphore) {n : ℕ} (me : ℕ)
      → s.count ≡ suc n
      → step is_idle s (call_down me) ≡ some (me ∷ [], record s { count = s.count - 1 })
  unfolding step down through
  down-pass s me e = ground arith

  down-block :
      (s : Semaphore) (me : ℕ)
      → s.count ≡ 0
      → is_idle me ≡ false
      → step is_idle s (call_down me) ≡ some ([], record s { waiting = add s.waiting me })
  unfolding step down through
  down-block s me e busy = ground arith

  up-none :
      (s : Semaphore)
      → IsQueue s.waiting []
      → step is_idle s call_up
        ≡ some ([], record { count = (s.count + 1) % 2 ^ 64; waiting = s.waiting })
  unfolding step up woken
  up-none s h = ground (arith, remove-nil h)

  up-some :
      (s : Semaphore) {x : ℕ} {xs : List ℕ}
      → IsQueue s.waiting (x ∷ xs)
      → step is_idle s call_up ≡ some (x ∷ [], record s { waiting = (remove s.waiting).1 })
  unfolding step up woken
  up-some s h = ground (arith, (remove-cons h).0)

  -- A call of `up` or `down` on a semaphore that may be made returns; it lets through the thread that the
  -- abstract counting semaphore lets through, if any, and leaves a semaphore with its permits and its line.
  pub step-Follows :
      {s : Semaphore} (n : ℕ) (xs : List ℕ) (c : Call)
      → IsSemaphore s n xs
      → MayCall is_idle n xs c
      → Follows n xs c (step is_idle s c)
  step-Follows {s} zero xs (call_down t) h may = record {
    after = record s { waiting = add s.waiting t };
    result = down-block s t h.counted (elim may.2 [ inl ne ↦ absurd (ne refl) | inr e ↦ e ]);
    valid = record {
      counted = h.counted;
      queued = add-append t h.queued may.0 may.1;
      either = inl refl;
    };
  }
  step-Follows {s} (suc n) xs (call_down t) h may = record {
    after = record s { count = s.count - 1 };
    result = down-pass s t h.counted;
    valid = record {
      counted = omega (arith, h.counted);
      queued = h.queued;
      either = elim h.either [ inl e ↦ absurd (omega arith) | inr e ↦ inr e ];
    };
  }
  step-Follows {s} n [] call_up h may = record {
    after = record { count = (s.count + 1) % 2 ^ 64; waiting = s.waiting };
    result = up-none s h.queued;
    valid = record { counted = omega (arith, h.counted); queued = h.queued; either = inr refl };
  }
  step-Follows {s} n (x ∷ xs) call_up h may = record {
    after = record s { waiting = (remove s.waiting).1 };
    result = up-some s h.queued;
    valid = record {
      counted = h.counted;
      queued = (remove-cons h.queued).1;
      either = elim h.either [ inl e ↦ inl e | inr e ↦ cc ];
    };
  }

-- The calls of a run, one after the other; the first that fails ends it.
abbrev pub run : (is_idle : ℕ → Bool) → Semaphore → List Call → Option (List ℕ × Semaphore)
run is_idle s [] = some ([], s)
run is_idle s (c ∷ cs) = elim (step is_idle s c) [
  | none ↦ none
  | some (first, t) ↦ elim (run is_idle t cs) [
    | none ↦ none
    | some (rest, u) ↦ some (first ++ rest, u)
  ]
]

-- Each call of the run may be made in the state in which it is made.
abbrev MayRun : (ℕ → Bool) → ℕ → List ℕ → List Call → Type 0
MayRun is_idle n xs [] = Unit {0}
MayRun is_idle n xs (c ∷ cs) =
    MayCall is_idle n xs c × MayRun is_idle (spec_step n xs c).1 (spec_step n xs c).2 cs

-- The callers of `down`, in order, and the number of calls of `up`.
abbrev pub callers : List Call → List ℕ
callers [] = []
callers (call_down t ∷ cs) = t ∷ callers cs
callers (call_up ∷ cs) = callers cs

abbrev pub ups : List Call → ℕ
ups [] = 0
ups (call_down t ∷ cs) = ups cs
ups (call_up ∷ cs) = suc (ups cs)

-- Nobody overtakes: those who got through, then those who wait, are those who came, in order; and
-- each permit let one of them through.
pub record Fair (n : ℕ) (xs : List ℕ) (cs : List Call) (passed : List ℕ) (u : Semaphore)
    : Type 0 where
  pub permits : ℕ
  pub line : List ℕ
  pub valid : IsSemaphore u permits line
  pub order : passed ++ line ≡ xs ++ callers cs
  pub permitted : length passed + permits ≡ n + ups cs

spec_order :
    (n : ℕ) (xs : List ℕ) (c : Call)
    → (n ≡ 0) ⊎ (xs ≡ [])
    → (spec_step n xs c).0 ++ (spec_step n xs c).2 ≡ xs ++ callers (c ∷ [])
spec_order zero xs (call_down t) either = refl
spec_order (suc n) xs (call_down t) (inl e) = absurd (omega arith)
spec_order (suc n) xs (call_down t) (inr e) =
    subst (λ (ys : List ℕ). t ∷ ys ≡ ys ++ (t ∷ [])) (sym e) refl
spec_order n [] call_up either = refl
spec_order n (x ∷ xs) call_up either = ap (λ (ys : List ℕ). x ∷ ys) (sym (append-nil xs))

spec_permits :
    (n : ℕ) (xs : List ℕ) (c : Call)
    → length (spec_step n xs c).0 + (spec_step n xs c).1 ≡ n + ups (c ∷ [])
spec_permits zero xs (call_down t) = refl
spec_permits (suc n) xs (call_down t) = omega arith
spec_permits n [] call_up = omega arith
spec_permits n (x ∷ xs) call_up = omega arith

callers-cons : (c : Call) (cs : List Call) → callers (c ∷ cs) ≡ callers (c ∷ []) ++ callers cs
callers-cons (call_down t) cs = refl
callers-cons call_up cs = refl

ups-cons : (c : Call) (cs : List Call) → ups (c ∷ cs) ≡ ups (c ∷ []) + ups cs
ups-cons (call_down t) cs = omega arith
ups-cons call_up cs = omega arith

-- From a semaphore with `n` permits and the line `xs`, for any sequence of calls that may be made:
-- no assertion fails; those who got through, followed by those who wait at the end, are `xs`
-- followed by the callers of `down`, in order; and the number of those who got through, with the
-- permits left, is `n` with the number of calls of `up`.
pub run-Fair :
    (is_idle : ℕ → Bool) (s : Semaphore) (n : ℕ) (xs : List ℕ) (cs : List Call)
    → IsSemaphore s n xs
    → MayRun is_idle n xs cs
    → (r : List ℕ × Semaphore) × (run is_idle s cs ≡ some r) × Fair n xs cs r.0 r.1
run-Fair is_idle s n xs [] h may = (
  ([], s),
  refl,
  record {
    permits = n;
    line = xs;
    valid = h;
    order = sym (append-nil xs);
    permitted = omega arith;
  },
)
run-Fair is_idle s n xs (c ∷ cs) h may =
    let stepped = step-Follows is_idle n xs c h may.0 in
    let first = (spec_step n xs c).0 in
    let m = (spec_step n xs c).1 in
    let ys = (spec_step n xs c).2 in
    let (r, e, rest) = run-Fair is_idle stepped.after m ys cs stepped.valid may.1 in
    (
      (first ++ r.0, r.1),
      rw (run, stepped.result, e) refl,
      record {
        permits = rest.permits;
        line = rest.line;
        valid = rest.valid;
        order =
            append_assoc first r.0 rest.line
            ∙ ap (λ (l : List ℕ). first ++ l) rest.order
            ∙ sym (append_assoc first ys (callers cs))
            ∙ ap (λ (l : List ℕ). l ++ callers cs) (spec_order n xs c h.either)
            ∙ append_assoc xs (callers (c ∷ [])) (callers cs)
            ∙ ap (λ (l : List ℕ). xs ++ l) (sym (callers-cons c cs));
        permitted = omega (
          arith,
          length-append {0} first r.0,
          rest.permitted,
          spec_permits n xs c,
          ups-cons c cs,
        );
      },
    )
