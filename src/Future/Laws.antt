-- ===== src/Future/Laws.antt =====
-- Every `get` of a future returns the value that was set, and all of them return.
use osfinal_project.Prelude.{
  ℕ, zero, suc, ◌+◌, ◌-◌, ◌<◌, ◌≡◌, inl, inr, refl, arith, subst, Bool-cases, some, Bool, true,
  false, List, [], ◌∷◌, ltb, if◌then◌else◌, get_elem?, set,
}
use osfinal_project.Turns.{total, total-set, total-le, Keeps}
use osfinal_project.Future.{
  Future, Pc, set_checks, set_writes, set_readies, set_ups, set_done, get_checks, get_downs,
  get_ups, get_reads, get_done, advance,
}

module _ {A : Type 0} where
  abbrev pub setting : Pc A → ℕ
  setting (set_checks v) = 1
  setting (set_writes v) = 1
  setting set_readies = 1
  setting _ = 0

  abbrev pub signalling : Pc A → ℕ
  signalling set_ups = 1
  signalling get_ups = 1
  signalling _ = 0

  -- What a call knows of the value `v` at its place.
  abbrev Knows : A → Future A → Pc A → Type 0
  Knows v f (set_checks w) = w ≡ v
  Knows v f (set_writes w) = w ≡ v
  Knows v f set_readies = f.t ≡ v
  Knows v f set_ups = f.is_ready ≡ true
  Knows v f set_done = Unit {0}
  Knows v f get_checks = Unit {0}
  Knows v f get_downs = Unit {0}
  Knows v f get_ups = f.is_ready ≡ true
  Knows v f get_reads = f.is_ready ≡ true
  Knows v f (get_done w) = w ≡ v

  abbrev pub AllKnow : A → Future A → List (Pc A) → Type 0
  AllKnow v f [] = Unit {0}
  AllKnow v f (pc ∷ ts) = Knows v f pc × AllKnow v f ts

  -- The value is written before `isReady`, which is written before the permit that all calls pass on.
  pub record IsFuture (v : A) (f : Future A) (ts : List (Pc A)) : Type 0 where
    pub pending : total setting ts ≡ (if f.is_ready then 0 else 1)
    pub token : f.go + total signalling ts ≡ (if f.is_ready then 1 else 0)
    pub value : f.is_ready ≡ true → f.t ≡ v
    pub know : AllKnow v f ts

  Knows-keep :
      (v : A) (f f' : Future A) (pc : Pc A)
      → (f.t ≡ v → f'.t ≡ v)
      → (f.is_ready ≡ true → f'.is_ready ≡ true)
      → Knows v f pc
      → Knows v f' pc
  Knows-keep v f f' (set_checks w) a b k = k
  Knows-keep v f f' (set_writes w) a b k = k
  Knows-keep v f f' set_readies a b k = a k
  Knows-keep v f f' set_ups a b k = b k
  Knows-keep v f f' set_done a b k = tt
  Knows-keep v f f' get_checks a b k = tt
  Knows-keep v f f' get_downs a b k = tt
  Knows-keep v f f' get_ups a b k = b k
  Knows-keep v f f' get_reads a b k = b k
  Knows-keep v f f' (get_done w) a b k = k

  AllKnow-set :
      (v : A) (f f' : Future A) (ts : List (Pc A)) (i : ℕ) (pc' : Pc A)
      → (f.t ≡ v → f'.t ≡ v)
      → (f.is_ready ≡ true → f'.is_ready ≡ true)
      → Knows v f' pc'
      → AllKnow v f ts
      → AllKnow v f' (set ts i pc')
  AllKnow-set v f f' [] i pc' a b k all = tt
  AllKnow-set v f f' (pc ∷ ts) zero pc' a b k all = (k, keep ts all.1)
    where
      keep : (us : List (Pc A)) → AllKnow v f us → AllKnow v f' us
      keep [] all = tt
      keep (q ∷ us) all = (Knows-keep v f f' q a b all.0, keep us all.1)
  AllKnow-set v f f' (pc ∷ ts) (suc i) pc' a b k all =
      (Knows-keep v f f' pc a b all.0, AllKnow-set v f f' ts i pc' a b k all.1)

  AllKnow-at :
      (v : A) (f : Future A) (ts : List (Pc A)) (i : ℕ) (pc : Pc A)
      → get_elem? ts i ≡ some pc
      → AllKnow v f ts
      → Knows v f pc
  AllKnow-at v f [] i pc e all = cc
  AllKnow-at v f (q ∷ ts) zero pc e all = let same : q ≡ pc = cc in subst (Knows v f) same all.0
  AllKnow-at v f (q ∷ ts) (suc i) pc e all = AllKnow-at v f ts i pc e all.1

  pub advance-Keeps :
      (v : A) (f : Future A) (ts : List (Pc A)) (i : ℕ) (pc : Pc A)
      → IsFuture v f ts
      → get_elem? ts i ≡ some pc
      → Keeps (IsFuture v) ts f i (advance f pc)
  unfolding advance
  advance-Keeps v f ts i pc h at = step pc at (AllKnow-at v f ts i pc at h.know)
    where
      -- One step, from what the call knows.
      moves :
          (pc pc' : Pc A) (f' : Future A)
          → get_elem? ts i ≡ some pc
          → (f.t ≡ v → f'.t ≡ v)
          → (f.is_ready ≡ true → f'.is_ready ≡ true)
          → (f'.is_ready ≡ true → f'.t ≡ v)
          → Knows v f' pc'
          → setting pc' + (if f.is_ready then 0 else 1)
            ≡ setting pc + (if f'.is_ready then 0 else 1)
          → f'.go + signalling pc' + (if f.is_ready then 1 else 0)
            ≡ f.go + signalling pc + (if f'.is_ready then 1 else 0)
          → IsFuture v f' (set ts i pc')
      moves pc pc' f' at a b c k p q = record {
        pending = omega (arith, h.pending, p, total-set setting ts i pc pc' at);
        token = omega (arith, h.token, q, total-set signalling ts i pc pc' at);
        value = c;
        know = AllKnow-set v f f' ts i pc' a b k h.know;
      }

      unset : (pc : Pc A) → get_elem? ts i ≡ some pc → setting pc ≡ 1 → f.is_ready ≡ false
      unset pc at one =
          let le = total-le setting ts i pc at in let p = h.pending in ground (arith, le, one, p)

      step :
          (pc : Pc A)
          → get_elem? ts i ≡ some pc
          → Knows v f pc
          → Keeps (IsFuture v) ts f i (advance f pc)
      step (set_checks w) at k =
          let e = unset (set_checks w) at refl in
          simp e (moves (set_checks w) (set_writes w) f at (λ e. e) (λ e. e) h.value k refl refl)
      step (set_writes w) at k =
          moves (set_writes w) set_readies (record f { t = w }) at (λ _. k) (λ e. e) (λ _. k) k refl
            refl
      step set_readies at k =
          let e = unset set_readies at refl in
          moves set_readies set_ups (record f { is_ready = true }) at (λ e. e) (λ _. refl) (λ _. k)
            refl (ground (arith, e)) (ground (arith, e))
      step set_ups at k =
          moves set_ups set_done (record f { go = f.go + 1 }) at (λ e. e) (λ e. e) h.value tt refl
            (omega arith)
      step set_done at k = tt
      step get_checks at k = elim (Bool-cases f.is_ready) [
        | inl e ↦ simp e (moves get_checks get_reads f at (λ e. e) (λ e. e) h.value e refl refl)
        | inr e ↦ simp e (moves get_checks get_downs f at (λ e. e) (λ e. e) h.value tt refl refl)
      ]
      step get_downs at k = elim (Bool-cases (ltb 0 f.go)) [
        | inl go ↦
            let pos : 0 < f.go = ground (arith, go) in
            let t = h.token in
            let e : f.is_ready ≡ true = ground (arith, pos, t) in
            simp go (
              moves get_downs get_ups (record f { go = f.go - 1 }) at (λ e. e) (λ e. e) h.value e
                refl (omega (arith, pos)))
        | inr wait ↦ rw wait tt
      ]
      step get_ups at k =
          moves get_ups get_reads (record f { go = f.go + 1 }) at (λ e. e) (λ e. e) h.value k refl
            (omega arith)
      step get_reads at k =
          moves get_reads (get_done f.t) f at (λ e. e) (λ e. e) h.value (h.value k) refl refl
      step (get_done w) at k = tt

  abbrev pub unfinished : Pc A → Bool
  unfinished set_done = false
  unfinished (get_done v) = false
  unfinished _ = true

  -- Every `get` that is done returned `v`.
  abbrev pub AllGot : A → List (Pc A) → Type 0
  AllGot v [] = Unit {0}
  AllGot v (get_done w ∷ ts) = (w ≡ v) × AllGot v ts
  AllGot v (pc ∷ ts) = AllGot v ts

  pub AllKnow-got : (v : A) (f : Future A) (ts : List (Pc A)) → AllKnow v f ts → AllGot v ts
  AllKnow-got v f [] all = tt
  AllKnow-got v f (set_checks w ∷ ts) all = AllKnow-got v f ts all.1
  AllKnow-got v f (set_writes w ∷ ts) all = AllKnow-got v f ts all.1
  AllKnow-got v f (set_readies ∷ ts) all = AllKnow-got v f ts all.1
  AllKnow-got v f (set_ups ∷ ts) all = AllKnow-got v f ts all.1
  AllKnow-got v f (set_done ∷ ts) all = AllKnow-got v f ts all.1
  AllKnow-got v f (get_checks ∷ ts) all = AllKnow-got v f ts all.1
  AllKnow-got v f (get_downs ∷ ts) all = AllKnow-got v f ts all.1
  AllKnow-got v f (get_ups ∷ ts) all = AllKnow-got v f ts all.1
  AllKnow-got v f (get_reads ∷ ts) all = AllKnow-got v f ts all.1
  AllKnow-got v f (get_done w ∷ ts) all = (all.0, AllKnow-got v f ts all.1)
