-- ===== src/User/Libc/Laws.antt =====
-- `cp` copies what is left of a file.
use osfinal_project.Prelude.{
  ℕ, zero, suc, ◌+◌, ◌-◌, ◌≤◌, ◌<◌, ◌≡◌, refl, ap, ap₂, sym, ◌∙◌, arith, true, false, some, List,
  [], ◌∷◌, ◌++◌, append_assoc, append-nil, ◌==◌, ltb, take, drop, length,
}
use osfinal_project.User.Libc.{Calls, cp_write, cp}

-- Calls on a file that is read and on one that is written: `source` is what was not read of the one, and
-- `sink` is what stands in the other. `read` gives the next bytes, as many as asked for or all; `write`
-- takes one byte at least.
pub record IsFiles {S : Type 0} (calls : Calls S) (source sink : S → List ℕ) : Type 0 where
  pub reads : (s : S) (n : ℕ) → (calls.read s n).0 ≡ some (take n (source s))
  pub reads_on : (s : S) (n : ℕ) → source ((calls.read s n).1) ≡ drop n (source s)
  pub reads_only : (s : S) (n : ℕ) → sink ((calls.read s n).1) ≡ sink s
  pub writes :
      (s : S) (c : ℕ) (cs : List ℕ)
      → (m : ℕ) × ((calls.write s (c ∷ cs)).0 ≡ some m)
        × (1 ≤ m)
        × (m ≤ length (c ∷ cs))
        × (sink ((calls.write s (c ∷ cs)).1) ≡ sink s ++ take m (c ∷ cs))
  pub writes_only : (s : S) (bytes : List ℕ) → source ((calls.write s bytes).1) ≡ source s

take-drop : (n : ℕ) (xs : List ℕ) → take n xs ++ drop n xs ≡ xs
take-drop zero xs = refl
take-drop (suc n) [] = refl
take-drop (suc n) (x ∷ xs) = ap (λ (l : List ℕ). x ∷ l) (take-drop n xs)

length-drop : (n : ℕ) (xs : List ℕ) → length (drop n xs) ≡ length xs - n
length-drop zero xs = omega arith
length-drop (suc n) [] = omega arith
length-drop (suc n) (x ∷ xs) = omega (arith, length-drop n xs)

length-take : (n : ℕ) (xs : List ℕ) → length (take n xs) ≤ n
length-take zero xs = omega arith
length-take (suc n) [] = omega arith
length-take (suc n) (x ∷ xs) = omega (arith, length-take n xs)

module _ {S : Type 0} (calls : Calls S) (source sink : S → List ℕ)
    (v : IsFiles calls source sink) where
  cp_write-all :
      (f : ℕ) (s : S) (bytes : List ℕ)
      → length bytes < f
      → (t : S) × (cp_write calls f s bytes ≡ some t)
        × (sink t ≡ sink s ++ bytes)
        × (source t ≡ source s)
  unfolding cp_write
  cp_write-all zero s bytes enough = absurd (omega (arith, enough))
  cp_write-all (suc f) s [] enough = (s, refl, sym (append-nil (sink s)), refl)
  cp_write-all (suc f) s (c ∷ cs) enough =
      let (m, taken, one, le, put) = v.writes s c cs in
      let t = (calls.write s (c ∷ cs)).1 in
      let go : ltb 0 (length (c ∷ cs)) ≡ true = ground arith in
      let (u, e, wrote, same) =
        cp_write-all f t (drop m (c ∷ cs)) (omega (arith, one, enough, length-drop m (c ∷ cs))) in
      (
        u,
        rw (cp_write, go, taken) e,
        wrote
            ∙ ap (λ (l : List ℕ). l ++ drop m (c ∷ cs)) put
            ∙ append_assoc (sink s) (take m (c ∷ cs)) (drop m (c ∷ cs))
            ∙ ap (λ (l : List ℕ). sink s ++ l) (take-drop m (c ∷ cs)),
        same ∙ v.writes_only s (c ∷ cs),
      )

  -- `cp`, on calls that follow the rules of `IsFiles` and with two rounds more than there are bytes
  -- left to read, ends: all of these bytes stand behind what was in the other file, and none is
  -- left.
  pub cp-all :
      (f : ℕ) (s : S)
      → length (source s) + 1 < f
      → (t : S) × (cp calls f s ≡ some t) × (sink t ≡ sink s ++ source s) × (source t ≡ [])
  unfolding cp
  cp-all zero s enough = absurd (omega (arith, enough))
  cp-all (suc f) s enough = go (source s) refl (cp-all f)
    where
      t : S
      t = (calls.read s 100).1

      go :
          (xs : List ℕ)
          → source s ≡ xs
          → ((t : S)
              → length (source t) + 1 < f
              → (u : S) × (cp calls f t ≡ some u) × (sink u ≡ sink t ++ source t) × (source u ≡ []))
          → (t : S) × (cp calls (suc f) s ≡ some t)
            × (sink t ≡ sink s ++ source s)
            × (source t ≡ [])
      go [] at later =
          let got : (calls.read s 100).0 ≡ some [] =
            v.reads s 100 ∙ ap (λ (l : List ℕ). some (take 100 l)) at in
          let end : source t ≡ [] = v.reads_on s 100 ∙ ap (drop 100) at in
          (
            t,
            rw (cp, got) refl,
            v.reads_only s 100
                ∙ sym (append-nil (sink s))
                ∙ ap (λ (l : List ℕ). sink s ++ l) (sym at),
            end,
          )
      go (x ∷ xs) at later =
          let bytes = x ∷ take 99 xs in
          let got : (calls.read s 100).0 ≡ some bytes =
            v.reads s 100 ∙ ap (λ (l : List ℕ). some (take 100 l)) at in
          let rest : source t ≡ drop 99 xs = v.reads_on s 100 ∙ ap (drop 100) at in
          let some_bytes : (length bytes == 0) ≡ false = ground arith in
          let (u, wrote, put, same) = cp_write-all 101 t bytes (omega (arith, length-take 99 xs)) in
          let left = same ∙ rest in
          let few : length (source u) + 1 < f =
            omega (arith, enough, ap length at, ap length left, length-drop 99 xs) in
          let (w, e, done, end) = later u few in
          (
            w,
            rw (cp, got, some_bytes, wrote) e,
            done
                ∙ ap₂ (λ (a b : List ℕ). a ++ b)
                    (put ∙ ap (λ (l : List ℕ). l ++ bytes) (v.reads_only s 100)) left
                ∙ append_assoc (sink s) bytes (drop 99 xs)
                ∙ ap (λ (l : List ℕ). sink s ++ l)
                    (ap (λ (l : List ℕ). x ∷ l) (take-drop 99 xs) ∙ sym at),
            end,
          )
