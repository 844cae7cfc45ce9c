-- ===== src/Tests/Copies.antt =====
-- A file that `cp` copies to one that takes a byte at a time.
use osfinal_project.Prelude.{ℕ, ◌≡◌, refl, arith, Option, some, List, [], ◌∷◌, ◌++◌, take, drop}
use osfinal_project.User.Libc.{Calls, cp}
use osfinal_project.User.Libc.Laws.{IsFiles, cp-all}

record Two : Type 0 where
  left : List ℕ
  put : List ℕ

abbrev taken : Two → List ℕ → Option ℕ × Two
taken s [] = (some 0, s)
taken s (c ∷ cs) = (some 1, record s { put = s.put ++ (c ∷ []) })

abbrev two_calls : Calls Two
two_calls = record {
  read = λ s n. (some (take n s.left), record s { left = drop n s.left });
  write = taken;
}

left_of : (s : Two) (bytes : List ℕ) → (taken s bytes).1.left ≡ s.left
left_of s [] = refl
left_of s (c ∷ cs) = refl

two_calls-IsFiles : IsFiles two_calls (λ s. s.left) (λ s. s.put)
two_calls-IsFiles = record {
  reads = λ s n. refl;
  reads_on = λ s n. refl;
  reads_only = λ s n. refl;
  writes = λ s c cs. (1, refl, omega arith, omega arith, refl);
  writes_only = left_of;
}

abbrev start : Two
start = record { left = b'a' ∷ b'b' ∷ []; put = [] }

cp-all_example :
    (t : Two) × (cp two_calls 4 start ≡ some t) × (t.put ≡ b'a' ∷ b'b' ∷ []) × (t.left ≡ [])
cp-all_example = cp-all two_calls (λ s. s.left) (λ s. s.put) two_calls-IsFiles 4 start (omega arith)
