-- ===== src/Shared.antt =====
-- kernel/shared.h: `Shared<T>`, a pointer that counts the references to its object. Each function makes
-- one change of the count, which is atomic, so a call is one step. The objects hold no `Shared`
-- themselves.
pub mod Laws
use osfinal_project.Prelude.{
  ℕ, zero, suc, ◌+◌, ◌-◌, ◌%◌, ◌^◌, Bool, true, false, List, [], ◌∷◌, ◌++◌, ◌==◌, if◌then◌else◌,
  set, update,
}

-- The `ptr` of every `Shared` there is, 0 for the null pointer (one that was destroyed stays as a null
-- one); the `ref_count` of each object; the objects that were deleted, the last first.
pub record References : Type 0 where
  pub ptrs : List ℕ
  pub ref_count : ℕ → ℕ
  pub deleted : List ℕ

abbrev pub ptr_of : List ℕ → ℕ → ℕ
ptr_of [] i = 0
ptr_of (p ∷ ps) zero = p
ptr_of (p ∷ ps) (suc i) = ptr_of ps i

-- `add` for the pointer `p`
abbrev pub add : References → ℕ → References
add s p =
    if p == 0
    then s
    else record s { ref_count = update s.ref_count p ((s.ref_count p + 1) % 2 ^ 32) }

-- `drop` of the `i`-th `Shared`, whose pointer is `p`
abbrev pub release : References → (i p : ℕ) → References
release s i p =
    let new_count = (s.ref_count p + (2 ^ 32 - 1)) % 2 ^ 32 in
    let t = record s { ref_count = update s.ref_count p new_count } in
    if p == 0
    then s
    else if new_count == 0
    then record t { deleted = p ∷ s.deleted; ptrs = set s.ptrs i 0 }
    else t

abbrev pub drop : References → ℕ → References
drop s i = release s i (ptr_of s.ptrs i)

-- `ptr = p` of the `i`-th `Shared`
abbrev pub point : References → ℕ → ℕ → References
point s i p = record s { ptrs = set s.ptrs i p }

-- The functions of the class, by the positions of the `Shared` that they work on: the constructors from
-- a pointer, without one, by copy and by move; the destructor; the assignments of a pointer, by copy
-- and by move.
pub data Operation : Type 0 where
  adopt : ℕ → Operation
  empty : Operation
  copy : ℕ → Operation
  move : ℕ → Operation
  destroy : ℕ → Operation
  assign : ℕ → ℕ → Operation
  assign_copy : ℕ → ℕ → Operation
  assign_move : ℕ → ℕ → Operation

unfoldable pub apply : References → Operation → References
apply s (adopt p) = add (record s { ptrs = p ∷ s.ptrs }) p
apply s empty = record s { ptrs = 0 ∷ s.ptrs }
apply s (copy i) = let p = ptr_of s.ptrs i in add (record s { ptrs = p ∷ s.ptrs }) p
apply s (move i) = record s { ptrs = ptr_of s.ptrs i ∷ set s.ptrs i 0 }
apply s (destroy i) = point (drop s i) i 0
apply s (assign i p) = if ptr_of s.ptrs i == p then s else add (point (drop s i) i p) p
apply s (assign_copy i j) =
    let p = ptr_of s.ptrs j in if ptr_of s.ptrs i == p then s else add (point (drop s i) i p) p
apply s (assign_move i j) = let t = drop s i in let u = point t i (ptr_of t.ptrs j) in point u j 0
