-- ===== src/Heap/Remove.antt =====
-- `remove` of kernel/heap.cc: a block leaves the doubly linked list of free blocks.
use osfinal_project.Prelude.{
  ℕ, ◌+◌, ◌^◌, ◌≤◌, ◌<◌, ◌≡◌, ◌≢◌, ◌⊎◌, inl, inr, ap, sym, ◌∙◌, arith, true, false, List, [], ◌∷◌,
  ◌++◌, ◌&&◌, ◌==◌, ◌!=◌, if◌then◌else◌, subst, ℕ_discrete,
}
use osfinal_project.Word.{add32}
use osfinal_project.Chain.{has}
use osfinal_project.Heap.{Heap, set_next, set_prev, next, prev, remove}
use osfinal_project.Heap.FreeList.{touches, Apart, FreeList, relink, Apart-touches, link_fits}

has_append_left : (a : ℕ) (xs ys : List ℕ) → has a xs ≡ true → has a (xs ++ ys) ≡ true
has_append_left a [] ys e = cc
has_append_left a (x ∷ xs) ys e = ground (arith, has_append_left a xs ys)

has_append_right : (a : ℕ) (xs ys : List ℕ) → has a ys ≡ true → has a (xs ++ ys) ≡ true
has_append_right a [] ys e = e
has_append_right a (x ∷ xs) ys e = ground (arith, has_append_right a xs ys e)

Apart-has : (x z : ℕ) (xs : List ℕ) → Apart x xs → has z xs ≡ true → (x + 3 ≤ z) ⊎ (z + 3 ≤ x)
Apart-has x z [] a e = cc
Apart-has x z (y ∷ ys) a e = ground (arith, Apart-has x z ys a.1)

pub Apart-drop :
    (b x : ℕ) (before after : List ℕ) → Apart b (before ++ (x ∷ after)) → Apart b (before ++ after)
Apart-drop b x [] after a = a.1
Apart-drop b x (y ∷ ys) after a = (a.0, Apart-drop b x ys after a.1)

-- The first block behind `p` is the null pointer or in the list.
pub first_has :
    (m : ℕ → ℕ) (pr p : ℕ) (xs : List ℕ) → FreeList m pr p xs → (p ≡ 0) ⊎ (has p xs ≡ true)
first_has m pr p [] l = inl l
first_has m pr p (x ∷ xs) l = inr (ground (arith, l.0))

next_has :
    (m : ℕ → ℕ) (pr p : ℕ) (before : List ℕ) (x : ℕ) (after : List ℕ)
    → FreeList m pr p (before ++ (x ∷ after))
    → (m (x + 1) ≡ 0) ⊎ (has (m (x + 1)) after ≡ true)
next_has m pr p [] x after l = first_has m x (m (x + 1)) after l.5
next_has m pr p (b ∷ bs) x after l = next_has m b (m (b + 1)) bs x after l.5

prev_has :
    (m : ℕ → ℕ) (pr p b : ℕ) (bs : List ℕ) (x : ℕ) (after : List ℕ)
    → FreeList m pr p ((b ∷ bs) ++ (x ∷ after))
    → has (m (x + 2)) (b ∷ bs) ≡ true
prev_has m pr p b [] x after l = ground (arith, l.5.3)
prev_has m pr p b (c ∷ cs) x after l = ground (arith, prev_has m b (m (b + 1)) c cs x after l.5)

-- The words after a block with the links `pr` and `nx` was taken out of the list.
abbrev unlinked : (ℕ → ℕ) → (pr nx a : ℕ) → ℕ
unlinked m pr nx a =
    if (nx != 0) && (a == nx + 2) then pr else if (pr != 0) && (a == pr + 1) then nx else m a

-- A block behind another one is taken out.
unlink :
    (m m' : ℕ → ℕ) (pr p b : ℕ) (bs : List ℕ) (x : ℕ) (after : List ℕ)
    → ((a : ℕ) → m' a ≡ unlinked m (m (x + 2)) (m (x + 1)) a)
    → FreeList m pr p ((b ∷ bs) ++ (x ∷ after))
    → FreeList m' pr p ((b ∷ bs) ++ after)
unlink m m' pr p b [] x after words l = (
  l.0,
  l.1,
  l.2,
  words (b + 2) ∙ ground (arith, l.3, near, far),
  l.4.1,
  subst (λ (q : ℕ). FreeList m' b q after) (sym (words (b + 1) ∙ ground (arith, near, far)))
      (relink m m' x (m (x + 1)) b after
        (λ a t ne. words a ∙ ground (arith, near, Apart-touches b a after l.4.1 t))
        (λ ne. words (m (x + 1) + 2) ∙ ground (arith, near)) l.5.5),
)
  where
    near : m (x + 2) ≡ b
    near = l.5.3

    far : (m (x + 1) ≡ 0) ⊎ ((b + 3 ≤ m (x + 1)) ⊎ (m (x + 1) + 3 ≤ b))
    far = elim (next_has m pr p (b ∷ []) x after l) [
      | inl e ↦ inl e
      | inr e ↦ inr (Apart-has b (m (x + 1)) after l.4.1 e)
    ]
unlink m m' pr p b (c ∷ cs) x after words l = (
  l.0,
  l.1,
  l.2,
  words (b + 2) ∙ ground (arith, l.3, near, far),
  Apart-drop b x (c ∷ cs) after l.4,
  subst (λ (q : ℕ). FreeList m' b q ((c ∷ cs) ++ after))
      (sym (words (b + 1) ∙ ground (arith, near, far)))
      (unlink m m' b (m (b + 1)) c cs x after words l.5),
)
  where
    near : (b + 3 ≤ m (x + 2)) ⊎ (m (x + 2) + 3 ≤ b)
    near = Apart-has b (m (x + 2)) ((c ∷ cs) ++ (x ∷ after)) l.4 (
        has_append_left (m (x + 2)) (c ∷ cs) (x ∷ after)
          (prev_has m b (m (b + 1)) c cs x after l.5))

    far : (m (x + 1) ≡ 0) ⊎ ((b + 3 ≤ m (x + 1)) ⊎ (m (x + 1) + 3 ≤ b))
    far = elim (next_has m pr p (b ∷ c ∷ cs) x after l) [
      | inl e ↦ inl e
      | inr e ↦ inr (
          Apart-has b (m (x + 1)) ((c ∷ cs) ++ (x ∷ after)) l.4
            (has_append_right (m (x + 1)) (c ∷ cs) (x ∷ after) (ground (arith, e))))
    ]

-- The body of `remove`, with the two links of the block.
abbrev removed_at : Heap → (prev_index next_index : ℕ) → Heap
removed_at h prev_index next_index =
    let h' =
      if prev_index == 0
      then record h { avail = next_index }
      else set_next h prev_index next_index in
    if next_index == 0 then h' else set_prev h' next_index prev_index

-- What it leaves: the head of the list, and the words.
abbrev Unlinked : Heap → (prev_index next_index : ℕ) → Heap → Type 0
Unlinked h prev_index next_index t =
    (t.avail ≡ (if prev_index == 0 then next_index else h.avail))
    × ((a : ℕ) → t.array a ≡ unlinked h.array prev_index next_index a)

removed_at-Unlinked :
    (h : Heap) (pr nx : ℕ)
    → pr + 2 < 2 ^ 32
    → nx + 2 < 2 ^ 32
    → Unlinked h pr nx (removed_at h pr nx)
removed_at-Unlinked h pr nx fp fn = elim (ℕ_discrete pr 0) [
  | yes p ↦ elim (ℕ_discrete nx 0) [
    | yes n ↦ (ground arith, λ a. ground arith)
    | no n ↦ (ground arith, λ a. ground arith)
  ]
  | no p ↦ elim (ℕ_discrete nx 0) [
    | yes n ↦ (ground arith, λ a. ground arith)
    | no n ↦ (ground arith, λ a. ground arith)
  ]
]

remove-Unlinked :
    (h : Heap) (x : ℕ)
    → x + 2 < 2 ^ 32
    → h.array (x + 2) + 2 < 2 ^ 32
    → h.array (x + 1) + 2 < 2 ^ 32
    → Unlinked h (h.array (x + 2)) (h.array (x + 1)) (remove h x)
unfolding remove
remove-Unlinked h x fx fp fn =
    subst (λ (i : ℕ). Unlinked h (h.array i) (h.array (x + 1)) (removed_at h (prev h x) (next h x)))
      two
      (subst (λ (i : ℕ). Unlinked h (prev h x) (h.array i) (removed_at h (prev h x) (next h x))) one
        (removed_at-Unlinked h (prev h x) (next h x) (omega (arith, ap (λ (i : ℕ). h.array i) two))
          (omega (arith, ap (λ (i : ℕ). h.array i) one))))
  where
    two : add32 x 2 ≡ x + 2
    two = omega arith

    one : add32 x 1 ≡ x + 1
    one = omega arith

-- The links of a block of the list fit in a word.
links_fit :
    (m : ℕ → ℕ) (pr p : ℕ) (before : List ℕ) (x : ℕ) (after : List ℕ)
    → pr + 2 < 2 ^ 32
    → FreeList m pr p (before ++ (x ∷ after))
    → (x + 2 < 2 ^ 32) × (m (x + 2) + 2 < 2 ^ 32) × (m (x + 1) + 2 < 2 ^ 32)
links_fit m pr p [] x after fit l = (l.2, omega (arith, l.3), link_fits m x (m (x + 1)) after l.5)
links_fit m pr p (b ∷ bs) x after fit l = links_fit m b (m (b + 1)) bs x after l.2 l.5

pub has-touches :
    (z : ℕ) (xs : List ℕ)
    → has z xs ≡ true
    → (touches (z + 1) xs ≡ true) × (touches (z + 2) xs ≡ true)
has-touches z [] e = cc
has-touches z (x ∷ xs) e = ground (arith, has-touches z xs)

-- The block before `x` is the null pointer or in the list.
before_has :
    (m : ℕ → ℕ) (p : ℕ) (before : List ℕ) (x : ℕ) (after : List ℕ)
    → FreeList m 0 p (before ++ (x ∷ after))
    → (m (x + 2) ≡ 0) ⊎ (has (m (x + 2)) before ≡ true)
before_has m p [] x after l = inl (l.3)
before_has m p (b ∷ bs) x after l = inr (prev_has m 0 p b bs x after l)

nonzero :
    (m : ℕ → ℕ) (pr p : ℕ) (xs : List ℕ) (z : ℕ) (ys : List ℕ)
    → FreeList m pr p (xs ++ ys)
    → has z xs ≡ true
    → z ≢ 0
nonzero m pr p [] z ys l e = cc
nonzero m pr p (x ∷ xs) z ys l e = ground (arith, l.1, nonzero m x (m (x + 1)) xs z ys l.5)

unlinked_outside :
    (h : Heap) (before : List ℕ) (x : ℕ) (after : List ℕ)
    → FreeList h.array 0 h.avail (before ++ (x ∷ after))
    → (a : ℕ) → touches a (before ++ after) ≡ false
    → unlinked h.array (h.array (x + 2)) (h.array (x + 1)) a ≡ h.array a
unlinked_outside h before x after l a apart = ground (
  arith,
  before_has h.array h.avail before x after l,
  next_has h.array 0 h.avail before x after l,
  has_append_left (h.array (x + 2)) before after,
  has_append_right (h.array (x + 1)) before after,
  has-touches (h.array (x + 2)) (before ++ after),
  has-touches (h.array (x + 1)) (before ++ after),
)

list_after :
    (h t : Heap) (before : List ℕ) (x : ℕ) (after : List ℕ)
    → FreeList h.array 0 h.avail (before ++ (x ∷ after))
    → Unlinked h (h.array (x + 2)) (h.array (x + 1)) t
    → FreeList t.array 0 t.avail (before ++ after)
list_after h t [] x after l u =
    subst (λ (q : ℕ). FreeList t.array 0 q after) (sym (u.0 ∙ ground (arith, l.3)))
      (relink h.array t.array x (h.array (x + 1)) 0 after (λ a _ ne. u.1 a ∙ ground (arith, l.3))
        (λ ne. u.1 (h.array (x + 1) + 2) ∙ ground (arith, l.3)) l.5)
list_after h t (b ∷ bs) x after l u =
    subst (λ (q : ℕ). FreeList t.array 0 q ((b ∷ bs) ++ after)) (sym (u.0 ∙ ground (arith, behind)))
      (unlink h.array t.array 0 h.avail b bs x after u.1 l)
  where
    behind : h.array (x + 2) ≢ 0
    behind =
        nonzero h.array 0 h.avail (b ∷ bs) (h.array (x + 2)) (x ∷ after) l
          (prev_has h.array 0 h.avail b bs x after l)

-- `remove` of any block of a well-formed free list leaves a well-formed doubly linked list of the
-- other blocks, in the same order, and changes no word but links of these blocks.
pub remove-FreeList :
    (h : Heap) (before : List ℕ) (x : ℕ) (after : List ℕ)
    → FreeList h.array 0 h.avail (before ++ (x ∷ after))
    → let t = remove h x in
      FreeList t.array 0 t.avail (before ++ after)
      × ((a : ℕ) → touches a (before ++ after) ≡ false → t.array a ≡ h.array a)
remove-FreeList h before x after l =
    let (fx, fp, fn) = links_fit h.array 0 h.avail before x after (omega arith) l in
    let u = remove-Unlinked h x fx fp fn in
    (
      list_after h (remove h x) before x after l u,
      λ a apart. u.1 a ∙ unlinked_outside h before x after l a apart,
    )
