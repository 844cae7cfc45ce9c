-- ===== src/Heap/FreeList.antt =====
-- The doubly linked list of free blocks of the kernel's heap.
use osfinal_project.Prelude.{
  ℕ, ◌+◌, ◌-◌, ◌*◌, ◌^◌, ◌≤◌, ◌<◌, ◌≡◌, ◌≢◌, ◌⊎◌, inl, inr, ap, sym, ◌∙◌, arith, Bool, true, false,
  List, [], ◌∷◌, ◌&&◌, ◌||◌, ◌==◌, ◌!=◌, if◌then◌else◌, update_self, subst, ℕ_discrete,
}
use osfinal_project.Word.{add32, sub32}
use osfinal_project.Heap.{
  Heap, put, set_next, set_prev, make_avail, footer_from_header, ints_for, abs,
}

-- The link words of the blocks: the second and the third word of each.
abbrev pub touches : ℕ → List ℕ → Bool
touches a [] = false
touches a (x ∷ xs) = (a == x + 1) || (a == x + 2) || touches a xs

-- The three words at the start of a block are apart from those of the others.
abbrev pub Apart : ℕ → List ℕ → Type 0
Apart x [] = Unit {0}
Apart x (y ∷ ys) = ((x + 3 ≤ y) ⊎ (y + 3 ≤ x)) × Apart x ys

-- From `p` on the free list has these blocks, and the one before is `pr`.
abbrev pub FreeList : (ℕ → ℕ) → ℕ → ℕ → List ℕ → Type 0
FreeList m pr p [] = p ≡ 0
FreeList m pr p (x ∷ xs) =
    (p ≡ x)
    × (x ≢ 0)
    × (x + 2 < 2 ^ 32)
    × (m (x + 2) ≡ pr)
    × Apart x xs
    × FreeList m x (m (x + 1)) xs

pub FreeList-frame :
    (m m' : ℕ → ℕ) (pr p : ℕ) (xs : List ℕ)
    → ((a : ℕ) → touches a xs ≡ true → m' a ≡ m a)
    → FreeList m pr p xs
    → FreeList m' pr p xs
FreeList-frame m m' pr p [] same l = l
FreeList-frame m m' pr p (x ∷ xs) same l = (
  l.0,
  l.1,
  l.2,
  same (x + 2) (ground arith) ∙ l.3,
  l.4,
  subst (λ (q : ℕ). FreeList m' x q xs) (sym (same (x + 1) (ground arith)))
      (FreeList-frame m m' x (m (x + 1)) xs (λ a t. same a (ground arith)) l.5),
)

pub Apart-touches :
    (x a : ℕ) (xs : List ℕ) → Apart x xs → touches a xs ≡ true → (a ≢ x + 1) × (a ≢ x + 2)
Apart-touches x a [] ap t = cc
Apart-touches x a (y ∷ ys) ap t = ground (arith, Apart-touches x a ys ap.1)

-- The words from `i` on, `n` of them, are apart from the links of the list.
abbrev pub Clear : ℕ → ℕ → List ℕ → Type 0
Clear i n [] = Unit {0}
Clear i n (x ∷ xs) = ((x + 3 ≤ i) ⊎ (i + n ≤ x)) × Clear i n xs

Clear-touches :
    (i n a : ℕ) (xs : List ℕ) → Clear i n xs → touches a xs ≡ true → (a < i) ⊎ (i + n ≤ a)
Clear-touches i n a [] c t = cc
Clear-touches i n a (x ∷ xs) c t = ground (arith, Clear-touches i n a xs c.1)

Clear-Apart : (i n : ℕ) (xs : List ℕ) → 4 ≤ n → Clear i n xs → Apart i xs
Clear-Apart i n [] le c = tt
Clear-Apart i n (x ∷ xs) le c = (ground arith, Clear-Apart i n xs le c.1)

-- Words that stay, but for the back link of the first block, which is now `i`.
pub relink :
    (m m' : ℕ → ℕ) (pr p i : ℕ) (xs : List ℕ)
    → ((a : ℕ) → touches a xs ≡ true → a ≢ p + 2 → m' a ≡ m a)
    → (p ≢ 0 → m' (p + 2) ≡ i)
    → FreeList m pr p xs
    → FreeList m' i p xs
relink m m' pr p i [] same back l = l
relink m m' pr p i (x ∷ xs) same back l = (
  l.0,
  l.1,
  l.2,
  ground (arith, l.0, l.1),
  l.4,
  subst (λ (q : ℕ). FreeList m' x q xs) (sym (same (x + 1) (ground arith) (omega (arith, l.0))))
      (FreeList-frame m m' x (m (x + 1)) xs
        (λ a t. same a (ground arith) (omega (arith, l.0, Apart-touches x a xs l.4 t))) l.5),
)

-- For a request of less than 2^32 - 3 bytes, the words that `malloc` asks for are four at least,
-- hold the request and eight bytes more, and exceed the request by sixteen bytes at most.
pub ints_for-covers :
    (bytes : ℕ)
    → bytes + 3 < 2 ^ 32
    → (4 ≤ ints_for bytes) × (bytes + 8 ≤ 4 * ints_for bytes) × (4 * ints_for bytes ≤ bytes + 16)
unfolding ints_for
ints_for-covers bytes fit = (ground arith, ground arith, ground arith)

-- The words of the array after `makeAvail`, in the order in which they were written.
abbrev freed : Heap → ℕ → ℕ → ℕ → ℕ
freed h i ints a =
    if (h.avail != 0) && (a == h.avail + 2)
    then i
    else if a == i + 2
    then 0
    else if a == i + 1
    then h.avail
    else if a == i + ints - 1
    then ints
    else if a == i
    then ints
    else h.array a

footer_lem :
    (h : Heap) (i ints : ℕ)
    → 4 ≤ ints
    → ints < 2 ^ 31
    → i + ints < 2 ^ 32
    → footer_from_header (put h i ints) i ≡ i + ints - 1
footer_lem h i ints low high fit =
    ap (λ (w : ℕ). sub32 (add32 i (abs w)) 1) (update_self h.array i ints) ∙ ground arith

-- The body of `makeAvail`, with the index of the footer.
abbrev freed_at : Heap → ℕ → ℕ → ℕ → Heap
freed_at h i ints footer =
    let b = put (put h i ints) footer ints in
    let c = set_prev (set_next b i h.avail) i 0 in
    let d = if h.avail == 0 then c else set_prev c h.avail i in record d { avail = i }

freed_at_lem :
    (h : Heap) (i ints : ℕ)
    → 4 ≤ ints
    → i + ints < 2 ^ 32
    → h.avail + 2 < 2 ^ 32
    → ((freed_at h i ints (i + ints - 1)).avail ≡ i)
      × ((a : ℕ) → (freed_at h i ints (i + ints - 1)).array a ≡ freed h i ints a)
freed_at_lem h i ints low fit link = elim (ℕ_discrete h.avail 0) [
  | yes e ↦ (ground arith, λ a. ground arith)
  | no ne ↦ (ground arith, λ a. ground arith)
]

make_avail_lem :
    (h : Heap) (i ints : ℕ)
    → 4 ≤ ints
    → ints < 2 ^ 31
    → i + ints < 2 ^ 32
    → h.avail + 2 < 2 ^ 32
    → ((make_avail h i ints).avail ≡ i)
      × ((a : ℕ) → (make_avail h i ints).array a ≡ freed h i ints a)
unfolding make_avail
make_avail_lem h i ints low high fit link =
    subst
      (λ (f : ℕ).
        ((freed_at h i ints f).avail ≡ i)
        × ((a : ℕ) → (freed_at h i ints f).array a ≡ freed h i ints a))
      (sym (footer_lem h i ints low high fit)) (freed_at_lem h i ints low fit link)

make_avail-len : (h : Heap) (i ints : ℕ) → (make_avail h i ints).len ≡ h.len
unfolding make_avail
make_avail-len h i ints = ground arith

pub link_fits : (m : ℕ → ℕ) (pr p : ℕ) (xs : List ℕ) → FreeList m pr p xs → p + 2 < 2 ^ 32
link_fits m pr p [] l = omega arith
link_fits m pr p (x ∷ xs) l = omega (arith, l.0, l.2)

first_away :
    (m : ℕ → ℕ) (pr p i n : ℕ) (xs : List ℕ)
    → FreeList m pr p xs
    → Clear i n xs
    → (p ≡ 0) ⊎ ((p + 3 ≤ i) ⊎ (i + n ≤ p))
first_away m pr p i n [] l c = inl l
first_away m pr p i n (x ∷ xs) l c = inr (ground (arith, l.0, c.0))

-- After `makeAvail`: the block is first on the free list, in front of the blocks that were there, its
-- first and last word have its size, and no word outside it has changed but the back link of the
-- block that was first.
pub record MadeAvail (h : Heap) (i ints : ℕ) (xs : List ℕ) (t : Heap) : Type 0 where
  pub list : FreeList t.array 0 t.avail (i ∷ xs)
  pub header : t.array i ≡ ints
  pub footer : t.array (i + ints - 1) ≡ ints
  pub outside :
      (a : ℕ) → (a < i) ⊎ (i + ints ≤ a) → (h.avail ≢ 0 → a ≢ h.avail + 2) → t.array a ≡ h.array a
  pub same_len : t.len ≡ h.len

-- `makeAvail` of a block of four words or more that is apart from the free list puts it in front of
-- that list, which stays well-formed, writes the size in the first and the last word of the block,
-- and changes no word outside the block but the back link of the block that was first.
pub make_avail-FreeList :
    (h : Heap) (i ints : ℕ) (xs : List ℕ)
    → 0 < i
    → 4 ≤ ints
    → ints < 2 ^ 31
    → i + ints < 2 ^ 32
    → Clear i ints xs
    → FreeList h.array 0 h.avail xs
    → MadeAvail h i ints xs (make_avail h i ints)
make_avail-FreeList h i ints xs pos low high fit c l = record {
  list = (
    at,
    omega arith,
    omega arith,
    words (i + 2) ∙ ground (arith, away),
    Clear-Apart i ints xs low c,
    subst (λ (q : ℕ). FreeList t.array i q xs) (sym (words (i + 1) ∙ ground (arith, away)))
        (relink h.array t.array 0 h.avail i xs
          (λ a u ne. words a ∙ ground (arith, Clear-touches i ints a xs c u))
          (λ ne. words (h.avail + 2) ∙ ground arith) l),
  );
  header = words i ∙ ground (arith, away);
  footer = words (i + ints - 1) ∙ ground (arith, away);
  outside = λ a out ne. words a ∙ ground arith;
  same_len = make_avail-len h i ints;
}
  where
    t : Heap
    t = make_avail h i ints

    lem : (t.avail ≡ i) × ((a : ℕ) → t.array a ≡ freed h i ints a)
    lem = make_avail_lem h i ints low high fit (link_fits h.array 0 h.avail xs l)

    at : t.avail ≡ i
    at = lem.0

    words : (a : ℕ) → t.array a ≡ freed h i ints a
    words = lem.1

    away : (h.avail ≡ 0) ⊎ ((h.avail + 3 ≤ i) ⊎ (i + ints ≤ h.avail))
    away = first_away h.array 0 h.avail i ints xs l c
