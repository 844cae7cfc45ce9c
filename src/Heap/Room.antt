-- ===== src/Heap/Room.antt =====
-- The free blocks of a heap, by its blocks and by its free list.
use osfinal_project.Prelude.{
  ℕ, zero, suc, ◌+◌, ◌≤◌, ◌<◌, ◌≡◌, inl, inr, refl, ap, sym, ◌∙◌, arith, Bool, true, false, List,
  [], ◌∷◌, ◌++◌, length, length-append, ◌&&◌, ◌||◌, leb, ◌==◌, subst, Bool-cases, ℕ_discrete,
}
use osfinal_project.Chain.{has}
use osfinal_project.Heap.{Heap, size}
use osfinal_project.Heap.FreeList.{Apart, FreeList}
use osfinal_project.Heap.Remove.{Apart-drop}
use osfinal_project.Heap.Search.{AllFree, fits}
use osfinal_project.Heap.Tiles.{Block, Tiled, starts_free, Tiled-le, starts_free-range}
use osfinal_project.Heap.Hole.{IsHeap, has-split, has-drop, Apart-fresh}

-- Whether a free block has `n` words.
abbrev pub has_room : ℕ → List Block → Bool
has_room n [] = false
has_room n (b ∷ bs) = (b.is_free && leb n b.size) || has_room n bs

-- The block that starts at `z`.
pub block_at :
    (z : ℕ) (bs : List Block)
    → starts_free z bs ≡ true
    → (xs : List Block) × (b : Block) × (ys : List Block) × (bs ≡ xs ++ (b ∷ ys))
      × (b.is_free ≡ true)
      × (b.start ≡ z)
block_at z [] h = cc
block_at z (b ∷ bs) h = elim (Bool-cases (b.is_free && (b.start == z))) [
  | inl here ↦ ([], b, bs, refl, ground (arith, here), ground (arith, here))
  | inr later ↦
      let (xs, c, ys, e, fr, at) = block_at z bs (ground (arith, h, later)) in
      (b ∷ xs, c, ys, ap (λ (l : List Block). b ∷ l) e, fr, at)
]

-- The first word of a free block has its size.
pub free_word :
    (m : ℕ → ℕ) (i e z : ℕ) (bs : List Block)
    → Tiled m i bs e
    → starts_free z bs ≡ true
    → (0 < m z) × (m z ≤ e)
free_word m i e z [] t h = cc
free_word m i e z (b ∷ bs) t h = elim (Bool-cases (b.is_free && (b.start == z))) [
  | inl here ↦
      let word : m z ≡ m i = ap m (ground (arith, here, t.0)) in
      let rest = Tiled-le m (i + b.size) e bs t.4 in ground (arith, here, t.1, t.2, word, rest)
  | inr later ↦
      free_word m (i + 0 + b.size) e z bs (subst (λ (k : ℕ). Tiled m k bs e) (omega arith) t.4)
        (ground (arith, h, later))
]

AllFree-all :
    (h : Heap) (xs : List ℕ)
    → ((z : ℕ) → has z xs ≡ true → (0 < h.array z) × (h.array z < 0x7fffffff))
    → AllFree h xs
AllFree-all h [] all = tt
AllFree-all h (x ∷ xs) all = (
  (all x (ground arith)).0,
  (all x (ground arith)).1,
  AllFree-all h xs (λ z i. all z (ground (arith, i))),
)

pub IsHeap-AllFree : {h : Heap} {bs : List Block} {xs : List ℕ} → IsHeap h bs xs → AllFree h xs
IsHeap-AllFree {h} {bs} {xs} v = AllFree-all h xs (λ z i.
    let (pos, le) = free_word h.array 0 h.len z bs v.tiled (sym (v.members z) ∙ i) in
    (pos, omega (arith, v.fits)))

-- Every block of the list is apart from those behind it.
abbrev pub AllApart : List ℕ → Type 0
AllApart [] = Unit {0}
AllApart (x ∷ xs) = Apart x xs × AllApart xs

pub FreeList-AllApart : (m : ℕ → ℕ) (pr p : ℕ) (xs : List ℕ) → FreeList m pr p xs → AllApart xs
FreeList-AllApart m pr p [] l = tt
FreeList-AllApart m pr p (x ∷ xs) l = (l.4, FreeList-AllApart m x (m (x + 1)) xs l.5)

AllApart-drop :
    (x : ℕ) (before after : List ℕ) → AllApart (before ++ (x ∷ after)) → AllApart (before ++ after)
AllApart-drop x [] after a = a.1
AllApart-drop x (b ∷ bs) after a = (Apart-drop b x bs after a.0, AllApart-drop x bs after a.1)

AllApart-once :
    (x : ℕ) (before after : List ℕ)
    → AllApart (before ++ (x ∷ after))
    → has x (before ++ after) ≡ false
AllApart-once x [] after a = Apart-fresh x after a.0
AllApart-once x (b ∷ bs) after a = ground (
  arith,
  Apart-fresh b (bs ++ (x ∷ after)) a.0,
  has-drop b x bs after,
  AllApart-once x bs after a.1,
)

-- As many distinct numbers below `n` are `n` at most.
few : (n : ℕ) (xs : List ℕ) → AllApart xs → ((z : ℕ) → has z xs ≡ true → z < n) → length xs ≤ n
few zero [] a all = omega arith
few zero (x ∷ xs) a all = absurd (omega (arith, all x (ground arith)))
few (suc n) xs a all = elim (Bool-cases (has n xs)) [
  | inr no_n ↦ omega (arith, few n xs a (λ z i. below z xs i no_n (all z i)))
  | inl is_n ↦
      let (before, after, e) = has-split n xs is_n in
      let a' = subst AllApart e a in
      let fewer = few n (before ++ after) (AllApart-drop n before after a') (λ z i.
        below z (before ++ after) i (AllApart-once n before after a')
          (all z (ap (has z) e ∙ has-drop z n before after ∙ ground (arith, i)))) in
      omega
        (arith, ap length e, length-append before (n ∷ after), length-append before after, fewer)
]
  where
    below : (z : ℕ) (ys : List ℕ) → has z ys ≡ true → has n ys ≡ false → z < suc n → z < n
    below z ys i no_n lt = elim (ℕ_discrete z n) [
      | yes same ↦ absurd (ground (arith, ap (λ (j : ℕ). has j ys) same, i, no_n))
      | no other ↦ omega (arith, lt, other)
    ]

-- The free list has no more blocks than the array has words.
pub IsHeap-few : {h : Heap} {bs : List Block} {xs : List ℕ} → IsHeap h bs xs → length xs ≤ h.len
IsHeap-few {h} {bs} {xs} v = few h.len xs (FreeList-AllApart h.array 0 h.avail xs v.list) (λ z i.
    omega (arith, (starts_free-range h.array 0 h.len z bs v.tiled (sym (v.members z) ∙ i)).1))

fits-empty :
    (h : Heap) (n k z : ℕ) (xs : List ℕ)
    → fits h n (suc k) xs ≡ []
    → has z xs ≡ true
    → leb n (size h z) ≡ false
fits-empty h n k z [] e i = cc
fits-empty h n k z (x ∷ xs) e i = elim (Bool-cases (leb n (size h x))) [
  | inl large ↦ absurd (nonempty (sym e ∙ ground (arith, large)))
  | inr small ↦ elim (ℕ_discrete x z) [
    | yes same ↦ ap (λ (j : ℕ). leb n (size h j)) (sym same) ∙ small
    | no other ↦ fits-empty h n k z xs (ground (arith, small) ∙ e) (ground (arith, i, other))
  ]
]
  where
    nonempty : ¬ ([] ≡ x ∷ fits h n k xs)
    nonempty d = cc

pub room-block :
    (m : ℕ → ℕ) (i e n : ℕ) (bs : List Block)
    → Tiled m i bs e
    → has_room n bs ≡ true
    → (z : ℕ) × (starts_free z bs ≡ true) × (n ≤ m z)
room-block m i e n [] t h = cc
room-block m i e n (b ∷ bs) t h = elim (Bool-cases (b.is_free && leb n b.size)) [
  | inl here ↦ (i, ground (arith, here, t.0), ground (arith, here, t.2))
  | inr later ↦
      let (z, s, le) = room-block m (i + b.size) e n bs t.4 (ground (arith, h, later)) in
      (z, ground (arith, s), le)
]

-- When no block of the free list is large enough, no free block of the heap is.
pub fits-room :
    {h : Heap} {bs : List Block} {xs : List ℕ} (n k : ℕ)
    → IsHeap h bs xs
    → fits h n (suc k) xs ≡ []
    → has_room n bs ≡ false
fits-room {h} {bs} {xs} n k v e = elim (Bool-cases (has_room n bs)) [
  | inr no_room ↦ no_room
  | inl room ↦
      let (z, s, le) = room-block h.array 0 h.len n bs v.tiled room in
      let word = free_word h.array 0 h.len z bs v.tiled s in
      let small = fits-empty h n k z xs e (v.members z ∙ s) in
      absurd (ground (arith, small, le, word.0, word.1, v.fits))
]
