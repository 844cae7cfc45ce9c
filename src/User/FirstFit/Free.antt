-- ===== src/User/FirstFit/Free.antt =====
-- `free` of the user heap, against that of the kernel heap.
use osfinal_project.Prelude.{
  ℕ, ◌+◌, ◌*◌, ◌^◌, ◌≤◌, ◌<◌, ◌≡◌, refl, ap, sym, subst, ◌∙◌, ◌/◌, ◌==◌, inl, inr, Bool-cases,
  arith, ltb, true, false, Option, none, some, List, ◌∷◌, ◌++◌,
}
use osfinal_project.Word.{add32, sub32, mul32}
use osfinal_project.Heap.{Heap, free, is_taken}
use osfinal_project.Heap.Tiles.{Block}
use osfinal_project.Heap.Hole.{IsHeap}
use osfinal_project.Heap.Free.{merge, between_lem, free-Merged}
use osfinal_project.User.FirstFit.{user_free}

-- What the kernel does, but that a block that is not taken stays.
abbrev pub or_same : Heap → Option Heap → Heap
or_same h none = h
or_same h (some t) = t

user_free-free : (h : Heap) (p : ℕ) → sub32 p h.base < 2 ^ 31 → user_free h p ≡ or_same h (free h p)
unfolding user_free free
user_free-free h p near =
    let ahead : ltb (sub32 p h.base) (2 ^ 31) ≡ true = ground (arith, near) in
    let idx = sub32 (sub32 p h.base / 4) 1 in
    elim (Bool-cases (p == 0)) [
      | inl null ↦ rw (user_free, free, ahead, null) refl
      | inr block ↦ elim (Bool-cases (p == h.base)) [
        | inl start ↦ rw (user_free, free, ahead, block, start) refl
        | inr inner ↦ elim (Bool-cases (is_taken h idx)) [
          | inl taken ↦ rw (user_free, free, ahead, block, inner, taken) refl
          | inr loose ↦ rw (user_free, free, ahead, block, inner, loose) refl
        ]
      ]
    ]

-- For an address less than 2^31 bytes behind the start of the array, `free` of the user heap, with
-- its signed index, does what `free` of the kernel heap does, with its unsigned one, but that it
-- leaves a block that is not taken as it is. So on a heap whose blocks tile its array, of less than
-- 2^31 bytes and below 2^32, and whose free list holds exactly the free ones, `free` of a taken
-- block of four words or more between two others returns such a heap again, in which the block and
-- its free neighbours have become one free block.
pub user_free-Merged :
    (h : Heap) (xs : List Block) (l b r : Block) (ys : List Block) (zs : List ℕ) (p : ℕ)
    → IsHeap h (xs ++ (l ∷ b ∷ r ∷ ys)) zs
    → h.base + 4 * h.len < 2 ^ 32
    → 4 * h.len < 2 ^ 31
    → b.is_free ≡ false
    → 4 ≤ b.size
    → sub32 p h.base < 2 ^ 31
    → (user_free h p ≡ or_same h (free h p))
      × (ws : List ℕ) × IsHeap
          (user_free h (add32 h.base (mul32 4 (add32 b.start 1))))
          (xs ++ (merge l b r ++ ys))
          ws
user_free-Merged h xs l b r ys zs p v fit half taken four near =
    let (t, e, ws, heap) = free-Merged h xs l b r ys zs v fit taken four in
    let at = add32 h.base (mul32 4 (add32 b.start 1)) in
    let inside = between_lem h xs l b r ys zs v in
    let near' : sub32 at h.base < 2 ^ 31 = omega (arith, inside, half, fit) in
    let same : user_free h at ≡ t = user_free-free h at near' ∙ ap (or_same h) e in
    (
      user_free-free h p near,
      ws,
      subst (λ (u : Heap). IsHeap u (xs ++ (merge l b r ++ ys)) ws) (sym same) heap,
    )
