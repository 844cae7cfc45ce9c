-- ===== src/Heap/Absorb.antt =====
-- A block that is freed takes up its free neighbours in the heap.
use osfinal_project.Prelude.{
  ℕ, ◌+◌, ◌-◌, ◌^◌, ◌≤◌, ◌≡◌, ◌⊎◌, refl, ap, sym, ◌∙◌, arith, Bool, true, false, List, [], ◌∷◌,
  ◌++◌, append-nil, if◌then◌else◌, subst,
}
use osfinal_project.Chain.{has}
use osfinal_project.Heap.{Heap, size, remove}
use osfinal_project.Heap.FreeList.{touches, Apart, FreeList}
use osfinal_project.Heap.Remove.{remove-FreeList}
use osfinal_project.Heap.Tiles.{Block, Tiled-le, Tiled-split, starts_free-append}
use osfinal_project.Heap.Hole.{Hole, widen_left, widen_right, has-split}
use osfinal_project.Heap.Room.{AllApart, FreeList-AllApart}

Apart-untouched : (x : ℕ) (xs : List ℕ) → Apart x xs → touches x xs ≡ false
Apart-untouched x [] a = refl
Apart-untouched x (y ∷ ys) a = ground (arith, a.0, Apart-untouched x ys a.1)

Apart-member :
    (b x : ℕ) (before after : List ℕ) → Apart b (before ++ (x ∷ after)) → (b + 3 ≤ x) ⊎ (x + 3 ≤ b)
Apart-member b x [] after a = a.0
Apart-member b x (y ∷ ys) after a = Apart-member b x ys after a.1

AllApart-untouched :
    (x : ℕ) (before after : List ℕ)
    → AllApart (before ++ (x ∷ after))
    → touches x (before ++ after) ≡ false
AllApart-untouched x [] after a = Apart-untouched x after a.0
AllApart-untouched x (b ∷ bs) after a =
    ground (arith, Apart-member b x bs after a.0, AllApart-untouched x bs after a.1)

-- A block that leaves the free list keeps its first word.
remove-header :
    (t : Heap) (x : ℕ) (zs : List ℕ)
    → FreeList t.array 0 t.avail zs
    → has x zs ≡ true
    → (remove t x).array x ≡ t.array x
remove-header t x zs l i =
    let (before, after, e) = has-split x zs i in
    let l' = subst (FreeList t.array 0 t.avail) e l in
    (remove-FreeList t before x after l').1 x (
      AllApart-untouched x before after
        (FreeList-AllApart t.array 0 t.avail (before ++ (x ∷ after)) l'))

-- The blocks that a neighbour leaves, the heap without it in its free list.
abbrev pub unless_free : Bool → Block → List Block
unless_free f b = if f then [] else b ∷ []

abbrev pub detach : Bool → Heap → ℕ → Heap
detach f t i = if f then remove t i else t

module _ {t : Heap} (xs : List Block) {s n : ℕ} {ys : List Block} {zs : List ℕ} where
  pub absorb_left :
      (l : Block) (f : Bool)
      → l.is_free ≡ f
      → Hole t (xs ++ (l ∷ [])) s n ys zs
      → (ws : List ℕ) × Hole
          (detach f t l.start)
          (xs ++ unless_free f l)
          (if f then l.start else s)
          (if f then l.size + n else n)
          ys
          ws
        × (size (detach f t l.start) l.start ≡ l.size)
  absorb_left l true fr v =
      let (ws, w) = widen_left l fr v in
      let (k, _, (at, big, word, _, past)) = Tiled-split t.array 0 s xs (l ∷ []) v.left in
      let inside = Tiled-le t.array (s + n) t.len ys v.right in
      let fits = v.fits in
      let member : has l.start zs ≡ true =
        v.members l.start ∙ ground (arith, fr, starts_free-append l.start xs (l ∷ [])) in
      let same : (remove t l.start).array l.start ≡ l.size =
        remove-header t l.start zs v.list member ∙ ap t.array at ∙ word ∙ ground (arith, fr) in
      (
        ws,
        subst (λ (q : List Block). Hole (remove t l.start) q l.start (l.size + n) ys ws)
            (sym (append-nil xs)) w,
        ground (arith, same),
      )
  absorb_left l false taken v =
      let (k, _, (at, big, word, _, past)) = Tiled-split t.array 0 s xs (l ∷ []) v.left in
      let inside = Tiled-le t.array (s + n) t.len ys v.right in
      let fits = v.fits in
      let same : t.array l.start ≡ 2 ^ 32 - l.size = ap t.array at ∙ word ∙ ground (arith, taken) in
      (zs, v, ground (arith, same, taken))

  pub absorb_right :
      (r : Block) (f : Bool)
      → r.is_free ≡ f
      → Hole t xs s n (r ∷ ys) zs
      → (ws : List ℕ) × Hole
          (detach f t r.start)
          xs
          s
          (if f then n + r.size else n)
          (unless_free f r ++ ys)
          ws
        × (size (detach f t r.start) r.start ≡ r.size)
  absorb_right r true fr v =
      let (ws, w) = widen_right r fr v in
      let (at, big, word, _, rest) = v.right in
      let inside = Tiled-le t.array (s + n + r.size) t.len ys rest in
      let fits = v.fits in
      let member : has r.start zs ≡ true = v.members r.start ∙ ground (arith, fr) in
      let same : (remove t r.start).array r.start ≡ r.size =
        remove-header t r.start zs v.list member ∙ ap t.array at ∙ word ∙ ground (arith, fr) in
      (ws, w, ground (arith, same))
  absorb_right r false taken v =
      let (at, big, word, _, rest) = v.right in
      let inside = Tiled-le t.array (s + n + r.size) t.len ys rest in
      let fits = v.fits in
      let same : t.array r.start ≡ 2 ^ 32 - r.size = ap t.array at ∙ word ∙ ground (arith, taken) in
      (zs, v, ground (arith, same, taken))
