-- ===== src/Heap/Hole.antt =====
-- A heap with a hole: the words between two runs of blocks that belong to no block. `malloc` and `free`
-- open a hole, widen it over blocks, and fill it with new ones.
use osfinal_project.Prelude.{
  ℕ, ◌+◌, ◌≤◌, ◌<◌, ◌≡◌, inl, inr, refl, ap, sym, ◌∙◌, arith, true, false, List, [], ◌∷◌, ◌++◌,
  ◌||◌, ◌==◌, subst, Bool-cases, ℕ_discrete,
}
use osfinal_project.Chain.{has}
use osfinal_project.Heap.{Heap, remove}
use osfinal_project.Heap.FreeList.{touches, Apart, FreeList}
use osfinal_project.Heap.Remove.{remove-FreeList}
use osfinal_project.Heap.Tiles.{
  Block, Tiled, edge, starts_free, Tiled-frame, Tiled-append, Tiled-split, edge-range,
  starts_free-range, inner_words, touches-has, starts_free-append,
}

-- A heap: the blocks tile the array, and the free list has the free ones.
pub record IsHeap (h : Heap) (bs : List Block) (xs : List ℕ) : Type 0 where
  pub tiled : Tiled h.array 0 bs h.len
  pub fits : h.len < 0x7fffffff
  pub list : FreeList h.array 0 h.avail xs
  pub members : (z : ℕ) → has z xs ≡ starts_free z bs

-- The hole has `n` words from word `s` on.
pub record Hole (t : Heap) (xs : List Block) (s n : ℕ) (ys : List Block) (zs : List ℕ)
    : Type 0 where
  pub left : Tiled t.array 0 xs s
  pub right : Tiled t.array (s + n) ys t.len
  pub fits : t.len < 0x7fffffff
  pub list : FreeList t.array 0 t.avail zs
  pub members : (z : ℕ) → has z zs ≡ (starts_free z xs || starts_free z ys)

pub IsHeap-at :
    {t t' : Heap} {bs bs' : List Block} {zs : List ℕ}
    → t ≡ t'
    → bs ≡ bs'
    → IsHeap t bs zs
    → IsHeap t' bs' zs
IsHeap-at {t} {t'} {bs} {bs'} {zs} p q v =
    subst (λ (u : Heap). IsHeap u bs' zs) p (subst (λ (l : List Block). IsHeap t l zs) q v)

pub Hole-at :
    {t : Heap} {xs : List Block} {s s' n n' : ℕ} {ys : List Block} {zs : List ℕ}
    → s ≡ s'
    → n ≡ n'
    → Hole t xs s n ys zs
    → Hole t xs s' n' ys zs
Hole-at {t} {xs} {s} {s'} {n} {n'} {ys} {zs} p q v =
    subst (λ (k : ℕ). Hole t xs k n' ys zs) p (subst (λ (k : ℕ). Hole t xs s k ys zs) q v)

-- Between any two blocks there is a hole of no words.
pub open_gap :
    {h : Heap} (xs ys : List Block) {zs : List ℕ}
    → IsHeap h (xs ++ ys) zs
    → (s : ℕ) × Hole h xs s 0 ys zs
open_gap {h} xs ys {zs} v =
    let (s, l, r) = Tiled-split h.array 0 h.len xs ys v.tiled in
    (
      s,
      record {
        left = l;
        right = subst (λ (k : ℕ). Tiled h.array k ys h.len) (omega arith) r;
        fits = v.fits;
        list = v.list;
        members = λ z. v.members z ∙ starts_free-append z xs ys;
      },
    )

pub close_gap :
    {t : Heap} {xs : List Block} {s : ℕ} {ys : List Block} {zs : List ℕ}
    → Hole t xs s 0 ys zs
    → IsHeap t (xs ++ ys) zs
close_gap {t} {xs} {s} {ys} {zs} v = record {
  tiled =
      Tiled-append t.array 0 s t.len xs ys v.left
        (subst (λ (k : ℕ). Tiled t.array k ys t.len) (omega arith) v.right);
  fits = v.fits;
  list = v.list;
  members = λ z. v.members z ∙ sym (starts_free-append z xs ys);
}

-- A taken block behind the hole becomes part of it.
pub widen_taken :
    {t : Heap} {xs : List Block} {s n : ℕ} (b : Block) {ys : List Block} {zs : List ℕ}
    → b.is_free ≡ false
    → Hole t xs s n (b ∷ ys) zs
    → Hole t xs s (n + b.size) ys zs
widen_taken {t} {xs} {s} {n} b {ys} {zs} taken v = record {
  left = v.left;
  right = subst (λ (k : ℕ). Tiled t.array k ys t.len) (omega arith) v.right.4;
  fits = v.fits;
  list = v.list;
  members = λ z. v.members z ∙ ground (arith, taken);
}

-- The blocks around a hole keep their marks when links of free blocks are written.
pub hole_edges :
    (m : ℕ → ℕ) (xs : List Block) (s k : ℕ) (ys : List Block) (e : ℕ) (zs : List ℕ)
    → Tiled m 0 xs s
    → Tiled m k ys e
    → s ≤ k
    → ((z : ℕ) → has z zs ≡ true → (starts_free z xs || starts_free z ys) ≡ true)
    → (a : ℕ) → (edge a xs || edge a ys) ≡ true
    → touches a zs ≡ false
hole_edges m xs s k ys e zs l r le all a h = elim (Bool-cases (touches a zs)) [
  | inr no_link ↦ no_link
  | inl link ↦
      let (z, i, at) = touches-has a zs link in
      ground (
        arith,
        all z i,
        at,
        h,
        inner_words m 0 s z xs l,
        inner_words m k e z ys r,
        edge-range m 0 s a xs l,
        edge-range m k e a ys r,
        starts_free-range m 0 s z xs l,
        starts_free-range m k e z ys r,
      )
]

pub has-split :
    (x : ℕ) (xs : List ℕ) → has x xs ≡ true → (before after : List ℕ) × (xs ≡ before ++ (x ∷ after))
has-split x [] h = cc
has-split x (y ∷ xs) h = elim (ℕ_discrete y x) [
  | yes e ↦ ([], xs, ap (λ (k : ℕ). k ∷ xs) e)
  | no ne ↦
      let (before, after, e) = has-split x xs (ground (arith, h)) in
      (y ∷ before, after, ap (λ (l : List ℕ). y ∷ l) e)
]

pub has-drop :
    (z x : ℕ) (before after : List ℕ)
    → has z (before ++ (x ∷ after)) ≡ ((x == z) || has z (before ++ after))
has-drop z x [] after = refl
has-drop z x (b ∷ bs) after = ground (arith, has-drop z x bs after)

pub Apart-fresh : (x : ℕ) (xs : List ℕ) → Apart x xs → has x xs ≡ false
Apart-fresh x [] a = refl
Apart-fresh x (y ∷ ys) a = ground (arith, a.0, Apart-fresh x ys a.1)

-- A block stands once in the free list.
once :
    (m : ℕ → ℕ) (pr p : ℕ) (before : List ℕ) (x : ℕ) (after : List ℕ)
    → FreeList m pr p (before ++ (x ∷ after))
    → has x (before ++ after) ≡ false
once m pr p [] x after l = Apart-fresh x after l.4
once m pr p (b ∷ bs) x after l = ground (
  arith,
  Apart-fresh b (bs ++ (x ∷ after)) l.4,
  has-drop b x bs after,
  once m b (m (b + 1)) bs x after l.5,
)

remove-len : (h : Heap) (i : ℕ) → (remove h i).len ≡ h.len
unfolding remove
remove-len h i = ground arith

-- The state behind `remove`, with the hole `s` to `k` around the block.
removed :
    (t : Heap) (xs : List Block) (s k : ℕ) (ys : List Block) (zs : List ℕ) (x : ℕ)
    → Tiled t.array 0 xs s
    → Tiled t.array k ys t.len
    → s ≤ k
    → FreeList t.array 0 t.avail zs
    → ((z : ℕ) → has z zs ≡ ((x == z) || (starts_free z xs || starts_free z ys)))
    → starts_free x xs ≡ false
    → starts_free x ys ≡ false
    → (ws : List ℕ) × Tiled (remove t x).array 0 xs s
      × Tiled (remove t x).array k ys (remove t x).len
      × FreeList (remove t x).array 0 (remove t x).avail ws
      × ((z : ℕ) → has z ws ≡ (starts_free z xs || starts_free z ys))
removed t xs s k ys zs x l r le fl mem not_left not_right =
    let (before, after, e) = has-split x zs (mem x ∙ ground arith) in
    let fl' = subst (FreeList t.array 0 t.avail) e fl in
    let (list, same) = remove-FreeList t before x after fl' in
    let others : (z : ℕ) → has z (before ++ after) ≡ (starts_free z xs || starts_free z ys) = λ z.
      still z (before ++ after) (sym (has-drop z x before after) ∙ ap (has z) (sym e) ∙ mem z)
        (once t.array 0 t.avail before x after fl') in
    let kept : (a : ℕ) → (edge a xs || edge a ys) ≡ true → (remove t x).array a ≡ t.array a = λ a i.
      same a (
        hole_edges t.array xs s k ys t.len (before ++ after) l r le (λ z j. sym (others z) ∙ j) a
          i) in
    (
      before ++ after,
      Tiled-frame t.array (remove t x).array 0 s xs (λ a i. kept a (ground (arith, i))) l,
      subst (Tiled (remove t x).array k ys) (sym (remove-len t x))
          (Tiled-frame t.array (remove t x).array k t.len ys (λ a i. kept a (ground (arith, i))) r),
      list,
      others,
    )
  where
    still :
        (z : ℕ) (ws : List ℕ)
        → ((x == z) || has z ws) ≡ ((x == z) || (starts_free z xs || starts_free z ys))
        → has x ws ≡ false
        → has z ws ≡ (starts_free z xs || starts_free z ys)
    still z ws h gone = elim (ℕ_discrete x z) [
      | yes same ↦
          ap (λ (j : ℕ). has j ws) (sym same)
          ∙ gone
          ∙ sym (
              ap (λ (j : ℕ). starts_free j xs || starts_free j ys) (sym same)
              ∙ ground (arith, not_left, not_right))
      | no other ↦ ground (arith, h, other)
    ]

-- A free block behind the hole leaves the free list and becomes part of it.
pub widen_right :
    {t : Heap} {xs : List Block} {s n : ℕ} (b : Block) {ys : List Block} {zs : List ℕ}
    → b.is_free ≡ true
    → Hole t xs s n (b ∷ ys) zs
    → (ws : List ℕ) × Hole (remove t b.start) xs s (n + b.size) ys ws
widen_right {t} {xs} {s} {n} b {ys} {zs} fr v =
    let (at, big, _, _, rest) = v.right in
    let beyond = starts_free-range t.array (s + n + b.size) t.len b.start ys rest in
    let before = starts_free-range t.array 0 s b.start xs v.left in
    let (ws, l, r, list, mem) =
      removed t xs s (s + n + b.size) ys zs b.start v.left rest (omega arith) v.list
        (λ z. v.members z ∙ ground (arith, fr)) (ground (arith, before, at))
        (ground (arith, beyond, at, big, fr)) in
    (
      ws,
      record {
        left = l;
        right =
            subst (λ (k : ℕ). Tiled (remove t b.start).array k ys (remove t b.start).len)
              (omega arith) r;
        fits = subst (λ (k : ℕ). k < 0x7fffffff) (sym (remove-len t b.start)) v.fits;
        list = list;
        members = mem;
      },
    )

-- A free block before the hole leaves the free list and becomes part of it.
pub widen_left :
    {t : Heap} {xs : List Block} (b : Block) {s n : ℕ} {ys : List Block} {zs : List ℕ}
    → b.is_free ≡ true
    → Hole t (xs ++ (b ∷ [])) s n ys zs
    → (ws : List ℕ) × Hole (remove t b.start) xs b.start (b.size + n) ys ws
widen_left {t} {xs} b {s} {n} {ys} {zs} fr v =
    let (k, l, (at, big, _, _, past)) = Tiled-split t.array 0 s xs (b ∷ []) v.left in
    let beyond = starts_free-range t.array (s + n) t.len b.start ys v.right in
    let l' = subst (Tiled t.array 0 xs) (sym at) l in
    let before = starts_free-range t.array 0 b.start b.start xs l' in
    let (ws, l'', r, list, mem) =
      removed t xs b.start (s + n) ys zs b.start l' v.right (omega arith) v.list
        (λ z. v.members z ∙ ground (arith, fr, starts_free-append z xs (b ∷ [])))
        (ground (arith, before)) (ground (arith, beyond, past, at, big, fr)) in
    (
      ws,
      record {
        left = l'';
        right =
            subst (λ (j : ℕ). Tiled (remove t b.start).array j ys (remove t b.start).len)
              (omega arith) r;
        fits = subst (λ (j : ℕ). j < 0x7fffffff) (sym (remove-len t b.start)) v.fits;
        list = list;
        members = mem;
      },
    )
