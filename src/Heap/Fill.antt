-- ===== src/Heap/Fill.antt =====
-- A hole in the heap is filled from its start with new blocks.
use osfinal_project.Prelude.{
  ℕ, ◌+◌, ◌-◌, ◌^◌, ◌≤◌, ◌<◌, ◌≡◌, ◌≢◌, ◌⊎◌, inl, inr, refl, ap, sym, ◌∙◌, arith, true, false, List,
  [], ◌∷◌, ◌++◌, ◌||◌, ◌==◌, if◌then◌else◌, subst, update_self,
}
use osfinal_project.Word.{add32, sub32}
use osfinal_project.Chain.{has}
use osfinal_project.Heap.{Heap, put, make_avail, make_taken, footer_from_header, abs, negate}
use osfinal_project.Heap.FreeList.{Clear, FreeList, FreeList-frame, make_avail-FreeList}
use osfinal_project.Heap.Tiles.{
  Block, Tiled, edge, Tiled-frame, Tiled-le, Tiled-append, edge-range, starts_free-range,
  touches-has, starts_free-append,
}
use osfinal_project.Heap.Remove.{first_has, has-touches}
use osfinal_project.Heap.Hole.{Hole, hole_edges}

abbrev pub taken_block : ℕ → ℕ → Block
taken_block s n = record { start = s; size = n; is_free = false }

abbrev pub free_block : ℕ → ℕ → Block
free_block s n = record { start = s; size = n; is_free = true }

taken_footer :
    (h : Heap) (i n : ℕ)
    → 0 < n
    → n < 2 ^ 31
    → i + n < 2 ^ 32
    → footer_from_header (put h i (negate n)) i ≡ i + n - 1
taken_footer h i n pos low fit =
    ap (λ (w : ℕ). sub32 (add32 i (abs w)) 1) (update_self h.array i (negate n)) ∙ ground arith

-- `makeTaken` writes the first and the last word of the block.
pub make_taken_lem :
    (h : Heap) (i n : ℕ)
    → 0 < n
    → n < 2 ^ 31
    → i + n < 2 ^ 32
    → (a : ℕ)
    → (make_taken h i n).array a ≡ (if (a == i) || (a == i + n - 1) then 2 ^ 32 - n else h.array a)
unfolding make_taken
make_taken_lem h i n pos low fit a =
    subst
      (λ (f : ℕ).
        (put (put h i (negate n)) f (negate n)).array a
        ≡ (if (a == i) || (a == i + n - 1) then 2 ^ 32 - n else h.array a))
      (sym (taken_footer h i n pos low fit)) (ground arith)

pub make_taken-rest :
    (h : Heap) (i n : ℕ) → ((make_taken h i n).len ≡ h.len) × ((make_taken h i n).avail ≡ h.avail)
unfolding make_taken
make_taken-rest h i n = (refl, refl)

Clear-all :
    (s n : ℕ) (zs : List ℕ) → ((z : ℕ) → has z zs ≡ true → (z + 3 ≤ s) ⊎ (s + n ≤ z)) → Clear s n zs
Clear-all s n [] all = tt
Clear-all s n (z ∷ zs) all =
    (all z (ground arith), Clear-all s n zs (λ w i. all w (ground (arith, i))))

module _ {t : Heap} {xs : List Block} {s n : ℕ} {ys : List Block} {zs : List ℕ}
    (v : Hole t xs s n ys zs) where
  within : s + n ≤ t.len
  within = Tiled-le t.array (s + n) t.len ys v.right

  -- The free blocks lie before or behind the hole.
  around : (z : ℕ) → has z zs ≡ true → (z + 3 ≤ s) ⊎ (s + n ≤ z)
  around z i = ground (
    arith,
    v.members z,
    i,
    starts_free-range t.array 0 s z xs v.left,
    starts_free-range t.array (s + n) t.len z ys v.right,
  )

  edges_left : (a : ℕ) → edge a xs ≡ true → a < s
  edges_left a h = (edge-range t.array 0 s a xs v.left h).1

  edges_right : (a : ℕ) → edge a ys ≡ true → s + n ≤ a
  edges_right a h = (edge-range t.array (s + n) t.len a ys v.right h).0

  pub narrow_taken :
      (k : ℕ)
      → 2 ≤ k
      → k ≤ n
      → Hole (make_taken t s k) (xs ++ (taken_block s k ∷ [])) (s + k) (n - k) ys zs
  narrow_taken k two le =
      let fits = v.fits in
      let inside = within in
      let words = make_taken_lem t s k (omega arith) (omega arith) (omega arith) in
      let (same_len, same_avail) = make_taken-rest t s k in
      record {
        left =
            Tiled-append (make_taken t s k).array 0 s (s + k) xs (taken_block s k ∷ [])
              (Tiled-frame t.array (make_taken t s k).array 0 s xs
                (λ a i. words a ∙ ground (arith, edges_left a i)) v.left)
              (refl, two, words s ∙ ground arith, words (s + k - 1) ∙ ground arith, refl);
        right =
            subst (λ (e : ℕ). Tiled (make_taken t s k).array (s + k + (n - k)) ys e) (sym same_len)
              (subst (λ (j : ℕ). Tiled (make_taken t s k).array j ys t.len) (omega arith)
                (Tiled-frame t.array (make_taken t s k).array (s + n) t.len ys
                  (λ a i. words a ∙ ground (arith, edges_right a i)) v.right));
        fits = subst (λ (j : ℕ). j < 0x7fffffff) (sym same_len) v.fits;
        list =
            subst (λ (j : ℕ). FreeList (make_taken t s k).array 0 j zs) (sym same_avail)
              (FreeList-frame t.array (make_taken t s k).array 0 t.avail zs
                (λ a i.
                  let (z, m, at) = touches-has a zs i in words a ∙ ground (arith, around z m, at))
                v.list);
        members = λ z. v.members z ∙ ground (arith, starts_free-append z xs (taken_block s k ∷ []));
      }

  -- The back link of the first free block is no edge.
  away : (a : ℕ) → (edge a xs || edge a ys) ≡ true → t.avail ≢ 0 → a ≢ t.avail + 2
  away a i ne = ground (
    arith,
    ne,
    first_has t.array 0 t.avail zs v.list,
    has-touches t.avail zs,
    hole_edges t.array xs s (s + n) ys t.len zs v.left v.right (omega arith)
        (λ z j. sym (v.members z) ∙ j) a i,
  )

  pub narrow_free :
      0 < s → 4 ≤ n → Hole (make_avail t s n) (xs ++ (free_block s n ∷ [])) (s + n) 0 ys (s ∷ zs)
  narrow_free pos four =
      let fits = v.fits in
      let inside = within in
      let made =
        make_avail-FreeList t s n zs pos four (omega arith) (omega arith) (Clear-all s n zs around)
          v.list in
      record {
        left =
            Tiled-append (make_avail t s n).array 0 s (s + n) xs (free_block s n ∷ [])
              (Tiled-frame t.array (make_avail t s n).array 0 s xs
                (λ a i. made.outside a (inl (edges_left a i)) (away a (ground (arith, i)))) v.left)
              (refl, four, made.header, made.footer, refl);
        right =
            subst (λ (e : ℕ). Tiled (make_avail t s n).array (s + n + 0) ys e) (sym made.same_len)
              (subst (λ (j : ℕ). Tiled (make_avail t s n).array j ys t.len) (omega arith)
                (Tiled-frame t.array (make_avail t s n).array (s + n) t.len ys
                  (λ a i. made.outside a (inr (edges_right a i)) (away a (ground (arith, i))))
                  v.right));
        fits = subst (λ (j : ℕ). j < 0x7fffffff) (sym made.same_len) v.fits;
        list = made.list;
        members = λ z. ground (arith, v.members z, starts_free-append z xs (free_block s n ∷ []));
      }
