-- ===== src/Heap/Tiles.antt =====
-- The blocks of the heap lie one behind the other, each with its size in its first and last word.
use osfinal_project.Prelude.{
  ℕ, ◌+◌, ◌-◌, ◌^◌, ◌≤◌, ◌<◌, ◌≡◌, ◌⊎◌, inl, inr, refl, sym, ◌∙◌, arith, Bool, true, false, List,
  [], ◌∷◌, ◌++◌, ◌&&◌, ◌||◌, ◌==◌, if◌then◌else◌, subst, Bool-cases,
}
use osfinal_project.Chain.{has}
use osfinal_project.Heap.FreeList.{touches}

pub record Block : Type 0 where
  pub start : ℕ
  pub size : ℕ
  pub is_free : Bool

-- What stands in the first and in the last word: the size, negative for a taken block.
abbrev pub mark : Block → ℕ
mark b = if b.is_free then b.size else 2 ^ 32 - b.size

-- A free block has room for its links; the two blocks at the ends of the array have two words.
abbrev least : Block → ℕ
least b = if b.is_free then 4 else 2

-- From word `i` up to word `e` the array holds these blocks.
abbrev pub Tiled : (ℕ → ℕ) → ℕ → List Block → ℕ → Type 0
Tiled m i [] e = i ≡ e
Tiled m i (b ∷ bs) e =
    (b.start ≡ i)
    × (least b ≤ b.size)
    × (m i ≡ mark b)
    × (m (i + b.size - 1) ≡ mark b)
    × Tiled m (i + b.size) bs e

-- The words that are the first or the last of a block.
abbrev pub edge : ℕ → List Block → Bool
edge a [] = false
edge a (b ∷ bs) = (a == b.start) || (a == b.start + b.size - 1) || edge a bs

-- Whether a free block starts at the word.
abbrev pub starts_free : ℕ → List Block → Bool
starts_free z [] = false
starts_free z (b ∷ bs) = (b.is_free && (b.start == z)) || starts_free z bs

pub Tiled-frame :
    (m m' : ℕ → ℕ) (i e : ℕ) (bs : List Block)
    → ((a : ℕ) → edge a bs ≡ true → m' a ≡ m a)
    → Tiled m i bs e
    → Tiled m' i bs e
Tiled-frame m m' i e [] same t = t
Tiled-frame m m' i e (b ∷ bs) same t = (
  t.0,
  t.1,
  same i (ground (arith, t.0)) ∙ t.2,
  same (i + b.size - 1) (ground (arith, t.0)) ∙ t.3,
  Tiled-frame m m' (i + b.size) e bs (λ a h. same a (ground (arith, h))) t.4,
)

pub Tiled-le : (m : ℕ → ℕ) (i e : ℕ) (bs : List Block) → Tiled m i bs e → i ≤ e
Tiled-le m i e [] t = omega arith
Tiled-le m i e (b ∷ bs) t = omega (arith, Tiled-le m (i + b.size) e bs t.4)

pub Tiled-append :
    (m : ℕ → ℕ) (i k e : ℕ) (xs ys : List Block)
    → Tiled m i xs k
    → Tiled m k ys e
    → Tiled m i (xs ++ ys) e
Tiled-append m i k e [] ys t u = subst (λ (j : ℕ). Tiled m j ys e) (sym t) u
Tiled-append m i k e (b ∷ xs) ys t u =
    (t.0, t.1, t.2, t.3, Tiled-append m (i + b.size) k e xs ys t.4 u)

pub Tiled-split :
    (m : ℕ → ℕ) (i e : ℕ) (xs ys : List Block)
    → Tiled m i (xs ++ ys) e
    → (k : ℕ) × Tiled m i xs k × Tiled m k ys e
Tiled-split m i e [] ys t = (i, refl, t)
Tiled-split m i e (b ∷ xs) ys t =
    let (k, u, v) = Tiled-split m (i + b.size) e xs ys t.4 in (k, (t.0, t.1, t.2, t.3, u), v)

pub edge-range :
    (m : ℕ → ℕ) (i e a : ℕ) (bs : List Block)
    → Tiled m i bs e
    → edge a bs ≡ true
    → (i ≤ a) × (a < e)
edge-range m i e a [] t h = cc
edge-range m i e a (b ∷ bs) t h =
    let least_two : 2 ≤ b.size = ground (arith, t.1) in
    ground (arith, t.0, Tiled-le m (i + b.size) e bs t.4, edge-range m (i + b.size) e a bs t.4)

pub starts_free-range :
    (m : ℕ → ℕ) (i e z : ℕ) (bs : List Block)
    → Tiled m i bs e
    → starts_free z bs ≡ true
    → (i ≤ z) × (z + 4 ≤ e)
starts_free-range m i e z [] t h = cc
starts_free-range m i e z (b ∷ bs) t h =
    ground (
      arith,
      t.0,
      t.1,
      Tiled-le m (i + b.size) e bs t.4,
      starts_free-range m (i + b.size) e z bs t.4,
    )

-- The links of a free block are no edges.
pub inner_words :
    (m : ℕ → ℕ) (i e z : ℕ) (bs : List Block)
    → Tiled m i bs e
    → starts_free z bs ≡ true
    → (edge (z + 1) bs ≡ false) × (edge (z + 2) bs ≡ false)
inner_words m i e z [] t h = cc
inner_words m i e z (b ∷ bs) t h = ground (
  arith,
  t.0,
  t.1,
  edge-range m (i + b.size) e (z + 1) bs t.4,
  edge-range m (i + b.size) e (z + 2) bs t.4,
  starts_free-range m (i + b.size) e z bs t.4,
  inner_words m (i + b.size) e z bs t.4,
)

pub touches-has :
    (a : ℕ) (xs : List ℕ)
    → touches a xs ≡ true
    → (z : ℕ) × (has z xs ≡ true) × ((a ≡ z + 1) ⊎ (a ≡ z + 2))
touches-has a [] h = cc
touches-has a (x ∷ xs) h = elim (Bool-cases (touches a xs)) [
  | inl later ↦ let (z, i, at) = touches-has a xs later in (z, ground (arith, i), at)
  | inr now ↦ (x, ground arith, ground (arith, h, now))
]

-- A link word of the free list is no edge of a block.
touches-edge :
    (m : ℕ → ℕ) (i e a : ℕ) (bs : List Block) (xs : List ℕ)
    → Tiled m i bs e
    → ((z : ℕ) → has z xs ≡ true → starts_free z bs ≡ true)
    → edge a bs ≡ true
    → touches a xs ≡ false
touches-edge m i e a bs xs t all h = elim (Bool-cases (touches a xs)) [
  | inr no_link ↦ no_link
  | inl link ↦
      let (z, i', at) = touches-has a xs link in
      let (one, two) = inner_words m i e z bs t (all z i') in ground (arith, one, two, at, h)
]

pub starts_free-append :
    (z : ℕ) (xs ys : List Block) → starts_free z (xs ++ ys) ≡ (starts_free z xs || starts_free z ys)
starts_free-append z [] ys = refl
starts_free-append z (b ∷ xs) ys = ground (arith, starts_free-append z xs ys)

edge-append : (a : ℕ) (xs ys : List Block) → edge a (xs ++ ys) ≡ (edge a xs || edge a ys)
edge-append a [] ys = refl
edge-append a (b ∷ xs) ys = ground (arith, edge-append a xs ys)
