-- ===== src/Ext2/Path/Laws.antt =====
-- A path is looked up component by component.
use osfinal_project.Prelude.{
  ℕ, zero, suc, ◌+◌, ◌≤◌, ◌<◌, ◌≡◌, refl, ap, ◌∙◌, sym, arith, true, false, Option, none, some,
  List, [], ◌∷◌, ◌++◌, append-nil, append_assoc, leb, ◌==◌, if◌then◌else◌, length, Bool-cases,
  Option-cases, inl, inr,
}
use osfinal_project.Ext2.Inode.{Node}
use osfinal_project.Ext2.Mount.{Ext2}
use osfinal_project.Ext2.Path.{skip_slashes, at_end, take_part, lookup, find_loop, find_path}

-- A component, if it is not empty.
abbrev flush : List ℕ → List (List ℕ)
flush [] = []
flush (c ∷ cs) = (c ∷ cs) ∷ []

-- The components of a path: its parts between slashes, up to the NUL, without the empty ones.
-- `part` is the part that has been read so far.
pub components_from : List ℕ → List ℕ → List (List ℕ)
components_from part [] = flush part
components_from part (c ∷ p) =
    let split = components_from [] p in
    let more = components_from (part ++ (c ∷ [])) p in
    if c == 0 then flush part else if c == b'/' then flush part ++ split else more

abbrev pub components : List ℕ → List (List ℕ)
components path = components_from [] path

-- One lookup for each component. A null reference ends the walk, and so does a panic.
pub walk : Ext2 → Option Node → List (List ℕ) → Option (Option Node)
walk fs none parts = some none
walk fs (some dir) [] = some (some dir)
walk fs (some dir) (part ∷ parts) = elim (leb (length part) 256) [
  | false ↦ none
  | true ↦ elim (lookup fs dir part) [ none ↦ none | some next ↦ walk fs next parts ]
]

components-skip_slashes : (p : List ℕ) → components (skip_slashes p) ≡ components p
unfolding components_from skip_slashes
components-skip_slashes [] = refl
components-skip_slashes (c ∷ p) = ground (arith, components-skip_slashes p)

components_from-take_part :
    (part p : List ℕ)
    → components_from part p ≡ flush (part ++ (take_part p).0) ++ components (take_part p).1
unfolding components_from take_part
components_from-take_part part [] =
    sym (append-nil (flush part)) ∙ ap (λ t. flush t ++ []) (sym (append-nil part))
components_from-take_part part (c ∷ p) = ground (
  arith,
  append-nil part,
  append-nil (flush part),
  components_from-take_part (part ++ (c ∷ [])) p,
  append_assoc part (c ∷ []) (take_part p).0,
)

length-skip_slashes : (p : List ℕ) → length (skip_slashes p) ≤ length p
unfolding skip_slashes
length-skip_slashes [] = omega arith
length-skip_slashes (c ∷ p) = ground (arith, length-skip_slashes p)

length-take_part : (p : List ℕ) → length (take_part p).1 ≤ length p
unfolding take_part
length-take_part [] = omega arith
length-take_part (c ∷ p) = ground (arith, length-take_part p)

-- What stands behind the slashes is the end, or a component and the path behind it.
data Ahead : List ℕ → Type 0 where
  over : {p : List ℕ} → at_end p ≡ true → components p ≡ [] → Ahead p
  part :
      {p : List ℕ}
      → at_end p ≡ false
      → components p ≡ (take_part p).0 ∷ components (take_part p).1
      → length (take_part p).1 < length p
      → Ahead p

at_part : (c : ℕ) (p : List ℕ) → (c == 0) ≡ false → (c == b'/') ≡ false → Ahead (c ∷ p)
unfolding components_from take_part at_end
at_part c p not_end not_slash =
    part not_end (ground (arith, components_from-take_part (c ∷ []) p))
      (ground (arith, length-take_part p))

ahead : (p : List ℕ) → Ahead (skip_slashes p)
unfolding skip_slashes at_end components_from
ahead [] = over refl refl
ahead (c ∷ p) = elim (Bool-cases (c == b'/')) [
  | inl slash ↦ rw slash (ahead p)
  | inr not_slash ↦ rw not_slash (elim (Bool-cases (c == 0)) [
    | inl end ↦ over end (ground arith)
    | inr not_end ↦ at_part c p not_end not_slash
  ])
]

-- One round of the loop is one component of the path.
round_lem :
    (fuel : ℕ) (fs : Ext2) (dir : Node) (path : List ℕ)
    → Ahead (skip_slashes path)
    → ((cur : Option Node) (p : List ℕ)
        → length p < fuel
        → find_loop fuel fs cur p ≡ walk fs cur (components p))
    → length path < suc fuel
    → find_loop (suc fuel) fs (some dir) path ≡ walk fs (some dir) (components (skip_slashes path))
unfolding find_loop walk
round_lem fuel fs dir path (over e none_left) ih lt = rw none_left (ground arith)
round_lem fuel fs dir path (part e one shorter) ih lt =
    rw one (elim (Option-cases (lookup fs dir (take_part (skip_slashes path)).0)) [
      | inl stop ↦ ground arith
      | inr (next, found) ↦ ground (
        arith,
        ih next (take_part (skip_slashes path)).1 (omega (arith, length-skip_slashes path)),
      )
    ])

find_loop-walk :
    (fuel : ℕ) (fs : Ext2) (current : Option Node) (path : List ℕ)
    → length path < fuel
    → find_loop fuel fs current path ≡ walk fs current (components path)
unfolding find_loop walk
find_loop-walk zero fs current path lt = elim lt [ ]
find_loop-walk (suc fuel) fs none path lt = refl
find_loop-walk (suc fuel) fs (some dir) path lt =
    round_lem fuel fs dir path (ahead path) (find_loop-walk fuel fs) lt
    ∙ ap (walk fs (some dir)) (components-skip_slashes path)

-- `Ext2::find` is a walk that looks up the components of the path one after the other: the loop
-- ends, and repeated, leading and trailing slashes make no difference.
pub find_path-walk :
    (fs : Ext2) (current : Option Node) (path : List ℕ)
    → find_path fs current path ≡ walk fs current (components path)
unfolding find_path
find_path-walk fs current path = find_loop-walk (length path + 1) fs current path (omega arith)
