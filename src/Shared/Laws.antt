-- ===== src/Shared/Laws.antt =====
-- An object is deleted exactly when the last reference to it goes.
use osfinal_project.Prelude.{
  ℕ, zero, suc, ◌+◌, ◌-◌, ◌^◌, ◌≤◌, ◌<◌, ◌≡◌, ◌≢◌, ℕ_discrete, inl, inr, refl, ap, sym, ◌∙◌, arith,
  List, [], ◌∷◌, ◌&&◌, ltb, ◌==◌, if◌then◌else◌, length, length-set, Bool-cases, set,
}
use osfinal_project.Shared.{
  References, ptr_of, add, drop, release, point, Operation, adopt, empty, copy, move, destroy,
  assign, assign_copy, assign_move, apply,
}

drop-length : (s : References) (i : ℕ) → length (drop s i).ptrs ≡ length s.ptrs
drop-length s i = ground (arith, length-set s.ptrs i 0)

-- How often the list has `p`.
abbrev pub times : ℕ → List ℕ → ℕ
times p [] = 0
times p (q ∷ qs) = (if q == p then 1 else 0) + times p qs

times-set :
    (p : ℕ) (ps : List ℕ) (i q : ℕ)
    → i < length ps
    → times p (set ps i q) + (if ptr_of ps i == p then 1 else 0)
      ≡ times p ps + (if q == p then 1 else 0)
times-set p [] i q lt = absurd (omega arith)
times-set p (r ∷ ps) zero q lt = omega arith
times-set p (r ∷ ps) (suc i) q lt = omega (arith, times-set p ps i q (omega arith))

times-le : (p : ℕ) (ps : List ℕ) → times p ps ≤ length ps
times-le p [] = omega arith
times-le p (q ∷ ps) = ground (arith, times-le p ps)

times-pos : (p : ℕ) (ps : List ℕ) (i : ℕ) → i < length ps → ptr_of ps i ≡ p → 0 < times p ps
times-pos p [] i lt e = absurd (omega arith)
times-pos p (q ∷ ps) zero lt e = ground (arith, e)
times-pos p (q ∷ ps) (suc i) lt e = omega (arith, times-pos p ps i (omega arith) e)

ptr_of-set :
    (ps : List ℕ) (i j q : ℕ)
    → i < length ps
    → ptr_of (set ps i q) j ≡ (if j == i then q else ptr_of ps j)
ptr_of-set [] i j q lt = absurd (omega arith)
ptr_of-set (p ∷ ps) zero zero q lt = refl
ptr_of-set (p ∷ ps) zero (suc j) q lt = ground arith
ptr_of-set (p ∷ ps) (suc i) zero q lt = ground arith
ptr_of-set (p ∷ ps) (suc i) (suc j) q lt = ground (arith, ptr_of-set ps i j q (omega arith))

-- The count of each object is the number of references to it; no object was deleted twice, and none
-- that was deleted has a reference.
pub record IsCounted (s : References) : Type 0 where
  pub counts : (p : ℕ) → p ≢ 0 → s.ref_count p ≡ times p s.ptrs
  pub dangling : (p : ℕ) → p ≢ 0 → 0 < times p s.deleted → times p s.ptrs ≡ 0
  pub once : (p : ℕ) → p ≢ 0 → times p s.deleted ≤ 1
  pub room : length s.ptrs + 1 < 2 ^ 32

-- The operation is on `Shared`s that exist, and on an object that was not deleted.
abbrev MayApply : References → Operation → Type 0
MayApply s (adopt p) = times p s.deleted ≡ 0
MayApply s empty = Unit {0}
MayApply s (copy i) = i < length s.ptrs
MayApply s (move i) = i < length s.ptrs
MayApply s (destroy i) = i < length s.ptrs
MayApply s (assign i p) = (i < length s.ptrs) × (times p s.deleted ≡ 0)
MayApply s (assign_copy i j) = (i < length s.ptrs) × (j < length s.ptrs)
MayApply s (assign_move i j) = (i < length s.ptrs) × (j < length s.ptrs)

-- What an operation keeps for the object `p`.
pub record Kept (s t : References) (p : ℕ) : Type 0 where
  pub count : t.ref_count p ≡ times p t.ptrs
  pub gone :
      times p t.deleted
      ≡ times p s.deleted + (if ltb 0 (times p s.ptrs) && (times p t.ptrs == 0) then 1 else 0)
  pub dead : 0 < times p t.deleted → times p t.ptrs ≡ 0

set-set : (ps : List ℕ) (i a q : ℕ) → set (set ps i a) i q ≡ set ps i q
set-set [] i a q = refl
set-set (p ∷ ps) zero a q = refl
set-set (p ∷ ps) (suc i) a q = ap (λ (l : List ℕ). p ∷ l) (set-set ps i a q)

-- A reference that is dropped and set to `q`, for the object `p`.
record Replaced (s : References) (o q p : ℕ) (t : References) : Type 0 where
  count : t.ref_count p ≡ s.ref_count p - (if o == p then 1 else 0)
  refs : times p t.ptrs + (if o == p then 1 else 0) ≡ times p s.ptrs + (if q == p then 1 else 0)
  gone : times p t.deleted ≡ times p s.deleted + (if (o == p) && (s.ref_count p == 1) then 1 else 0)

release-Replaced :
    (s : References) (i o q p : ℕ)
    → (s.ref_count p < 2 ^ 32)
    → (o ≡ p → 0 < s.ref_count p)
    → p ≢ 0
    → times p (set s.ptrs i q) + (if o == p then 1 else 0)
      ≡ times p s.ptrs + (if q == p then 1 else 0)
    → Replaced s o q p (point (release s i o) i q)
release-Replaced s i o q p fit pos nz moved = elim (ℕ_discrete o p) [
  | yes e ↦
      let same : s.ref_count o ≡ s.ref_count p = ap s.ref_count e in
      record {
        count = ground (arith, same, pos e, fit, nz, e);
        refs = ground (arith, set-set s.ptrs i 0 q, moved);
        gone = ground (arith, same, pos e, fit, nz, e);
      }
  | no ne ↦ record {
    count = ground (arith, ne);
    refs = ground (arith, set-set s.ptrs i 0 q, moved);
    gone = ground (arith, ne);
  }
]

drop-Replaced :
    (s : References) (i q p : ℕ)
    → IsCounted s
    → i < length s.ptrs
    → p ≢ 0
    → Replaced s (ptr_of s.ptrs i) q p (point (drop s i) i q)
drop-Replaced s i q p v lt nz =
    let c = v.counts p nz in
    let room = v.room in
    let le = times-le p s.ptrs in
    let moved = times-set p s.ptrs i q lt in
    release-Replaced s i (ptr_of s.ptrs i) q p (omega (arith, c, room, le))
      (λ e. omega (arith, c, times-pos p s.ptrs i lt e)) nz moved

-- What is not a reference to `p` after an operation was none before.
module _ (s : References) (p : ℕ) (v : IsCounted s) (nz : p ≢ 0) where
  -- The new reference to `q` is counted.
  counted_again :
      (t : References) (o q : ℕ)
      → Replaced s o q p t
      → (o ≡ p → 0 < times p s.ptrs)
      → (q ≡ p → times p s.deleted ≡ 0)
      → o ≢ q
      → Kept s (add t q) p
  counted_again t o q r pos live ne =
      let c = v.counts p nz in
      let room = v.room in
      let d = v.dangling p nz in
      let le = times-le p s.ptrs in
      let count = r.count in
      let refs = r.refs in
      let gone = r.gone in
      elim (ℕ_discrete o p) [
        | yes e ↦ record {
          count = ground (arith, c, room, le, count, refs, pos e, e, ne);
          gone = ground (arith, c, room, le, count, refs, pos e, e, ne, gone);
          dead = λ h. ground (arith, c, room, le, count, refs, pos e, e, ne, gone, h, d);
        }
        | no other ↦ elim (ℕ_discrete q p) [
          | yes e ↦
              let same : t.ref_count q ≡ t.ref_count p = ap t.ref_count e in
              record {
                count = ground (arith, c, room, le, count, refs, other, e, same);
                gone = ground (arith, c, room, le, count, refs, other, e, gone);
                dead = λ h. ground (arith, refs, other, e, gone, h, live e);
              }
          | no another ↦ record {
            count = ground (arith, c, room, le, count, refs, other, another);
            gone = ground (arith, c, room, le, count, refs, other, another, gone);
            dead = λ h. ground (arith, refs, other, another, gone, h, d);
          }
        ]
      ]

  -- A new `Shared` with the pointer `q`.
  added :
      (q : ℕ) → (q ≡ p → times p s.deleted ≡ 0) → Kept s (add (record s { ptrs = q ∷ s.ptrs }) q) p
  added q live =
      let c = v.counts p nz in
      let room = v.room in
      let d = v.dangling p nz in
      let le = times-le p s.ptrs in
      elim (ℕ_discrete q p) [
        | yes e ↦
            let same : s.ref_count q ≡ s.ref_count p = ap s.ref_count e in
            record {
              count = ground (arith, c, le, room, e, same, nz);
              gone = ground (arith, e, nz, d);
              dead = λ h. ground (arith, e, nz, live e, h);
            }
        | no ne ↦ record {
          count = ground (arith, c, ne);
          gone = ground (arith, ne, d);
          dead = λ h. ground (arith, ne, d, h);
        }
      ]

  -- A reference that goes, with none in its place.
  dropped :
      (t : References) (o : ℕ)
      → t.ref_count p ≡ s.ref_count p - (if o == p then 1 else 0)
      → times p t.ptrs + (if o == p then 1 else 0) ≡ times p s.ptrs
      → times p t.deleted ≡ times p s.deleted + (if (o == p) && (s.ref_count p == 1) then 1 else 0)
      → Kept s t p
  dropped t o count refs gone =
      let c = v.counts p nz in
      let d = v.dangling p nz in
      elim (ℕ_discrete o p) [
        | yes e ↦ record {
          count = ground (arith, c, count, refs, e);
          gone = ground (arith, c, refs, gone, e);
          dead = λ h. ground (arith, c, refs, gone, e, d, h);
        }
        | no ne ↦ record {
          count = ground (arith, c, count, refs, ne);
          gone = ground (arith, refs, gone, ne);
          dead = λ h. ground (arith, refs, gone, ne, d, h);
        }
      ]

  unchanged : Kept s s p
  unchanged =
      let d = v.dangling p nz in record { count = v.counts p nz; gone = ground arith; dead = d }

  live : (i q : ℕ) → i < length s.ptrs → ptr_of s.ptrs i ≡ q → q ≡ p → times p s.deleted ≡ 0
  live i q lt at e = let d = v.dangling p nz in ground (arith, d, times-pos p s.ptrs i lt (at ∙ e))

  moved_from : (i : ℕ) → i < length s.ptrs → Kept s (apply s (move i)) p
  unfolding apply
  moved_from i lt =
      let c = v.counts p nz in
      let d = v.dangling p nz in
      let refs = times-set p s.ptrs i 0 lt in
      record {
        count = ground (arith, c, refs, nz);
        gone = ground (arith, refs, nz, d);
        dead = λ h. ground (arith, refs, nz, d, h);
      }

  emptied : Kept s (apply s empty) p
  unfolding apply
  emptied =
      let d = v.dangling p nz in
      record {
        count = ground (arith, v.counts p nz, nz);
        gone = ground (arith, nz);
        dead = λ h. ground (arith, nz, d, h);
      }

  reassigned :
      (i q : ℕ)
      → i < length s.ptrs
      → (q ≡ p → times p s.deleted ≡ 0)
      → Kept s (if ptr_of s.ptrs i == q then s else add (point (drop s i) i q) q) p
  reassigned i q lt fresh = elim (Bool-cases (ptr_of s.ptrs i == q)) [
    | inl e ↦ rw e unchanged
    | inr ne ↦ rw ne (
        counted_again (point (drop s i) i q) (ptr_of s.ptrs i) q (drop-Replaced s i q p v lt nz)
          (λ e. times-pos p s.ptrs i lt e) fresh (ground (arith, ne)))
  ]

  destroyed : (i : ℕ) → i < length s.ptrs → Kept s (apply s (destroy i)) p
  unfolding apply
  destroyed i lt =
      let r = drop-Replaced s i 0 p v lt nz in
      let refs = r.refs in
      dropped (point (drop s i) i 0) (ptr_of s.ptrs i) r.count (ground (arith, refs, nz)) r.gone

  taken_over :
      (i j : ℕ) → i < length s.ptrs → j < length s.ptrs → Kept s (apply s (assign_move i j)) p
  unfolding apply
  taken_over i j lt lt' =
      let t = drop s i in
      let q = ptr_of t.ptrs j in
      let r = drop-Replaced s i q p v lt nz in
      let refs = r.refs in
      let len : length t.ptrs ≡ length s.ptrs = drop-length s i in
      let len' : length (set t.ptrs i q) ≡ length t.ptrs = length-set t.ptrs i q in
      let at : ptr_of (set t.ptrs i q) j ≡ q =
        ptr_of-set t.ptrs i j q (omega (arith, len)) ∙ ground arith in
      let none_left = times-set p (set t.ptrs i q) j 0 (omega (arith, len, len')) in
      let same = ap (λ (k : ℕ). k == p) at in
      dropped (point (point t i q) j 0) (ptr_of s.ptrs i) r.count
        (ground (arith, refs, none_left, same, nz)) r.gone

-- What an operation that may be made keeps, for each object.
apply-Kept :
    (s : References) (o : Operation) (p : ℕ)
    → IsCounted s
    → MayApply s o
    → p ≢ 0
    → Kept s (apply s o) p
unfolding apply
apply-Kept s (adopt q) p v may nz =
    added s p v nz q (λ e. ap (λ (k : ℕ). times k s.deleted) (sym e) ∙ may)
apply-Kept s empty p v may nz = emptied s p v nz
apply-Kept s (copy i) p v may nz =
    added s p v nz (ptr_of s.ptrs i) (live s p v nz i (ptr_of s.ptrs i) may refl)
apply-Kept s (move i) p v may nz = moved_from s p v nz i may
apply-Kept s (destroy i) p v may nz = destroyed s p v nz i may
apply-Kept s (assign i q) p v may nz =
    reassigned s p v nz i q may.0 (λ e. ap (λ (k : ℕ). times k s.deleted) (sym e) ∙ may.1)
apply-Kept s (assign_copy i j) p v may nz =
    reassigned s p v nz i (ptr_of s.ptrs j) may.0 (live s p v nz j (ptr_of s.ptrs j) may.1 refl)
apply-Kept s (assign_move i j) p v may nz = taken_over s p v nz i j may.0 may.1

-- A function of `Shared` that is called on references that exist, and on an object that was not
-- deleted, when there are fewer than 2^32 - 1 references afterwards, keeps the count of every
-- object at the number of its references, so that no object is deleted twice and none that was
-- deleted has a reference. It deletes exactly the objects that had a reference before and have none
-- afterwards.
pub apply-Deleted :
    (s : References) (o : Operation)
    → IsCounted s
    → MayApply s o
    → length (apply s o).ptrs + 1 < 2 ^ 32
    → IsCounted (apply s o)
      × ((p : ℕ)
          → p ≢ 0
          → times p (apply s o).deleted
            ≡ times p s.deleted
              + (if ltb 0 (times p s.ptrs) && (times p (apply s o).ptrs == 0) then 1 else 0))
apply-Deleted s o v may room = (
  record {
    counts = λ p nz. (apply-Kept s o p v may nz).count;
    dangling = λ p nz. (apply-Kept s o p v may nz).dead;
    once = λ p nz.
        let d = v.dangling p nz in
        let e = v.once p nz in let k = (apply-Kept s o p v may nz).gone in ground (arith, d, e, k);
    room = room;
  },
  λ p nz. (apply-Kept s o p v may nz).gone,
)
