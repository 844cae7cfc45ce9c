-- ===== src/Tests/Sharing.antt =====
-- References and a bounded buffer at concrete inputs.
use osfinal_project.Prelude.{
  ℕ, ◌+◌, ◌≡◌, ◌≢◌, refl, arith, true, List, [], ◌∷◌, ◌++◌, ◌&&◌, ◌==◌, ltb, if◌then◌else◌, length,
}
use osfinal_project.Turns.{any}
use osfinal_project.Shared.{References, assign_copy, apply}
use osfinal_project.Shared.Laws.{times, IsCounted, apply-Deleted}
use osfinal_project.Buffer.{BoundedBuffer, Pc, buffer, put_waits, get_waits, advance}
use osfinal_project.Buffer.Laws.{IsBuffer}
use osfinal_project.Buffer.Order.{
  puts, gets, waits_for_room, waits_for_value, run, run-Fifo, Stuck-full,
}

-- One reference to object 5, one to object 9, one null.
abbrev three : References
three = record {
  ptrs = 5 ∷ 9 ∷ 0 ∷ [];
  ref_count = λ p. (if p == 5 then 1 else 0) + (if p == 9 then 1 else 0);
  deleted = [];
}

three-IsCounted : IsCounted three
three-IsCounted = record {
  counts = λ p nz. ground (arith, nz);
  dangling = λ p nz h. absurd (omega (arith, h));
  once = λ p nz. omega arith;
  room = omega arith;
}

apply-Deleted_example :
    IsCounted (apply three (assign_copy 0 1))
    × ((p : ℕ)
        → p ≢ 0
        → times p (apply three (assign_copy 0 1)).deleted
          ≡ times p three.deleted
            + (if ltb 0 (times p three.ptrs) && (times p (apply three (assign_copy 0 1)).ptrs == 0)
                then 1
                else 0))
unfolding apply
apply-Deleted_example =
    apply-Deleted three (assign_copy 0 1) three-IsCounted (omega arith, omega arith) (omega arith)

-- Two places, a thread that puts 7, one that puts 8, and one that gets.
abbrev two_places : BoundedBuffer ℕ
two_places = buffer 2 (λ i. 0)

abbrev three_calls : List (Pc ℕ)
three_calls = put_waits 7 ∷ put_waits 8 ∷ get_waits ∷ []

two_places-IsBuffer : IsBuffer two_places three_calls []
two_places-IsBuffer = record {
  positive = omega arith;
  small = omega arith;
  inside = omega arith;
  held = refl;
  empties = refl;
  fulls = refl;
  locked = refl;
}

run-Fifo_example :
    let (es, c, us) = run two_places three_calls (0 ∷ 0 ∷ 2 ∷ 0 ∷ 1 ∷ 0 ∷ 0 ∷ 2 ∷ 2 ∷ 2 ∷ []) in
    (zs : List ℕ) × ([] ++ puts es ≡ gets es ++ zs) × IsBuffer c us zs
run-Fifo_example =
    run-Fifo two_places three_calls [] (0 ∷ 0 ∷ 2 ∷ 0 ∷ 1 ∷ 0 ∷ 0 ∷ 2 ∷ 2 ∷ 2 ∷ [])
      two_places-IsBuffer

-- A thread that gets from an empty buffer.
abbrev one_place : BoundedBuffer ℕ
one_place = buffer 1 (λ i. 0)

abbrev one_getter : List (Pc ℕ)
one_getter = get_waits ∷ []

abbrev none_held : List ℕ
none_held = []

Stuck-full_example :
    (any waits_for_room one_getter ≡ true → length none_held ≡ 1)
    × (any waits_for_value one_getter ≡ true → none_held ≡ [])
unfolding advance
Stuck-full_example =
    Stuck-full one_place one_getter []
      (record {
        positive = omega arith;
        small = omega arith;
        inside = omega arith;
        held = refl;
        empties = refl;
        fulls = refl;
        locked = refl;
      })
      (refl, tt)
