-- ===== src/Random.antt =====
-- kernel/random.h: a multiply-with-carry generator of random numbers.
pub mod Laws
use osfinal_project.Prelude.{ℕ, zero, suc, ◌+◌, ◌-◌, ◌*◌, ◌/◌, ◌%◌, ◌^◌, ◌||◌, ◌==◌, if◌then◌else◌}
use osfinal_project.Word.{add32, u32}

pub record Random : Type 0 where
  pub w : ℕ
  pub z : ℕ

-- The constructor, with a 32-bit seed.
pub seeded : ℕ → Random
seeded seed =
    let z = 2 ^ 32 - 1 - seed in
    record {
      w = if (seed == 0) || (seed == 0x464fffff) then add32 seed 1 else seed;
      z = if (z == 0) || (z == 0x9068ffff) then add32 z 1 else z;
    }

pub next : Random → ℕ × Random
next r =
    let z = u32 (36969 * (r.z % 65536) + r.z / 65536) in
    let w = u32 (18000 * (r.w % 65536) + r.w / 65536) in
    (add32 (u32 (z * 65536)) w, record { w = w; z = z })

-- The state after `n` numbers.
pub after : ℕ → Random → Random
unfolding next
after zero r = r
after (suc n) r = after n (next r).1
