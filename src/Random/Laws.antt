-- ===== src/Random/Laws.antt =====
-- The two parts of the state are powers of the multipliers, modulo two numbers.
use native.Mathlib.Nat.{add-mod, mul_assoc, pow-suc}
use osfinal_project.Prelude.{
  ℕ, zero, suc, ◌+◌, ◌*◌, ◌%◌, ◌^◌, ◌<◌, ◌≡◌, ◌≢◌, ap, ap₂, sym, ◌∙◌, arith,
}
use osfinal_project.Random.{Random, seeded, next, after}

mul-mod_cong : (p c x y : ℕ) → x % p ≡ y % p → (c * x) % p ≡ (c * y) % p
mul-mod_cong p zero x y e = ap (λ (n : ℕ). n % p) (omega arith)
mul-mod_cong p (suc c) x y e =
    ap (λ (n : ℕ). n % p) (grind arith)
    ∙ add-mod x (c * x) p
    ∙ ap₂ (λ (a b : ℕ). (a + b) % p) e (mul-mod_cong p c x y e)
    ∙ sym (add-mod y (c * y) p)
    ∙ ap (λ (n : ℕ). n % p) (grind arith)

-- The numbers that the constructor keeps the two parts from being.
abbrev w_modulus : ℕ
w_modulus = 0x464fffff

abbrev z_modulus : ℕ
z_modulus = 0x9068ffff

-- The two parts are 32-bit numbers, and none is a multiple of its modulus: the next one would be, too, for ever.
pub record IsRandom (r : Random) : Type 0 where
  pub w_fits : r.w < 2 ^ 32
  pub z_fits : r.z < 2 ^ 32
  pub w_moves : r.w % w_modulus ≢ 0
  pub z_moves : r.z % z_modulus ≢ 0

next-IsRandom : (r : Random) → IsRandom r → IsRandom (next r).1
unfolding next
next-IsRandom r v =
    let a = v.w_fits in
    let b = v.z_fits in
    record {
      w_fits = omega arith;
      z_fits = omega arith;
      w_moves = λ e. v.w_moves (omega (arith, a, e));
      z_moves = λ e. v.z_moves (omega (arith, b, e));
    }

seeded-IsRandom :
    (seed : ℕ)
    → seed < 2 ^ 32
    → seed ≢ 2 * w_modulus
    → seed ≢ 3 * w_modulus
    → IsRandom (seeded seed)
unfolding seeded
seeded-IsRandom seed small no2 no3 = record {
  w_fits = ground (arith, small);
  z_fits = ground (arith, small);
  w_moves = ground (arith, small, no2, no3);
  z_moves = ground (arith, small);
}

next-multiplies :
    (r : Random)
    → IsRandom r
    → ((next r).1.w % w_modulus ≡ (18000 * r.w) % w_modulus)
      × ((next r).1.z % z_modulus ≡ (36969 * r.z) % z_modulus)
unfolding next
next-multiplies r v = let a = v.w_fits in let b = v.z_fits in (omega (arith, a), omega (arith, b))

power_step : (p a n x y : ℕ) → y % p ≡ (a * x) % p → (a ^ n * y) % p ≡ (a ^ suc n * x) % p
power_step p a n x y e =
    mul-mod_cong p (a ^ n) y (a * x) e
    ∙ ap (λ (k : ℕ). k % p) (sym (ap (λ (q : ℕ). q * x) (pow-suc a n) ∙ mul_assoc (a ^ n) a x))

after-powers :
    (n : ℕ) (r : Random)
    → IsRandom r
    → IsRandom (after n r)
      × ((after n r).w % w_modulus ≡ (18000 ^ n * r.w) % w_modulus)
      × ((after n r).z % z_modulus ≡ (36969 ^ n * r.z) % z_modulus)
unfolding after
after-powers zero r v =
    (v, ap (λ (k : ℕ). k % w_modulus) (omega arith), ap (λ (k : ℕ). k % z_modulus) (omega arith))
after-powers (suc n) r v =
    let (m, w, z) = after-powers n (next r).1 (next-IsRandom r v) in
    let (wm, zm) = next-multiplies r v in
    (
      m,
      w ∙ power_step w_modulus 18000 n r.w (next r).1.w wm,
      z ∙ power_step z_modulus 36969 n r.z (next r).1.z zm,
    )

seeded-powers :
    (n seed : ℕ)
    → seed < 2 ^ 32
    → seed ≢ 2 * w_modulus
    → seed ≢ 3 * w_modulus
    → IsRandom (after n (seeded seed))
      × ((after n (seeded seed)).w % w_modulus ≡ (18000 ^ n * (seeded seed).w) % w_modulus)
      × ((after n (seeded seed)).z % z_modulus ≡ (36969 ^ n * (seeded seed).z) % z_modulus)
seeded-powers n seed small no2 no3 =
    after-powers n (seeded seed) (seeded-IsRandom seed small no2 no3)
