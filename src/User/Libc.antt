-- ===== src/User/Libc.antt =====
-- t0.dir/sbin/libc.c: `puts` and `cp` over the system calls `read` and `write`, which are a parameter.
pub mod Laws
use osfinal_project.Prelude.{
  ℕ, zero, suc, ◌+◌, ◌-◌, ◌^◌, Bool, true, false, Option, none, some, List, [], ◌∷◌, ◌++◌, ◌==◌,
  ltb, leb, if◌then◌else◌, drop, length,
}

-- What `read(from, buf, n)` fills in, or an error; and how many of the bytes `write(to, ptr, n)` takes, or an
-- error. `S` is the state of the files.
pub record Calls (S : Type 0) : Type 0 where
  pub read : S → ℕ → Option (List ℕ) × S
  pub write : S → List ℕ → Option ℕ × S

module _ {S : Type 0} (calls : Calls S) where
  -- The inner loop of `cp`; an error ends it. `none` is out of fuel.
  pub cp_write : ℕ → S → List ℕ → Option S
  cp_write zero s bytes = none
  cp_write (suc f) s bytes = elim (ltb 0 (length bytes)) [
    | false ↦ some s
    | true ↦
        let (taken, t) = calls.write s bytes in
        elim taken [ none ↦ some t | some m ↦ cp_write f t (drop m bytes) ]
  ]

  -- `cp`: rounds of 100 bytes; an error of `read` ends it, an error of `write` does not.
  pub cp : ℕ → S → Option S
  unfolding cp_write
  cp zero s = none
  cp (suc f) s =
      let (got, t) = calls.read s 100 in
      elim got [
        | none ↦ some t
        | some bytes ↦ elim (length bytes == 0) [
          | true ↦ some t
          | false ↦ elim (cp_write 101 t bytes) [ none ↦ none | some u ↦ cp f u ]
        ]
      ]

  -- `putchar`: a byte to the console.
  abbrev putchar : S → ℕ → Option ℕ × S
  putchar s c = calls.write s (c ∷ [])

  -- `puts`, from index `i` on, after `count` characters: the count with the line feed, or the error.
  pub puts : ℕ → S → (p : ℕ → ℕ) → (i count : ℕ) → Option (Option ℕ × S)
  puts zero s p i count = none
  puts (suc f) s p i count = elim (p i == 0) [
    | true ↦ let (n, t) = putchar s 0x0a in some (some (count + 1), t)
    | false ↦
        let (n, t) = putchar s (p i) in
        elim n [ none ↦ some (none, t) | some m ↦ puts f t p (i + 1) (count + 1) ]
  ]
