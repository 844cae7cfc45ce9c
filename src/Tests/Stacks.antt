-- ===== src/Tests/Stacks.antt =====
-- The stack of a program with two arguments; and two locks.
use osfinal_project.Prelude.{
  ℕ, ◌+◌, ◌*◌, ◌≡◌, ◌≤◌, arith, Bool, true, false, some, List, [], ◌∷◌, ◌++◌,
}
use osfinal_project.Turns.{total, run}
use osfinal_project.Turns.Each.{Each}
use osfinal_project.Syscall.Exec.{Argument, strlen, user_stack}
use osfinal_project.Syscall.Exec.Stack.{Words, strings, addresses, user_stack-Words}
use osfinal_project.Lock.Flexible.{
  Spin, spin_step, spin_holds, callers, Processor, isl_advance, isl_holds, idle_processors,
  Restored, locks-Exclude,
}

abbrev two_arguments : List Argument
two_arguments =
    record { address = 0x200000; bytes = b'c' ∷ b'a' ∷ b't' ∷ 0 ∷ [] }
    ∷ record { address = 0x200010; bytes = b'a' ∷ 0 ∷ 0 ∷ 0 ∷ [] }
    ∷ []

abbrev untouched : ℕ → ℕ
untouched a = 0

strings_fit : strings two_arguments + 4 * 2 + 8 ≤ 0x6fffe000
unfolding strlen
strings_fit = omega arith

user_stack-Words_example :
    ((user_stack untouched two_arguments).1 + 8 + 4 * 2 + strings two_arguments ≡ 0xefffe000)
    × Words
        (user_stack untouched two_arguments).0
        (user_stack untouched two_arguments).1
        (2 ∷ (((user_stack untouched two_arguments).1 + 8) ∷ (addresses two_arguments ++ (0 ∷ []))))
user_stack-Words_example = user_stack-Words untouched two_arguments strings_fit (omega arith)

locks-Exclude_example :
    ((r : Bool × List Spin) × (run spin_step false (callers 2) (0 ∷ 1 ∷ 0 ∷ 1 ∷ 0 ∷ []) ≡ some r)
      × (total spin_holds r.1 ≤ 1))
    × ((r : Bool × List Processor) × (run isl_advance false
            (idle_processors (λ n. true) 0 2)
            (0 ∷ 1 ∷ 0 ∷ 1 ∷ 0 ∷ [])
          ≡ some r)
        × (total isl_holds r.1 ≤ 1)
        × Each (λ k c. Restored true c) 0 r.1)
locks-Exclude_example = locks-Exclude 2 (λ n. true) (0 ∷ 1 ∷ 0 ∷ 1 ∷ 0 ∷ [])
