-- ===== src/Tests/Programs.antt =====
-- A text for wc, and a process that forks.
use osfinal_project.Prelude.{ℕ, ◌≡◌, refl, arith, none, some, [], ◌∷◌, get_or, replicate}
use osfinal_project.Syscall.Fork.{Processes, child_slot, fork_tables, wait, exit, waits, returned}
use osfinal_project.Syscall.Fork.Laws.{fork-wait}

-- "a bc\nd"
abbrev text : ℕ → ℕ
text i = get_or (b'a' ∷ 0x20 ∷ b'b' ∷ b'c' ∷ 0x0a ∷ b'd' ∷ []) i 0

-- A process 1 with one child, 7.
abbrev family : Processes
family = record {
  tables = λ k. record {
    fd = replicate 10 (some k);
    sp = replicate 10 none;
    cp = some 7 ∷ replicate 9 none;
  };
  status = λ k. none;
}

slot_21 : child_slot 20 (family.tables 1).cp ≡ some 21
unfolding child_slot
slot_21 = refl

fork-wait_example :
    (t u v : Processes) × (fork_tables family 1 8 ≡ (21, t))
    × ((t.tables 8).fd ≡ replicate 10 (some 1))
    × ((t.tables 8).sp ≡ replicate 10 none)
    × (wait t 1 21 ≡ some waits)
    × (exit t 8 3 ≡ some u)
    × (wait u 1 21 ≡ some (returned 0 (some 3) v))
    × ((v.tables 1).cp ≡ some 7 ∷ replicate 9 none)
fork-wait_example = fork-wait family 1 8 21 3 (omega arith) slot_21 refl
