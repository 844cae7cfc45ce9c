-- ===== src/Chain.antt =====
-- Singly linked chains of distinct objects in memory: the free list of kernel/physmem.cc and the
-- queues of kernel/queue.h.
use osfinal_project.Prelude.{
  ℕ, ◌≡◌, ◌≢◌, sym, subst, arith, Bool, true, false, List, [], ◌∷◌, ◌==◌, ◌||◌,
}

-- Whether the list has the object.
abbrev pub has : ℕ → List ℕ → Bool
has a [] = false
has a (x ∷ xs) = (x == a) || has a xs

-- The objects linked from `p` on, where `m` gives the one behind each; 0 is the null pointer.
pub data Chain (m : ℕ → ℕ) : ℕ → List ℕ → Type 0 where
  end : Chain m 0 []
  link : {p : ℕ} {ps : List ℕ} → p ≢ 0 → has p ps ≡ false → Chain m (m p) ps → Chain m p (p ∷ ps)

-- Writes to other places leave the chain as it is.
pub Chain-frame :
    {m m' : ℕ → ℕ} {p : ℕ} {ps : List ℕ}
    → Chain m p ps
    → ((a : ℕ) → has a ps ≡ true → m' a ≡ m a)
    → Chain m' p ps
Chain-frame end same = end
Chain-frame {m} {m'} (link {p} {ps} nz fresh c) same = link nz fresh (
    subst (λ q. Chain m' q ps) (sym (same p (ground arith)))
      (Chain-frame c (λ a e. same a (ground arith))))
