-- ===== src/PhysMem/Laws.antt =====
-- The allocator hands out each frame of its range to one owner at a time.
use osfinal_project.Prelude.{
  ℕ, ◌%◌, ◌^◌, ◌≤◌, ◌<◌, ◌≡◌, ◌≢◌, refl, arith, true, false, List, [], ◌∷◌,
}
use osfinal_project.Chain.{has, Chain}
use osfinal_project.PhysMem.{Memory, PhysMem, zero_frame}

-- Every frame of the list is aligned, not the null pointer, and in the range that has been handed out.
abbrev AllFrames : ℕ → ℕ → List ℕ → Type 0
AllFrames start avail [] = Unit {0}
AllFrames start avail (p ∷ ps) =
    (p % 4096 ≡ 0) × (start ≤ p) × (p < avail) × AllFrames start avail ps

-- `free` is the list of free frames of an allocator that was initialised at `start`.
pub record IsAllocator (start : ℕ) (s : PhysMem) (free : List ℕ) : Type 0 where
  pub above : 0 < start
  pub start_aligned : start % 4096 ≡ 0
  pub avail_aligned : s.avail % 4096 ≡ 0
  pub limit_aligned : s.limit % 4096 ≡ 0
  pub began : start ≤ s.avail
  pub bounded : s.avail ≤ s.limit
  pub fits : s.limit < 2 ^ 32
  pub frames : AllFrames start s.avail free
  pub chain : Chain s.memory s.first_free free

-- A frame that is in use: in the range that has been handed out, and not free.
pub record InUse (start : ℕ) (s : PhysMem) (free : List ℕ) (p : ℕ) : Type 0 where
  pub aligned : p % 4096 ≡ 0
  pub low : start ≤ p
  pub high : p < s.avail
  pub not_free : has p free ≡ false

AllFrames-mono : (start a b : ℕ) (ps : List ℕ) → a ≤ b → AllFrames start a ps → AllFrames start b ps
AllFrames-mono start a b [] le h = tt
AllFrames-mono start a b (p ∷ ps) le h = (h.0, h.1, omega arith, AllFrames-mono start a b ps le h.3)

not_has_above : (start a : ℕ) (ps : List ℕ) → AllFrames start a ps → has a ps ≡ false
not_has_above start a [] h = refl
not_has_above start a (p ∷ ps) h = ground (arith, not_has_above start a ps h.3)

pub has-aligned :
    (start avail : ℕ) (ps : List ℕ) (a : ℕ)
    → AllFrames start avail ps
    → has a ps ≡ true
    → (a % 4096 ≡ 0) × (start ≤ a) × (a < avail)
has-aligned start avail [] a h e = cc
has-aligned start avail (p ∷ ps) a h e = ground (arith, has-aligned start avail ps a h.3)

-- Zeroing an aligned frame spares every other frame.
pub zero_frame_other :
    (m : Memory) (p a : ℕ) → p % 4096 ≡ 0 → a % 4096 ≡ 0 → p ≢ a → zero_frame m p a ≡ m a
zero_frame_other m p a hp ha ne = ground arith
