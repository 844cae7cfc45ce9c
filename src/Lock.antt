-- ===== src/Lock.antt =====
-- `InterruptSafeLock` of kernel/atomic.h, between the processors. Each access to `taken` is atomic; a
-- processor that has its interrupts disabled runs nothing else, so a processor is in one call at a time.
pub mod Laws
pub mod Flexible
use osfinal_project.Prelude.{Bool, true, false, if◌then◌else◌, List, [], ◌∷◌}
use osfinal_project.Turns.{Move, steps}

-- `taken` and `was`.
pub record Lock : Type 0 where
  pub taken : Bool
  pub was : Bool

-- Where a processor is: in no call; in `lock`, before `Interrupts::disable`, before the exchange, before
-- it stores `was`, before it restores the interrupts for the next try; between the calls; in `unlock`,
-- before it clears `taken`, before it restores the interrupts. A flag is the local `wasDisabled`.
pub data Stage : Type 0 where
  outside : Stage
  tries : Stage
  exchanges : Bool → Stage
  stores : Bool → Stage
  retries : Bool → Stage
  inside : Stage
  clears : Bool → Stage
  restores : Bool → Stage

-- A processor, and whether its interrupts are disabled.
pub record Cpu : Type 0 where
  pub disabled : Bool
  pub stage : Stage

-- `Interrupts::restore`
abbrev restore : Cpu → Bool → Stage → Cpu
restore c was_disabled stage = record {
  disabled = if was_disabled then c.disabled else false;
  stage = stage;
}

pub step_at : Lock → Cpu → Stage → Move Lock Cpu
step_at l c outside = steps l (record c { stage = tries })
step_at l c tries = steps l (record { disabled = true; stage = exchanges c.disabled })
step_at l c (exchanges w) =
    if l.taken
    then steps (record l { taken = true }) (record c { stage = retries w })
    else steps (record l { taken = true }) (record c { stage = stores w })
step_at l c (stores w) = steps (record l { was = w }) (record c { stage = inside })
step_at l c (retries w) = steps l (restore c w tries)
step_at l c inside = steps l (record c { stage = clears l.was })
step_at l c (clears w) = steps (record l { taken = false }) (record c { stage = restores w })
step_at l c (restores w) = steps l (restore c w outside)

-- The next step of a processor.
abbrev pub advance : Lock → Cpu → Move Lock Cpu
advance l c = step_at l c c.stage

-- Processors that are in no call, by their interrupt flags.
abbrev pub processors : List Bool → List Cpu
processors [] = []
processors (f ∷ fs) = record { disabled = f; stage = outside } ∷ processors fs
