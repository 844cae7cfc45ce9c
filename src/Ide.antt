-- ===== src/Ide.antt =====
-- kernel/ide.cc: the driver that reads a sector of a disk through its ports. The ports of the machine are a
-- parameter, with a state `D` of what lies behind them. The lock is held for the whole call; the
-- counter of the calls is only printed.
pub mod Laws
use osfinal_project.Prelude.{
  ℕ, zero, suc, ◌+◌, ◌*◌, ◌/◌, ◌%◌, ◌^◌, Bool, true, false, Option, none, some, List, [], ◌∷◌, ◌||◌,
  ◌==◌, if◌then◌else◌,
}

-- `inb`, `outb` and `inl`.
pub record Ports (D : Type 0) : Type 0 where
  pub inb : D → ℕ → ℕ × D
  pub outb : D → (port value : ℕ) → D
  pub inl : D → ℕ → ℕ × D

abbrev controller : ℕ → ℕ
controller drive = drive / 2 % 2

abbrev pub channel : ℕ → ℕ
channel drive = drive % 2

abbrev pub port : ℕ → ℕ
port drive = if controller drive == 0 then 0x1f0 else 0x170

-- The bits of the status.
abbrev pub has_error : ℕ → Bool  -- `ERR | DF`
has_error s = (s % 2 == 1) || (s / 32 % 2 == 1)

abbrev pub has_data : ℕ → Bool  -- `DRQ`
has_data s = s / 8 % 2 == 1

abbrev pub is_ready : ℕ → Bool  -- `DRDY`
is_ready s = s / 64 % 2 == 1

abbrev pub is_busy : ℕ → Bool  -- `BSY`
is_busy s = s / 128 % 2 == 1

module _ {D : Type 0} (io : Ports D) (drive : ℕ) where
  abbrev get_status : D → ℕ × D
  get_status d = io.inb d (port drive + 7)

  -- `while ((getStatus(drive) & BSY) != 0)`; `none` is out of fuel.
  pub busy_loop : ℕ → D → Option D
  busy_loop zero d = none
  busy_loop (suc f) d =
      let (s, e) = get_status d in elim (is_busy s) [ false ↦ some e | true ↦ busy_loop f e ]

  -- An error, or a drive that is not ready, is a panic.
  pub wait_for_drive : ℕ → D → Option D
  unfolding busy_loop
  wait_for_drive f d =
      let (s, e) = get_status d in
      elim (has_error s) [
        | true ↦ none
        | false ↦ elim (is_ready s) [ false ↦ none | true ↦ busy_loop f e ]
      ]

  -- `while ((getStatus(drive) & DRQ) == 0)`
  pub data_loop : ℕ → D → Option D
  data_loop zero d = none
  data_loop (suc f) d =
      let (s, e) = get_status d in elim (has_data s) [ true ↦ some e | false ↦ data_loop f e ]

  -- `n` words, as the bytes that they are in the buffer.
  pub read_words : ℕ → D → List ℕ × D
  read_words zero d = ([], d)
  read_words (suc n) d =
      let (w, e) = io.inl d (port drive) in
      let (rest, f) = read_words n e in
      (w % 256 ∷ w / 256 % 256 ∷ w / 65536 % 256 ∷ w / 16777216 % 256 ∷ rest, f)

  -- The writes to the registers; the last one starts the command. A port takes a byte.
  pub command : D → (sector : ℕ) → D
  command d sector =
      let base = port drive in
      let d2 = io.outb d (base + 2) 1 in
      let d3 = io.outb d2 (base + 3) (sector % 256) in
      let d4 = io.outb d3 (base + 4) (sector / 256 % 256) in
      let d5 = io.outb d4 (base + 5) (sector / 65536 % 256) in
      let d6 = io.outb d5 (base + 6) (0xE0 + 16 * channel drive + sector / 16777216 % 16) in
      io.outb d6 (base + 7) 0x20

  -- `Ide::read_block`
  pub read_block : ℕ → D → (sector : ℕ) → Option (List ℕ × D)
  unfolding wait_for_drive data_loop read_words command
  read_block f d sector = elim (wait_for_drive f d) [
    | none ↦ none
    | some e ↦ elim (wait_for_drive f (command e sector)) [
      | none ↦ none
      | some g ↦ elim (data_loop f g) [ none ↦ none | some h ↦ some (read_words 128 h) ]
    ]
  ]
