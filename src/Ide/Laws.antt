-- ===== src/Ide/Laws.antt =====
-- The driver reads the sector that was asked for.
use osfinal_project.Prelude.{
  ℕ, zero, suc, ◌+◌, ◌*◌, ◌/◌, ◌%◌, ◌^◌, ◌≤◌, ◌<◌, ◌≡◌, refl, ap, ap₂, sym, ◌∙◌, subst, arith, true,
  false, some, List, [], ◌∷◌, length, update,
}
use osfinal_project.Ide.{
  Ports, channel, port, has_error, has_data, is_ready, is_busy, busy_loop, wait_for_drive,
  data_loop, read_words, command, read_block,
}

-- The bytes of little-endian words.
abbrev pub bytes_of : List ℕ → List ℕ
bytes_of [] = []
bytes_of (w ∷ ws) = w % 256 ∷ w / 256 % 256 ∷ w / 65536 % 256 ∷ w / 16777216 % 256 ∷ bytes_of ws

-- What a drive that takes commands answers, and one that gives the words of a sector: `Idle d regs` is a
-- state with these values in the registers, and `Reads d n ws` one in which the words `ws` are left, and the drive
-- is busy for `n` more reads of the status. Nothing is said of the other bits of a status that is busy.
pub record IsDrive {D : Type 0} (io : Ports D) (base : ℕ) (sectors : ℕ → ℕ → List ℕ) (delay : ℕ)
    (Idle : D → (ℕ → ℕ) → Type 0) (Reads : D → ℕ → List ℕ → Type 0) : Type 0 where
  pub idle_status :
      {d : D} {regs : ℕ → ℕ}
      → Idle d regs
      → (has_error (io.inb d (base + 7)).0 ≡ false)
        × (is_ready (io.inb d (base + 7)).0 ≡ true)
        × (is_busy (io.inb d (base + 7)).0 ≡ false)
        × Idle (io.inb d (base + 7)).1 regs
  pub idle_write :
      {d : D} {regs : ℕ → ℕ} (r v : ℕ)
      → Idle d regs
      → 2 ≤ r
      → r ≤ 6
      → Idle (io.outb d (base + r) v) (update regs r v)
  -- Register 2 has the number of sectors, and 3 to 6 have that of the sector, of 28 bits, which it is when the
  -- bit for linear addresses is set, and the drive. 0x20 reads.
  pub reads :
      {d : D} {regs : ℕ → ℕ}
      → Idle d regs
      → regs 2 ≡ 1
      → regs 6 / 64 % 2 ≡ 1
      → Reads (io.outb d (base + 7) 0x20) delay (
          sectors
            (regs 6 / 16 % 2)
            (regs 3 + 256 * regs 4 + 65536 * regs 5 + 16777216 * (regs 6 % 16)))
  pub busy :
      {d : D} {n : ℕ} {ws : List ℕ}
      → Reads d (suc n) ws
      → (is_busy (io.inb d (base + 7)).0 ≡ true) × Reads (io.inb d (base + 7)).1 n ws
  pub now :
      {d : D} {ws : List ℕ}
      → Reads d 0 ws
      → (is_busy (io.inb d (base + 7)).0 ≡ false)
        × (has_data (io.inb d (base + 7)).0 ≡ true)
        × Reads (io.inb d (base + 7)).1 0 ws
  pub next_word :
      {d : D} {w : ℕ} {ws : List ℕ}
      → Reads d 0 (w ∷ ws)
      → ((io.inl d base).0 ≡ w) × Reads (io.inl d base).1 0 ws

module _ {D : Type 0} (io : Ports D) (drive : ℕ) (sectors : ℕ → ℕ → List ℕ) (delay : ℕ)
    (Idle : D → (ℕ → ℕ) → Type 0) (Reads : D → ℕ → List ℕ → Type 0)
    (v : IsDrive io (port drive) sectors delay Idle Reads) where
  busy_loop-Reads :
      (f : ℕ) (d : D) (n : ℕ) (ws : List ℕ)
      → n < f
      → Reads d n ws
      → (e : D) × (busy_loop io drive f d ≡ some e) × Reads e 0 ws
  unfolding busy_loop
  busy_loop-Reads zero d n ws enough r = absurd (omega (arith, enough))
  busy_loop-Reads (suc f) d zero ws enough r =
      let (free, here, after) = v.now r in
      ((io.inb d (port drive + 7)).1, rw (busy_loop, free) refl, after)
  busy_loop-Reads (suc f) d (suc n) ws enough r =
      let (still, after) = v.busy r in
      let (e, same, left) =
        busy_loop-Reads f (io.inb d (port drive + 7)).1 n ws (omega (arith, enough)) after in
      (e, rw (busy_loop, still) same, left)

  -- The status that `wait_for_drive` reads first has no error, and is ready.
  abbrev pub IsCalm : D → Type 0
  IsCalm d =
      (has_error (io.inb d (port drive + 7)).0 ≡ false)
      × (is_ready (io.inb d (port drive + 7)).0 ≡ true)

  wait_for_drive-Reads :
      (f : ℕ) (d : D) (n : ℕ) (ws : List ℕ)
      → n < f
      → IsCalm d
      → Reads d n ws
      → (e : D) × (wait_for_drive io drive f d ≡ some e) × Reads e 0 ws
  unfolding wait_for_drive
  wait_for_drive-Reads f d zero ws enough (fine, ready) r =
      let (free, here, after) = v.now r in
      let (e, same, left) = busy_loop-Reads f (io.inb d (port drive + 7)).1 0 ws enough after in
      (e, rw (wait_for_drive, fine, ready) same, left)
  wait_for_drive-Reads f d (suc n) ws enough (fine, ready) r =
      let (still, after) = v.busy r in
      let (e, same, left) =
        busy_loop-Reads f (io.inb d (port drive + 7)).1 n ws (omega (arith, enough)) after in
      (e, rw (wait_for_drive, fine, ready) same, left)

  data_loop-Reads :
      (f : ℕ) (d : D) (ws : List ℕ)
      → 0 < f
      → Reads d 0 ws
      → (e : D) × (data_loop io drive f d ≡ some e) × Reads e 0 ws
  unfolding data_loop
  data_loop-Reads zero d ws enough r = absurd (omega (arith, enough))
  data_loop-Reads (suc f) d ws enough r =
      let (free, here, after) = v.now r in
      ((io.inb d (port drive + 7)).1, rw (data_loop, here) refl, after)

  read_words-Reads :
      (d : D) (ws : List ℕ)
      → Reads d 0 ws
      → (e : D) × (read_words io drive (length ws) d ≡ (bytes_of ws, e)) × Reads e 0 []
  unfolding read_words
  read_words-Reads d [] r = (d, refl, r)
  read_words-Reads d (w ∷ ws) r =
      let (word, after) = v.next_word r in
      let (e, same, end) = read_words-Reads (io.inl d (port drive)).1 ws after in
      (e, rw (read_words, word, same) refl, end)

  wait_for_drive-Idle :
      (f : ℕ) (d : D) (regs : ℕ → ℕ)
      → 0 < f
      → Idle d regs
      → (e : D) × (wait_for_drive io drive f d ≡ some e) × Idle e regs
  unfolding wait_for_drive busy_loop
  wait_for_drive-Idle zero d regs pos idle = absurd (omega (arith, pos))
  wait_for_drive-Idle (suc f) d regs pos idle =
      let (fine, ready, free, after) = v.idle_status idle in
      let (fine', ready', free', after') = v.idle_status after in
      (
        (io.inb (io.inb d (port drive + 7)).1 (port drive + 7)).1,
        rw (wait_for_drive, fine, ready, busy_loop, free') refl,
        after',
      )

  -- The registers have the number of the sector, whose 28 bits they hold, and the drive on the channel.
  command-Reads :
      (d : D) (regs : ℕ → ℕ) (sector : ℕ)
      → sector < 2 ^ 28
      → Idle d regs
      → Reads (command io drive d sector) delay (sectors (channel drive) sector)
  unfolding command
  command-Reads d regs sector small idle =
      let b2 : ℕ = 1 in
      let b3 = sector % 256 in
      let b4 = sector / 256 % 256 in
      let b5 = sector / 65536 % 256 in
      let b6 = 0xE0 + 16 * channel drive + sector / 16777216 % 16 in
      let i2 = v.idle_write 2 b2 idle (omega arith) (omega arith) in
      let i3 = v.idle_write 3 b3 i2 (omega arith) (omega arith) in
      let i4 = v.idle_write 4 b4 i3 (omega arith) (omega arith) in
      let i5 = v.idle_write 5 b5 i4 (omega arith) (omega arith) in
      let i6 = v.idle_write 6 b6 i5 (omega arith) (omega arith) in
      let linear : b6 / 64 % 2 ≡ 1 = omega arith in
      let r = v.reads i6 refl linear in
      let device : b6 / 16 % 2 ≡ channel drive = omega arith in
      let number : b3 + 256 * b4 + 65536 * b5 + 16777216 * (b6 % 16) ≡ sector =
        omega (arith, small) in
      subst (λ (ws : List ℕ). Reads (command io drive d sector) delay ws)
        (ap₂ sectors device number) r

  -- On a drive that follows the rules of `IsDrive` on the ports of its controller and takes
  -- commands, with more rounds for the loops than the drive is busy for reads of its status, and
  -- when the first status behind the command has no error and is ready, busy as it may be:
  -- `read_block` of a sector below 2^28 returns the bytes of that sector of the drive on the
  -- channel.
  pub read_block-Reads :
      (f : ℕ) (d : D) (regs : ℕ → ℕ) (sector : ℕ)
      → delay < f
      → sector < 2 ^ 28
      → length (sectors (channel drive) sector) ≡ 128
      → Idle d regs
      → ((e : D) (ws : List ℕ) → Reads e delay ws → IsCalm e)
      → (e : D) × (read_block io drive f d sector
          ≡ some (bytes_of (sectors (channel drive) sector), e))
        × Reads e 0 []
  unfolding read_block
  read_block-Reads f d regs sector enough small full idle calm =
      let ws = sectors (channel drive) sector in
      let (e, first, idle') = wait_for_drive-Idle f d regs (omega (arith, enough)) idle in
      let started = command-Reads e regs sector small idle' in
      let (g, second, left) =
        wait_for_drive-Reads f (command io drive e sector) delay ws enough
          (calm (command io drive e sector) ws started) started in
      let (h, third, now) = data_loop-Reads f g ws (omega (arith, enough)) left in
      let (k, words, end) = read_words-Reads h ws now in
      let words' : read_words io drive 128 h ≡ (bytes_of ws, k) =
        ap (λ (n : ℕ). read_words io drive n h) (sym full) ∙ words in
      (k, rw (read_block, first, second, third) (ap some words'), end)
