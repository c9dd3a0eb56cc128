-- ===== src/Nand.antt =====
-- The W25N01G flash chip as the drivers rely on it: what its data sheet says of the busy and write-enable
-- bits, of its page cache and of its pages. The chip is no part of the repository; these are hypotheses.
pub mod Waits
pub mod Steps
pub mod Pages
use mxfs.Base.{
  ℕ, suc, ◌+◌, ◌-◌, ◌*◌, ◌/◌, ◌%◌, ◌≤◌, ◌<◌, ◌≡◌, ◌≢◌, Bool, true, false, List, [], ◌∷◌, ◌++◌, ltb,
  length, take, drop,
}
use mxfs.Instance.{page_size}
use mxfs.Driver.{blank}
use mxfs.Bus.{
  Bus, is_busy, is_write_enabled, status_register, protection_register, configuration_register,
  write_status_register, write_enable, block_erase, random_pg_data_load, pg_execute, pg_data_read,
  read_instruction, read_register,
}

-- The chip is busy for less than `limit` pauses, whatever it was asked; a pause takes one off; the status
-- byte tells, and asking for a register changes nothing but the time that is left; WRITE_ENABLE sets the
-- write-enable bit of a chip that is not busy, at once.
pub record IsW25n (bus : Bus) (limit : ℕ) : Type 0 where
  pub busy : bus.State → ℕ
  pub enabled : bus.State → Bool
  pub bounded : (s : bus.State) → busy s < limit
  pub tells_busy :
      (s : bus.State) → is_busy (read_register bus status_register s).0 ≡ ltb 0 (busy s)
  pub tells_enabled :
      (s : bus.State) → is_write_enabled (read_register bus status_register s).0 ≡ enabled s
  pub asking :
      (a : ℕ) (s : bus.State)
      → (busy (read_register bus a s).1 ≤ busy s) × (enabled (read_register bus a s).1 ≡ enabled s)
  pub pausing :
      (s : bus.State) → (busy (bus.pause s) ≤ busy s - 1) × (enabled (bus.pause s) ≡ enabled s)
  pub enabling :
      (s : bus.State)
      → busy s ≡ 0
      → (busy (bus.command (write_enable ∷ []) s) ≡ 0)
        × (enabled (bus.command (write_enable ∷ []) s) ≡ true)

-- The chip's time goes by: a look at a busy chip takes as long as a pause at least.
pub record IsTimed (bus : Bus) (limit : ℕ) (chip : IsW25n bus limit) : Type 0 where
  pub looking :
      (s : bus.State)
      → 0 < chip.busy s
      → chip.busy (read_register bus status_register s).1 < chip.busy s

-- What the chip holds: the bytes of every page, 2048 and 64 spare ones, and of the page cache; whether its
-- protection register has a bit set, and whether the chip reads its pages (not the OTP area) in the mode in
-- which a read starts at the front of the cache (buffer read mode).
pub record Content : Type 0 where
  pub cell : ℕ → List ℕ
  pub cache : List ℕ
  pub is_protected : Bool
  pub is_buffered : Bool

-- The two address bytes of a command as a number.
abbrev pub address : ℕ → ℕ → ℕ
address hi lo = hi * 256 + lo

-- Looks, pauses and WRITE_ENABLE leave the content alone. The protection register is cleared by 0, and
-- then answers 0. Bit 3 of the configuration register (BUF) is the buffer read mode; bit 6 (OTP-E), if it
-- is set, sends reads to the OTP area, so that nothing is said of such a value. A page is read to the
-- cache; a random load overwrites the front of the cache and keeps the rest; a program puts the cache to a
-- blank page, and an erase blanks the 64 pages of a block, if the chip takes writes and is not protected.
-- Neither of the two touches the protection register.
-- The states are those with OTP-E clear, where programs and erases are about the pages, too; no command that
-- is described here sets it.
pub record IsFlash (bus : Bus) (limit : ℕ) : Type 0 where
  pub timing : IsW25n bus limit
  pub content : bus.State → Content
  pub tells_unprotected :
      (s : bus.State)
      → (content s).is_protected ≡ false
      → (read_register bus protection_register s).0 ≡ 0
  pub asking_keeps : (a : ℕ) (s : bus.State) → content (read_register bus a s).1 ≡ content s
  pub pausing_keeps : (s : bus.State) → content (bus.pause s) ≡ content s
  pub enabling_keeps :
      (s : bus.State) → timing.busy s ≡ 0 → content (bus.command (write_enable ∷ []) s) ≡ content s
  pub unprotecting :
      (s : bus.State)
      → timing.busy s ≡ 0
      → content (bus.command (write_status_register ∷ (protection_register ∷ (0 ∷ []))) s)
        ≡ record (content s) { is_protected = false }
  pub configuring :
      (v : ℕ) (s : bus.State)
      → timing.busy s ≡ 0
      → v / 8 % 2 ≡ 1
      → v / 64 % 2 ≡ 0
      → content (bus.command (write_status_register ∷ (configuration_register ∷ (v ∷ []))) s)
        ≡ record (content s) { is_buffered = true }
  pub fetching :
      (hi lo : ℕ) (s : bus.State)
      → timing.busy s ≡ 0
      → content (bus.command (pg_data_read ∷ (0 ∷ (hi ∷ (lo ∷ [])))) s)
        ≡ record (content s) { cache = (content s).cell (address hi lo) }
  pub reading :
      (n : ℕ) (s : bus.State)
      → timing.busy s ≡ 0
      → (content s).is_buffered ≡ true
      → n ≤ 2112
      → let r = bus.query (read_instruction ∷ (0 ∷ (0 ∷ (0 ∷ [])))) n s in
        (r.0 ≡ take n (content s).cache) × (content r.1 ≡ content s) × (timing.busy r.1 ≡ 0)
  pub loading :
      (bytes : List ℕ) (s : bus.State)
      → timing.busy s ≡ 0
      → timing.enabled s ≡ true
      → length bytes ≤ 2112
      → let t = bus.command (random_pg_data_load ∷ (0 ∷ (0 ∷ bytes))) s in
        (content t ≡ record (content s) { cache = bytes ++ drop (length bytes) (content s).cache })
        × (timing.busy t ≡ 0)
  pub programming :
      (hi lo : ℕ) (s : bus.State)
      → timing.busy s ≡ 0
      → timing.enabled s ≡ true
      → (content s).is_protected ≡ false
      → take page_size ((content s).cell (address hi lo)) ≡ blank
      → let c = content s in
        let d = content (bus.command (pg_execute ∷ (0 ∷ (hi ∷ (lo ∷ [])))) s) in
        (take page_size (d.cell (address hi lo)) ≡ take page_size c.cache)
        × ((n : ℕ) → n ≢ address hi lo → d.cell n ≡ c.cell n)
        × (d.is_protected ≡ false)
  pub erasing :
      (hi lo : ℕ) (s : bus.State)
      → timing.busy s ≡ 0
      → timing.enabled s ≡ true
      → (content s).is_protected ≡ false
      → let c = content s in
        let d = content (bus.command (block_erase ∷ (0 ∷ (hi ∷ (lo ∷ [])))) s) in
        ((n : ℕ) → n / 64 ≡ address hi lo / 64 → take page_size (d.cell n) ≡ blank)
        × ((n : ℕ) → n / 64 ≢ address hi lo / 64 → d.cell n ≡ c.cell n)
        × (d.is_protected ≡ false)
