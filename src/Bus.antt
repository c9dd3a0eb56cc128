-- ===== src/Bus.antt =====
-- What the drivers and the host tool do on a bus with the W25N01G flash chip: its instructions, and the
-- loops and commands that all of them repeat. The numbers are those of
-- sw/child/src/drivers/rp2040/rp2040_def.h; the bus is a parameter, and a loop that polls the chip has fuel.
use Prim.Native.Nat.{bit_or}
use mxfs.Base.{
  ℕ, zero, suc, ◌-◌, ◌*◌, ◌/◌, ◌%◌, Bool, true, false, ◌&&◌, List, [], ◌∷◌, ◌==◌, from_le,
}
use mxfs.Outcome.{Outcome, returns, stuck}

-- A command with the chip selected, one that is answered with a number of bytes, and the pause between
-- two looks at the status.
pub record Bus : Type 1 where
  pub State : Type 0
  pub command : List ℕ → State → State
  pub query : List ℕ → ℕ → State → List ℕ × State
  pub pause : State → State

abbrev pub device_reset : ℕ
device_reset = 0xff

abbrev pub jedec_id : ℕ
jedec_id = 0x9f

abbrev pub read_status_register : ℕ
read_status_register = 0x0f

abbrev pub write_status_register : ℕ
write_status_register = 0x1f

abbrev pub write_enable : ℕ
write_enable = 0x06

abbrev pub block_erase : ℕ
block_erase = 0xd8

abbrev pub random_pg_data_load : ℕ
random_pg_data_load = 0x84

abbrev pub pg_execute : ℕ
pg_execute = 0x10

abbrev pub pg_data_read : ℕ
pg_data_read = 0x13

abbrev pub read_instruction : ℕ
read_instruction = 0x03

-- STATUS_REGISTER_1_ADDR .. STATUS_REGISTER_3_ADDR
abbrev pub protection_register : ℕ
protection_register = 0xa0

abbrev pub configuration_register : ℕ
configuration_register = 0xb0

abbrev pub status_register : ℕ
status_register = 0xc0

-- STATUS_REGISTER_3_BUSY and STATUS_REGISTER_3_WEL of a status byte.
abbrev pub is_busy : ℕ → Bool
is_busy s = s % 2 == 1

abbrev pub is_write_enabled : ℕ → Bool
is_write_enabled s = s / 2 % 2 == 1

-- `~STATUS_REGISTER_2_ECC_E` and `STATUS_REGISTER_2_BUF`.
abbrev pub read_mode : ℕ → ℕ
read_mode s = bit_or (s - s / 16 % 2 * 16) 0x08

-- `(uint8_t)((block >> 2) & 0x00FF)` and `(uint8_t)((block << 6) & 0x00C0)`, the latter with
-- `page & 0x003F` put in.
unfoldable pub high_address : ℕ → ℕ
high_address block = block / 4 % 256

unfoldable pub low_address : ℕ → ℕ
low_address block = block * 64 % 256

unfoldable pub page_address : ℕ → ℕ → ℕ
page_address block page = bit_or (low_address block) (page % 64)

-- The test of the JEDEC id that every setup makes: a W25N01G.
unfoldable pub is_known : List ℕ → Bool
is_known (a ∷ (b ∷ (c ∷ rest))) = a == 0xef && b == 0xaa && c == 0x21
is_known _ = false

module _ (bus : Bus) where
  -- One of the three parts of `spi_read_registers`; every call asks for one register.
  unfoldable pub read_register : (address : ℕ) → bus.State → ℕ × bus.State
  read_register address s =
      let (answer, s') = bus.query (read_status_register ∷ (address ∷ [])) 1 s in
      (from_le answer, s')

  -- `while (1)` until the chip is not busy.
  unfoldable pub wait_ready : ℕ → bus.State → Outcome bus.State
  wait_ready zero s = stuck
  wait_ready (suc fuel) s =
      let (status, s') = read_register status_register s in
      elim (is_busy status) [ true ↦ wait_ready fuel (bus.pause s') | false ↦ returns s' ]

  -- `while (1)` until the chip is not busy and takes a write.
  unfoldable pub wait_enabled : ℕ → bus.State → Outcome bus.State
  wait_enabled zero s = stuck
  wait_enabled (suc fuel) s =
      let (status, s') = read_register status_register s in
      elim (is_busy status) [
        | true ↦ wait_enabled fuel (bus.pause s')
        | false ↦ elim (is_write_enabled status) [
          | true ↦ returns s'
          | false ↦ wait_enabled fuel (bus.pause s')
        ]
      ]

  -- `WRITE_ENABLE`, and the loop behind it.
  unfoldable pub enable_write : ℕ → bus.State → Outcome bus.State
  enable_write fuel s = wait_enabled fuel (bus.command (write_enable ∷ []) s)

  -- `WRITE_STATUS_REGISTER_L`, and the loop behind it.
  unfoldable pub write_register : ℕ → (address value : ℕ) → bus.State → Outcome bus.State
  write_register fuel address value s =
      wait_ready fuel (bus.command (write_status_register ∷ (address ∷ (value ∷ []))) s)
