-- ===== src/Bcm2711/Spi.antt =====
-- sw/child/src/drivers/bcm2711/bcm2711_spi.cc: transfers with a second buffer from malloc, which may fail.
-- Then nothing is sent, what was to be received keeps its old value, and the drivers do not look at the
-- result.
use mxfs.Base.{ℕ, zero, suc, Option, none, some, true, false, List, [], ◌∷◌, length, from_le}
use mxfs.Outcome.{Outcome, returns, stuck}
use mxfs.Bus.{read_status_register, status_register, is_busy, is_write_enabled}
use mxfs.Linux.{Linux, gpset0, gpclr0, cs_bit}

-- What malloc answers for a size at a moment: the bytes that stand in the new buffer, or NULL.
abbrev pub Malloc : Linux → Type 0
Malloc pi = ℕ → pi.State → Option (List ℕ)

module _ (pi : Linux) (malloc : Malloc pi) where
  -- `rx` is the caller's buffer.
  unfoldable pub driver_spi_read : (rx : List ℕ) → pi.State → List ℕ × pi.State
  driver_spi_read rx s = elim (malloc (length rx) s) [ none ↦ (rx, s) | some tx ↦ pi.message tx s ]

  unfoldable pub driver_spi_write : (tx : List ℕ) → pi.State → pi.State
  driver_spi_write tx s = elim (malloc (length tx) s) [ none ↦ s | some rx ↦ (pi.message tx s).1 ]

  -- A command with the chip selected, and one that is answered to a buffer.
  unfoldable pub driver_command : List ℕ → pi.State → pi.State
  driver_command bytes s =
      pi.write_gpio gpset0 cs_bit (driver_spi_write bytes (pi.write_gpio gpclr0 cs_bit s))

  unfoldable pub driver_query : List ℕ → (rx : List ℕ) → pi.State → List ℕ × pi.State
  driver_query bytes rx s =
      let (answer, s') =
        driver_spi_read rx (driver_spi_write bytes (pi.write_gpio gpclr0 cs_bit s)) in
      (answer, pi.write_gpio gpset0 cs_bit s')

  -- One of the three parts of `spi_read_registers`, with the variable that it is given a pointer to.
  unfoldable pub driver_register : (address flag : ℕ) → pi.State → ℕ × pi.State
  driver_register address flag s =
      let (answer, s') = driver_query (read_status_register ∷ (address ∷ [])) (flag ∷ []) s in
      (from_le answer, s')

  -- `while(1)` until the chip is not busy; `flg_status` keeps its value from loop to loop.
  unfoldable pub driver_ready : ℕ → (flg_status : ℕ) → pi.State → Outcome (ℕ × pi.State)
  driver_ready zero flg_status s = stuck
  driver_ready (suc fuel) flg_status s =
      let (status, s') = driver_register status_register flg_status s in
      elim (is_busy status) [
        | true ↦ driver_ready fuel status (pi.usleep 10 s')
        | false ↦ returns (status, s')
      ]

  -- `while(1)` until the chip is not busy and takes a write.
  unfoldable pub driver_enabled : ℕ → (flg_status : ℕ) → pi.State → Outcome (ℕ × pi.State)
  driver_enabled zero flg_status s = stuck
  driver_enabled (suc fuel) flg_status s =
      let (status, s') = driver_register status_register flg_status s in
      elim (is_busy status) [
        | true ↦ driver_enabled fuel status (pi.usleep 10 s')
        | false ↦ elim (is_write_enabled status) [
          | true ↦ returns (status, s')
          | false ↦ driver_enabled fuel status (pi.usleep 10 s')
        ]
      ]
