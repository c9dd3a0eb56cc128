-- ===== src/Bcm2711.antt =====
-- sw/child/src/drivers/bcm2711: the driver for the W25N01G flash chip on a Raspberry Pi.
pub mod Spi
pub mod Memory
mod Steps
pub mod Pages
use mxfs.Base.{ℕ, ◌+◌, ◌-◌, Bool, true, false, ◌&&◌, List, [], ◌∷◌, length, ltb, if◌then◌else◌}
use mxfs.Instance.{Ret, ok, err}
use mxfs.Outcome.{Outcome, returns, fault, aborted, stuck, ◌>>=◌}
use mxfs.Bus.{
  Bus, device_reset, jedec_id, write_status_register, write_enable, block_erase,
  random_pg_data_load, pg_execute, pg_data_read, read_instruction, protection_register,
  configuration_register, read_mode, high_address, low_address, page_address, is_known,
}
use mxfs.Linux.{Linux, spi_speed, linux_bus, set_pins, set_mode}
use mxfs.Bcm2711.Spi.{
  Malloc, driver_command, driver_query, driver_register, driver_ready, driver_enabled,
}

-- `spi`, `gpio` and `gpio_mem` of the instance: whether the descriptors are positive, and whether
-- `gpio_mem` is not NULL.
pub record Files : Type 0 where
  pub has_spi : Bool
  pub has_gpio : Bool
  pub has_gpio_mem : Bool

-- The driver sleeps for 10 microseconds between two looks.
abbrev pub bcm2711_bus : Linux → Bus
bcm2711_bus pi = linux_bus pi 10

module _ (pi : Linux) (malloc : Malloc pi) where
  -- It does not wait for the end of the erase.
  unfoldable pub bcm2711_erase : ℕ → (block : ℕ) → pi.State → Outcome (Ret × pi.State)
  bcm2711_erase fuel block s = do
    (f1, s1) ← driver_ready pi malloc fuel 0xff s
    (f2, s2) ←
        driver_ready pi malloc fuel f1
          (driver_command pi malloc (write_status_register ∷ (protection_register ∷ (0 ∷ []))) s1)
    (f3, s3) ← driver_enabled pi malloc fuel f2 (driver_command pi malloc (write_enable ∷ []) s2)
    returns (
      ok,
      driver_command pi malloc (block_erase ∷ (0 ∷ (high_address block ∷ (low_address block ∷ []))))
          s3,
    )

  unfoldable pub bcm2711_read :
      ℕ → (block page : ℕ) (buffer : List ℕ) → pi.State → Outcome (Ret × List ℕ × pi.State)
  bcm2711_read fuel block page buffer s = do
    (f1, s1) ← driver_ready pi malloc fuel 0xff s
    let (flg_protected, s2) = driver_register pi malloc protection_register 0xff s1 in
        (do
          (f3, s3) ← driver_ready pi malloc fuel f1 (
              driver_command pi malloc
                (write_status_register ∷ (configuration_register ∷ (read_mode flg_protected ∷ [])))
                s2)
          (f4, s4) ← driver_ready pi malloc fuel f3 (
              driver_command pi malloc
                (pg_data_read ∷ (0 ∷ (high_address block ∷ (page_address block page ∷ [])))) s3)
          let (answer, s5) =
                driver_query pi malloc (read_instruction ∷ (0 ∷ (0 ∷ (0 ∷ [])))) buffer s4 in
              returns (ok, answer, s5))

  -- Only the caller's bytes are sent; it does not wait for the end of the program.
  unfoldable pub bcm2711_write : ℕ → (block page : ℕ) → List ℕ → pi.State → Outcome (Ret × pi.State)
  bcm2711_write fuel block page buffer s = do
    (f1, s1) ← driver_ready pi malloc fuel 0xff s
    (f2, s2) ←
        driver_ready pi malloc fuel f1
          (driver_command pi malloc (write_status_register ∷ (protection_register ∷ (0 ∷ []))) s1)
    (f3, s3) ← driver_enabled pi malloc fuel f2 (driver_command pi malloc (write_enable ∷ []) s2)
    if ltb (2112 - 3) (length buffer) then returns (err, s3) else (do
      (f4, s4) ← driver_enabled pi malloc fuel f3 (
          driver_command pi malloc (write_enable ∷ [])
            (driver_command pi malloc (random_pg_data_load ∷ (0 ∷ (0 ∷ buffer))) s3))
      returns (
        ok,
        driver_command pi malloc
            (pg_execute ∷ (0 ∷ (high_address block ∷ (page_address block page ∷ [])))) s4,
      ))

  -- Without open files nothing is set up, and the call returns OK all the same. An unknown chip stops the
  -- program.
  unfoldable pub bcm2711_create_spi : Files → pi.State → Outcome (Ret × Files × pi.State)
  bcm2711_create_spi f s =
      let (opened, s1) = pi.open_spi s in
      let f1 : Files = record f { has_spi = opened } in
      if opened && f.has_gpio && f.has_gpio_mem
      then (let (good, s2) = set_mode pi spi_speed s1 in
          if good
          then (let s3 = pi.usleep 1000 (driver_command pi malloc (device_reset ∷ []) s2) in
              let (id, s4) = driver_query pi malloc (jedec_id ∷ (0 ∷ [])) (0 ∷ (0 ∷ (0 ∷ []))) s3 in
              if is_known id then returns (ok, f1, s4) else aborted)
          else returns (err, f1, s2))
      else returns (ok, f1, s1)

module _ (pi : Linux) where
  unfoldable pub bcm2711_release_spi : pi.State → Ret × pi.State
  bcm2711_release_spi s = (ok, pi.close_spi s)

  -- The result of mmap is not checked, so the first write behind a failed one faults.
  unfoldable pub bcm2711_create_gpio : Files → pi.State → Outcome (Ret × Files × pi.State)
  bcm2711_create_gpio f s =
      let (opened, s1) = pi.open_gpio s in
      if opened
      then (let (mapped, s2) = pi.map_gpio s1 in
          if mapped
          then returns (ok, record f { has_gpio = true; has_gpio_mem = true }, set_pins pi s2)
          else fault)
      else returns (err, record f { has_gpio = false }, s1)

  unfoldable pub bcm2711_release_gpio : pi.State → Ret × pi.State
  bcm2711_release_gpio s = (ok, pi.unmap_gpio (pi.close_gpio s))
