-- ===== src/Rp2040.antt =====
-- sw/child/src/drivers/rp2040: the driver for the W25N01G flash chip on the RP2040's SPI bus.
pub mod Address
pub mod Ends
pub mod Pages
pub mod Store
pub mod Whole
use mxfs.Base.{
  ℕ, ◌+◌, ◌-◌, Bool, true, false, List, [], ◌∷◌, ◌++◌, length, take, ltb, if◌then◌else◌, replicate,
  rounds, for_step,
}
use mxfs.Instance.{Ret, ok, err, page_size}
use mxfs.Outcome.{Outcome, returns, fault, aborted, stuck, ◌>>=◌}
use mxfs.Bus.{
  device_reset, jedec_id, block_erase, random_pg_data_load, pg_execute, pg_data_read,
  read_instruction, protection_register, configuration_register, read_mode, is_known, high_address,
  low_address, page_address, read_register, wait_ready, enable_write, write_register,
}
use mxfs.Board.{
  Board, gpio_init, gpio_set_function, gpio_set_dir, gpio_put, led, sleep_ms, spi_init,
  spi_set_slave, spi_set_format, spi_write, cs_pin, sck_pin, di_pin, do_pin, wp_pin, hld_pin, acts,
  command, query, rp2040_bus,
}

-- The command's array after `memcpy(&cmd[3], buffer, bufferlen)`, up to the PAGE_SIZE + 3 bytes that are
-- sent: zeros stand behind the caller's bytes.
unfoldable pub load_command : List ℕ → List ℕ
load_command buffer =
    random_pg_data_load ∷ (0 ∷ (0 ∷ take page_size (buffer ++ replicate page_size 0)))

module _ (board : Board) where
  pub erase : ℕ → (block : ℕ) → board.State → Outcome (Ret × board.State)
  erase fuel block s = do
    s1 ← wait_ready (rp2040_bus board) fuel s
    s2 ← enable_write (rp2040_bus board) fuel s1
    s3 ← write_register (rp2040_bus board) fuel protection_register 0 s2
    s4 ← enable_write (rp2040_bus board) fuel s3
    s5 ←
        wait_ready (rp2040_bus board) fuel
          (command board (block_erase ∷ (0 ∷ (high_address block ∷ (low_address block ∷ [])))) s4)
    returns (ok, s5)

  -- The answer stands beside the return code; `bufferlen` is the length of the caller's buffer.
  unfoldable pub read :
      ℕ → (block page bufferlen : ℕ) → board.State → Outcome (Ret × List ℕ × board.State)
  read fuel block page bufferlen s = do
    s1 ← wait_ready (rp2040_bus board) fuel s
    let (flg_protected, s2) = read_register (rp2040_bus board) protection_register s1 in
        (do
          s3 ← wait_ready (rp2040_bus board) fuel s2
          s4 ←
              write_register (rp2040_bus board) fuel configuration_register
                (read_mode flg_protected) s3
          s5 ← wait_ready (rp2040_bus board) fuel (
              command board
                (pg_data_read ∷ (0 ∷ (high_address block ∷ (page_address block page ∷ [])))) s4)
          let (answer, s6) = query board (read_instruction ∷ (0 ∷ (0 ∷ (0 ∷ [])))) bufferlen s5 in
              returns (ok, answer, s6))

  -- The command's array is PAGE_SIZE + 64 bytes long, of which PAGE_SIZE + 3 are sent.
  unfoldable pub write : ℕ → (block page : ℕ) → List ℕ → board.State → Outcome (Ret × board.State)
  write fuel block page buffer s =
      if ltb (page_size + 64 - 3) (length buffer) then returns (err, s) else (do
        s1 ← wait_ready (rp2040_bus board) fuel s
        s2 ← write_register (rp2040_bus board) fuel protection_register 0 s1
        s3 ← enable_write (rp2040_bus board) fuel s2
        s4 ← wait_ready (rp2040_bus board) fuel (command board (load_command buffer) s3)
        s5 ← enable_write (rp2040_bus board) fuel s4
        s6 ← wait_ready (rp2040_bus board) fuel (
            command board (pg_execute ∷ (0 ∷ (high_address block ∷ (page_address block page ∷ []))))
              s5)
        returns (ok, s6))

  -- The light is switched on and off.
  unfoldable pub blink : (ms : ℕ) → board.State → board.State
  unfolding for_step
  blink ms s =
      for_step (rounds 0 5 1) 0 1
        (λ n t. acts board (led 1 ∷ (sleep_ms ms ∷ (led 0 ∷ (sleep_ms ms ∷ [])))) t) s

  -- An unknown chip stops the program: the CMake file of this board defines __DRIVER_INFO__, with which
  -- PANIC aborts.
  pub create_spi : ℕ → board.State → Outcome (Ret × board.State)
  create_spi fuel s = do
    s1 ← wait_ready (rp2040_bus board) fuel (
        blink 200 (
          acts board
            (spi_init 8000000
              ∷ (spi_set_slave false
                  ∷ (spi_set_format 8 0 0
                      ∷ (gpio_set_function sck_pin
                          ∷ (gpio_set_function di_pin ∷ (gpio_set_function do_pin ∷ []))))))
            s))
    s2 ←
        wait_ready (rp2040_bus board) fuel
          (acts board (sleep_ms 1 ∷ []) (command board (device_reset ∷ []) s1))
    let (id, s3) = query board (jedec_id ∷ (0 ∷ [])) 3 s2 in
        if is_known id
        then (do
          s4 ← write_register (rp2040_bus board) fuel protection_register 0 s3
          s5 ← enable_write (rp2040_bus board) fuel s4
          returns (ok, s5))
        else aborted

  unfoldable pub release_spi : board.State → Ret × board.State
  release_spi s = (ok, s)

  unfoldable pub create_gpio : board.State → Ret × board.State
  create_gpio s = (
    ok,
    blink 100 (
        acts board
          (gpio_init cs_pin
            ∷ (gpio_set_dir cs_pin 1
                ∷ (gpio_put cs_pin 1
                    ∷ (gpio_init wp_pin
                        ∷ (gpio_set_dir wp_pin 1
                            ∷ (gpio_put wp_pin 0
                                ∷ (gpio_init hld_pin
                                    ∷ (gpio_set_dir hld_pin 1 ∷ (gpio_put hld_pin 1 ∷ [])))))))))
          s),
  )

  unfoldable pub release_gpio : board.State → Ret × board.State
  release_gpio s = (ok, s)
