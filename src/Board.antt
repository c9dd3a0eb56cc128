-- ===== src/Board.antt =====
-- sw/child/src/drivers/rp2040: the board that the driver runs on. It is a parameter: the
-- calls of the pico SDK change its state, and a read over SPI returns bytes.
use mxfs.Base.{ℕ, Bool, List, [], ◌∷◌}
use mxfs.Bus.{Bus}

-- The calls of the SDK that return nothing.
pub data Act : Type 0 where
  gpio_init gpio_set_function : ℕ → Act
  gpio_set_dir gpio_put : ℕ → ℕ → Act
  led sleep_ms : ℕ → Act
  spi_init : ℕ → Act
  spi_set_slave : Bool → Act
  spi_set_format : ℕ → ℕ → ℕ → Act
  spi_write : List ℕ → Act

pub record Board : Type 1 where
  pub State : Type 0
  pub act : Act → State → State
  pub spi_read : ℕ → State → List ℕ × State

abbrev pub cs_pin : ℕ
cs_pin = 17

abbrev pub sck_pin : ℕ
sck_pin = 18

abbrev pub di_pin : ℕ
di_pin = 19

abbrev pub do_pin : ℕ
do_pin = 16

abbrev pub wp_pin : ℕ
wp_pin = 14

abbrev pub hld_pin : ℕ
hld_pin = 15

module _ (board : Board) where
  unfoldable pub acts : List Act → board.State → board.State
  acts [] s = s
  acts (a ∷ rest) s = acts rest (board.act a s)

  -- A command between `gpio_put(CS_PIN, 0)` and `gpio_put(CS_PIN, 1)`.
  unfoldable pub command : List ℕ → board.State → board.State
  command bytes s = acts (gpio_put cs_pin 0 ∷ (spi_write bytes ∷ (gpio_put cs_pin 1 ∷ []))) s

  -- A command that is answered with `n` bytes.
  unfoldable pub query : List ℕ → ℕ → board.State → List ℕ × board.State
  query bytes n s =
      let s1 = acts (gpio_put cs_pin 0 ∷ (spi_write bytes ∷ [])) s in
      let (answer, s2) = board.spi_read n s1 in (answer, acts (gpio_put cs_pin 1 ∷ []) s2)

  -- The driver sleeps for a millisecond between two looks.
  abbrev pub rp2040_bus : Bus
  rp2040_bus = record {
    State = board.State;
    command = command;
    query = query;
    pause = acts (sleep_ms 1 ∷ []);
  }
