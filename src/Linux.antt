-- ===== src/Linux.antt =====
-- The Raspberry Pi that the BCM2711 driver (sw/child/src/drivers/bcm2711) and the host tool (sw/parent) run
-- on. It is a parameter: transfers over spidev, writes to the mapped GPIO registers and sleeps change its
-- state, and opening a device, mapping its memory and setting a mode may fail.
use Prim.Native.Nat.{bit_or}
use mxfs.Base.{ℕ, ◌-◌, ◌*◌, ◌/◌, ◌%◌, ◌^◌, Bool, true, false, List, [], ◌∷◌, replicate}
use mxfs.Bus.{Bus}

-- The settings that are made with ioctl, each for writing and for reading.
pub data Setting : Type 0 where
  wr_mode32 rd_mode32 wr_bits_per_word rd_bits_per_word wr_max_speed_hz rd_max_speed_hz :
      ℕ → Setting

-- The ioctl SPI_IOC_MESSAGE(1) sends bytes and receives as many; no caller looks at its result.
pub record Linux : Type 1 where
  pub State : Type 0
  pub read_gpio : (register : ℕ) → State → ℕ
  pub write_gpio : (register value : ℕ) → State → State
  pub message : List ℕ → State → List ℕ × State
  pub usleep : ℕ → State → State
  -- open("/dev/gpiomem") > 0, mmap(...) != MAP_FAILED, open("/dev/spidev0.0") > 0, ioctl(...) >= 0.
  pub open_gpio : State → Bool × State
  pub map_gpio : State → Bool × State
  pub open_spi : State → Bool × State
  pub set_spi : Setting → State → Bool × State
  pub close_gpio : State → State
  pub unmap_gpio : State → State
  pub close_spi : State → State

abbrev pub gpfsel0 : ℕ
gpfsel0 = 0

abbrev pub gpfsel1 : ℕ
gpfsel1 = 1

abbrev pub gpfsel2 : ℕ
gpfsel2 = 2

abbrev pub gpset0 : ℕ
gpset0 = 7

abbrev pub gpclr0 : ℕ
gpclr0 = 10

-- `(1 << 22)`, the chip select.
abbrev pub cs_bit : ℕ
cs_bit = 2 ^ 22

abbrev pub spi_speed : ℕ
spi_speed = 8000000

-- `value & ~(7 << shift)`.
abbrev pub clear_field : ℕ → ℕ → ℕ
clear_field shift value = value - value / 2 ^ shift % 8 * 2 ^ shift

module _ (pi : Linux) where
  -- What is received meanwhile is dropped.
  unfoldable pub spi_write : List ℕ → pi.State → pi.State
  spi_write tx s = (pi.message tx s).1

  -- The host tool sends zeros meanwhile. The driver sends what malloc gives it; the chip takes no notice.
  unfoldable pub spi_read : (rxlen : ℕ) → pi.State → List ℕ × pi.State
  spi_read rxlen s = pi.message (replicate rxlen 0) s

  -- A command with the chip selected.
  unfoldable pub linux_command : List ℕ → pi.State → pi.State
  linux_command bytes s =
      pi.write_gpio gpset0 cs_bit (spi_write bytes (pi.write_gpio gpclr0 cs_bit s))

  -- A command that is answered with `n` bytes.
  unfoldable pub linux_query : List ℕ → ℕ → pi.State → List ℕ × pi.State
  linux_query bytes n s =
      let (answer, s') = spi_read n (spi_write bytes (pi.write_gpio gpclr0 cs_bit s)) in
      (answer, pi.write_gpio gpset0 cs_bit s')

  -- The bus of a loop that sleeps for `n` microseconds between two looks.
  abbrev pub linux_bus : ℕ → Bus
  linux_bus n = record {
    State = pi.State;
    command = linux_command;
    query = linux_query;
    pause = pi.usleep n;
  }

  -- One pin: its three bits in a function register, then its level.
  unfoldable pub set_pin : (select shift function level bit : ℕ) → pi.State → pi.State
  set_pin select shift function level bit s =
      let s1 = pi.write_gpio select (clear_field shift (pi.read_gpio select s)) s in
      let s2 = pi.write_gpio select (bit_or (pi.read_gpio select s1) (function * 2 ^ shift)) s1 in
      pi.write_gpio level (2 ^ bit) s2

  -- WP low, HOLD and CS high, and SCLK, MOSI and MISO to the SPI function.
  unfoldable pub set_pins : pi.State → pi.State
  set_pins s =
      let wp = set_pin gpfsel0 15 1 gpclr0 5 s in
      let hold = set_pin gpfsel0 18 1 gpset0 6 wp in
      let cs = set_pin gpfsel2 6 1 gpset0 22 hold in
      let sclk = set_pin gpfsel1 3 4 gpset0 11 cs in
      let mosi = set_pin gpfsel1 0 4 gpset0 10 sclk in set_pin gpfsel0 27 4 gpset0 9 mosi

  -- The settings one after the other, up to the first that fails.
  unfoldable pub set_all : List Setting → pi.State → Bool × pi.State
  set_all [] s = (true, s)
  set_all (x ∷ xs) s =
      let (good, s') = pi.set_spi x s in elim good [ true ↦ set_all xs s' | false ↦ (false, s') ]

  -- Mode, word length and speed, each for writing and for reading.
  unfoldable pub set_mode : (speed : ℕ) → pi.State → Bool × pi.State
  set_mode speed s =
      set_all
        (wr_mode32 0
          ∷ (rd_mode32 0
              ∷ (wr_bits_per_word 8
                  ∷ (rd_bits_per_word 8 ∷ (wr_max_speed_hz speed ∷ (rd_max_speed_hz speed ∷ []))))))
        s
