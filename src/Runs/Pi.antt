-- ===== src/Runs/Pi.antt =====
-- The small chip behind a Raspberry Pi's bus, and runs of the BCM2711 driver and of the host tool on it.
use mxfs.Base.{
  ℕ, none, some, ne→==, sym, ◌+◌, ◌-◌, ◌*◌, refl, ap, ◌==◌, if◌then◌else◌, true, false, List, [],
  ◌∷◌, ◌++◌, arith, min, replicate, take, drop, length, length-replicate, from_le,
}
use mxfs.Instance.{page_size}
use mxfs.Bus.{read_register}
use mxfs.Linux.{Linux, gpclr0, spi_write, spi_read, linux_command, linux_query, linux_bus}
use mxfs.Nand.{IsW25n, IsFlash, IsTimed}
use mxfs.Nand.Waits.{Ends}
use mxfs.Nand.Steps.{Gives, Puts, Clears}
use mxfs.Bcm2711.{bcm2711_bus, bcm2711_erase, bcm2711_read, bcm2711_write}
use mxfs.Bcm2711.Spi.{Malloc}
use mxfs.Bcm2711.Memory.{HasMemory, IsDeaf}
use mxfs.Bcm2711.Pages.{
  bcm2711_read-Gives, bcm2711_write-Puts, bcm2711_erase-Clears, bcm2711_write-load_lost,
}
use mxfs.Parent.{parent_bus, wait_erase}
use mxfs.Parent.Erases.{HasErased, wait_erase-Ends}
use mxfs.Runs.Device.{
  Chip, on_command, answer, tells_busy, tells_enabled, blank_page, programs, erases,
}

-- Every answer takes as long as a pause.
abbrev pub tick : Chip → Chip
tick c = record c { busy = min c.busy 9 - 1 }

-- The first message behind a chip select is a command, a further one its answer.
abbrev pub on_message : List ℕ → List ℕ → Chip → List ℕ × Chip
on_message [] tx c = (replicate (length tx) 0, record (on_command tx c) { asked = tx })
on_message (x ∷ xs) tx c = (answer (length tx) c, tick c)

-- The chip select drops what was asked.
abbrev pub on_gpio : ℕ → Chip → Chip
on_gpio r c = if r == gpclr0 then record c { asked = [] } else c

abbrev pub pi : Linux
pi = record {
  State = Chip;
  read_gpio = λ r c. 0;
  write_gpio = λ r v c. on_gpio r c;
  message = λ tx c. on_message c.asked tx c;
  usleep = λ n c. tick c;
  open_gpio = λ c. (true, c);
  map_gpio = λ c. (true, c);
  open_spi = λ c. (true, c);
  set_spi = λ x c. (true, c);
  close_gpio = λ c. c;
  unmap_gpio = λ c. c;
  close_spi = λ c. c;
}

unfoldable pub pi-IsW25n : (n : ℕ) → IsW25n (linux_bus pi n) 10
unfolding linux_command linux_query spi_write spi_read read_register from_le
pi-IsW25n n = record {
  busy = λ c. min c.busy 9;
  enabled = λ c. c.enabled;
  bounded = λ c. omega arith;
  tells_busy = λ c. tells_busy c;
  tells_enabled = λ c. tells_enabled c;
  asking = λ a c. (omega arith, refl);
  pausing = λ c. (omega arith, refl);
  enabling = λ c z. (z, refl);
}

unfoldable pub pi-IsFlash : (n : ℕ) → IsFlash (linux_bus pi n) 10
unfolding linux_command linux_query spi_write spi_read read_register from_le pi-IsW25n
pi-IsFlash n = record {
  timing = pi-IsW25n n;
  content = λ c. c.content;
  tells_unprotected = λ c p. rw p refl;
  asking_keeps = λ a c. refl;
  pausing_keeps = λ c. refl;
  enabling_keeps = λ c z. refl;
  unprotecting = λ c z. refl;
  configuring = λ v c z h _. rw h refl;
  fetching = λ hi lo c z. refl;
  reading = λ n c z b h.
      (ap (λ m. take m c.content.cache) (length-replicate {A = ℕ} n 0), refl, omega (arith, z));
  loading = λ bytes c z e h. (refl, z);
  programming = λ hi lo c z e p b. programs hi lo (record c { asked = [] }) e p;
  erasing = λ hi lo c z e p. erases hi lo (record c { asked = [] }) e p;
}

pub pi-IsTimed : IsTimed (parent_bus pi) 10 (pi-IsFlash 1000).timing
unfolding linux_command linux_query spi_write spi_read read_register from_le pi-IsFlash pi-IsW25n
pi-IsTimed = record { looking = λ c h. omega (arith, h) }

abbrev pub idle : Chip
idle = record {
  busy = 4;
  enabled = false;
  content = record {
    cell = λ n. replicate 2112 0xff;
    cache = replicate 2112 7;
    is_protected = false;
    is_buffered = true;
  };
  asked = [];
}

-- Memory is never short, or only for the three bytes and the two of a load.
abbrev pub plenty : Malloc pi
plenty n c = some (replicate n 0xaa)

plenty-HasMemory : (k : ℕ) → HasMemory pi plenty k
plenty-HasMemory k n c h = (replicate n 0xaa, refl, length-replicate n 0xaa)

abbrev pub short : Malloc pi
short n c = if n == 5 then none else some (replicate n 0xaa)

short-HasMemory : HasMemory pi short 4
short-HasMemory n c h = (
  replicate n 0xaa,
  rw (ne→== n 5 (λ e. absurd (omega (arith, h, e)))) refl,
  length-replicate n 0xaa,
)

-- The chip does not look at what it is sent while it answers.
pi-IsDeaf : IsDeaf pi
unfolding spi_write
pi-IsDeaf = record {
  telling = λ a tx c.
      let d = record (on_command (0x0f ∷ (a ∷ [])) c) { asked = 0x0f ∷ (a ∷ []) } in
      ap (λ n. (answer n d, tick d)) (sym (length-replicate {A = ℕ} (length tx) 0));
  giving = λ tx c.
      let d = record (on_command (0x03 ∷ (0 ∷ (0 ∷ (0 ∷ [])))) c) {
        asked = 0x03 ∷ (0 ∷ (0 ∷ (0 ∷ [])));
      } in
      ap (λ n. (answer n d, tick d)) (sym (length-replicate {A = ℕ} (length tx) 0));
}

bcm2711_read-Gives_example :
    Ends
      (Gives (bcm2711_bus pi) 10 (pi-IsFlash 10) (replicate 16 0xff) idle.content)
      (bcm2711_read pi plenty 10 77 5 (replicate 16 0) idle)
unfolding pi-IsFlash
bcm2711_read-Gives_example =
    bcm2711_read-Gives pi plenty 10 (pi-IsFlash 10) pi-IsDeaf (plenty-HasMemory 2112) 77 5
      (replicate 16 0) idle (omega arith) (omega arith) (omega arith) refl

bcm2711_write-Puts_example :
    Ends
      (Puts
        (bcm2711_bus pi)
        10
        (pi-IsFlash 10)
        (77 * 64 + 5)
        (take page_size ((1 ∷ (2 ∷ [])) ++ drop 2 (replicate 2112 7)))
        idle.content)
      (bcm2711_write pi plenty 10 77 5 (1 ∷ (2 ∷ [])) idle)
unfolding pi-IsFlash
bcm2711_write-Puts_example =
    bcm2711_write-Puts pi plenty 10 (pi-IsFlash 10) pi-IsDeaf (plenty-HasMemory 2112) 77 5
      (1 ∷ (2 ∷ [])) idle (omega arith) (omega arith) (omega arith) blank_page

bcm2711_write-load_lost_example :
    Ends
      (Puts
        (bcm2711_bus pi)
        10
        (pi-IsFlash 10)
        (77 * 64 + 5)
        (take page_size (replicate 2112 7))
        idle.content)
      (bcm2711_write pi short 10 77 5 (1 ∷ (2 ∷ [])) idle)
unfolding pi-IsFlash pi-IsW25n
bcm2711_write-load_lost_example =
    bcm2711_write-load_lost pi short 10 (pi-IsFlash 10) pi-IsDeaf short-HasMemory 77 5
      (1 ∷ (2 ∷ [])) idle (omega arith) (omega arith) (omega arith) blank_page (λ c. refl)
      (λ c z. (z, refl))

bcm2711_erase-Clears_example :
    Ends
      (Clears (bcm2711_bus pi) 10 (pi-IsFlash 10) 77 idle.content)
      (bcm2711_erase pi plenty 10 77 idle)
unfolding pi-IsFlash
bcm2711_erase-Clears_example =
    bcm2711_erase-Clears pi plenty 10 (pi-IsFlash 10) pi-IsDeaf (plenty-HasMemory 4) 77 idle
      (omega arith)

wait_erase-Ends_example :
    Ends
      (HasErased pi 10 (pi-IsFlash 1000) pi-IsTimed 77 idle.content)
      (wait_erase pi 30 77 (0xff, idle))
unfolding pi-IsFlash
wait_erase-Ends_example = wait_erase-Ends pi 10 (pi-IsFlash 1000) pi-IsTimed 77 idle (omega arith)
