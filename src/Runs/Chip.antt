-- ===== src/Runs/Chip.antt =====
-- Runs of the RP2040 driver on the small chip, and of the file system on both.
use mxfs.Base.{
  ℕ, ◌+◌, ◌*◌, ◌≡◌, ◌∙◌, refl, true, false, [], ◌∷◌, arith, replicate, ◌++◌, ◌-◌, length,
  length-replicate, inr, some,
}
use mxfs.Nand.Waits.{Ends}
use mxfs.Rp2040.{erase, read, write}
use mxfs.Flush.{flush}
use mxfs.Flush.Stores.{IsFresh}
use mxfs.Flush.Page.{page_of}
use mxfs.Log.{payloads}
use mxfs.Instance.{count, speed, page_size}
use mxfs.Outcome.{returns}
use mxfs.Read.{read as file_read}
use mxfs.Board.{rp2040_bus}
use mxfs.Nand.Steps.{Gives, Puts, Clears}
use mxfs.Rp2040.Pages.{read-Gives, write-Puts, erase-Clears}
use mxfs.Rp2040.Store.{rp2040_driver, rp2040_store, stored_page, page_bytes_inside}
use mxfs.Rp2040.Whole.{flush-read_rp2040}
use mxfs.Runs.Flash.{one, one_log, one-IsSound, one_pending}
use mxfs.Runs.Device.{Chip, chip, chip-IsFlash, blank_page}

abbrev idle : Chip
idle = record {
  busy = 4;
  enabled = false;
  content = record {
    cell = λ n. replicate 2112 0xff;
    cache = [];
    is_protected = false;
    is_buffered = true;
  };
  asked = [];
}

read-Gives_example :
    Ends
      (Gives (rp2040_bus chip) 10 chip-IsFlash (replicate 16 0xff) idle.content)
      (read chip 10 77 5 16 idle)
unfolding chip-IsFlash
read-Gives_example =
    read-Gives chip 10 chip-IsFlash 77 5 16 idle (omega arith) (omega arith) (omega arith) refl

write-Puts_example :
    Ends
      (Puts
        (rp2040_bus chip)
        10
        chip-IsFlash
        (77 * 64 + 5)
        (1 ∷ (2 ∷ replicate 2046 0))
        idle.content)
      (write chip 10 77 5 (1 ∷ (2 ∷ [])) idle)
unfolding chip-IsFlash
write-Puts_example =
    write-Puts chip 10 chip-IsFlash 77 5 (1 ∷ (2 ∷ [])) idle (omega arith) (omega arith)
      (omega arith) refl

erase-Clears_example :
    Ends (Clears (rp2040_bus chip) 10 chip-IsFlash 77 idle.content) (erase chip 10 77 idle)
unfolding chip-IsFlash
erase-Clears_example = erase-Clears chip 10 chip-IsFlash 77 idle (omega arith)

idle-IsFresh : IsFresh (rp2040_driver chip 10) (rp2040_store chip 10 chip-IsFlash) one idle
unfolding chip-IsFlash
idle-IsFresh = record {
  ready = refl;
  blank_ahead = inr (λ p _ h.
      page_bytes_inside idle.content one.current_block p one-IsSound.block_high h ∙ blank_page);
}

flush-read_rp2040_example :
    let drv = rp2040_driver chip 10 in
    let s = (flush drv one idle).2 in
    (stored_page chip 10 chip-IsFlash s one.current_block one.current_page
      ≡ page_of one_log ++ replicate (page_size - length (page_of one_log)) 0)
    × ((file_read drv 0 true 100 one.current_block one.current_page
          (some (replicate page_size 0))
          s).0
        ≡ returns (count (length (payloads (one_log speed))), payloads (one_log speed)))
flush-read_rp2040_example =
    flush-read_rp2040 chip 10 chip-IsFlash 16384 one one_log idle speed 100 (replicate page_size 0)
      one-IsSound idle-IsFresh one_pending (omega arith) (length-replicate {A = ℕ} page_size 0)
