-- ===== src/Rp2040/Whole.antt =====
-- `mxfs_flush` and `mxfs_read` over the RP2040 driver, on the chip.
use mxfs.Base.{ℕ, ◌-◌, ◌≡◌, ◌≢◌, true, some, List, ◌++◌, length, replicate}
use mxfs.Instance.{count, Inst, Layer, code, page_size}
use mxfs.Log.{Log, payloads}
use mxfs.Outcome.{returns}
use mxfs.Board.{Board, rp2040_bus}
use mxfs.Nand.{IsFlash}
use mxfs.Sound.{IsSound}
use mxfs.Flush.{pending_length, flush}
use mxfs.Flush.Page.{page_of}
use mxfs.Flush.Stores.{IsFresh, flush-Stored}
use mxfs.Read.{read}
use mxfs.Read.RoundTrip.{flush-read}
use mxfs.Rp2040.Store.{rp2040_driver, rp2040_store, stored_page}

module _ (board : Board) (limit : ℕ) (flash : IsFlash (rp2040_bus board) limit) where
  -- On a chip that keeps its data sheet and whose protection register is 0, over the RP2040 driver: a
  -- flush of a sound instance with records pending, whose current block is due for its erase or blank from
  -- the current page on, puts the page of the log, with zeros behind it, on the current page of the chip,
  -- and a read of that page returns for each layer exactly the payloads that were appended to it, in
  -- order.
  pub flush-read_rp2040 :
      (buffer_size : ℕ) (inst : Inst) (log : Log) (s : board.State) (k : Layer) (bufferlen : ℕ)
      (rbf : List ℕ)
      → IsSound buffer_size inst log
      → IsFresh (rp2040_driver board limit) (rp2040_store board limit flash) inst s
      → pending_length inst ≢ 0
      → bufferlen ≢ 0
      → length rbf ≡ page_size
      → let drv = rp2040_driver board limit in
        let s' = (flush drv inst s).2 in
        (stored_page board limit flash s' inst.current_block inst.current_page
          ≡ page_of log ++ replicate (page_size - length (page_of log)) 0)
        × ((read drv (code k) true bufferlen inst.current_block inst.current_page (some rbf) s').0
            ≡ returns (count (length (payloads (log k))), payloads (log k)))
  flush-read_rp2040 buffer_size inst log s k bufferlen rbf h f n len size =
      let drv = rp2040_driver board limit in
      let st = rp2040_store board limit flash in
      (
        (flush-Stored drv st buffer_size inst log s h f n).stored,
        flush-read drv st buffer_size inst log s k bufferlen rbf h f n len size,
      )
