-- ===== src/Append/Durable.antt =====
-- The records that `mxfs_append` flushes on its own are found on the page that it wrote.
use mxfs.Base.{
  ℕ, ◌+◌, ◌*◌, ◌^◌, ◌≤◌, ◌<◌, ◌≡◌, ◌≢◌, ap, ◌∙◌, true, some, List, [], ◌∷◌, arith, length, ltb→lt,
}
use mxfs.Instance.{
  count, Layer, speed, gyro, accelerometer, temperature, code, record_size, Inst, page_size,
}
use mxfs.Log.{Entry, IsEntry, Log, payloads}
use mxfs.Driver.{Driver, PageStore}
use mxfs.Outcome.{returns}
use mxfs.Sound.{IsSound, pending_length-counts}
use mxfs.Flush.{pending_length, flush}
use mxfs.Flush.Page.{page_cost, shared_cost}
use mxfs.Flush.Stores.{IsFresh}
use mxfs.Read.{read}
use mxfs.Read.RoundTrip.{flush-read}
use mxfs.Append.{append}
use mxfs.Append.Refines.{is_full, append-Refines}

shared_cost_le : (k : ℕ) (es : List Entry) → shared_cost k es ≤ 16 * length es + length es * k
shared_cost_le k [] = omega arith
shared_cost_le k (e ∷ es) = omega arith

record_size_le : (l : Layer) → record_size l ≤ 18
record_size_le speed = omega arith
record_size_le _ = omega arith

-- A log whose page is full has records.
pub full_pending :
    (buffer_size : ℕ) (inst : Inst) (log : Log) (l : Layer)
    → IsSound buffer_size inst log
    → is_full log l ≡ true
    → pending_length inst ≢ 0
full_pending buffer_size inst log l h f = omega (
  arith,
  pending_length-counts inst log h.holds h.cost,
  ltb→lt 1984 (page_cost log + record_size l) f,
  record_size_le l,
  shared_cost_le 6 (log gyro),
  shared_cost_le 6 (log accelerometer),
  shared_cost_le 2 (log temperature),
)

module _ (drv : Driver) (st : PageStore drv) (buffer_size : ℕ) (l : Layer) (t : ℕ) (p : List ℕ)
    (inst : Inst) (log : Log) (dev : drv.Dev) where
  -- On a driver that stores pages and is ready, with buffers of 26 bytes at least and less than 2^16: from
  -- a sound instance whose current block is due for its erase or blank ahead, and whose page is full, an
  -- append of a record of its layer's size flushes the log, and a read of the page at the position before
  -- it returns for each layer exactly the payloads of the log, in order, and their length.
  pub append-read :
      (k : Layer) (bufferlen : ℕ) (rbf : List ℕ)
      → 26 ≤ buffer_size
      → buffer_size < 2 ^ 16
      → IsSound buffer_size inst log
      → IsFresh drv st inst dev
      → IsEntry l (t, p)
      → is_full log l ≡ true
      → bufferlen ≢ 0
      → length rbf ≡ page_size
      → (read drv
          (code k)
          true
          bufferlen
          inst.current_block
          inst.current_page
          (some rbf)
          (append drv buffer_size (code l) t p inst dev).2).0
        ≡ returns (count (length (payloads (log k))), payloads (log k))
  append-read k bufferlen rbf large small h f e full len size =
      let (_, _, d) = append-Refines buffer_size large small drv l t p inst log dev h e in
      let same : (append drv buffer_size (code l) t p inst dev).2 ≡ (flush drv inst dev).2 =
        rw full at d in
      ap
        (λ (x : drv.Dev).
          (read drv (code k) true bufferlen inst.current_block inst.current_page (some rbf) x).0)
        same
      ∙ flush-read drv st buffer_size inst log dev k bufferlen rbf h f
          (full_pending buffer_size inst log l h full) len size
