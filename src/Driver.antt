-- ===== src/Driver.antt =====
-- sw/child/src/drivers/inc/drivers_def.h: the operations that every driver implements. What a driver
-- keeps (the flash chip, file descriptors, GPIO) is its `Dev`, passed on from call to call.
pub mod Fake
use mxfs.Base.{ℕ, ◌+◌, ◌-◌, ◌≤◌, ◌<◌, ◌≡◌, ◌≢◌, ◌⊎◌, List, ◌++◌, length, take, replicate}
use mxfs.Instance.{Ret, ok, page_size, block_count, page_count}

pub record Driver : Type 1 where
  pub Dev : Type 0
  -- The bytes of the caller's buffer after the call stand beside the return code.
  pub read : (block page : ℕ) → (buffer : List ℕ) → Dev → Ret × List ℕ × Dev
  pub write : (block page : ℕ) → (buffer : List ℕ) → Dev → Ret × Dev
  pub erase : (block : ℕ) → Dev → Ret × Dev
  pub create_spi : Dev → Ret × Dev
  pub release_spi : Dev → Ret × Dev
  pub create_gpio : Dev → Ret × Dev
  pub release_gpio : Dev → Ret × Dev

-- What a page of 2048 bytes holds after an erase.
abbrev pub blank : List ℕ
blank = replicate page_size 0xff

-- What the file system relies on for the blocks and pages of the chip: pages are independent, an erase
-- blanks the pages of its block, and a write to a blank page puts its bytes at the front, with one byte
-- value behind them.
pub record PageStore (drv : Driver) : Type 1 where
  pub page_at : drv.Dev → ℕ → ℕ → List ℕ
  pub IsReady : drv.Dev → Type 0
  pub fill : ℕ
  pub fill_IsByte : fill < 256
  pub read_ok :
      (b p : ℕ) (buf : List ℕ) (d : drv.Dev)
      → IsReady d
      → b < block_count
      → p < page_count
      → length buf ≤ page_size
      → ((drv.read b p buf d).0 ≡ ok)
        × ((drv.read b p buf d).1 ≡ take (length buf) (page_at d b p))
        × ((q r : ℕ) → page_at (drv.read b p buf d).2 q r ≡ page_at d q r)
        × IsReady (drv.read b p buf d).2
  pub write_ok :
      (b p : ℕ) (buf : List ℕ) (d : drv.Dev)
      → IsReady d
      → b < block_count
      → p < page_count
      → length buf ≤ page_size
      → page_at d b p ≡ blank
      → ((drv.write b p buf d).0 ≡ ok)
        × (page_at (drv.write b p buf d).1 b p ≡ buf ++ replicate (page_size - length buf) fill)
        × ((q r : ℕ) → (b ≢ q) ⊎ (p ≢ r) → page_at (drv.write b p buf d).1 q r ≡ page_at d q r)
        × IsReady (drv.write b p buf d).1
  pub erase_ok :
      (b : ℕ) (d : drv.Dev)
      → IsReady d
      → b < block_count
      → ((drv.erase b d).0 ≡ ok)
        × ((p : ℕ) → p < page_count → page_at (drv.erase b d).1 b p ≡ blank)
        × ((q r : ℕ) → b ≢ q → page_at (drv.erase b d).1 q r ≡ page_at d q r)
        × IsReady (drv.erase b d).1
