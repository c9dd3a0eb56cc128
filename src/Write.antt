-- ===== src/Write.antt =====
-- sw/child/src/mxfs_write.cc and mxfs_erase.cc: a configuration record is put on a page of its own,
-- and a block is erased.
pub mod RoundTrip
use mxfs.Base.{
  ℕ, ◌+◌, Bool, not, ◌||◌, Option, none, some, List, length, take, splice, leb, ◌==◌, if◌then◌else◌,
  u16,
}
use mxfs.Header.{Compress, magic_number, header_size, set_type, set_tmp_base, encode, decode}
use mxfs.Instance.{Ret, err, page_size, layer_max}
use mxfs.Driver.{Driver}
use mxfs.Outcome.{Outcome, returns, fault}

-- `cp->magic`, `cp->type` and `cp->tmp.base` are set; the other fields stay what the buffer held.
pub direct_header : (bufferlen : ℕ) → List ℕ → Compress
direct_header bufferlen wbf =
    set_tmp_base bufferlen (set_type layer_max (record (decode 0 wbf) { magic = magic_number }))

-- The write buffer with the header and the caller's bytes in it.
pub direct_buffer : List ℕ → List ℕ → List ℕ
direct_buffer buffer wbf =
    splice header_size buffer (splice 0 (encode (direct_header (length buffer) wbf)) wbf)

module _ (drv : Driver) where
  -- `given` says whether the caller's pointer is not NULL. `wbf` is the buffer of PAGE_SIZE bytes that
  -- `malloc` returns with what it holds (on the RP2040 the static one), or nothing where it fails: its
  -- pointer is used unchecked. So are `bufferlen` and the size of the buffer.
  unfoldable pub write :
      (layer : ℕ) (given : Bool)
      → List ℕ
      → (block page : ℕ) → Option (List ℕ)
      → drv.Dev
      → Outcome Ret × drv.Dev
  write layer given buffer block page wbf dev =
      if length buffer == 0 || not given
      then (returns err, dev)
      else if not (layer == layer_max)
      then (returns err, dev)
      else elim wbf [
        | none ↦ (fault, dev)
        | some bytes ↦
            if leb (header_size + length buffer) page_size
            then (let work =
                  take (u16 (length buffer + header_size)) (direct_buffer buffer bytes) in
                let (r, dev') = drv.write block page work dev in (returns r, dev'))
            else (fault, dev)
      ]

  unfoldable pub erase : (block : ℕ) → drv.Dev → Ret × drv.Dev
  erase block dev = drv.erase block dev
