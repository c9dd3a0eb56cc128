-- ===== src/Read.antt =====
-- sw/child/src/mxfs_read.cc: the payloads of one layer, gathered from the records of a page.
pub mod Headers
mod Parts
pub mod Direct
pub mod RoundTrip
pub mod Loop
use mxfs.Base.{
  ℕ, zero, suc, ◌+◌, ◌*◌, ◌≤◌, Bool, true, false, not, ◌||◌, Option, none, some, List, [], ◌++◌,
  length, ltb, ◌==◌, if◌then◌else◌, min, from_le,
}
use mxfs.Header.{
  Compress, magic_number, header_size, type_of, ant_length, gyr_count, tmp_base, tmp_count, decode,
}
use mxfs.Instance.{
  Ret, count, err, is_ok, page_size, antp_record_size, gyro_record_size, temperature_record_size,
  layer_max,
}
use mxfs.Driver.{Driver}
use mxfs.Outcome.{Outcome, returns, fault, aborted, stuck, ◌>>=◌, ◌>>◌, load}

-- What a round of the loop does: leave it, or go on at an offset. Both carry the bytes copied so far
-- to `buffer`, so `result_offset` is their number.
pub data Step : Type 0 where
  leave : List ℕ → Step
  next : ℕ → List ℕ → Step

-- `for (n = 0; n < count; n++) memcpy(&buffer[result_offset], &rbf[pos + n * size], size);`
pub copy_records : (count size : ℕ) → List ℕ → (pos : ℕ) → List ℕ → Outcome (List ℕ)
copy_records zero size rbf pos out = returns out
copy_records (suc k) size rbf pos out = do
  p ← load pos size rbf
  copy_records k size rbf (pos + size) (out ++ p)

module _ (layer bufferlen : ℕ) (rbf : List ℕ) where
  -- The record whose header `cp` ends at `offset`.
  pub read_record : Compress → (offset : ℕ) → List ℕ → Outcome Step
  read_record cp offset out =
      let type = type_of cp in
      if type == 0 || (type == 1 || type == 2)
      then (do
        out' ← if type == layer then copy_records 1 antp_record_size rbf offset out else returns out
        returns (next (offset + ant_length cp) out'))
      else if type == 3 || type == 4
      then (do
        out' ←
            if type == layer
            then copy_records (gyr_count cp) gyro_record_size rbf offset out
            else returns out
        returns (next (offset + gyr_count cp * gyro_record_size) out'))
      else if type == 5
      then (do
        out' ←
            if type == layer
            then copy_records (tmp_count cp) temperature_record_size rbf offset out
            else returns out
        returns (next (offset + tmp_count cp * temperature_record_size) out'))
      else if type == layer_max
      then (do
        out' ←
            if type == layer
            then copy_records 1 (min (tmp_base cp) bufferlen) rbf offset out
            else returns out
        returns (leave out'))
      else returns (next offset out)

  -- `cp->magic` is read first, and the rest of the header only behind a magic number.
  pub read_step : (offset : ℕ) → List ℕ → Outcome Step
  read_step offset out = do
    m ← load offset 4 rbf
    if from_le m == magic_number
        then (do
          load offset header_size rbf
          read_record (decode offset rbf) (offset + header_size) out)
        else returns (leave out)

  pub follow : Outcome Step → (ℕ → List ℕ → Outcome (List ℕ)) → Outcome (List ℕ)
  follow (returns (leave out)) rest = returns out
  follow (returns (next offset out)) rest = rest offset out
  follow fault rest = fault
  follow aborted rest = aborted
  follow stuck rest = stuck

  pub read_loop : ℕ → (offset : ℕ) → List ℕ → Outcome (List ℕ)
  unfolding follow
  read_loop zero offset out = stuck
  read_loop (suc fuel) offset out = elim (ltb offset page_size) [
    | true ↦ follow (read_step offset out) (λ o w. read_loop fuel o w)
    | false ↦ returns out
  ]

-- Every round goes on by a header at least, so 129 rounds are enough for a page.
abbrev pub read_fuel : ℕ
read_fuel = 129

-- `rbf` is the read buffer that `malloc` returns (on the RP2040 the static one), and `buffer` says
-- whether the caller's pointer is not NULL. The bytes stored in the caller's buffer stand beside the
-- return code.
unfoldable pub read :
    (drv : Driver) (layer : ℕ) (buffer : Bool) (bufferlen block page : ℕ)
    → Option (List ℕ)
    → drv.Dev
    → Outcome (Ret × List ℕ) × drv.Dev
read drv layer buffer bufferlen block page none dev = (returns (err, []), dev)
read drv layer buffer bufferlen block page (some rbf) dev =
    let (r, rbf', dev') = drv.read block page rbf dev in
    if bufferlen == 0 || not buffer
    then (returns (err, []), dev)
    else if is_ok r
    then (
      (do out ← read_loop layer bufferlen rbf' read_fuel 0 []; returns (count (length out), out)),
      dev',
    )
    else (returns (err, []), dev')
