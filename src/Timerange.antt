-- ===== src/Timerange.antt =====
-- sw/child/src/mxfs_timerange.cc: where the records of a layer lie, in the build without __LINUX__.
pub mod Marked
pub mod Loop
mod Spans
pub mod Found
pub mod Page
use mxfs.Base.{
  ℕ, zero, suc, ◌+◌, ◌*◌, ◌/◌, ◌%◌, Bool, true, false, not, ◌||◌, List, replicate, ltb, ◌==◌,
  if◌then◌else◌, u16, u32, u64, from_le, rounds, for_step,
}
use mxfs.Header.{
  Compress, magic_number, header_size, type_of, step_of, msec_of, ant_length, gyr_count, tmp_count,
  decode,
}
use mxfs.Instance.{
  Ret, count, err, need_more_buffer, is_ok, Layer, page_flag, gyro_record_size,
  temperature_record_size, TimeRange, Inst, is_invalid, update, block_count, page_count,
  block_start_data_area,
}
use mxfs.Driver.{Driver}
use mxfs.Outcome.{Outcome, returns, stuck, ◌>>=◌, ◌>>◌, load}

-- The caller's array `timerange`, and how far the search is: `going` with the entries written so far,
-- or a `return` out of the loops.
pub data Search : Type 0 where
  going : ℕ → (ℕ → TimeRange) → Search
  left : Ret → (ℕ → TimeRange) → Search

-- What the function returns behind its loops.
abbrev pub finish : Search → Ret × (ℕ → TimeRange)
finish (going cnt ranges) = (count cnt, ranges)
finish (left r ranges) = (r, ranges)

-- `pages[page] & flags[layer]`, where the flag is a single bit.
abbrev pub has_layer : Layer → ℕ → Bool
has_layer l flags = flags / page_flag l % 2 == 1

-- An entry whose page has records of the layer: its count stays what the caller's array held.
abbrev pub mark_page : ℕ → ℕ → TimeRange → TimeRange
mark_page b p t = record t { block = b; page = p; start_time = 0; last_time = 0 }

abbrev pub add_page : (timerangecount block page : ℕ) → ℕ → (ℕ → TimeRange) → Search
add_page limit b p cnt ranges =
    if ltb cnt limit
    then going (suc cnt) (update ranges cnt (mark_page b p (ranges cnt)))
    else left need_more_buffer ranges

module _ (drv : Driver) (inst : Inst) (l : Layer) (timerangecount : ℕ) where
  pub search_page : (block page : ℕ) → Search × drv.Dev → Search × drv.Dev
  search_page b p (left r ranges, dev) = (left r ranges, dev)
  search_page b p (going cnt ranges, dev) =
      let (r, rbf, dev') = drv.read b p (replicate 16 0) dev in
      if not (is_ok r)
      then (going cnt ranges, dev')
      else if not ((decode 0 rbf).magic == magic_number)
      then (going cnt ranges, dev')
      else if has_layer l ((inst.blocks b).pages p)
      then (add_page timerangecount b p cnt ranges, dev')
      else (going cnt ranges, dev')

  pub search_block : (block : ℕ) → Search × drv.Dev → Search × drv.Dev
  unfolding for_step search_page
  search_block b s = for_step (rounds 0 page_count 1) 0 1 (λ p t. search_page b p t) s

  -- `rounds` blocks from the start of the data area on.
  pub search_blocks : (rounds : ℕ) → Search × drv.Dev → Search × drv.Dev
  unfolding for_step search_block
  search_blocks k s = for_step k block_start_data_area 1 (λ b t. search_block b t) s

  -- `given` says whether `timerange` is not NULL. The layer is one of the six: another number reads
  -- past the array `flags`.
  pub timerange : (given : Bool) → (ℕ → TimeRange) → drv.Dev → Ret × (ℕ → TimeRange) × drv.Dev
  timerange given ranges dev =
      if not given || timerangecount == 0
      then (err, ranges, dev)
      else (let (s, dev') =
            search_blocks (rounds block_start_data_area block_count 1) (going 0 ranges, dev) in
          let (r, out) = finish s in (r, out, dev'))

-- What one page adds up to: three local variables of the loop over the pages.
pub record Span : Type 0 where
  pub start_time : ℕ
  pub last_time : ℕ
  pub record_count : ℕ

abbrev pub no_span : Span
no_span = record { start_time = 0; last_time = 0; record_count = 0 }

-- `sizeof(rbf)`
abbrev pub raw_page_size : ℕ
raw_page_size = 2112

-- `((uint64_t)cp->time) * 1000 + (uint64_t)cp->msec`, and the same on 32 bits.
abbrev pub stamp64 : Compress → ℕ
stamp64 cp = u64 (cp.time * 1000 + msec_of cp)

abbrev pub stamp32 : Compress → ℕ
stamp32 cp = u32 (cp.time * 1000 + msec_of cp)

abbrev pub first_time : ℕ → ℕ → ℕ
first_time old new = if old == 0 then new else old

abbrev pub antp_span : Compress → Span → Span
antp_span cp s = record {
  start_time = first_time s.start_time (stamp64 cp);
  last_time = stamp64 cp;
  record_count = u16 (s.record_count + 1);
}

abbrev pub shared_span : ℕ → Compress → Span → Span
shared_span n cp s = record {
  start_time = first_time s.start_time (stamp32 cp);
  last_time = u64 (stamp32 cp + n * step_of cp);
  record_count = u16 (s.record_count + n);
}

-- The record whose header `cp` ends at `offset`: how far it goes on, and what it adds.
pub span_record : (layer : ℕ) → Compress → ℕ → Span → ℕ × Span
span_record layer cp offset s =
    let type = type_of cp in
    if type == 0 || (type == 1 || type == 2)
    then (offset + ant_length cp, if type == layer then antp_span cp s else s)
    else if type == 3 || type == 4
    then (
      offset + gyr_count cp * gyro_record_size,
      if type == layer then shared_span (gyr_count cp) cp s else s,
    )
    else if type == 5
    then (
      offset + tmp_count cp * temperature_record_size,
      if type == layer then shared_span (tmp_count cp) cp s else s,
    )
    else (offset, s)

pub span_loop : (layer : ℕ) → List ℕ → ℕ → ℕ → Span → Outcome Span
span_loop layer rbf zero offset s = stuck
span_loop layer rbf (suc fuel) offset s = elim (ltb offset raw_page_size) [
  | false ↦ returns s
  | true ↦ (do
    m ← load offset 4 rbf
    elim (from_le m == magic_number) [
      | false ↦ returns s
      | true ↦
          let r = span_record layer (decode offset rbf) (offset + header_size) s in
          load offset header_size rbf >> span_loop layer rbf fuel r.0 r.1
    ])
]

-- Every round goes on by a header at least, so 133 rounds are enough for 2112 bytes.
abbrev pub span_fuel : ℕ
span_fuel = 133

abbrev pub add_span : (timerangecount block page : ℕ) → Span → ℕ → (ℕ → TimeRange) → Search
add_span limit b p s cnt ranges =
    if ltb 0 s.record_count
    then (if ltb cnt limit
        then going (suc cnt) (
            update ranges cnt (record {
              block = b;
              page = p;
              start_time = s.start_time;
              last_time = s.last_time;
              record_count = s.record_count;
            }))
        else left need_more_buffer ranges)
    else going cnt ranges

module _ (drv : Driver) (inst : Inst) (layer block timerangecount : ℕ) where
  pub span_page : (page : ℕ) → Outcome Search × drv.Dev → Outcome Search × drv.Dev
  span_page p (returns (going cnt ranges), dev) =
      if is_invalid (inst.blocks block).flags
      then (let (r, rbf, dev') = drv.read block p (replicate raw_page_size 0) dev in
          if is_ok r
          then (
            (do
              s ← span_loop layer rbf span_fuel 0 no_span
              returns (add_span timerangecount block p s cnt ranges)),
            dev',
          )
          else (returns (left err ranges), dev'))
      else (returns (going cnt ranges), dev)
  span_page p (m, dev) = (m, dev)

  unfoldable pub timerange_by_block :
      (given : Bool) → (ℕ → TimeRange) → drv.Dev → Outcome (Ret × (ℕ → TimeRange)) × drv.Dev
  unfolding for_step span_page
  timerange_by_block given ranges dev =
      if not given || timerangecount == 0
      then (returns (err, ranges), dev)
      else if ltb block block_start_data_area
      then (returns (err, ranges), dev)
      else (let (m, dev') =
            for_step (rounds 0 page_count 1) 0 1 (λ p t. span_page p t)
              (returns (going 0 ranges), dev) in
          ((do s ← m; returns (finish s)), dev'))
