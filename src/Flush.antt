-- ===== src/Flush.antt =====
-- sw/child/src/mxfs_flush.cc: the buffered records of all layers become one page, which goes to the
-- current block and page; then the position moves on.
mod Loops
pub mod Stores
pub mod Outcome
pub mod Prepare
pub mod Page
pub mod Emptied
use Prim.Native.Nat.{bit_or}
use mxfs.Base.{
  ℕ, ◌+◌, ◌-◌, ◌*◌, ◌/◌, ◌%◌, ◌^◌, Bool, true, false, List, [], ◌∷◌, ◌++◌, ltb, leb, ◌==◌,
  if◌then◌else◌, u16, u32, sub64, from_le, slice, rounds, for_step,
}
use mxfs.Header.{
  Compress, magic_number, init_header, set_step, set_msec, set_ant_length, set_gyr_dim,
  set_gyr_count, set_gyr_base, set_tmp_base, set_tmp_count, encode,
}
use mxfs.Instance.{
  Ret, ok, err, is_ok, Layer, speed, power, cadence, gyro, accelerometer, temperature, code,
  record_size, page_flag, put, is_invalid, mark_invalid, clear_invalid, Inst, BlockStatus, update,
  page_count, block_count, block_start_data_area, stamp_size,
}
use mxfs.Driver.{Driver}

-- The first loop: what the buffered payloads add up to, on uint16_t.
unfoldable pub add_payload : Inst → Layer → ℕ → ℕ
add_payload inst l acc = u16 (acc + record_size l * inst.mxfs_count l)

unfoldable pub pending_length : Inst → ℕ
unfolding add_payload
pending_length inst = add_payload inst temperature (
    add_payload inst accelerometer (
      add_payload inst gyro
        (add_payload inst cadence (add_payload inst power (add_payload inst speed 0)))))

-- `work_buffer` is the part of `_work_buffer` below `work_len`.
pub record Work : Type 0 where
  pub work_buffer : List ℕ
  pub page_flags : ℕ
  pub start_tmm : ℕ
  pub last_tmm : ℕ

abbrev pub empty_work : Work
empty_work = record { work_buffer = []; page_flags = 0; start_tmm = 0; last_tmm = 0 }

-- `memcpy(&tmm, &mxfs_buffer[layer][n], sizeof(tmm))`
abbrev pub stamp_at : ℕ → List ℕ → ℕ
stamp_at n buffer = from_le (slice n stamp_size buffer)

unfoldable pub antp_header : Layer → ℕ → Compress
antp_header l tmm =
    set_ant_length 18
      (set_msec (u32 (tmm % 1000) % 1024) (init_header magic_number (u32 (tmm / 1000)) 0 (code l)))

antp_record : Layer → List ℕ → ℕ → Work → Work
antp_record l buffer n w =
    let tmm = stamp_at n buffer in
    record w {
      work_buffer =
          w.work_buffer ++ (encode (antp_header l tmm) ++ slice (n + stamp_size) 18 buffer);
      page_flags = bit_or w.page_flags (page_flag l);
      start_tmm = if w.start_tmm == 0 then tmm else w.start_tmm;
      last_tmm = tmm;
    }

pub antp_loop : Layer → List ℕ → ℕ → Work → Work
unfolding antp_record for_step
antp_loop l buffer len w = for_step (rounds 0 len 26) 0 26 (antp_record l buffer) w

-- The average distance of two samples in milliseconds, at most 0xFFFF.
unfoldable pub sample_step : ℕ → ℕ → ℕ → ℕ
sample_step tmm last_tmm count =
    let q = u32 (sub64 last_tmm tmm / count) in if ltb 0xffff q then 0xffff else q % 2 ^ 16

-- `step` is assigned twice where it passes 0xFFFF; the second value stands.
unfoldable pub dim3_header : Layer → ℕ → ℕ → ℕ → Compress
dim3_header l tmm last_tmm count = set_gyr_base 0 (
    set_gyr_count count (
      set_gyr_dim 3 (
        set_step (sample_step tmm last_tmm count) (
          set_msec (u32 (tmm % 1000) % 1024)
            (init_header magic_number (u32 (tmm / 1000)) 1 (code l))))))

unfoldable pub temperature_header : ℕ → ℕ → ℕ → Compress
temperature_header tmm last_tmm count = set_step (sample_step tmm last_tmm count) (
    set_tmp_base 0 (
      set_tmp_count count (
        set_msec (u32 (tmm % 1000) % 1024)
          (init_header magic_number (u32 (tmm / 1000)) 1 (code temperature)))))

-- The loop that leaves the last stamp in `last_tmm`.
pub last_stamp : (start step : ℕ) → List ℕ → ℕ → ℕ → ℕ
unfolding for_step
last_stamp start step buffer len last =
    for_step (rounds start len step) start step (λ n t. stamp_at n buffer) last

-- The loop that copies the payloads.
pub copy_payloads : (size step : ℕ) → List ℕ → ℕ → List ℕ → List ℕ
unfolding for_step
copy_payloads size step buffer len work =
    for_step (rounds 0 len step) 0 step (λ n w. w ++ slice (n + stamp_size) size buffer) work

pub dim3_work : Layer → List ℕ → ℕ → Work → Work
dim3_work l buffer len w =
    let tmm = stamp_at 0 buffer in
    let last = last_stamp 0 14 buffer len w.last_tmm in
    record w {
      work_buffer =
          copy_payloads 6 14 buffer len
            (w.work_buffer ++ encode (dim3_header l tmm last (len / 14)));
      page_flags = bit_or w.page_flags (page_flag l);
      last_tmm = last;
    }

-- Here the loop over the stamps begins at the second record.
pub temperature_work : List ℕ → ℕ → Work → Work
temperature_work buffer len w =
    let tmm = stamp_at 0 buffer in
    let last = last_stamp 10 10 buffer len w.last_tmm in
    record w {
      work_buffer =
          copy_payloads 2 10 buffer len
            (w.work_buffer ++ encode (temperature_header tmm last (len / 10)));
      page_flags = bit_or w.page_flags (page_flag temperature);
      last_tmm = last;
    }

-- `mxfs_length[layer] = 0; mxfs_count[layer] = 0;`
abbrev pub reset_layer : Layer → Inst → Inst
reset_layer l inst = record inst {
  mxfs_length = put l 0 inst.mxfs_length;
  mxfs_count = put l 0 inst.mxfs_count;
}

pub antp_layer : Layer → Inst × Work → Inst × Work
antp_layer l (inst, w) =
    (reset_layer l inst, antp_loop l (inst.mxfs_buffer l) (inst.mxfs_length l) w)

pub dim3_layer : Layer → Inst × Work → Inst × Work
dim3_layer l (inst, w) =
    if ltb 0 (inst.mxfs_length l)
    then (reset_layer l inst, dim3_work l (inst.mxfs_buffer l) (inst.mxfs_length l) w)
    else (inst, w)

pub temperature_layer : Inst × Work → Inst × Work
temperature_layer (inst, w) =
    if ltb 0 (inst.mxfs_length temperature)
    then (
      reset_layer temperature inst,
      temperature_work (inst.mxfs_buffer temperature) (inst.mxfs_length temperature) w,
    )
    else (inst, w)

-- Lines 53 to 203: the page is put together, and the layers are emptied.
pub prepare : Inst → Inst × Work
prepare inst = temperature_layer (
    dim3_layer accelerometer (
      dim3_layer gyro
        (antp_layer cadence (antp_layer power (antp_layer speed (inst, empty_work))))))

abbrev pub block_flags : Inst → ℕ → ℕ
block_flags inst block = (inst.blocks block).flags

abbrev pub set_block_flags : ℕ → ℕ → Inst → Inst
set_block_flags block f inst = record inst {
  blocks = update inst.blocks block (record (inst.blocks block) { flags = f });
}

-- The page is marked with its layers, and the position moves on by one page. A block that is entered
-- is marked, so that it is erased before its first page is written.
unfoldable pub advance : ℕ → Inst → Inst
advance flags inst =
    let b = inst.current_block in
    let marked : BlockStatus = record (inst.blocks b) {
      pages = update (inst.blocks b).pages inst.current_page (flags % 256);
    } in
    let i : Inst = record inst {
      blocks = update inst.blocks b marked;
      current_page = u16 (inst.current_page + 1);
    } in
    if leb page_count i.current_page
    then (let next = if leb block_count (u16 (b + 1)) then block_start_data_area else u16 (b + 1) in
        set_block_flags next (mark_invalid (block_flags i next))
          (record i { current_page = 0; current_block = next }))
    else i

module _ (drv : Driver) where
  -- Lines 204 to 215; the block's mark is cleared also where the erase fails.
  unfoldable pub erase_first : Inst → drv.Dev → Ret × Inst × drv.Dev
  erase_first inst dev =
      let b = inst.current_block in
      if is_invalid (block_flags inst b)
      then (let (r, dev') = drv.erase b dev in
          (
            if is_ok r then ok else err,
            set_block_flags b (clear_invalid (block_flags inst b)) inst,
            dev',
          ))
      else (ok, inst, dev)

  unfoldable pub write_work : Work → Inst → drv.Dev → Ret × Inst × drv.Dev
  write_work w inst dev =
      let (ret, dev') = drv.write inst.current_block inst.current_page w.work_buffer dev in
      (ret, if is_ok ret then advance w.page_flags inst else inst, dev')

  unfoldable pub write_out : Inst × Work → drv.Dev → Ret × Inst × drv.Dev
  write_out (inst, w) dev =
      let (r, inst', dev') = erase_first inst dev in
      if is_ok r then write_work w inst' dev' else (err, inst', dev')

  unfoldable pub flush : Inst → drv.Dev → Ret × Inst × drv.Dev
  flush inst dev =
      if pending_length inst == 0 then (ok, inst, dev) else write_out (prepare inst) dev
