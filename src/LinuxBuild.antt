-- ===== src/LinuxBuild.antt =====
-- sw/child: what the build with __LINUX__ does otherwise (mxfs_def.h, mxfs_flush.cc,
-- mxfs_instance.cc and mxfs_timerange.cc). There the status of a page keeps the times of its records.
-- What is the same in both builds is taken from the other modules.
pub mod Plain
pub mod Start
pub mod Lost
pub mod Ranges
pub mod Stamps
use Prim.Native.Nat.{bit_and}
use mxfs.Base.{
  ℕ, zero, suc, ◌+◌, ◌-◌, ◌%◌, Bool, true, false, not, ◌||◌, Option, none, some, List, replicate,
  ltb, leb, ◌==◌, if◌then◌else◌, u16, u32, rounds, for_step,
}
use mxfs.Header.{Compress, magic_number, decode}
use mxfs.Instance.{
  Ret, ok, err, need_more_buffer, is_ok, Layer, TimeRange, Inst, BlockStatus, update, is_invalid,
  mark_invalid, clear_invalid, block_count, page_count, block_start_data_area,
}
use mxfs.Driver.{Driver}
use mxfs.Flush.{Work, prepare, pending_length}
use mxfs.Timerange.{Search, going, left, finish, has_layer}

-- PAGE_VALID and PAGE_INVALID.
abbrev pub page_valid : ℕ
page_valid = 0

abbrev pub page_invalid : ℕ
page_invalid = 1

pub record PageStatus : Type 0 where
  pub flags : ℕ
  pub start_time : ℕ
  pub last_time : ℕ

pub record TimedBlock : Type 0 where
  pub flags : ℕ
  pub start_time : ℕ
  pub pages : ℕ → PageStatus

-- The three fields of the Raspberry Pi's driver (`spi`, `gpio`, `gpio_mem`) belong to the driver's state.
pub record TimedInst : Type 0 where
  pub current_block : ℕ
  pub invalid_block : ℕ
  pub current_page : ℕ
  pub mxfs_buffer : Layer → List ℕ
  pub mxfs_length : Layer → ℕ
  pub mxfs_count : Layer → ℕ
  pub blocks : ℕ → TimedBlock

-- What the other build keeps of it: the flags of a page in one byte, and no times.
abbrev pub plain_block : TimedBlock → BlockStatus
plain_block s = record {
  flags = s.flags;
  start_time = s.start_time;
  pages = λ p. (s.pages p).flags % 256;
}

abbrev pub plain : TimedInst → Inst
plain inst = record {
  current_block = inst.current_block;
  invalid_block = inst.invalid_block;
  current_page = inst.current_page;
  mxfs_buffer = inst.mxfs_buffer;
  mxfs_length = inst.mxfs_length;
  mxfs_count = inst.mxfs_count;
  blocks = λ b. plain_block (inst.blocks b);
}

-- The page is put together by the code of both builds, which empties the layers.
pub prepare_timed : TimedInst → TimedInst × Work
prepare_timed inst =
    let (i, w) = prepare (plain inst) in
    (record inst { mxfs_length = i.mxfs_length; mxfs_count = i.mxfs_count }, w)

abbrev pub timed_flags : TimedInst → ℕ → ℕ
timed_flags inst block = (inst.blocks block).flags

abbrev pub set_timed_flags : ℕ → ℕ → TimedInst → TimedInst
set_timed_flags block f inst = record inst {
  blocks = update inst.blocks block (record (inst.blocks block) { flags = f });
}

-- The status of the written page: the first stamp of the ANT+ layers, the last stamp, the layers.
abbrev pub page_status : Work → PageStatus
page_status w = record { flags = w.page_flags; start_time = w.start_tmm; last_time = w.last_tmm }

unfoldable pub advance_timed : Work → TimedInst → TimedInst
advance_timed w inst =
    let b = inst.current_block in
    let marked : TimedBlock = record (inst.blocks b) {
      pages = update (inst.blocks b).pages inst.current_page (page_status w);
    } in
    let i : TimedInst = record inst {
      blocks = update inst.blocks b marked;
      current_page = u16 (inst.current_page + 1);
    } in
    if leb page_count i.current_page
    then (let next = if leb block_count (u16 (b + 1)) then block_start_data_area else u16 (b + 1) in
        set_timed_flags next (mark_invalid (timed_flags i next))
          (record i { current_page = 0; current_block = next }))
    else i

module _ (drv : Driver) where
  pub erase_first_timed : TimedInst → drv.Dev → Ret × TimedInst × drv.Dev
  erase_first_timed inst dev =
      let b = inst.current_block in
      if is_invalid (timed_flags inst b)
      then (let (r, dev') = drv.erase b dev in
          (
            if is_ok r then ok else err,
            set_timed_flags b (clear_invalid (timed_flags inst b)) inst,
            dev',
          ))
      else (ok, inst, dev)

  pub write_work_timed : Work → TimedInst → drv.Dev → Ret × TimedInst × drv.Dev
  write_work_timed w inst dev =
      let (ret, dev') = drv.write inst.current_block inst.current_page w.work_buffer dev in
      (ret, if is_ok ret then advance_timed w inst else inst, dev')

  pub write_out_timed : TimedInst × Work → drv.Dev → Ret × TimedInst × drv.Dev
  write_out_timed (inst, w) dev =
      let (r, inst', dev') = erase_first_timed inst dev in
      if is_ok r then write_work_timed w inst' dev' else (err, inst', dev')

  pub flush_timed : TimedInst → drv.Dev → Ret × TimedInst × drv.Dev
  flush_timed inst dev =
      if pending_length (plain inst) == 0
      then (ok, inst, dev)
      else write_out_timed (prepare_timed inst) dev
