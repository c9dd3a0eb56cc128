-- ===== src/Append.antt =====
-- sw/child/src/mxfs_append.cc: a record goes into its layer's buffer, behind an 8-byte time stamp,
-- after a flush when the page that the buffered records will take is nearly full.
pub mod Outcome
pub mod Refines
pub mod Sequence
pub mod Wedge
pub mod Durable
pub mod Fresh
use mxfs.Base.{
  ℕ, ◌+◌, ◌-◌, ◌*◌, Bool, true, false, Option, none, some, List, length, ltb, ◌==◌, if◌then◌else◌,
  u16, to_le, splice,
}
use mxfs.Header.{header_size}
use mxfs.Instance.{
  Ret, ok, err, need_more_buffer, Layer, speed, power, cadence, gyro, accelerometer, temperature,
  record_size, layer_of, put, Inst, page_size, stamp_size,
}
use mxfs.Driver.{Driver}
use mxfs.Flush.{flush, reset_layer}

-- One round of the loop that adds up `current_length`, a uint16_t: every ANT+ record has a header, and
-- each of the other layers one for all of its records.
pub add_cost : Layer → ℕ → ℕ → ℕ
add_cost speed n acc = u16 (u16 (acc + n * record_size speed) + header_size * n)
add_cost power n acc = u16 (u16 (acc + n * record_size power) + header_size * n)
add_cost cadence n acc = u16 (u16 (acc + n * record_size cadence) + header_size * n)
add_cost l n acc =
    let a = u16 (acc + n * record_size l) in if ltb 0 n then u16 (a + header_size) else a

pub current_length : Inst → ℕ
current_length inst = add_cost temperature (inst.mxfs_count temperature) (
    add_cost accelerometer (inst.mxfs_count accelerometer) (
      add_cost gyro (inst.mxfs_count gyro) (
        add_cost cadence (inst.mxfs_count cadence)
          (add_cost power (inst.mxfs_count power) (add_cost speed (inst.mxfs_count speed) 0)))))

-- The part behind the flush; `buffer_size` is MXFS_BUFFER_SIZE.
pub store_record : (buffer_size : ℕ) → Layer → ℕ → List ℕ → Inst → Ret × Inst
store_record buffer_size l tmm payload inst =
    let lpos = inst.mxfs_length l in
    let buffer = inst.mxfs_buffer l in
    if ltb buffer_size (lpos + stamp_size + length payload) then (need_more_buffer, inst) else (
      ok,
      record inst {
        mxfs_buffer =
            put l (splice (lpos + stamp_size) payload (splice lpos (to_le 8 tmm) buffer))
              inst.mxfs_buffer;
        mxfs_length = put l (u16 (u16 (lpos + stamp_size) + length payload)) inst.mxfs_length;
        mxfs_count = put l (u16 (inst.mxfs_count l + 1)) inst.mxfs_count;
      },
    )

module _ (drv : Driver) where
  -- The return code of the flush is dropped, and the layer is emptied once more.
  pub flush_if_full : Layer → ℕ → Inst → drv.Dev → Inst × drv.Dev
  flush_if_full l bufferlen inst dev =
      if ltb (page_size - 64) (u16 (current_length inst + bufferlen))
      then (let (r, inst', dev') = flush drv inst dev in (reset_layer l inst', dev'))
      else (inst, dev)

  pub append_valid : (buffer_size : ℕ) → Layer → ℕ → List ℕ → Inst → drv.Dev → Ret × Inst × drv.Dev
  append_valid buffer_size l tmm payload inst dev =
      let (inst', dev') = flush_if_full l (length payload) inst dev in
      let (r, inst'') = store_record buffer_size l tmm payload inst' in (r, inst'', dev')

  -- `payload` is the caller's buffer of `bufferlen` bytes.
  pub append : (buffer_size layer tmm : ℕ) → List ℕ → Inst → drv.Dev → Ret × Inst × drv.Dev
  append buffer_size layer tmm payload inst dev = elim (layer_of layer) [
    | none ↦ (err, inst, dev)
    | some l ↦
        if length payload == record_size l
        then append_valid buffer_size l tmm payload inst dev
        else (err, inst, dev)
  ]
