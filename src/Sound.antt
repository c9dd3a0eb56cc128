-- ===== src/Sound.antt =====
-- What holds of an instance (`mxfs_inst_t` of sw/child/inc/mxfs_def.h) between two calls.
use mxfs.Base.{ℕ, ◌+◌, ◌*◌, ◌-◌, ◌≤◌, ◌<◌, ◌≡◌, refl, ap, subst, ◌%◌, List, [], ◌∷◌, arith, length}
use mxfs.Instance.{
  Layer, speed, power, cadence, gyro, accelerometer, temperature, Inst, block_count, page_count,
}
use mxfs.Log.{Entry, Log, Holds}
use mxfs.Flush.{pending_length, add_payload, advance}
use mxfs.Flush.Page.{page_cost, shared_cost}
use mxfs.Flush.Prepare.{HoldsAll}
use mxfs.Flush.Prepare.Whole.{empty_log}

-- The buffers hold `log`, its page fits with room to spare, and the position lies in the data area.
pub record IsSound (buffer_size : ℕ) (inst : Inst) (log : Log) : Type 0 where
  pub holds : HoldsAll inst log
  pub cost : page_cost log ≤ 2000
  pub sizes : (l : Layer) → length (inst.mxfs_buffer l) ≡ buffer_size
  pub block_low : 1 ≤ inst.current_block
  pub block_high : inst.current_block < block_count
  pub page_high : inst.current_page < page_count

-- The payload bytes of a layer that shares a header.
pub shared_cost_count : (k : ℕ) (es : List Entry) → k * length es ≤ shared_cost k es
shared_cost_count k [] = omega arith
shared_cost_count k (e ∷ es) = omega (arith)

module _ (inst : Inst) (log : Log) (h : HoldsAll inst log) (cost : page_cost log ≤ 2000) where
  -- `current_length` of `mxfs_flush` adds up the payloads, and does not wrap.
  pub pending_length-counts :
      pending_length inst
      ≡ 18 * length (log speed)
        + 18 * length (log power)
        + 18 * length (log cadence)
        + 6 * length (log gyro)
        + 6 * length (log accelerometer)
        + 2 * length (log temperature)
  unfolding pending_length add_payload
  pending_length-counts = omega (
    arith,
    (h speed).counts,
    (h power).counts,
    (h cadence).counts,
    (h gyro).counts,
    (h accelerometer).counts,
    (h temperature).counts,
    shared_cost_count 6 (log gyro),
    shared_cost_count 6 (log accelerometer),
    shared_cost_count 2 (log temperature),
  )

  nothing : (l : Layer) (es : List Entry) → log l ≡ es → pending_length inst ≡ 0 → es ≡ []
  nothing l [] e z = refl
  nothing speed (x ∷ xs) e z =
      absurd (omega (arith, pending_length-counts, ap (λ (t : List Entry). length t) e))
  nothing _ (x ∷ xs) e z =
      absurd (omega (arith, pending_length-counts, ap (λ (t : List Entry). length t) e))

  -- Where nothing is pending, no layer holds a record.
  pub pending-HoldsAll : pending_length inst ≡ 0 → HoldsAll inst empty_log
  pending-HoldsAll z l = subst (λ es. Holds l inst es) (nothing l (log l) refl z) (h l)

-- Two instances with the same buffers.
pub record SameBuffers (i j : Inst) : Type 0 where
  pub mxfs_buffer : j.mxfs_buffer ≡ i.mxfs_buffer
  pub mxfs_length : j.mxfs_length ≡ i.mxfs_length
  pub mxfs_count : j.mxfs_count ≡ i.mxfs_count

pub SameBuffers-HoldsAll :
    {i j : Inst} (log : Log) → SameBuffers i j → HoldsAll i log → HoldsAll j log
SameBuffers-HoldsAll log s h l = record {
  rest = (h l).rest;
  buffered = rw s.mxfs_buffer (h l).buffered;
  lengths = rw s.mxfs_length (h l).lengths;
  counts = rw s.mxfs_count (h l).counts;
  entries = (h l).entries;
}

-- The position after a page, counted from the start of the data area.
abbrev pub position : Inst → ℕ
position inst = (inst.current_block - 1) * 64 + inst.current_page

-- The data area is a ring of 1023 blocks.
abbrev pub ring_size : ℕ
ring_size = 1023 * 64

module _ (flags : ℕ) (inst : Inst) where
  -- One page on, and back to the first block behind the last.
  pub position-advance :
      1 ≤ inst.current_block
      → inst.current_block < block_count
      → inst.current_page < page_count
      → (position (advance flags inst) ≡ (position inst + 1) % ring_size)
        × (1 ≤ (advance flags inst).current_block)
        × ((advance flags inst).current_block < block_count)
        × ((advance flags inst).current_page < page_count)
  unfolding advance
  position-advance lo hi p = ground arith

  pub advance-SameBuffers : SameBuffers inst (advance flags inst)
  unfolding advance
  advance-SameBuffers = record {
    mxfs_buffer = ground arith;
    mxfs_length = ground arith;
    mxfs_count = ground arith;
  }
