-- ===== src/Mount/Sound.antt =====
-- A created instance is sound and empty.
use mxfs.Base.{
  ℕ, zero, suc, ◌+◌, ◌≤◌, ◌<◌, ◌≡◌, refl, none, some, arith, ltb, length-replicate, replicate,
  Bool-cases, inl, inr, for_step_keeps,
}
use mxfs.Instance.{ok, is_ok, Inst, BlockStatus, is_invalid, block_count}
use mxfs.Driver.{Driver}
use mxfs.Sound.{IsSound}
use mxfs.Flush.Prepare.Whole.{empty_log}
use mxfs.Mount.{fresh_inst, find_current, scan_block, scan, mount}

module _ (buffer_size : ℕ) where
  abbrev IsEmpty : Inst → Type 0
  IsEmpty inst = IsSound buffer_size inst empty_log

  pub fresh_inst-IsSound : IsEmpty (fresh_inst buffer_size)
  fresh_inst-IsSound = record {
    holds = λ l. record {
      rest = (fresh_inst buffer_size).mxfs_buffer l;
      buffered = refl;
      lengths = omega arith;
      counts = refl;
      entries = tt;
    };
    cost = omega arith;
    sizes = λ l. length-replicate buffer_size 0xff;
    block_low = omega arith;
    block_high = omega arith;
    page_high = omega arith;
  }

  -- The marks of the blocks do not matter to it.
  blocks-IsSound :
      (inst : Inst) (blocks : ℕ → BlockStatus)
      → IsEmpty inst
      → IsEmpty (record inst { blocks = blocks })
  blocks-IsSound inst blocks h = record {
    holds = λ l.
        let k = h.holds l in
        record {
          rest = k.rest;
          buffered = k.buffered;
          lengths = k.lengths;
          counts = k.counts;
          entries = k.entries;
        };
    cost = h.cost;
    sizes = h.sizes;
    block_low = h.block_low;
    block_high = h.block_high;
    page_high = h.page_high;
  }

  moved-IsSound :
      (inst : Inst) (b : ℕ)
      → 1 ≤ b
      → b < block_count
      → IsEmpty inst
      → IsEmpty (record inst { current_block = b; current_page = 0 })
  moved-IsSound inst b lo hi h = record {
    holds = λ l.
        let k = h.holds l in
        record {
          rest = k.rest;
          buffered = k.buffered;
          lengths = k.lengths;
          counts = k.counts;
          entries = k.entries;
        };
    cost = h.cost;
    sizes = h.sizes;
    block_low = lo;
    block_high = hi;
    page_high = omega arith;
  }

  find_current-IsSound :
      (k b t : ℕ) (inst : Inst)
      → 1 ≤ b
      → b + k ≤ block_count
      → IsEmpty inst
      → IsEmpty (find_current k b t inst)
  unfolding find_current
  find_current-IsSound zero b t inst lo hi h = h
  find_current-IsSound (suc k) b t inst lo hi h =
      let here = moved-IsSound inst b lo (omega arith) h in
      elim (Bool-cases (is_invalid (inst.blocks b).flags)) [
        | inl e ↦ elim (Bool-cases (ltb t (inst.blocks b).start_time)) [
          | inl f ↦ rw (e, f) (find_current-IsSound k (suc b) _ _ (omega arith) (omega arith) here)
          | inr f ↦ rw (e, f) (find_current-IsSound k (suc b) t inst (omega arith) (omega arith) h)
        ]
        | inr e ↦ rw e here
      ]

  module _ (drv : Driver) where
    scan_block-IsSound :
        (b : ℕ) (s : Inst × drv.Dev) → IsEmpty s.0 → IsEmpty (scan_block drv none b s).0
    unfolding scan_block
    scan_block-IsSound b (inst, dev) h =
        elim (Bool-cases (is_ok (drv.read b 0 (replicate 16 0) dev).0)) [
          | inl e ↦ rw e (blocks-IsSound inst _ h)
          | inr e ↦ rw e (blocks-IsSound inst _ h)
        ]

    scan-IsSound : (s : Inst × drv.Dev) → IsEmpty s.0 → IsEmpty (scan drv none s).0
    unfolding scan
    scan-IsSound s h =
        for_step_keeps (λ (t : Inst × drv.Dev). IsEmpty t.0) 1023 1 1
          (λ b t. scan_block drv none b t) s scan_block-IsSound h

    -- Whatever the flash holds: where the pins and the bus come up, the part of `mxfs_create_instance`
    -- behind its allocations, without a callback, ends in OK with an instance that holds no record, whose
    -- buffers have their size and whose position lies in the data area.
    pub mount-IsSound :
        (dev : drv.Dev)
        → (drv.create_gpio dev).0 ≡ ok
        → (drv.create_spi (drv.create_gpio dev).1).0 ≡ ok
        → let r = mount drv none (fresh_inst buffer_size) dev in
          (inst : Inst) × (r.0 ≡ ok) × (r.1 ≡ some inst) × IsEmpty inst
    unfolding mount
    mount-IsSound dev g s =
        rw (g, s)
          (
            _,
            refl,
            refl,
            find_current-IsSound 1023 1 0 _ (omega arith) (omega arith)
                (scan-IsSound _ fresh_inst-IsSound),
          )
