-- ===== src/Flush/Outcome.antt =====
-- What `mxfs_flush` leaves behind on any driver, whether it succeeds or fails.
use mxfs.Base.{
  ℕ, ◌+◌, ◌%◌, ◌≤◌, ◌<◌, ◌≡◌, ◌≢◌, inl, inr, refl, ◌∙◌, true, false, arith, ◌==◌, ==→eq, ==→ne,
  ne→==, Bool-cases,
}
use mxfs.Instance.{Ret, ok, is_ok, Inst, block_count, page_count}
use mxfs.Log.{Log}
use mxfs.Driver.{Driver}
use mxfs.Flush.{Work, pending_length, prepare, erase_first, write_work, write_out, flush}
use mxfs.Flush.Prepare.Whole.{empty_log, prepare-SamePlace, prepare-HoldsAll}
use mxfs.Sound.{
  IsSound, SameBuffers, SameBuffers-HoldsAll, position, ring_size, position-advance,
  advance-SameBuffers, pending-HoldsAll,
}

-- Where the instance stands after `r` was returned, from the position before.
pub record Moved (r : Ret) (i j : Inst) : Type 0 where
  pub buffers : SameBuffers i j
  pub block_low : 1 ≤ j.current_block
  pub block_high : j.current_block < block_count
  pub page_high : j.current_page < page_count
  pub moves : r ≡ ok → position j ≡ (position i + 1) % ring_size
  pub stays : r ≢ ok → position j ≡ position i

-- The position of an instance lies in the data area.
pub record IsPlaced (i : Inst) : Type 0 where
  pub block_low : 1 ≤ i.current_block
  pub block_high : i.current_block < block_count
  pub page_high : i.current_page < page_count

is_ok-ok : (r : Ret) → is_ok r ≡ true → r ≡ ok
is_ok-ok r h = ground arith

not_ok : (r : Ret) → is_ok r ≡ false → r ≢ ok
not_ok r h e = ground arith

refl-SameBuffers : (i : Inst) → SameBuffers i i
refl-SameBuffers i = record { mxfs_buffer = refl; mxfs_length = refl; mxfs_count = refl }

module _ (drv : Driver) where
  write_work-Moved :
      (w : Work) (inst : Inst) (dev : drv.Dev)
      → IsPlaced inst
      → let r = write_work drv w inst dev in Moved r.0 inst r.1
  unfolding write_work
  write_work-Moved w inst dev h =
      let ret = (drv.write inst.current_block inst.current_page w.work_buffer dev).0 in
      let (m, lo, hi, pg) =
        position-advance w.page_flags inst h.block_low h.block_high h.page_high in
      elim (Bool-cases (is_ok ret)) [
        | inl e ↦ rw e (record {
          buffers = advance-SameBuffers w.page_flags inst;
          block_low = lo;
          block_high = hi;
          page_high = pg;
          moves = λ _. m;
          stays = λ n. absurd (n (is_ok-ok ret e));
        })
        | inr e ↦ rw e (record {
          buffers = refl-SameBuffers inst;
          block_low = h.block_low;
          block_high = h.block_high;
          page_high = h.page_high;
          moves = λ q. absurd (not_ok ret e q);
          stays = λ _. refl;
        })
      ]

  erase_first-SameBuffers :
      (inst : Inst) (dev : drv.Dev)
      → let j = (erase_first drv inst dev).1 in
        SameBuffers inst j
        × (j.current_block ≡ inst.current_block)
        × (j.current_page ≡ inst.current_page)
  unfolding erase_first
  erase_first-SameBuffers inst dev = ground arith

  write_out-Moved :
      (inst : Inst) (w : Work) (dev : drv.Dev)
      → IsPlaced inst
      → let r = write_out drv (inst, w) dev in Moved r.0 inst r.1
  unfolding write_out
  write_out-Moved inst w dev h =
      let r = erase_first drv inst dev in
      let (same, b, p) = erase_first-SameBuffers inst dev in
      let placed : IsPlaced r.1 = record {
        block_low = rw b h.block_low;
        block_high = rw b h.block_high;
        page_high = rw p h.page_high;
      } in
      let m = write_work-Moved w r.1 r.2 placed in
      elim (Bool-cases (is_ok r.0)) [
        | inl e ↦ rw e (record {
          buffers = record {
            mxfs_buffer = m.buffers.mxfs_buffer ∙ same.mxfs_buffer;
            mxfs_length = m.buffers.mxfs_length ∙ same.mxfs_length;
            mxfs_count = m.buffers.mxfs_count ∙ same.mxfs_count;
          };
          block_low = m.block_low;
          block_high = m.block_high;
          page_high = m.page_high;
          moves = λ q. m.moves q ∙ rw (b, p) refl;
          stays = λ q. m.stays q ∙ rw (b, p) refl;
        })
        | inr e ↦ rw e (record {
          buffers = same;
          block_low = placed.block_low;
          block_high = placed.block_high;
          page_high = placed.page_high;
          moves = λ q. cc q;
          stays = λ q. rw (b, p) refl;
        })
      ]

  module _ (buffer_size : ℕ) (inst : Inst) (log : Log) (dev : drv.Dev) where
    placed : IsSound buffer_size inst log → IsPlaced inst
    placed h = record {
      block_low = h.block_low;
      block_high = h.block_high;
      page_high = h.page_high;
    }

    -- With nothing pending a flush does nothing.
    pub flush_idle : pending_length inst ≡ 0 → flush drv inst dev ≡ (ok, inst, dev)
    unfolding flush
    flush_idle z = rw z

    pub flush_busy : pending_length inst ≢ 0 → flush drv inst dev ≡ write_out drv (prepare inst) dev
    unfolding flush
    flush_busy n = rw (ne→== (pending_length inst) 0 n)

    prepared-IsPlaced : IsSound buffer_size inst log → IsPlaced (prepare inst).0
    prepared-IsPlaced h =
        let s = prepare-SamePlace inst log h.holds in
        record {
          block_low = rw s.current_block h.block_low;
          block_high = rw s.current_block h.block_high;
          page_high = rw s.current_page h.page_high;
        }

    busy-IsSound :
        IsSound buffer_size inst log
        → IsSound buffer_size (write_out drv (prepare inst) dev).1 empty_log
    busy-IsSound h =
        let m = write_out-Moved (prepare inst).0 (prepare inst).1 dev (prepared-IsPlaced h) in
        let s = prepare-SamePlace inst log h.holds in
        record {
          holds = SameBuffers-HoldsAll empty_log m.buffers (prepare-HoldsAll inst log h.holds);
          cost = omega arith;
          sizes = λ l. rw (m.buffers.mxfs_buffer, s.mxfs_buffer) (h.sizes l);
          block_low = m.block_low;
          block_high = m.block_high;
          page_high = m.page_high;
        }

    -- On any driver, whatever it answers: after a flush of a sound instance no layer holds a record, the
    -- buffers have their size and the position lies in the data area.
    pub flush-IsSound :
        IsSound buffer_size inst log → IsSound buffer_size (flush drv inst dev).1 empty_log
    flush-IsSound h = elim (Bool-cases (pending_length inst == 0)) [
      | inl e ↦
          let z = ==→eq (pending_length inst) 0 e in
          rw (flush_idle z) (record {
            holds = pending-HoldsAll inst log h.holds h.cost z;
            cost = omega arith;
            sizes = h.sizes;
            block_low = h.block_low;
            block_high = h.block_high;
            page_high = h.page_high;
          })
      | inr e ↦ rw (flush_busy (==→ne (pending_length inst) 0 e)) (busy-IsSound h)
    ]

    -- On any driver: from a sound instance, a flush with records pending moves the position by one page of
    -- the ring if it returns OK, and leaves it alone otherwise.
    pub position-flush :
        IsSound buffer_size inst log
        → pending_length inst ≢ 0
        → ((flush drv inst dev).0 ≡ ok
            → position (flush drv inst dev).1 ≡ (position inst + 1) % ring_size)
          × ((flush drv inst dev).0 ≢ ok → position (flush drv inst dev).1 ≡ position inst)
    position-flush h n =
        let m = write_out-Moved (prepare inst).0 (prepare inst).1 dev (prepared-IsPlaced h) in
        let s = prepare-SamePlace inst log h.holds in
        let same : position (prepare inst).0 ≡ position inst =
          rw (s.current_block, s.current_page) refl in
        rw (flush_busy n) ((λ q. m.moves q ∙ rw same refl), (λ q. m.stays q ∙ same))
