-- ===== src/Append/Fresh.antt =====
-- The flash stays ready for the next flush across an append.
use mxfs.Base.{
  ℕ, ◌+◌, ◌^◌, ◌≤◌, ◌<◌, ◌≡◌, refl, List, [], ◌∷◌, All, length, ltb, Bool-cases, inl, inr,
}
use mxfs.Instance.{Layer, code, Inst}
use mxfs.Log.{IsEntry, Log}
use mxfs.Driver.{Driver, PageStore}
use mxfs.Sound.{IsSound}
use mxfs.Flush.{flush, reset_layer}
use mxfs.Flush.Stores.{IsFresh, flush-Stored}
use mxfs.Append.{append, append_valid, flush_if_full, store_record}
use mxfs.Append.Refines.{is_full, log_step, length_after, append-Refines, append_accepts}
use mxfs.Append.Durable.{full_pending}
use mxfs.Append.Sequence.{Record, IsRecord, appends}

-- The position and the marks of the blocks are the same.
record SameMarks (i j : Inst) : Type 0 where
  current_block : j.current_block ≡ i.current_block
  current_page : j.current_page ≡ i.current_page
  blocks : j.blocks ≡ i.blocks

store_record-SameMarks :
    (buffer_size : ℕ) (l : Layer) (t : ℕ) (p : List ℕ) (inst : Inst)
    → SameMarks inst (store_record buffer_size l t p inst).1
unfolding store_record
store_record-SameMarks buffer_size l t p inst =
    elim (Bool-cases (ltb buffer_size (inst.mxfs_length l + 8 + length p))) [
      | inl e ↦ rw e (record { current_block = refl; current_page = refl; blocks = refl })
      | inr e ↦ rw e (record { current_block = refl; current_page = refl; blocks = refl })
    ]

module _ (drv : Driver) (st : PageStore drv) where
  SameMarks-IsFresh :
      (i j : Inst) (dev : drv.Dev) → SameMarks i j → IsFresh drv st i dev → IsFresh drv st j dev
  SameMarks-IsFresh i j dev s h = record {
    ready = h.ready;
    blank_ahead = rw (s.current_block, s.current_page, s.blocks) h.blank_ahead;
  }

  module _ (buffer_size : ℕ) (large : 26 ≤ buffer_size) (small : buffer_size < 2 ^ 16) where
    append_valid-IsFresh :
        (l : Layer) (t : ℕ) (p : List ℕ) (inst : Inst) (log : Log) (dev : drv.Dev)
        → IsSound buffer_size inst log
        → IsEntry l (t, p)
        → IsFresh drv st inst dev
        → let r = append_valid drv buffer_size l t p inst dev in IsFresh drv st r.1 r.2
    unfolding append_valid flush_if_full
    append_valid-IsFresh l t p inst log dev h e f =
        let cost = length_after buffer_size large small drv l t p inst log dev h e in
        elim (Bool-cases (is_full log l)) [
          | inl g ↦
              let i = (flush drv inst dev).1 in
              let k = reset_layer l i in
              let s =
                flush-Stored drv st buffer_size inst log dev h f
                  (full_pending buffer_size inst log l h g) in
              let same : SameMarks i k = record {
                current_block = refl;
                current_page = refl;
                blocks = refl;
              } in
              rw (cost, g)
                (SameMarks-IsFresh k _ _ (store_record-SameMarks buffer_size l t p k)
                  (SameMarks-IsFresh i k _ same s.fresh))
          | inr g ↦
              rw (cost, g)
                (SameMarks-IsFresh inst _ dev (store_record-SameMarks buffer_size l t p inst) f)
        ]

    append-IsFresh :
        (l : Layer) (t : ℕ) (p : List ℕ) (inst : Inst) (log : Log) (dev : drv.Dev)
        → IsSound buffer_size inst log
        → IsEntry l (t, p)
        → IsFresh drv st inst dev
        → let r = append drv buffer_size (code l) t p inst dev in IsFresh drv st r.1 r.2
    append-IsFresh l t p inst log dev h e f =
        rw (append_accepts drv buffer_size l t p inst dev e.1)
          (append_valid-IsFresh l t p inst log dev h e f)

    -- On a driver that stores pages and is ready, with buffers of 26 bytes at least and less than 2^16:
    -- after any sequence of appends of records of their layers' sizes to a sound instance whose current
    -- block is due for its erase or blank ahead, the instance's then current block is due for its erase or
    -- blank ahead.
    pub appends-IsFresh :
        (rs : List Record) (inst : Inst) (log : Log) (dev : drv.Dev)
        → IsSound buffer_size inst log
        → IsFresh drv st inst dev
        → All IsRecord rs
        → let s = appends drv buffer_size rs (inst, dev) in IsFresh drv st s.0 s.1
    appends-IsFresh [] inst log dev h f valid = f
    appends-IsFresh ((l, (t, p)) ∷ rs) inst log dev h f (v, vs) =
        let r = append drv buffer_size (code l) t p inst dev in
        let (_, b, _) = append-Refines buffer_size large small drv l t p inst log dev h v in
        appends-IsFresh rs r.1 (log_step buffer_size l (t, p) log) r.2 b
          (append-IsFresh l t p inst log dev h v f) vs
