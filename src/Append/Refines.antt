-- ===== src/Append/Refines.antt =====
-- `mxfs_append` and the append to a log that is emptied when its page is full, and that takes no record
-- for which its layer's buffer has no room.
use mxfs.Base.{
  ℕ, ◌+◌, ◌*◌, ◌^◌, ◌≤◌, ◌<◌, ◌≡◌, inl, inr, refl, subst, ◌∙◌, Bool, List, [], ◌∷◌, ◌++◌, arith,
  length, length-append, ltb, Bool-cases, if◌then◌else◌, ltb→le, u16, some, leb, leb→le, leb→lt,
  le→leb, true, ◌||◌,
}
use mxfs.Instance.{
  ok, need_more_buffer, Layer, speed, power, cadence, gyro, accelerometer, temperature, record_size,
  code, layer_of, put, same_layer, Inst,
}
use mxfs.Log.{Entry, IsEntry, Log, Holds}
use mxfs.Driver.{Driver}
use mxfs.Flush.{flush, reset_layer}
use mxfs.Flush.Page.{page_cost, shared_cost}
use mxfs.Flush.Prepare.{reset_layer-HoldsAll}
use mxfs.Flush.Prepare.Whole.{empty_log}
use mxfs.Flush.Outcome.{flush-IsSound}
use mxfs.Sound.{IsSound, shared_cost_count}
use mxfs.Append.{current_length, store_record, flush_if_full, append_valid, append}
use mxfs.Append.Outcome.{
  current_length-page_cost, logged, store_record_refuses, store_record_fits, stored-HoldsAll,
  length-stored,
}

-- The append to a log: it starts anew when the records of the page pass 1984 bytes.
abbrev pub is_full : Log → Layer → Bool
is_full log l = ltb 1984 (page_cost log + record_size l)

abbrev pub log_append : Layer → Entry → Log → Log
log_append l e log = if is_full log l then logged l e empty_log else logged l e log

-- An append is taken if it flushes, or if the layer's buffer has room for the record; otherwise the log
-- stays.
abbrev pub has_room : (buffer_size : ℕ) → Log → Layer → Bool
has_room buffer_size log l =
    leb (length (log l) * (8 + record_size l) + 8 + record_size l) buffer_size

abbrev pub is_taken : (buffer_size : ℕ) → Log → Layer → Bool
is_taken buffer_size log l = is_full log l || has_room buffer_size log l

abbrev pub log_step : (buffer_size : ℕ) → Layer → Entry → Log → Log
log_step buffer_size l e log = if is_taken buffer_size log l then log_append l e log else log

shared_cost-snoc :
    (k : ℕ) (es : List Entry) (e : Entry)
    → shared_cost k (es ++ (e ∷ [])) ≤ shared_cost k es + k + 16
shared_cost-snoc k [] e = omega arith
shared_cost-snoc k (x ∷ es) e = grind (arith, length-append es (e ∷ []))

-- One more record costs its payload and at most one header.
pub page_cost-logged :
    (l : Layer) (e : Entry) (log : Log)
    → page_cost (logged l e log) ≤ page_cost log + record_size l + 16
page_cost-logged speed e log = omega (arith, length-append (log speed) (e ∷ []))
page_cost-logged power e log = omega (arith, length-append (log power) (e ∷ []))
page_cost-logged cadence e log = omega (arith, length-append (log cadence) (e ∷ []))
page_cost-logged gyro e log = omega (arith, shared_cost-snoc 6 (log gyro) e)
page_cost-logged accelerometer e log = omega (arith, shared_cost-snoc 6 (log accelerometer) e)
page_cost-logged temperature e log = omega (arith, shared_cost-snoc 2 (log temperature) e)

-- What fits the page fits the buffer.
room :
    (l : Layer) (log : Log)
    → page_cost log + record_size l ≤ 1984
    → length (log l) * (8 + record_size l) + 8 + record_size l ≤ 9920
room speed log h = omega arith
room power log h = omega arith
room cadence log h = omega arith
room gyro log h = omega (arith, shared_cost_count 6 (log gyro))
room accelerometer log h = omega (arith, shared_cost_count 6 (log accelerometer))
room temperature log h = omega (arith, shared_cost_count 2 (log temperature))

-- Buffers of 9,920 bytes take every record.
pub is_taken-large :
    (buffer_size : ℕ) (l : Layer) (log : Log)
    → 9920 ≤ buffer_size
    → is_taken buffer_size log l ≡ true
is_taken-large buffer_size l log h = elim (Bool-cases (is_full log l)) [
  | inl e ↦ rw e refl
  | inr e ↦
      let low = room l log (ltb→le 1984 (page_cost log + record_size l) e) in
      rw
        (
          e,
          le→leb (length (log l) * (8 + record_size l) + 8 + record_size l) buffer_size
              (omega arith),
        )
        refl
]

pub layer_of-code : (l : Layer) → layer_of (code l) ≡ some l
layer_of-code speed = refl
layer_of-code _ = refl

-- An instance with nothing to flush keeps holding nothing when a layer is reset once more.
reset_empty : (l k : Layer) → put l [] empty_log k ≡ []
reset_empty l k = ground arith

record_size_le : (l : Layer) → record_size l ≤ 18
record_size_le speed = omega arith
record_size_le _ = omega arith

-- A payload of its layer's size passes the checks.
pub append_accepts :
    (drv : Driver) (buffer_size : ℕ) (l : Layer) (t : ℕ) (p : List ℕ) (inst : Inst) (dev : drv.Dev)
    → length p ≡ record_size l
    → append drv buffer_size (code l) t p inst dev ≡ append_valid drv buffer_size l t p inst dev
unfolding append
append_accepts drv bs speed t p inst dev e = rw e
append_accepts drv bs _ t p inst dev e = rw e

module _ (buffer_size : ℕ) (large : 26 ≤ buffer_size) (small : buffer_size < 2 ^ 16) where
  reset_layer-IsSound :
      (l : Layer) (inst : Inst)
      → IsSound buffer_size inst empty_log
      → IsSound buffer_size (reset_layer l inst) empty_log
  reset_layer-IsSound l inst h = record {
    holds = λ k.
        subst (λ es. Holds k (reset_layer l inst) es) (reset_empty l k)
          (reset_layer-HoldsAll l inst empty_log h.holds k);
    cost = h.cost;
    sizes = h.sizes;
    block_low = h.block_low;
    block_high = h.block_high;
    page_high = h.page_high;
  }

  stored-IsSound :
      (l : Layer) (t : ℕ) (p : List ℕ) (inst : Inst) (log : Log)
      → IsSound buffer_size inst log
      → IsEntry l (t, p)
      → page_cost log + record_size l ≤ 1984
      → length (log l) * (8 + record_size l) + 8 + record_size l ≤ buffer_size
      → ((store_record buffer_size l t p inst).0 ≡ ok)
        × IsSound buffer_size (store_record buffer_size l t p inst).1 (logged l (t, p) log)
  stored-IsSound l t p inst log h e c free =
      let fits : inst.mxfs_length l + 8 + length p ≤ buffer_size =
        omega (arith, (h.holds l).lengths, free, e.1) in
      rw (store_record_fits buffer_size l t p inst fits) (
        refl,
        record {
          holds = stored-HoldsAll buffer_size l t p inst log h.holds e (omega (arith, fits));
          cost = omega (arith, page_cost-logged l (t, p) log);
          sizes = λ k. elim (Bool-cases (same_layer l k)) [
            | inl s ↦ rw s (
                length-stored t p (inst.mxfs_buffer l) (inst.mxfs_length l)
                  (omega (arith, fits, h.sizes l))
                ∙ h.sizes l)
            | inr s ↦ rw s (h.sizes k)
          ];
          block_low = h.block_low;
          block_high = h.block_high;
          page_high = h.page_high;
        },
      )

  module _ (drv : Driver) (l : Layer) (t : ℕ) (p : List ℕ) (inst : Inst) (log : Log)
      (dev : drv.Dev) where
    module _ (h : IsSound buffer_size inst log) (e : IsEntry l (t, p)) where
      pub length_after : u16 (current_length inst + length p) ≡ page_cost log + record_size l
      length_after =
          omega
            (arith, current_length-page_cost inst log h.holds h.cost, h.cost, e.1, record_size_le l)

      append_valid-IsSound :
          let r = append_valid drv buffer_size l t p inst dev in
          (r.0 ≡ (if is_taken buffer_size log l then ok else need_more_buffer))
          × IsSound buffer_size r.1 (log_step buffer_size l (t, p) log)
          × (r.2 ≡ (if is_full log l then (flush drv inst dev).2 else dev))
      unfolding append_valid flush_if_full
      append_valid-IsSound = elim (Bool-cases (is_full log l)) [
        | inl f ↦
            let i = reset_layer l (flush drv inst dev).1 in
            let (a, b) =
              stored-IsSound l t p i empty_log
                (reset_layer-IsSound l (flush drv inst dev).1
                  (flush-IsSound drv buffer_size inst log dev h))
                e (omega (arith, record_size_le l)) (omega (arith, large, record_size_le l)) in
            rw (length_after, f) (a, b, refl)
        | inr f ↦
            let c : page_cost log + record_size l ≤ 1984 =
              ltb→le 1984 (page_cost log + record_size l) f in
            let n = length (log l) * (8 + record_size l) + 8 + record_size l in
            elim (Bool-cases (has_room buffer_size log l)) [
              | inl g ↦
                  let (a, b) = stored-IsSound l t p inst log h e c (leb→le n buffer_size g) in
                  rw (length_after, f, g) (a, b, refl)
              | inr g ↦
                  let full : buffer_size < inst.mxfs_length l + 8 + length p =
                    omega (arith, leb→lt n buffer_size g, (h.holds l).lengths, e.1) in
                  rw (length_after, f, g, store_record_refuses buffer_size l t p inst full)
                    (refl, h, refl)
            ]
      ]

    -- On every driver, with buffers of 26 bytes at least and less than 2^16: from an instance that holds
    -- `log`, the append of a record whose payload has its layer's size returns OK if the page would pass
    -- 1984 bytes or the layer's buffer has room for the record, and NEED_MORE_BUFFER otherwise. It leaves
    -- an instance that holds `log_step`: the record alone after a flush where the page would pass 1984
    -- bytes, else the log with the record at its layer's end, or the log as it was where there is no room.
    -- The device changes by that flush alone.
    pub append-Refines :
        IsSound buffer_size inst log
        → IsEntry l (t, p)
        → let r = append drv buffer_size (code l) t p inst dev in
          (r.0 ≡ (if is_taken buffer_size log l then ok else need_more_buffer))
          × IsSound buffer_size r.1 (log_step buffer_size l (t, p) log)
          × (r.2 ≡ (if is_full log l then (flush drv inst dev).2 else dev))
    append-Refines h e =
        rw (append_accepts drv buffer_size l t p inst dev e.1) (append_valid-IsSound h e)
