-- ===== src/Flush/Prepare.antt =====
-- The layers of an instance that holds a log are put together to the page of that log, and emptied.
pub mod Whole
use mxfs.Base.{
  ℕ, zero, suc, ◌+◌, ◌-◌, ◌*◌, ◌/◌, ◌^◌, ◌<◌, ◌≤◌, ◌≡◌, refl, sym, ap, ap₂, subst, ◌∙◌, ◌⊎◌, inl,
  inr, Bool, true, false, List, [], ◌∷◌, ◌++◌, arith, append_assoc, append-nil, length, All, to_le,
  Bool-cases, ltb, ◌==◌, if◌then◌else◌, lt→ltb, rounds,
}
use mxfs.Header.{encode}
use mxfs.Instance.{
  Layer, speed, power, cadence, gyro, accelerometer, temperature, record_size, Inst, put,
  same_layer, code, stamp_size,
}
use mxfs.Log.{Entry, IsEntry, Log, Holds, packed, payloads, last_time}
use mxfs.Flush.{
  Work, empty_work, stamp_at, antp_header, antp_loop, antp_layer, dim3_header, dim3_layer,
  dim3_work, temperature_header, temperature_layer, temperature_work, reset_layer, prepare,
}
use mxfs.Flush.Loops.{
  IsSized, fold_entries, antp_entry, antp_loop-entries, last_stamp_from_zero,
  last_stamp_from_second, copy_payloads-entries, stamp_behind,
}
use mxfs.Flush.Page.{antp_part, dim3_part, temperature_part, page_of, carried_time}

abbrev pub HoldsAll : Inst → Log → Type 0
HoldsAll inst log = (l : Layer) → Holds l inst (log l)

pub same→eq : (l k : Layer) → same_layer l k ≡ true → l ≡ k
same→eq l k h = ground arith

-- A layer that is reset holds nothing, and the others hold what they held.
pub reset_layer-HoldsAll :
    (l : Layer) (inst : Inst) (log : Log)
    → HoldsAll inst log
    → HoldsAll (reset_layer l inst) (put l [] log)
reset_layer-HoldsAll l inst log h k = elim (Bool-cases (same_layer l k)) [
  | inl e ↦ rw e (record {
    rest = inst.mxfs_buffer k;
    buffered = refl;
    lengths = rw e (omega arith);
    counts = rw e refl;
    entries = tt;
  })
  | inr e ↦ rw e (record {
    rest = (h k).rest;
    buffered = (h k).buffered;
    lengths = rw e (h k).lengths;
    counts = rw e (h k).counts;
    entries = (h k).entries;
  })
]

-- The same for a layer that is left alone because it is empty.
pub empty_layer-HoldsAll :
    (l : Layer) (inst : Inst) (log : Log)
    → log l ≡ []
    → HoldsAll inst log
    → HoldsAll inst (put l [] log)
empty_layer-HoldsAll l inst log z h k = elim (Bool-cases (same_layer l k)) [
  | inl e ↦ rw e (subst (λ x. Holds k inst x) (ap log (sym (same→eq l k e)) ∙ z) (h k))
  | inr e ↦ rw e (h k)
]

sized :
    (l : Layer) (k : ℕ) (es : List Entry)
    → record_size l ≡ k
    → All (IsEntry l) es
    → All (IsSized k) es
sized l k [] e h = tt
sized l k ((t, p) ∷ es) e ((ht, hp), hs) = ((ht, hp ∙ e), sized l k es e hs)

antp_entries_work :
    (l : Layer) (es : List Entry) (w : Work)
    → ((fold_entries (antp_entry l) es w).work_buffer ≡ w.work_buffer ++ antp_part l es)
      × ((fold_entries (antp_entry l) es w).last_tmm ≡ last_time w.last_tmm es)
antp_entries_work l [] w = (sym (append-nil w.work_buffer), refl)
antp_entries_work l ((t, p) ∷ es) w =
    let (a, b) = antp_entries_work l es (antp_entry l (t, p) w) in
    (a ∙ append_assoc w.work_buffer (encode (antp_header l t) ++ p) (antp_part l es), b)

-- The first stamp that is not 0, where `start` is that of earlier records.
abbrev pub first_stamp : (start : ℕ) → List Entry → ℕ
first_stamp start [] = start
first_stamp start ((t, p) ∷ es) = first_stamp (if start == 0 then t else start) es

antp_entries_start :
    (l : Layer) (es : List Entry) (w : Work)
    → (fold_entries (antp_entry l) es w).start_tmm ≡ first_stamp w.start_tmm es
antp_entries_start l [] w = refl
antp_entries_start l (e ∷ es) w = antp_entries_start l es (antp_entry l e w)

-- The shared-header layers, over a buffer that holds at least one record.
module _ (t : ℕ) (p : List ℕ) (es : List Entry) (len : ℕ) (rest : List ℕ) (w : Work) where
  dim3_work-part :
      (l : Layer)
      → len ≡ suc (length es) * 14
      → All (IsSized 6) ((t, p) ∷ es)
      → ((dim3_work l (packed ((t, p) ∷ es) ++ rest) len w).work_buffer
          ≡ w.work_buffer ++ dim3_part l ((t, p) ∷ es))
        × ((dim3_work l (packed ((t, p) ∷ es) ++ rest) len w).last_tmm ≡ last_time t es)
  unfolding dim3_work
  dim3_work-part l n h =
      let r : rounds 0 len 14 ≡ suc (length es) = omega arith in
      let c : len / 14 ≡ suc (length es) = omega arith in
      let s : stamp_at 0 (packed ((t, p) ∷ es) ++ rest) ≡ t =
        simp append_assoc (stamp_behind 0 t [] (p ++ (packed es ++ rest)) refl h.0.0) in
      let last = last_stamp_from_zero 6 ((t, p) ∷ es) len rest w.last_tmm r h in
      (
        copy_payloads-entries 6 ((t, p) ∷ es) len rest _ r h
            ∙ rw (s, last, c) (append_assoc w.work_buffer _ _),
        last,
      )

  temperature_work-part :
      len ≡ suc (length es) * 10
      → All (IsSized 2) ((t, p) ∷ es)
      → (temperature_work (packed ((t, p) ∷ es) ++ rest) len w).work_buffer
        ≡ w.work_buffer ++ temperature_part w.last_tmm ((t, p) ∷ es)
  unfolding temperature_work
  temperature_work-part n h =
      let r : rounds 0 len 10 ≡ suc (length es) = omega arith in
      let c : len / 10 ≡ suc (length es) = omega arith in
      let s : stamp_at 0 (packed ((t, p) ∷ es) ++ rest) ≡ t =
        simp append_assoc (stamp_behind 0 t [] (p ++ (packed es ++ rest)) refl h.0.0) in
      let last = last_stamp_from_second t p es len rest w.last_tmm n h.0.1 h.1 in
      copy_payloads-entries 2 ((t, p) ∷ es) len rest _ r h
      ∙ rw (s, last, c) (append_assoc w.work_buffer _ _)

module _ (l : Layer) (inst : Inst) (w : Work) where
  pub antp_layer-part :
      (es : List Entry)
      → Holds l inst es
      → record_size l ≡ 18
      → ((antp_layer l (inst, w)).1.work_buffer ≡ w.work_buffer ++ antp_part l es)
        × ((antp_layer l (inst, w)).1.last_tmm ≡ last_time w.last_tmm es)
  unfolding antp_layer
  antp_layer-part es h size =
      let n : inst.mxfs_length l ≡ length es * 26 = rw size at h.lengths in
      rw
        (
          h.buffered,
          antp_loop-entries l es (inst.mxfs_length l) h.rest w n (sized l 18 es size h.entries),
        )
        (antp_entries_work l es w)

  pub antp_layer-start :
      (es : List Entry)
      → Holds l inst es
      → record_size l ≡ 18
      → (antp_layer l (inst, w)).1.start_tmm ≡ first_stamp w.start_tmm es
  unfolding antp_layer
  antp_layer-start es h size =
      let n : inst.mxfs_length l ≡ length es * 26 = rw size at h.lengths in
      rw
        (
          h.buffered,
          antp_loop-entries l es (inst.mxfs_length l) h.rest w n (sized l 18 es size h.entries),
        )
        (antp_entries_start l es w)

  pub dim3_layer-part :
      (es : List Entry)
      → Holds l inst es
      → record_size l ≡ 6
      → ((dim3_layer l (inst, w)).1.work_buffer ≡ w.work_buffer ++ dim3_part l es)
        × ((dim3_layer l (inst, w)).1.last_tmm ≡ last_time w.last_tmm es)
  unfolding dim3_layer
  dim3_layer-part [] h size =
      let n : inst.mxfs_length l ≡ 0 = omega (arith, h.lengths) in
      rw n (sym (append-nil w.work_buffer), refl)
  dim3_layer-part ((t, p) ∷ es) h size =
      let n : inst.mxfs_length l ≡ suc (length es) * 14 = rw size at h.lengths in
      let pos : ltb 0 (inst.mxfs_length l) ≡ true = lt→ltb 0 _ (omega arith) in
      rw (pos, h.buffered)
        (dim3_work-part t p es (inst.mxfs_length l) h.rest w l n
          (sized l 6 ((t, p) ∷ es) size h.entries))

pub temperature_layer-part :
    (inst : Inst) (w : Work) (es : List Entry)
    → Holds temperature inst es
    → (temperature_layer (inst, w)).1.work_buffer ≡ w.work_buffer ++ temperature_part w.last_tmm es
unfolding temperature_layer
temperature_layer-part inst w [] h =
    let n : inst.mxfs_length temperature ≡ 0 = omega (arith, h.lengths) in
    rw n (sym (append-nil w.work_buffer))
temperature_layer-part inst w ((t, p) ∷ es) h =
    let n : inst.mxfs_length temperature ≡ suc (length es) * 10 = h.lengths in
    let pos : ltb 0 (inst.mxfs_length temperature) ≡ true = lt→ltb 0 _ (omega arith) in
    rw (pos, h.buffered)
      (temperature_work-part t p es (inst.mxfs_length temperature) h.rest w n
        (sized temperature 2 ((t, p) ∷ es) refl h.entries))
