-- ===== src/Flush/Prepare/Whole.antt =====
-- `prepare` as a whole: the six layers in order.
pub mod Starts
use mxfs.Base.{
  ℕ, ◌+◌, ◌*◌, ◌≤◌, ◌≡◌, refl, subst, ◌∙◌, inl, inr, false, List, [], ◌∷◌, arith, append_assoc,
  length, Bool-cases, ltb, ltb→le,
}
use mxfs.Instance.{
  Layer, speed, power, cadence, gyro, accelerometer, temperature, record_size, Inst, put,
}
use mxfs.Log.{Entry, Log, Holds}
use mxfs.Flush.{Work, empty_work, antp_layer, dim3_layer, temperature_layer, reset_layer, prepare}
use mxfs.Flush.Prepare.{
  HoldsAll, reset_layer-HoldsAll, empty_layer-HoldsAll, antp_layer-part, dim3_layer-part,
  temperature_layer-part,
}
use mxfs.Flush.Page.{page_of, carried_time}

abbrev pub empty_log : Log
empty_log l = []

no_entries : (es : List Entry) (k : ℕ) → length es * (8 + k) ≤ 0 → es ≡ []
no_entries [] k h = refl
no_entries (e ∷ es) k h = absurd (grind arith)

-- What a flush does not touch while it puts the page together.
pub record SamePlace (i j : Inst) : Type 0 where
  pub blocks : j.blocks ≡ i.blocks
  pub current_block : j.current_block ≡ i.current_block
  pub current_page : j.current_page ≡ i.current_page
  pub invalid_block : j.invalid_block ≡ i.invalid_block
  pub mxfs_buffer : j.mxfs_buffer ≡ i.mxfs_buffer

SamePlace-trans : {i j k : Inst} → SamePlace i j → SamePlace j k → SamePlace i k
SamePlace-trans p q = record {
  blocks = q.blocks ∙ p.blocks;
  current_block = q.current_block ∙ p.current_block;
  current_page = q.current_page ∙ p.current_page;
  invalid_block = q.invalid_block ∙ p.invalid_block;
  mxfs_buffer = q.mxfs_buffer ∙ p.mxfs_buffer;
}

reset_layer-SamePlace : (l : Layer) (inst : Inst) → SamePlace inst (reset_layer l inst)
reset_layer-SamePlace l inst = record {
  blocks = refl;
  current_block = refl;
  current_page = refl;
  invalid_block = refl;
  mxfs_buffer = refl;
}

same_place : (inst : Inst) → SamePlace inst inst
same_place inst = record {
  blocks = refl;
  current_block = refl;
  current_page = refl;
  invalid_block = refl;
  mxfs_buffer = refl;
}

-- An emptied layer: nothing else moves, and the log loses the layer's records.
record Emptied (l : Layer) (i j : Inst) (log : Log) : Type 0 where
  place : SamePlace i j
  holds : HoldsAll j (put l [] log)

antp_layer-Emptied :
    (l : Layer) (inst : Inst) (w : Work) (log : Log)
    → HoldsAll inst log
    → Emptied l inst (antp_layer l (inst, w)).0 log
unfolding antp_layer
antp_layer-Emptied l inst w log h = record {
  place = reset_layer-SamePlace l inst;
  holds = reset_layer-HoldsAll l inst log h;
}

-- A layer with no bytes has no records.
unused :
    (l : Layer) (inst : Inst) (log : Log)
    → HoldsAll inst log
    → ltb 0 (inst.mxfs_length l) ≡ false
    → log l ≡ []
unused l inst log h e =
    let z : inst.mxfs_length l ≤ 0 = ltb→le 0 (inst.mxfs_length l) e in
    no_entries (log l) (record_size l) (omega (arith, (h l).lengths))

dim3_layer-Emptied :
    (l : Layer) (inst : Inst) (w : Work) (log : Log)
    → HoldsAll inst log
    → Emptied l inst (dim3_layer l (inst, w)).0 log
unfolding dim3_layer
dim3_layer-Emptied l inst w log h = elim (Bool-cases (ltb 0 (inst.mxfs_length l))) [
  | inl e ↦
      rw e
        (record { place = reset_layer-SamePlace l inst; holds = reset_layer-HoldsAll l inst log h })
  | inr e ↦ rw e (record {
    place = same_place inst;
    holds = empty_layer-HoldsAll l inst log (unused l inst log h e) h;
  })
]

temperature_layer-Emptied :
    (inst : Inst) (w : Work) (log : Log)
    → HoldsAll inst log
    → Emptied temperature inst (temperature_layer (inst, w)).0 log
unfolding temperature_layer
temperature_layer-Emptied inst w log h = elim (Bool-cases (ltb 0 (inst.mxfs_length temperature))) [
  | inl e ↦ rw e (record {
    place = reset_layer-SamePlace temperature inst;
    holds = reset_layer-HoldsAll temperature inst log h;
  })
  | inr e ↦ rw e (record {
    place = same_place inst;
    holds = empty_layer-HoldsAll temperature inst log (unused temperature inst log h e) h;
  })
]

-- The log after the layers before `l` are emptied, in the order of the code.
abbrev log1 : Log → Log
log1 log = put speed [] log

abbrev log2 : Log → Log
log2 log = put power [] (log1 log)

abbrev log3 : Log → Log
log3 log = put cadence [] (log2 log)

abbrev log4 : Log → Log
log4 log = put gyro [] (log3 log)

abbrev log5 : Log → Log
log5 log = put accelerometer [] (log4 log)

all_emptied : (log : Log) (l : Layer) → put temperature [] (log5 log) l ≡ []
all_emptied log l = ground arith

module _ (inst : Inst) (log : Log) (h : HoldsAll inst log) where
  abbrev stage1 : Inst × Work
  stage1 = antp_layer speed (inst, empty_work)

  abbrev stage2 : Inst × Work
  stage2 = antp_layer power stage1

  abbrev stage3 : Inst × Work
  stage3 = antp_layer cadence stage2

  abbrev stage4 : Inst × Work
  stage4 = dim3_layer gyro stage3

  abbrev stage5 : Inst × Work
  stage5 = dim3_layer accelerometer stage4

  emptied1 : Emptied speed inst stage1.0 log
  emptied1 = antp_layer-Emptied speed inst empty_work log h

  emptied2 : Emptied power stage1.0 stage2.0 (log1 log)
  emptied2 = antp_layer-Emptied power stage1.0 stage1.1 (log1 log) emptied1.holds

  emptied3 : Emptied cadence stage2.0 stage3.0 (log2 log)
  emptied3 = antp_layer-Emptied cadence stage2.0 stage2.1 (log2 log) emptied2.holds

  emptied4 : Emptied gyro stage3.0 stage4.0 (log3 log)
  emptied4 = dim3_layer-Emptied gyro stage3.0 stage3.1 (log3 log) emptied3.holds

  emptied5 : Emptied accelerometer stage4.0 stage5.0 (log4 log)
  emptied5 = dim3_layer-Emptied accelerometer stage4.0 stage4.1 (log4 log) emptied4.holds

  emptied6 : Emptied temperature stage5.0 (temperature_layer stage5).0 (log5 log)
  emptied6 = temperature_layer-Emptied stage5.0 stage5.1 (log5 log) emptied5.holds

  -- Nothing but the lengths and the counts moves.
  pub prepare-SamePlace : SamePlace inst (prepare inst).0
  unfolding prepare
  prepare-SamePlace = SamePlace-trans emptied1.place (
      SamePlace-trans emptied2.place (
        SamePlace-trans emptied3.place
          (SamePlace-trans emptied4.place (SamePlace-trans emptied5.place emptied6.place))))

  -- No layer has a record left.
  pub prepare-HoldsAll : HoldsAll (prepare inst).0 empty_log
  unfolding prepare
  prepare-HoldsAll l =
      subst (λ es. Holds l (temperature_layer stage5).0 es) (all_emptied log l) (emptied6.holds l)

  -- From an instance whose buffers hold a log, the bytes that the loops of `mxfs_flush` leave in the work
  -- buffer are the page of that log.
  pub prepare-page_of : (prepare inst).1.work_buffer ≡ page_of log
  unfolding prepare page_of
  prepare-page_of =
      let p1 = antp_layer-part speed inst empty_work (log speed) (h speed) refl in
      let p2 = antp_layer-part power stage1.0 stage1.1 (log power) (emptied1.holds power) refl in
      let p3 =
        antp_layer-part cadence stage2.0 stage2.1 (log cadence) (emptied2.holds cadence) refl in
      let p4 = dim3_layer-part gyro stage3.0 stage3.1 (log gyro) (emptied3.holds gyro) refl in
      let p5 =
        dim3_layer-part accelerometer stage4.0 stage4.1 (log accelerometer)
          (emptied4.holds accelerometer) refl in
      let p6 =
        temperature_layer-part stage5.0 stage5.1 (log temperature) (emptied5.holds temperature) in
      let c : stage5.1.last_tmm ≡ carried_time log = rw (p5.1, p4.1, p3.1, p2.1, p1.1) in
      p6 ∙ rw (c, p5.0, p4.0, p3.0, p2.0, p1.0) (simp append_assoc)
