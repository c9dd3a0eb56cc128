-- ===== src/Flush/Prepare/Whole/Starts.antt =====
-- `start_tmm` of `mxfs_flush` after the six layers.
use mxfs.Base.{ℕ, ◌≡◌, refl, ap, ◌∙◌, inl, inr, Bool-cases, ltb}
use mxfs.Instance.{Layer, speed, power, cadence, gyro, accelerometer, temperature, Inst}
use mxfs.Log.{Log}
use mxfs.Flush.{
  Work, empty_work, dim3_layer, dim3_work, temperature_layer, temperature_work, prepare,
}
use mxfs.Flush.Prepare.{HoldsAll, first_stamp, antp_layer-start}
use mxfs.Flush.Prepare.Whole.{stage1, stage2, stage3, stage4, stage5, emptied1, emptied2}

-- The first stamp of the ANT+ layers that is not 0.
pub ant_start : Log → ℕ
ant_start log = first_stamp (first_stamp (first_stamp 0 (log speed)) (log power)) (log cadence)

dim3_layer-start : (l : Layer) (s : Inst × Work) → (dim3_layer l s).1.start_tmm ≡ s.1.start_tmm
unfolding dim3_layer dim3_work
dim3_layer-start l (inst, w) = elim (Bool-cases (ltb 0 (inst.mxfs_length l))) [
  | inl e ↦ rw e refl
  | inr e ↦ rw e refl
]

temperature_layer-start : (s : Inst × Work) → (temperature_layer s).1.start_tmm ≡ s.1.start_tmm
unfolding temperature_layer temperature_work
temperature_layer-start (inst, w) = elim (Bool-cases (ltb 0 (inst.mxfs_length temperature))) [
  | inl e ↦ rw e refl
  | inr e ↦ rw e refl
]

module _ (inst : Inst) (log : Log) (h : HoldsAll inst log) where
  -- The start time of the page is the first stamp, but 0, of the ANT+ layers, in the order of the code.
  pub prepare-start_tmm : (prepare inst).1.start_tmm ≡ ant_start log
  unfolding prepare ant_start
  prepare-start_tmm =
      let s1 = antp_layer-start speed inst empty_work (log speed) (h speed) refl in
      let s2 =
        antp_layer-start power (stage1 inst log h).0 (stage1 inst log h).1 (log power)
          ((emptied1 inst log h).holds power) refl in
      let s3 =
        antp_layer-start cadence (stage2 inst log h).0 (stage2 inst log h).1 (log cadence)
          ((emptied2 inst log h).holds cadence) refl in
      temperature_layer-start (stage5 inst log h)
      ∙ dim3_layer-start accelerometer (stage4 inst log h)
      ∙ dim3_layer-start gyro (stage3 inst log h)
      ∙ s3
      ∙ ap (λ t. first_stamp t (log cadence)) (s2 ∙ ap (λ t. first_stamp t (log power)) s1)
