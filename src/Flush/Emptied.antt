-- ===== src/Flush/Emptied.antt =====
-- `mxfs_flush` puts the page together and empties the layers, on any instance.
use mxfs.Base.{◌≡◌, refl, ap, ◌∙◌, ltb, Bool-cases, inl, inr}
use mxfs.Instance.{Layer, speed, power, cadence, gyro, accelerometer, temperature, Inst}
use mxfs.Flush.{Work, empty_work, antp_layer, dim3_layer, temperature_layer, prepare}

-- `j` is `inst` but for the lengths and the counts.
abbrev pub IsEmptied : Inst → Inst → Type 0
IsEmptied inst j = j ≡ record inst { mxfs_length = j.mxfs_length; mxfs_count = j.mxfs_count }

IsEmptied-trans : (i j k : Inst) → IsEmptied i j → IsEmptied j k → IsEmptied i k
IsEmptied-trans i j k p q =
    q ∙ ap {A = Inst} (λ x. record x { mxfs_length = k.mxfs_length; mxfs_count = k.mxfs_count }) p

antp_layer-IsEmptied : (l : Layer) (s : Inst × Work) → IsEmptied s.0 (antp_layer l s).0
unfolding antp_layer
antp_layer-IsEmptied l (inst, w) = refl

dim3_layer-IsEmptied : (l : Layer) (s : Inst × Work) → IsEmptied s.0 (dim3_layer l s).0
unfolding dim3_layer
dim3_layer-IsEmptied l (inst, w) = elim (Bool-cases (ltb 0 (inst.mxfs_length l))) [
  | inl e ↦ rw e refl
  | inr e ↦ rw e refl
]

temperature_layer-IsEmptied : (s : Inst × Work) → IsEmptied s.0 (temperature_layer s).0
unfolding temperature_layer
temperature_layer-IsEmptied (inst, w) = elim (Bool-cases (ltb 0 (inst.mxfs_length temperature))) [
  | inl e ↦ rw e refl
  | inr e ↦ rw e refl
]

-- Putting the page together moves nothing but the lengths and the counts.
pub prepare-IsEmptied : (inst : Inst) → IsEmptied inst (prepare inst).0
unfolding prepare
prepare-IsEmptied inst =
    let s1 = antp_layer speed (inst, empty_work) in
    let s2 = antp_layer power s1 in
    let s3 = antp_layer cadence s2 in
    let s4 = dim3_layer gyro s3 in
    let s5 = dim3_layer accelerometer s4 in
    let s6 = temperature_layer s5 in
    let e1 = antp_layer-IsEmptied speed (inst, empty_work) in
    let e2 = IsEmptied-trans inst s1.0 s2.0 e1 (antp_layer-IsEmptied power s1) in
    let e3 = IsEmptied-trans inst s2.0 s3.0 e2 (antp_layer-IsEmptied cadence s2) in
    let e4 = IsEmptied-trans inst s3.0 s4.0 e3 (dim3_layer-IsEmptied gyro s3) in
    let e5 = IsEmptied-trans inst s4.0 s5.0 e4 (dim3_layer-IsEmptied accelerometer s4) in
    IsEmptied-trans inst s5.0 s6.0 e5 (temperature_layer-IsEmptied s5)
