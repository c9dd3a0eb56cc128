-- ===== src/Timerange/Found.antt =====
-- The span that `mxfs_timerange_by_block` finds for a layer on the page of a log, from the log alone.
use mxfs.Base.{
  ℕ, suc, ◌+◌, ◌*◌, ◌^◌, ◌≤◌, ◌<◌, ◌≡◌, refl, ap, ◌∙◌, true, false, List, [], ◌∷◌, ◌++◌, arith,
  length, All, u16, u32, u64, ne→==,
}
use mxfs.Header.{
  Compress, step_of, msec_of, set_step, set_msec, init_header, set_ant_length, set_gyr_dim,
  set_gyr_count, set_gyr_base, set_tmp_base, set_tmp_count,
}
use mxfs.Instance.{
  record_size, Layer, speed, power, cadence, gyro, accelerometer, temperature, same_layer,
}
use mxfs.Log.{Entry, Log, last_time}
use mxfs.Flush.{antp_header, dim3_header, temperature_header, sample_step}
use mxfs.Flush.Page.{carried_time}
use mxfs.Read.Headers.{dim3_header-Tells, temperature_header-Tells}
use mxfs.Frames.{Frame, antp_frames, dim3_frames, temperature_frames}
use mxfs.Timerange.{Span, no_span, stamp64, stamp32, antp_span, shared_span, first_time}
use mxfs.Timerange.Spans.{add_frame, frame_span, spans}

-- A stamp in milliseconds, not 0, whose seconds fit 32 bits.
abbrev pub IsStamp : Entry → Type 0
IsStamp (t, p) = (0 < t) × (t < 1000 * 2 ^ 32)

-- The stamps of the first and the last record, and how many there are.
abbrev pub antp_found : List Entry → Span
antp_found [] = no_span
antp_found ((t, p) ∷ es) = record {
  start_time = t;
  last_time = last_time t es;
  record_count = suc (length es);
}

-- The first stamp on 32 bits, and as many average distances behind it as there are samples.
abbrev pub shared_found : (last : ℕ → ℕ) → List Entry → Span
shared_found last [] = no_span
shared_found last ((t, p) ∷ es) =
    let n = suc (length es) in
    record {
      start_time = u32 t;
      last_time = u32 t + n * sample_step t (last_time (last t) es) n;
      record_count = n;
    }

abbrev pub found : Layer → Log → Span
found speed log = antp_found (log speed)
found power log = antp_found (log power)
found cadence log = antp_found (log cadence)
found gyro log = shared_found (λ t. t) (log gyro)
found accelerometer log = shared_found (λ t. t) (log accelerometer)
found temperature log = shared_found (λ t. carried_time log) (log temperature)

sample_step-small : (t last n : ℕ) → sample_step t last n < 2 ^ 16
unfolding sample_step
sample_step-small t last n = ground arith

antp_stamp : (l : Layer) (t : ℕ) → t < 1000 * 2 ^ 32 → stamp64 (antp_header l t) ≡ t
unfolding antp_header init_header set_msec set_ant_length msec_of
antp_stamp l t h = omega (arith, h)

dim3_stamp :
    (l : Layer) (t last n : ℕ)
    → (stamp32 (dim3_header l t last n) ≡ u32 t)
      × (step_of (dim3_header l t last n) ≡ sample_step t last n)
unfolding dim3_header init_header set_msec set_step set_gyr_dim set_gyr_count set_gyr_base msec_of
    step_of
dim3_stamp l t last n = (omega arith, omega (arith, sample_step-small t last n))

temperature_stamp :
    (t last n : ℕ)
    → (stamp32 (temperature_header t last n) ≡ u32 t)
      × (step_of (temperature_header t last n) ≡ sample_step t last n)
unfolding temperature_header init_header set_msec set_step set_tmp_base set_tmp_count msec_of
    step_of
temperature_stamp t last n = (omega arith, omega (arith, sample_step-small t last n))

module _ (k : Layer) where
  pub spans-append :
      (fs gs : List Frame) (s : Span) → spans k (fs ++ gs) s ≡ spans k gs (spans k fs s)
  spans-append [] gs s = refl
  spans-append (f ∷ fs) gs s = spans-append fs gs (frame_span k f s)

  frame_other : (f : Frame) (s : Span) → same_layer f.layer k ≡ false → frame_span k f s ≡ s
  frame_other f s h = rw h refl

  frame_own :
      (f : Frame) (s : Span)
      → same_layer f.layer k ≡ true
      → frame_span k f s ≡ add_frame f.layer f.header s
  frame_own f s h = rw h refl

  -- The frames of other layers change nothing.
  pub spans_other :
      (l : Layer) (fs : List Frame) (s : Span)
      → All (λ (f : Frame). f.layer ≡ l) fs
      → same_layer l k ≡ false
      → spans k fs s ≡ s
  spans_other l [] s own h = refl
  spans_other l (f ∷ fs) s (own, owns) h =
      ap (spans k fs) (frame_other f s (ap (λ x. same_layer x k) own ∙ h))
      ∙ spans_other l fs s owns h

pub antp_frames_own :
    (l : Layer) (es : List Entry) → All (λ (f : Frame). f.layer ≡ l) (antp_frames l es)
antp_frames_own l [] = tt
antp_frames_own l ((t, p) ∷ es) = (refl, antp_frames_own l es)

pub dim3_frames_own :
    (l : Layer) (es : List Entry) → All (λ (f : Frame). f.layer ≡ l) (dim3_frames l es)
dim3_frames_own l [] = tt
dim3_frames_own l ((t, p) ∷ es) = (refl, tt)

pub temperature_frames_own :
    (c : ℕ) (es : List Entry) → All (λ (f : Frame). f.layer ≡ temperature) (temperature_frames c es)
temperature_frames_own c [] = tt
temperature_frames_own c ((t, p) ∷ es) = (refl, tt)

-- The ANT+ records behind the first.
antp_rest :
    (k : Layer) (start last n : ℕ) (es : List Entry)
    → 0 < start
    → n + length es < 65536
    → All IsStamp es
    → same_layer k k ≡ true
    → ((cp : Compress) (s : Span) → add_frame k cp s ≡ antp_span cp s)
    → spans k (antp_frames k es) (record { start_time = start; last_time = last; record_count = n })
      ≡ record { start_time = start; last_time = last_time last es; record_count = n + length es }
antp_rest k start last n [] pos few stamps same adds =
    let z : n ≡ n + 0 = omega arith in
    λ i. record { start_time = start; last_time = last; record_count = z i }
antp_rest k start last n ((t, p) ∷ es) pos few ((low, high), stamps) same adds =
    let old : Span = record { start_time = start; last_time = last; record_count = n } in
    let cp = antp_header k t in
    let one : antp_span cp old
        ≡ record { start_time = start; last_time = t; record_count = suc n } =
      λ i. record {
        start_time = kept start (stamp64 cp) pos i;
        last_time = antp_stamp k t high i;
        record_count = counted n few i;
      } in
    let z : suc n + length es ≡ n + suc (length es) = omega arith in
    ap (spans k (antp_frames k es))
      (frame_own k (record { layer = k; header = cp; payload = p }) old same ∙ adds cp old ∙ one)
    ∙ antp_rest k start t (suc n) es pos (omega (arith, few)) stamps same adds
    ∙ (λ i. record { start_time = start; last_time = last_time t es; record_count = z i })
  where
    counted : (n : ℕ) → n + suc (length es) < 65536 → u16 (n + 1) ≡ suc n
    counted n h = omega (arith, h)

    kept : (old new : ℕ) → 0 < old → first_time old new ≡ old
    kept old new h = rw (ne→== old 0 (λ e. absurd (omega (arith, h, e)))) refl

pub antp_own :
    (k : Layer) (es : List Entry)
    → length es < 65536
    → All IsStamp es
    → same_layer k k ≡ true
    → ((cp : Compress) (s : Span) → add_frame k cp s ≡ antp_span cp s)
    → spans k (antp_frames k es) no_span ≡ antp_found es
antp_own k [] few stamps same adds = refl
antp_own k ((t, p) ∷ es) few ((low, high), stamps) same adds =
    let cp = antp_header k t in
    let e = antp_stamp k t high in
    let one : antp_span cp no_span ≡ record { start_time = t; last_time = t; record_count = 1 } =
      λ i. record { start_time = e i; last_time = e i; record_count = 1 } in
    let z : 1 + length es ≡ suc (length es) = omega arith in
    ap (spans k (antp_frames k es)) (
      frame_own k (record { layer = k; header = cp; payload = p }) no_span same
      ∙ adds cp no_span
      ∙ one)
    ∙ antp_rest k t t 1 es low (omega (arith, few)) stamps same adds
    ∙ (λ i. record { start_time = t; last_time = last_time t es; record_count = z i })

-- One header for all samples.
shared_one :
    (cp : Compress) (t n step : ℕ)
    → n < 65536
    → step < 2 ^ 16
    → stamp32 cp ≡ u32 t
    → step_of cp ≡ step
    → shared_span n cp no_span
      ≡ record { start_time = u32 t; last_time = u32 t + n * step; record_count = n }
shared_one cp t n step few small a b =
    let p : n * step ≤ 65536 * step = grind arith in
    let q : u64 (stamp32 cp + n * step_of cp) ≡ u32 t + n * step =
      rw (a, b) (omega (arith, p, small)) in
    let c : u16 (0 + n) ≡ n = omega (arith, few) in
    λ i. record { start_time = a i; last_time = q i; record_count = c i }

pub dim3_own :
    (k : Layer) (es : List Entry)
    → record_size k ≡ 6
    → length es < 2048
    → spans k (dim3_frames k es) no_span ≡ shared_found (λ t. t) es
dim3_own k [] h few = refl
dim3_own gyro ((t, p) ∷ es) h few =
    let n = suc (length es) in
    let (a, b) = dim3_stamp gyro t (last_time t es) n in
    let c = (dim3_header-Tells gyro t (last_time t es) n h few).1 in
    rw c (shared_one _ t n _ (omega (arith, few)) (sample_step-small t (last_time t es) n) a b)
dim3_own accelerometer ((t, p) ∷ es) h few =
    let n = suc (length es) in
    let (a, b) = dim3_stamp accelerometer t (last_time t es) n in
    let c = (dim3_header-Tells accelerometer t (last_time t es) n h few).1 in
    rw c (shared_one _ t n _ (omega (arith, few)) (sample_step-small t (last_time t es) n) a b)
dim3_own _ ((t, p) ∷ es) h few = absurd (omega arith)

pub temperature_own :
    (carried : ℕ) (es : List Entry)
    → length es < 65536
    → spans temperature (temperature_frames carried es) no_span ≡ shared_found (λ t. carried) es
temperature_own carried [] few = refl
temperature_own carried ((t, p) ∷ es) few =
    let n = suc (length es) in
    let (a, b) = temperature_stamp t (last_time carried es) n in
    let c = (temperature_header-Tells t (last_time carried es) n few).1 in
    rw c (shared_one _ t n _ few (sample_step-small t (last_time carried es) n) a b)
