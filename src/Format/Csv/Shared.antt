-- ===== src/Format/Csv/Shared.antt =====
-- The csv command's loop (sw/parent/src/format.cc) at the records whose samples share a header.
use mxfs.Base.{
  ℕ, suc, ◌+◌, ◌*◌, ◌^◌, ◌<◌, ◌≡◌, refl, sym, ap, subst, ◌∙◌, List, [], ◌∷◌, ◌++◌, arith,
  append-nil, length, All,
}
use mxfs.Header.{
  step_of, msec_of, gyr_dim, set_step, set_msec, init_header, set_gyr_dim, set_gyr_count,
  set_gyr_base, set_tmp_base, set_tmp_count,
}
use mxfs.Instance.{Layer, gyro, accelerometer, temperature, code}
use mxfs.Log.{Entry, IsEntry, payloads, last_time}
use mxfs.Flush.{dim3_header, temperature_header, sample_step}
use mxfs.Outcome.{returns}
use mxfs.Read.Headers.{dim3_header-Tells, temperature_header-Tells}
use mxfs.Timerange.{stamp64}
use mxfs.Frames.{
  Frame, IsFrame, bytes, frame_bytes, dim3_frames, temperature_frames, dim3_frames-IsFrame,
  temperature_frames-IsFrame,
}
use mxfs.Format.Csv.{Line, dim3_head, temperature_head, Series, Decoded, decbf_size, decode_page}
use mxfs.Format.Csv.Values.{Values}
use mxfs.Format.Csv.Lines.{dim3_heads, temperature_heads}
use mxfs.Format.Csv.Decode.{
  decode_round, decode_gyro, decode_accelerometer, decode_temperature, after_gyro,
  after_accelerometer, after_temperature, series_of,
}
use mxfs.Format.Csv.Runs.{IsDated, rounds_for}

small_step : (t last n : ℕ) → sample_step t last n < 2 ^ 16
unfolding sample_step
small_step t last n = ground arith

dim3_stamp :
    (l : Layer) (t last n : ℕ)
    → t < 1000 * 2 ^ 32
    → (stamp64 (dim3_header l t last n) ≡ t)
      × (step_of (dim3_header l t last n) ≡ sample_step t last n)
      × (gyr_dim (dim3_header l t last n) ≡ 3)
unfolding dim3_header init_header set_msec set_step set_gyr_dim set_gyr_count set_gyr_base msec_of
    step_of gyr_dim
dim3_stamp l t last n h = (omega (arith, h), omega (arith, small_step t last n), omega arith)

temperature_stamp :
    (t last n : ℕ)
    → t < 1000 * 2 ^ 32
    → (stamp64 (temperature_header t last n) ≡ t)
      × (step_of (temperature_header t last n) ≡ sample_step t last n)
unfolding temperature_header init_header set_msec set_step set_tmp_base set_tmp_count msec_of
    step_of
temperature_stamp t last n h = (omega (arith, h), omega (arith, small_step t last n))

-- What a series says of the records that it was made from; `last` gives the stamp that stands for the
-- last one where there is none.
abbrev pub IsSeries : (dims : ℕ) → (last : ℕ → ℕ) → List Entry → Series → Type 0
IsSeries dims last [] s = s.count ≡ 0
IsSeries dims last ((t, p) ∷ es) s =
    let n = suc (length es) in
    (s.count ≡ n)
    × (s.time ≡ t)
    × (s.step ≡ sample_step t (last_time (last t) es) n)
    × Values (payloads ((t, p) ∷ es)) (n * dims) s.values

module _ (rbf : List ℕ) (long : length rbf ≡ decbf_size) where
  pub gyro_runs :
      (j : ℕ) (es : List Entry) (pre tail : List ℕ) (d : Decoded)
      → length es < 1000
      → All (IsEntry gyro) es
      → All IsDated es
      → d.gyro.count ≡ 0
      → rbf ≡ pre ++ (bytes (dim3_frames gyro es) ++ tail)
      → (s : Series) × (decode_page rbf (rounds_for (dim3_frames gyro es) j) (length pre) d
          ≡ decode_page rbf j
              (length (pre ++ bytes (dim3_frames gyro es)))
              (record d { lines = d.lines ++ dim3_heads gyro es; gyro = s }))
        × IsSeries 3 (λ t. t) es s
  gyro_runs j [] pre tail d few ok dated none e = (
    d.gyro,
    ap (λ (x : List ℕ). decode_page rbf j (length x) d) (sym (append-nil pre))
        ∙ ap (λ (x : List Line). decode_page rbf j (length (pre ++ [])) (record d { lines = x }))
            (sym (append-nil d.lines)),
    none,
  )
  gyro_runs j ((t, p) ∷ es) pre tail d few ok (now, dated) none e =
      let n = suc (length es) in
      let cp = dim3_header gyro t (last_time t es) n in
      let f : Frame = record { layer = gyro; header = cp; payload = payloads ((t, p) ∷ es) } in
      let good : IsFrame f =
        (dim3_frames-IsFrame gyro ((t, p) ∷ es) refl (omega (arith, few)) ok).0 in
      let nil = append-nil (frame_bytes f) in
      let e1 : rbf ≡ pre ++ (frame_bytes f ++ tail) = e ∙ ap (λ x. pre ++ (x ++ tail)) nil in
      let (a, b, c) = dim3_stamp gyro t (last_time t es) n now in
      let counted = (dim3_header-Tells gyro t (last_time t es) n refl (omega (arith, few))).1 in
      let (v, go, vals) =
        decode_gyro rbf pre tail f d good n e1 refl counted (omega (arith, few)) in
      let size : n * 6 ≡ length f.payload = ap (λ x. x * 6) (sym counted) ∙ good.sized in
      let total : d.gyro.count + n ≡ n = omega (arith, none) in
      (
        series_of cp n v d.gyro,
        decode_round rbf long j pre tail f d (after_gyro cp n v d) good e1
              (go ∙ ap (λ (x : ℕ). returns (x, after_gyro cp n v d)) size)
            ∙ (λ i. decode_page rbf j (length (pre ++ sym nil i)) (record d {
              lines = d.lines ++ (dim3_head (code gyro) (a i) n (c i) (none i) ∷ []);
              gyro = series_of cp n v d.gyro;
            })),
        (total, a, b, vals),
      )

  pub accelerometer_runs :
      (j : ℕ) (es : List Entry) (pre tail : List ℕ) (d : Decoded)
      → length es < 1000
      → All (IsEntry accelerometer) es
      → All IsDated es
      → d.accelerometer.count ≡ 0
      → rbf ≡ pre ++ (bytes (dim3_frames accelerometer es) ++ tail)
      → (s : Series) × (decode_page rbf (rounds_for (dim3_frames accelerometer es) j) (length pre) d
          ≡ decode_page rbf j
              (length (pre ++ bytes (dim3_frames accelerometer es)))
              (record d { lines = d.lines ++ dim3_heads accelerometer es; accelerometer = s }))
        × IsSeries 3 (λ t. t) es s
  accelerometer_runs j [] pre tail d few ok dated none e = (
    d.accelerometer,
    ap (λ (x : List ℕ). decode_page rbf j (length x) d) (sym (append-nil pre))
        ∙ ap (λ (x : List Line). decode_page rbf j (length (pre ++ [])) (record d { lines = x }))
            (sym (append-nil d.lines)),
    none,
  )
  accelerometer_runs j ((t, p) ∷ es) pre tail d few ok (now, dated) none e =
      let n = suc (length es) in
      let cp = dim3_header accelerometer t (last_time t es) n in
      let f : Frame = record {
        layer = accelerometer;
        header = cp;
        payload = payloads ((t, p) ∷ es);
      } in
      let good : IsFrame f =
        (dim3_frames-IsFrame accelerometer ((t, p) ∷ es) refl (omega (arith, few)) ok).0 in
      let nil = append-nil (frame_bytes f) in
      let e1 : rbf ≡ pre ++ (frame_bytes f ++ tail) = e ∙ ap (λ x. pre ++ (x ++ tail)) nil in
      let (a, b, c) = dim3_stamp accelerometer t (last_time t es) n now in
      let counted =
        (dim3_header-Tells accelerometer t (last_time t es) n refl (omega (arith, few))).1 in
      let (v, go, vals) =
        decode_accelerometer rbf pre tail f d good n e1 refl counted (omega (arith, few)) in
      let size : n * 6 ≡ length f.payload = ap (λ x. x * 6) (sym counted) ∙ good.sized in
      let total : d.accelerometer.count + n ≡ n = omega (arith, none) in
      (
        series_of cp n v d.accelerometer,
        decode_round rbf long j pre tail f d (after_accelerometer cp n v d) good e1
              (go ∙ ap (λ (x : ℕ). returns (x, after_accelerometer cp n v d)) size)
            ∙ (λ i. decode_page rbf j (length (pre ++ sym nil i)) (record d {
              lines = d.lines ++ (dim3_head (code accelerometer) (a i) n (c i) (none i) ∷ []);
              accelerometer = series_of cp n v d.accelerometer;
            })),
        (total, a, b, vals),
      )

  pub temperature_runs :
      (j carried : ℕ) (es : List Entry) (pre tail : List ℕ) (d : Decoded)
      → length es < 4000
      → All (IsEntry temperature) es
      → All IsDated es
      → d.temperature.count ≡ 0
      → rbf ≡ pre ++ (bytes (temperature_frames carried es) ++ tail)
      → (s : Series) × (decode_page rbf
            (rounds_for (temperature_frames carried es) j)
            (length pre)
            d
          ≡ decode_page rbf j
              (length (pre ++ bytes (temperature_frames carried es)))
              (record d { lines = d.lines ++ temperature_heads es; temperature = s }))
        × IsSeries 1 (λ t. carried) es s
  temperature_runs j carried [] pre tail d few ok dated none e = (
    d.temperature,
    ap (λ (x : List ℕ). decode_page rbf j (length x) d) (sym (append-nil pre))
        ∙ ap (λ (x : List Line). decode_page rbf j (length (pre ++ [])) (record d { lines = x }))
            (sym (append-nil d.lines)),
    none,
  )
  temperature_runs j carried ((t, p) ∷ es) pre tail d few ok (now, dated) none e =
      let n = suc (length es) in
      let cp = temperature_header t (last_time carried es) n in
      let f : Frame = record {
        layer = temperature;
        header = cp;
        payload = payloads ((t, p) ∷ es);
      } in
      let good : IsFrame f =
        (temperature_frames-IsFrame carried ((t, p) ∷ es) (omega (arith, few)) ok).0 in
      let nil = append-nil (frame_bytes f) in
      let e1 : rbf ≡ pre ++ (frame_bytes f ++ tail) = e ∙ ap (λ x. pre ++ (x ++ tail)) nil in
      let (a, b) = temperature_stamp t (last_time carried es) n now in
      let counted = (temperature_header-Tells t (last_time carried es) n (omega (arith, few))).1 in
      let (v, go, vals) =
        decode_temperature rbf pre tail f d good n e1 refl counted (omega (arith, few)) in
      let size : n * 2 ≡ length f.payload = ap (λ x. x * 2) (sym counted) ∙ good.sized in
      let total : d.temperature.count + n ≡ n = omega (arith, none) in
      let one : n ≡ n * 1 = omega arith in
      (
        series_of cp n v d.temperature,
        decode_round rbf long j pre tail f d (after_temperature cp n v d) good e1
              (go ∙ ap (λ (x : ℕ). returns (x, after_temperature cp n v d)) size)
            ∙ (λ i. decode_page rbf j (length (pre ++ sym nil i)) (record d {
              lines = d.lines ++ (temperature_head (a i) n ∷ []);
              temperature = series_of cp n v d.temperature;
            })),
        (total, a, b, subst (λ x. Values f.payload x v) one vals),
      )
