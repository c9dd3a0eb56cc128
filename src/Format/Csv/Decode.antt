-- ===== src/Format/Csv/Decode.antt =====
-- The csv command's loop over the records of a page (sw/parent/src/format.cc), frame by frame.
use mxfs.Base.{
  ℕ, suc, ◌+◌, ◌*◌, ◌≤◌, ◌<◌, ◌≡◌, ◌≢◌, refl, sym, ap, subst, ◌∙◌, List, ◌++◌, arith, append_assoc,
  length, length-append, slice, take, slice-append_of, drop-append, lt→ltb, ne→==, from_le,
}
use mxfs.Header.{
  Compress, magic_number, header_size, encode, type_of, step_of, gyr_count, gyr_dim, tmp_count,
}
use mxfs.Header.Codec.{length-encode}
use mxfs.Instance.{
  Layer, speed, power, cadence, gyro, accelerometer, temperature, code, record_size,
}
use mxfs.Outcome.{returns, load, load_inside, ◌>>=◌}
use mxfs.Timerange.{stamp64}
use mxfs.Frames.{Frame, IsFrame, frame_bytes, extent, frame-Sees}
use mxfs.Format.Csv.{
  antp, dim3_head, temperature_head, Series, Decoded, decbf_size, take_series, say, decode_record,
  decode_page,
}
use mxfs.Format.Csv.Values.{Values, copies_all}

module _ (rbf : List ℕ) (long : length rbf ≡ decbf_size) where
  -- A frame whose record is decoded to `d'`.
  pub decode_round :
      (fuel : ℕ) (pre tail : List ℕ) (f : Frame) (d d' : Decoded)
      → IsFrame f
      → rbf ≡ pre ++ (frame_bytes f ++ tail)
      → decode_record rbf f.header (length pre + header_size) d ≡ returns (length f.payload, d')
      → decode_page rbf (suc fuel) (length pre) d
        ≡ decode_page rbf fuel (length (pre ++ frame_bytes f)) d'
  unfolding decode_page
  decode_round fuel pre tail f d d' ok e done =
      let z = frame-Sees rbf pre tail f ok e in
      let n : length pre + length f.payload + header_size ≡ length (pre ++ frame_bytes f) = omega (
        arith,
        length-append pre (frame_bytes f),
        length-append (encode f.header) f.payload,
        length-encode f.header,
      ) in
      let low : length pre < decbf_size = omega (
        arith,
        long,
        n,
        ap (λ (x : List ℕ). length x) e,
        length-append pre (frame_bytes f ++ tail),
        length-append (frame_bytes f) tail,
        length-append pre (frame_bytes f),
      ) in
      rw
        (
          lt→ltb (length pre) decbf_size low,
          z.first,
          ◌>>=◌,
          z.magic,
          z.rest,
          z.decoded,
          ◌>>=◌,
          done,
          n,
          decode_page,
        )
        refl

  -- Behind the frames the loop ends.
  pub decode_end :
      (fuel : ℕ) (pre tail : List ℕ) (d : Decoded)
      → rbf ≡ pre ++ tail
      → 4 ≤ length tail
      → from_le (take 4 tail) ≢ magic_number
      → decode_page rbf (suc fuel) (length pre) d ≡ returns d
  unfolding decode_page
  decode_end fuel pre tail d e four ne =
      let n : length pre + 4 ≤ length rbf = rw e (omega (arith, length-append pre tail, four)) in
      let cut : slice (length pre) 4 rbf ≡ take 4 tail =
        rw e (ap (take 4) (drop-append pre tail)) in
      rw
        (
          lt→ltb (length pre) decbf_size (omega (arith, n, long)),
          load_inside (length pre) 4 rbf n,
          cut,
          ◌>>=◌,
          ne→== _ magic_number ne,
          decode_page,
        )
        refl

-- The payload of a frame, as the bytes behind its header.
payload_behind :
    (rbf pre tail : List ℕ) (f : Frame)
    → rbf ≡ pre ++ (frame_bytes f ++ tail)
    → (rbf ≡ (pre ++ encode f.header) ++ (f.payload ++ tail))
      × (length (pre ++ encode f.header) ≡ length pre + header_size)
payload_behind rbf pre tail f e =
    let cp = encode f.header in
    (
      e
          ∙ ap (λ x. pre ++ x) (append_assoc cp f.payload tail)
          ∙ sym (append_assoc pre cp (f.payload ++ tail)),
      omega (arith, length-append pre cp, length-encode f.header),
    )

record_antp :
    (rbf : List ℕ) (l : Layer) (cp : Compress) (bp : ℕ) (p : List ℕ) (d : Decoded)
    → load bp 18 rbf ≡ returns p
    → record_size l ≡ 18
    → type_of cp ≡ code l
    → extent l cp ≡ 18
    → length p ≡ 18
    → decode_record rbf cp bp d ≡ returns (length p, say (antp (code l) 18 (stamp64 cp) p) d)
unfolding decode_record
record_antp rbf speed cp bp p d got h t n size = rw (t, got, ◌>>=◌, n, size) refl
record_antp rbf power cp bp p d got h t n size = rw (t, got, ◌>>=◌, n, size) refl
record_antp rbf cadence cp bp p d got h t n size = rw (t, got, ◌>>=◌, n, size) refl
record_antp rbf _ cp bp p d got h t n size = absurd (omega arith)

-- An ANT+ record makes a line.
pub decode_antp :
    (rbf pre tail : List ℕ) (f : Frame) (d : Decoded)
    → IsFrame f
    → rbf ≡ pre ++ (frame_bytes f ++ tail)
    → record_size f.layer ≡ 18
    → length f.payload ≡ 18
    → decode_record rbf f.header (length pre + header_size) d
      ≡ returns (length f.payload, say (antp (code f.layer) 18 (stamp64 f.header) f.payload) d)
decode_antp rbf pre tail f d ok e h size =
    let (e2, n) = payload_behind rbf pre tail f e in
    let here = pre ++ encode f.header in
    let all : length rbf ≡ length here + (length f.payload + length tail) =
      ap (λ (x : List ℕ). length x) e2
      ∙ length-append here (f.payload ++ tail)
      ∙ ap (λ x. length here + x) (length-append f.payload tail) in
    let got : load (length pre + header_size) 18 rbf ≡ returns f.payload =
      load_inside (length pre + header_size) 18 rbf (omega (arith, all, n, size))
      ∙ ap (λ x. returns x)
          (ap (slice (length pre + header_size) 18) e2
            ∙ slice-append_of (length pre + header_size) 18 here f.payload tail (sym n)
                (sym size)) in
    record_antp rbf f.layer f.header (length pre + header_size) f.payload d got h ok.tells.2
      (ok.sized ∙ size) size

-- The series that a record with `n` samples leaves behind.
abbrev pub series_of : Compress → ℕ → (ℕ → ℕ) → Series → Series
series_of cp n v s = record {
  values = v;
  count = s.count + n;
  time = stamp64 cp;
  step = step_of cp;
}

series_lem :
    (dims n : ℕ) (rbf pre tail : List ℕ) (f : Frame) (s : Series)
    → 0 < dims
    → rbf ≡ pre ++ (frame_bytes f ++ tail)
    → n * dims ≤ decbf_size
    → n * dims * 2 ≤ length f.payload
    → (v : ℕ → ℕ) × (take_series dims n (length pre + header_size) rbf f.header s
        ≡ returns (series_of f.header n v s))
      × Values f.payload (n * dims) v
unfolding take_series
series_lem dims n rbf pre tail f s positive e small inside =
    let (e2, m) = payload_behind rbf pre tail f e in
    let here = pre ++ encode f.header in
    let (v, go, vals) =
      copies_all dims positive rbf here f.payload tail e2 n s.values small inside in
    (v, rw (sym m, go, ◌>>=◌) refl, vals)

-- A record of a sensor with three dimensions makes a head and a series.
abbrev pub after_gyro : Compress → ℕ → (ℕ → ℕ) → Decoded → Decoded
after_gyro cp n v d = record (say (dim3_head 3 (stamp64 cp) n (gyr_dim cp) d.gyro.count) d) {
  gyro = series_of cp n v d.gyro;
}

abbrev pub after_accelerometer : Compress → ℕ → (ℕ → ℕ) → Decoded → Decoded
after_accelerometer cp n v d =
    record (say (dim3_head 4 (stamp64 cp) n (gyr_dim cp) d.accelerometer.count) d) {
      accelerometer = series_of cp n v d.accelerometer;
    }

abbrev pub after_temperature : Compress → ℕ → (ℕ → ℕ) → Decoded → Decoded
after_temperature cp n v d = record (say (temperature_head (stamp64 cp) n) d) {
  temperature = series_of cp n v d.temperature;
}

module _ (rbf : List ℕ) (cp : Compress) (bp n : ℕ) (v : ℕ → ℕ) (d : Decoded) where
  record_gyro :
      take_series 3 n bp rbf cp d.gyro ≡ returns (series_of cp n v d.gyro)
      → type_of cp ≡ 3
      → gyr_count cp ≡ n
      → decode_record rbf cp bp d ≡ returns (n * 6, after_gyro cp n v d)
  unfolding decode_record
  record_gyro go t c = rw (t, c, go, ◌>>=◌) refl

  record_accelerometer :
      take_series 3 n bp rbf cp d.accelerometer ≡ returns (series_of cp n v d.accelerometer)
      → type_of cp ≡ 4
      → gyr_count cp ≡ n
      → decode_record rbf cp bp d ≡ returns (n * 6, after_accelerometer cp n v d)
  unfolding decode_record
  record_accelerometer go t c = rw (t, c, go, ◌>>=◌) refl

  record_temperature :
      take_series 1 n bp rbf cp d.temperature ≡ returns (series_of cp n v d.temperature)
      → type_of cp ≡ 5
      → tmp_count cp ≡ n
      → decode_record rbf cp bp d ≡ returns (n * 2, after_temperature cp n v d)
  unfolding decode_record
  record_temperature go t c = rw (t, c, go, ◌>>=◌) refl

module _ (rbf pre tail : List ℕ) (f : Frame) (d : Decoded) (ok : IsFrame f) (n : ℕ)
    (e : rbf ≡ pre ++ (frame_bytes f ++ tail)) where
  pub decode_gyro :
      f.layer ≡ gyro
      → gyr_count f.header ≡ n
      → n * 3 ≤ decbf_size
      → (v : ℕ → ℕ) × (decode_record rbf f.header (length pre + header_size) d
          ≡ returns (n * 6, after_gyro f.header n v d))
        × Values f.payload (n * 3) v
  decode_gyro l c small =
      let size : n * 6 ≡ length f.payload = ap (λ x. x * 6) (sym c) ∙ (rw l at ok.sized) in
      let t : type_of f.header ≡ 3 = ok.tells.2 ∙ ap code l in
      let (v, go, vals) =
        series_lem 3 n rbf pre tail f d.gyro (omega arith) e small (omega (arith, size)) in
      (v, record_gyro rbf f.header (length pre + header_size) n v d go t c, vals)

  pub decode_accelerometer :
      f.layer ≡ accelerometer
      → gyr_count f.header ≡ n
      → n * 3 ≤ decbf_size
      → (v : ℕ → ℕ) × (decode_record rbf f.header (length pre + header_size) d
          ≡ returns (n * 6, after_accelerometer f.header n v d))
        × Values f.payload (n * 3) v
  decode_accelerometer l c small =
      let size : n * 6 ≡ length f.payload = ap (λ x. x * 6) (sym c) ∙ (rw l at ok.sized) in
      let t : type_of f.header ≡ 4 = ok.tells.2 ∙ ap code l in
      let (v, go, vals) =
        series_lem 3 n rbf pre tail f d.accelerometer (omega arith) e small (omega (arith, size)) in
      (v, record_accelerometer rbf f.header (length pre + header_size) n v d go t c, vals)

  pub decode_temperature :
      f.layer ≡ temperature
      → tmp_count f.header ≡ n
      → n ≤ decbf_size
      → (v : ℕ → ℕ) × (decode_record rbf f.header (length pre + header_size) d
          ≡ returns (n * 2, after_temperature f.header n v d))
        × Values f.payload n v
  decode_temperature l c small =
      let size : n * 2 ≡ length f.payload = ap (λ x. x * 2) (sym c) ∙ (rw l at ok.sized) in
      let t : type_of f.header ≡ 5 = ok.tells.2 ∙ ap code l in
      let one : n * 1 ≡ n = omega arith in
      let (v, go, vals) =
        series_lem 1 n rbf pre tail f d.temperature (omega arith) e (omega (arith, small))
          (omega (arith, size)) in
      (
        v,
        record_temperature rbf f.header (length pre + header_size) n v d go t c,
        subst (λ x. Values f.payload x v) one vals,
      )
